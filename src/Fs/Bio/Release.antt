-- ===== src/Fs/Bio/Release.antt =====
-- `brelse` and `binit` of fs/bio.c on the list of the nodes.
use riscv_os_lab.Prelude.{
  ℕ, zero, suc, ◌+◌, ◌-◌, ◌%◌, ◌^◌, ◌≤◌, ◌<◌, ◌≡◌, refl, ◌∙◌, ◌≢◌, inl, inr, Bool, true, List, [],
  ◌∷◌, arith, ◌==◌, if◌then◌else◌, ==_refl, ==-false, Bool-cases, ℕ-cases, update,
}
use riscv_os_lab.Prelude.Lists.{has, NotIn, IsDistinct, remove}
use riscv_os_lab.Prelude.Runs.{ok, Returns, returns}
use riscv_os_lab.Fs.Bio.{
  Block, nbuf, Buf, Nodes, head, set_next, set_prev, push_front, unlink, binit_loop, binit, Bcache,
  brelse,
}
use riscv_os_lab.Fs.Bio.Ring.{Ring, Links-push_front, to_front-Ring}
use riscv_os_lab.Fs.Bio.Lru.{Ring-frame}

-- what a buffer holds beside its links
abbrev pub contents : Buf → Bool × ℕ × ℕ × ℕ × Block
contents x = (x.valid, x.dev, x.blockno, x.refcnt, x.data_of)

set_next-contents : (b v : ℕ) (t : Nodes) (j : ℕ) → contents (set_next b v t j) ≡ contents (t j)
set_next-contents b v t j = elim (ℕ-cases j b) [
  | inl e ↦ rw (e, ==_refl b) refl
  | inr ne ↦ rw (==-false j b ne) refl
]

set_prev-contents : (b v : ℕ) (t : Nodes) (j : ℕ) → contents (set_prev b v t j) ≡ contents (t j)
set_prev-contents b v t j = elim (ℕ-cases j b) [
  | inl e ↦ rw (e, ==_refl b) refl
  | inr ne ↦ rw (==-false j b ne) refl
]

push_front-contents : (b : ℕ) (t : Nodes) (j : ℕ) → contents (push_front b t j) ≡ contents (t j)
unfolding push_front
push_front-contents b t j =
    let t1 = set_next b (t head).next t in
    let t2 = set_prev b head t1 in
    let t3 = set_prev (t2 head).next b t2 in
    set_next-contents head b t3 j
    ∙ set_prev-contents (t2 head).next b t2 j
    ∙ set_prev-contents b head t1 j
    ∙ set_next-contents b (t head).next t j

unlink-contents : (b : ℕ) (t : Nodes) (j : ℕ) → contents (unlink b t j) ≡ contents (t j)
unfolding unlink
unlink-contents b t j =
    let t1 = set_prev (t b).next (t b).prev t in
    set_next-contents (t1 b).prev (t1 b).next t1 j ∙ set_prev-contents (t b).next (t b).prev t j

abbrev dropped : ℕ → ℕ → Nodes → Nodes
dropped b n t = update t b (record (t b) { refcnt = n })

dropped-Ring : (b n : ℕ) (t : Nodes) (xs : List ℕ) → Ring t xs → Ring (dropped b n t) xs
dropped-Ring b n t xs r = Ring-frame r (λ j. ground arith) (λ j. ground arith)

module _ {D : Type 0} where
  -- The cache `c'` after one of `suc n` references on `b` is given up, from the list `xs` in `c`.
  pub record Released (b n : ℕ) (xs : List ℕ) (c c' : Bcache D) : Type 0 where
    pub ring : Ring c'.nodes (if n == 0 then b ∷ remove b xs else xs)
    pub one_less : contents (c'.nodes b) ≡ contents (record (c.nodes b) { refcnt = n })
    pub others : (j : ℕ) → j ≢ b → contents (c'.nodes j) ≡ contents (c.nodes j)
    pub same_disk : c'.disk ≡ c.disk

  brelse-ok :
      (b n : ℕ) (c : Bcache D)
      → (c.nodes b).refcnt ≡ suc n
      → suc n < 2 ^ 32
      → brelse b c
        ≡ ok tt (record c {
          nodes =
              if n == 0 then push_front b (unlink b (dropped b n c.nodes)) else dropped b n c.nodes;
        })
  unfolding brelse
  brelse-ok b n c e lt =
      let less : (suc n + 2 ^ 32 - 1) % 2 ^ 32 ≡ n = omega arith in
      rw (==_refl b, e, less) (elim (Bool-cases (n == 0)) [ inl y ↦ rw y | inr z ↦ rw z ])

  -- `brelse` of a buffer of the list with `suc n` references counts one less. The last one moves the
  -- buffer to the front of the list, else the list stays; no buffer's block or data change.
  pub brelse_lem :
      (b n : ℕ) (xs : List ℕ) (c : Bcache D)
      → Ring c.nodes xs
      → has b xs ≡ true
      → (c.nodes b).refcnt ≡ suc n
      → suc n < 2 ^ 32
      → Returns (λ _. Released b n xs c) (brelse b c)
  brelse_lem b n xs c r m e lt = rw (brelse-ok b n c e lt) (elim (Bool-cases (n == 0)) [
    | inl y ↦
        let moved : (j : ℕ)
            → contents (push_front b (unlink b (dropped b n c.nodes)) j)
              ≡ contents (dropped b n c.nodes j) =
          λ j.
            push_front-contents b (unlink b (dropped b n c.nodes)) j
            ∙ unlink-contents b (dropped b n c.nodes) j in
        returns (record {
          ring = rw y (to_front-Ring (dropped b n c.nodes) b xs (dropped-Ring b n c.nodes xs r) m);
          one_less = rw y (moved b ∙ rw (==_refl b) refl);
          others = λ j off. rw y (moved j ∙ rw (==-false j b off) refl);
          same_disk = refl;
        })
    | inr z ↦ returns (record {
      ring = rw z (dropped-Ring b n c.nodes xs r);
      one_less = rw (z, ==_refl b) refl;
      others = λ j off. rw (z, ==-false j b off) refl;
      same_disk = refl;
    })
  ])

-- n - 1, …, 0
abbrev pub below : ℕ → List ℕ
below zero = []
below (suc n) = n ∷ below n

below-NotIn : (n m : ℕ) → m ≤ n → NotIn n (below m)
below-NotIn n zero le = tt
below-NotIn n (suc m) le = ((λ e. omega (arith, e)), below-NotIn n m (omega arith))

below-IsDistinct : (n : ℕ) → IsDistinct (below n)
below-IsDistinct zero = tt
below-IsDistinct (suc n) = (below-NotIn n n (omega arith), below-IsDistinct n)

binit_loop-Ring :
    (n b : ℕ) (t : Nodes) → b + n ≡ nbuf → Ring t (below b) → Ring (binit_loop n b t) (below nbuf)
unfolding binit_loop
binit_loop-Ring zero b t e r = let e' : b ≡ nbuf = omega arith in rw e' at r
binit_loop-Ring (suc n) b t e r =
    let nh : NotIn head (b ∷ below b) =
      ((λ h. omega (arith, h)), below-NotIn head b (omega arith)) in
    binit_loop-Ring n (b + 1) (push_front b t) (omega arith) (
      let s : b + 1 ≡ suc b = omega arith in
      rw s (record {
        links = Links-push_front t b (below b) r.links nh (below-IsDistinct (suc b));
        distinct = below-IsDistinct (suc b);
        no_head = nh;
      }))

-- `binit`, whatever the buffers hold, links all NBUF of them, each once, and the last one is at the
-- front.
pub binit-Ring : (t : Nodes) → Ring (binit t) (below nbuf)
unfolding binit
binit-Ring t =
    binit_loop-Ring nbuf 0 (set_next head head (set_prev head head t)) refl
      (record { links = (ground arith, ground arith); distinct = tt; no_head = tt })
