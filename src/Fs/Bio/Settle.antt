-- ===== src/Fs/Bio/Settle.antt =====
-- `brelse` of fs/bio.c on a cache that agrees with the disk but for the buffer in use.
use riscv_os_lab.Prelude.{
  ℕ, ◌+◌, ◌≡◌, refl, sym, ap, ◌∙◌, inl, inr, true, List, [], ◌∷◌, arith, length, ==_refl, ==-false,
  ℕ-cases,
}
use riscv_os_lab.Prelude.Lists.{has, remove, has-remove}
use riscv_os_lab.Prelude.Runs
use riscv_os_lab.Prelude.Runs.{Run, ok, panic, Cmd, ◌>>=◌, and_then, Returns, returns}
use riscv_os_lab.Fs.Bio.{Block, Buf, Nodes, BlockDriver, set_buf, Cache, brelse}
use riscv_os_lab.Fs.Bio.Release.{contents, Released, brelse_lem}
use riscv_os_lab.Fs.Bio.Coherence.{OneEach-frame, Steady, InUse}

length-remove : (b : ℕ) (xs : List ℕ) → has b xs ≡ true → length (remove b xs) + 1 ≡ length xs
length-remove b [] h = absurd cc
length-remove b (x ∷ xs) h = elim (ℕ-cases x b) [
  | inl e ↦ rw (e, ==_refl b) (omega arith)
  | inr ne ↦
      let later : has b xs ≡ true = ground arith in
      rw (==-false x b ne) (omega (arith, length-remove b xs later))
]

-- the list with `b` moved to the front has the same members
has-to_front :
    (b j : ℕ) (xs : List ℕ) → has b xs ≡ true → has j (b ∷ remove b xs) ≡ true → has j xs ≡ true
has-to_front b j xs m h = elim (ℕ-cases j b) [
  | inl e ↦ rw e m
  | inr ne ↦ rw (← has-remove b j xs ne) (rw (==-false j b ne) at h)
]

-- what holds of every buffer by its contents, holds after a change of the links
Contents-unused :
    (t t' : Nodes) (j : ℕ) → contents (t' j) ≡ contents (t j) → (t j).refcnt ≡ 0 → (t' j).refcnt ≡ 0
Contents-unused t t' j e h = ap (λ q. q.3) e ∙ h

Contents-synced :
    (dk : ℕ → Block) (x y : Buf)
    → contents y ≡ contents x
    → (x.valid ≡ true) × (x.data_of ≡ dk x.blockno)
    → (y.valid ≡ true) × (y.data_of ≡ dk y.blockno)
Contents-synced dk x y e h =
    (ap (λ q. q.0) e ∙ h.0, ap (λ q. q.4) e ∙ h.1 ∙ ap (λ q. dk q.2) (sym e))

module _ ⦃driver : BlockDriver⦄ where
  -- `brelse` of the buffer in use, which holds what the disk does, leaves no buffer in use.
  pub brelse-Steady :
      (dev n b : ℕ) (dk : ℕ → Block) (xs : List ℕ) (x : Block) (c : Cache)
      → InUse dev dk xs n x b c
      → x ≡ dk n
      → Returns (λ _. Steady dev dk (b ∷ remove b xs)) (brelse b c)
  brelse-Steady dev n b dk xs x c u e =
      Runs.mono (brelse_lem b 0 xs c u.ring u.member u.counted (omega arith)) (λ v c' r.
        let member =
          λ (j : ℕ) (h : has j (b ∷ remove b xs) ≡ true). has-to_front b j xs u.member h in
        let devs = λ (j : ℕ). ap (λ q. q.1) (same c' r j) in
        let blocks = λ (j : ℕ). ap (λ q. q.2) (same c' r j) in
        record {
          ring = r.ring;
          short = omega (arith, length-remove b xs u.member, u.short);
          some_buffer = (b, rw (==_refl b) refl);
          unused = λ j h. Contents-unused c0.nodes c'.nodes j (same c' r j) (free j (member j h));
          synced = λ j h dj.
              Contents-synced dk (c0.nodes j) (c'.nodes j) (same c' r j)
                (sync j (member j h) (sym (devs j) ∙ dj));
          one = λ i j hi hj.
              OneEach-frame dev c.nodes c'.nodes xs (λ j. devs j ∙ ground arith)
                (λ j. blocks j ∙ ground arith) u.one i j (member i hi) (member j hj);
          ready = rw r.same_disk u.ready;
          on_disk = λ m. rw r.same_disk (u.on_disk m);
        })
    where
      c0 : Cache
      c0 = set_buf b (λ y. record y { refcnt = 0 }) c

      same :
          (c' : Cache)
          → Released b 0 xs c c'
          → (j : ℕ) → contents (c'.nodes j) ≡ contents (c0.nodes j)
      same c' r j = elim (ℕ-cases j b) [
        | inl at ↦ rw (at, ==_refl b) r.one_less
        | inr ne ↦ rw (==-false j b ne) (r.others j ne)
      ]

      free : (j : ℕ) → has j xs ≡ true → (c0.nodes j).refcnt ≡ 0
      free j h = elim (ℕ-cases j b) [
        | inl at ↦ rw (at, ==_refl b) refl
        | inr ne ↦ rw (==-false j b ne) (u.unused j h ne)
      ]

      sync :
          (j : ℕ)
          → has j xs ≡ true
          → (c0.nodes j).dev ≡ dev
          → ((c0.nodes j).valid ≡ true) × ((c0.nodes j).data_of ≡ dk (c0.nodes j).blockno)
      sync j h = elim (ℕ-cases j b) [
        | inl at ↦ rw (at, ==_refl b) (λ dj. (u.valid, u.holds ∙ e ∙ ap dk (sym u.for_block)))
        | inr ne ↦ rw (==-false j b ne) (u.synced j h ne)
      ]
