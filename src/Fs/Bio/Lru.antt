-- ===== src/Fs/Bio/Lru.antt =====
-- The cache of fs/bio.c on the list of its nodes: `bget`, `brelse`, `bread` and `binit`.
use riscv_os_lab.Prelude.{
  ℕ, zero, suc, ◌+◌, ◌-◌, ◌%◌, ◌^◌, ◌≤◌, ◌<◌, ◌≡◌, refl, sym, ap, ◌∙◌, ◌≢◌, inl, inr, Bool, false,
  Option, none, some, List, [], ◌∷◌, arith, ◌==◌, if◌then◌else◌, length, ==-false, Bool-cases,
  Option-cases,
}
use riscv_os_lab.Prelude.Lists.{NotIn, first}
use riscv_os_lab.Prelude.Runs.{Reason, Run, ok, panic, Cmd}
use riscv_os_lab.Fs.Bio.{
  nbuf, Buf, Nodes, head, forwards, backwards, is_block, is_unused, Bcache, set_buf, recycle,
  bget_free, bget,
}
use riscv_os_lab.Fs.Bio.Ring.{Links, Ring, Links-frame}

-- the last number that passes
abbrev pub last_match : (ℕ → Bool) → List ℕ → Option ℕ
last_match test [] = none
last_match test (x ∷ xs) = elim (last_match test xs) [
  | some y ↦ some y
  | none ↦ if test x then some x else none
]

-- The walk from `a` on sees the rest of the list.
forwards-first :
    (test : Buf → Bool) (t : Nodes) (a n : ℕ) (xs : List ℕ)
    → Links t a xs
    → NotIn head xs
    → length xs < n
    → forwards test n (t a).next t ≡ first (λ b. test (t b)) xs
unfolding forwards
forwards-first test t a zero xs l nh lt = absurd (omega arith)
forwards-first test t a (suc n) [] l nh lt = rw (l.0) refl
forwards-first test t a (suc n) (x ∷ xs) l nh lt =
    let e : (x == head) ≡ false = ==-false x head (λ e. nh.0 (sym e)) in
    rw (l.0, e, forwards-first test t x n xs l.2 nh.1 (omega arith))

backwards-step :
    (test : Buf → Bool) (t : Nodes) (x a n : ℕ)
    → head ≢ x
    → (t x).prev ≡ a
    → backwards test (suc n) x t
      ≡ elim (if test (t x) then some x else none) [ some y ↦ some y | none ↦ backwards test n a t ]
unfolding backwards
backwards-step test t x a n ne p =
    let e : (x == head) ≡ false = ==-false x head (λ e. ne (sym e)) in
    elim (Bool-cases (test (t x))) [ inl y ↦ rw (e, y) | inr z ↦ rw (e, z, p) ]

-- The walk backwards from the end sees the last match first, and otherwise comes to `a`.
backwards-last :
    (test : Buf → Bool) (t : Nodes) (a n : ℕ) (xs : List ℕ)
    → Links t a xs
    → NotIn head xs
    → backwards test (length xs + n) (t head).prev t
      ≡ elim (last_match (λ b. test (t b)) xs) [ some y ↦ some y | none ↦ backwards test n a t ]
backwards-last test t a n [] l nh =
    let z : length {A = ℕ} [] + n ≡ n = omega arith in rw (z, l.1) refl
backwards-last test t a n (x ∷ xs) l nh =
    let shift : suc (length xs) + n ≡ length xs + suc n = omega arith in
    rw (shift, backwards-last test t x (suc n) xs l.2 nh.1)
      (elim (Option-cases (last_match (λ b. test (t b)) xs)) [
        | inl none_left ↦ rw none_left (backwards-step test t x a n nh.0 l.1)
        | inr (y, found) ↦ rw found
      ])

backwards-head : (test : Buf → Bool) (n : ℕ) (t : Nodes) → backwards test n head t ≡ none
unfolding backwards
backwards-head test zero t = refl
backwards-head test (suc n) t = refl

-- a change of the fields that the list does not stand on
pub Ring-frame :
    {t t' : Nodes} {xs : List ℕ}
    → Ring t xs
    → ((j : ℕ) → (t' j).next ≡ (t j).next)
    → ((j : ℕ) → (t' j).prev ≡ (t j).prev)
    → Ring t' xs
Ring-frame {t} {t'} {xs} r n p = record {
  links = Links-frame t t' head xs r.links (λ j h. n j) (λ j h. p j);
  distinct = r.distinct;
  no_head = r.no_head;
}

-- the buffer that `bget` finds in the cache, and the one that it takes if there is none
abbrev pub cached : ℕ → ℕ → Nodes → List ℕ → Option ℕ
cached dev blockno t xs = first (λ b. is_block dev blockno (t b)) xs

abbrev pub evicted : Nodes → List ℕ → Option ℕ
evicted t xs = last_match (λ b. is_unused (t b)) xs

module _ {D : Type 0} where
  -- one more reference on the buffer that holds the block, or else `miss`
  abbrev pub hit_or : Option ℕ → Run (Bcache D) ℕ → Bcache D → Run (Bcache D) ℕ
  hit_or (some b) miss c = ok b (set_buf b (λ x. record x { refcnt = (x.refcnt + 1) % 2 ^ 32 }) c)
  hit_or none miss c = miss

  abbrev pub take_over : ℕ → ℕ → Option ℕ → Cmd (Bcache D) ℕ
  take_over dev blockno (some b) c =
      ok b (set_buf b (λ x. record x { dev = dev; blockno = blockno; valid = false; refcnt = 1 }) c)
  take_over dev blockno none c = panic Reason.bget_no_buffers

  -- `bget` on the list of the nodes
  abbrev pub acquire : ℕ → ℕ → List ℕ → Cmd (Bcache D) ℕ
  acquire dev blockno xs c =
      hit_or (cached dev blockno c.nodes xs) (take_over dev blockno (evicted c.nodes xs) c) c

  bget_free-eq :
      (dev blockno : ℕ) (c : Bcache D)
      → bget_free dev blockno c
        ≡ take_over dev blockno (backwards is_unused (nbuf + 1) (c.nodes head).prev c.nodes) c
  unfolding bget_free recycle
  bget_free-eq dev blockno c =
      elim (backwards is_unused (nbuf + 1) (c.nodes head).prev c.nodes)
        as (λ o.
          elim o as (λ _. Run (Bcache D) ℕ) [
            | none ↦ panic Reason.bget_no_buffers
            | some b ↦ recycle dev blockno b c
          ]
          ≡ take_over dev blockno o c) [ none ↦ refl | some b ↦ refl ]

  bget-eq :
      (dev blockno : ℕ) (c : Bcache D)
      → bget dev blockno c
        ≡ hit_or
            (forwards (is_block dev blockno) (nbuf + 1) (c.nodes head).next c.nodes)
            (bget_free dev blockno c)
            c
  unfolding bget
  bget-eq dev blockno c =
      elim (forwards (is_block dev blockno) (nbuf + 1) (c.nodes head).next c.nodes)
        as (λ o.
          elim o as (λ _. Run (Bcache D) ℕ) [
            | none ↦ bget_free dev blockno c
            | some b ↦ ok b (set_buf b (λ x. record x { refcnt = (x.refcnt + 1) % 2 ^ 32 }) c)
          ]
          ≡ hit_or o (bget_free dev blockno c) c) [ none ↦ refl | some b ↦ refl ]

  -- On a list of at most NBUF nodes, the pointer walks of `bget` find the first buffer from the
  -- front that holds the block and count one more reference on it; if there is none, they take the
  -- unused buffer nearest the back, the least recently used one, over for the block; if every
  -- buffer is in use, `bget` panics.
  pub bget_lem :
      (dev blockno : ℕ) (xs : List ℕ) (c : Bcache D)
      → Ring c.nodes xs
      → length xs ≤ nbuf
      → bget dev blockno c ≡ acquire dev blockno xs c
  bget_lem dev blockno xs c r lt =
      bget-eq dev blockno c
      ∙ ap (λ o. hit_or o (bget_free dev blockno c) c)
          (forwards-first (is_block dev blockno) c.nodes head (nbuf + 1) xs r.links r.no_head
            (omega arith))
      ∙ ap (λ r. hit_or (cached dev blockno c.nodes xs) r c) (bget_free-eq dev blockno c)
      ∙ ap (λ o. hit_or (cached dev blockno c.nodes xs) (take_over dev blockno o c) c) walk
    where
      extra : nbuf + 1 ≡ length xs + (nbuf + 1 - length xs)
      extra = omega arith

      stop :
          (n : ℕ)
          → elim (evicted c.nodes xs) [
            | some y ↦ some y
            | none ↦ backwards is_unused n head c.nodes
          ]
            ≡ evicted c.nodes xs
      stop n = elim (Option-cases (evicted c.nodes xs)) [
        | inl e ↦ rw e (backwards-head is_unused n c.nodes)
        | inr (y, e) ↦ rw e
      ]

      walk : backwards is_unused (nbuf + 1) (c.nodes head).prev c.nodes ≡ evicted c.nodes xs
      walk =
          ap (λ n. backwards is_unused n (c.nodes head).prev c.nodes) extra
          ∙ backwards-last is_unused c.nodes head (nbuf + 1 - length xs) xs r.links r.no_head
          ∙ stop (nbuf + 1 - length xs)
