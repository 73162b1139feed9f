-- ===== src/Mm/Kalloc/FreeList.antt =====
-- The free list of mm/kalloc.c as a stack of pages.
use riscv_os_lab.Prelude.{
  ℕ, zero, suc, ◌+◌, ◌-◌, ◌*◌, ◌/◌, ◌%◌, ◌^◌, ◌≤◌, ◌<◌, ◌≡◌, refl, ◌∙◌, ◌≢◌, ◌⊎◌, inl, inr, false,
  ◌||◌, List, [], ◌∷◌, arith, ltb, leb, ◌==◌, ◌!=◌, ltb→lt, Bool-cases,
}
use riscv_os_lab.Prelude.Words.{
  Bytes, load64, store64, load64-store64_self, load64-frame, store64_off, store64-zero, IsBytes,
  store64-IsBytes,
}
use riscv_os_lab.Prelude.Lists.{NotIn, IsDistinct}
use riscv_os_lab.Prelude.Runs.{Reason, panic, Returns, returns}
use riscv_os_lab.Mm.Kalloc.{pgsize, phystop, Pages, zero_words, kalloc, valid_address, kfree}

-- `g` differs from `m` at most in the page at `p`
abbrev pub SameOutside : ℕ → Bytes → Bytes → Type 0
SameOutside p m g = (a : ℕ) → (a < p) ⊎ (p + pgsize ≤ a) → g a ≡ m a

abbrev pub Blank : Bytes → ℕ → Type 0
Blank m p = (d : ℕ) → d < pgsize → m (p + d) ≡ 0

-- the first 8 bytes of each page lead to the next, and those of the last one to null
abbrev pub Chain : Bytes → ℕ → List ℕ → Type 0
Chain m p [] = p ≡ 0
Chain m p (x ∷ xs) = (p ≡ x) × Chain m (load64 m x) xs

module _ (end_address : ℕ) where
  -- a page that `kfree` accepts, which the null pointer is not
  pub record IsPage (p : ℕ) : Type 0 where
    pub aligned : p % pgsize ≡ 0
    pub above : end_address ≤ p
    pub below : p < phystop
    pub not_null : 0 < p

  abbrev pub AllPages : List ℕ → Type 0
  AllPages [] = Unit
  AllPages (x ∷ xs) = IsPage x × AllPages xs

  -- The allocator holds the pages `xs`, the next one to be given out first, each of them once.
  pub record FreeList (k : Pages) (xs : List ℕ) : Type 0 where
    pub chain : Chain k.mem k.free_mem_list xs
    pub pages : AllPages xs
    pub distinct : IsDistinct xs

  -- distinct pages do not overlap
  pub apart : {p q : ℕ} → IsPage p → IsPage q → p ≢ q → (q + pgsize ≤ p) ⊎ (p + pgsize ≤ q)
  apart {p} {q} hp hq ne = elim (Bool-cases (ltb p q)) [
    | inl lt ↦ inr (omega (arith, ltb→lt p q lt))
    | inr ge ↦ let g : q ≤ p = ground arith in inl (omega arith)
  ]

  -- A change inside one page leaves the chain of other pages as it is.
  pub Chain-frame :
      {m g : Bytes} (p r : ℕ) (xs : List ℕ)
      → IsPage p
      → AllPages xs
      → NotIn p xs
      → SameOutside p m g
      → Chain m r xs
      → Chain g r xs
  Chain-frame p r [] hp all out same c = c
  Chain-frame {m} {g} p r (x ∷ xs) hp all out same c =
      (c.0, rw (word-frame) (Chain-frame p (load64 m x) xs hp all.1 out.1 same c.1))
    where
      byte : (d : ℕ) → d < 8 → g (x + d) ≡ m (x + d)
      byte d h = elim (apart hp all.0 out.0) [
        | inl before ↦ same (x + d) (inl (omega arith))
        | inr after ↦ same (x + d) (inr (omega arith))
      ]

      word-frame : load64 g x ≡ load64 m x
      word-frame = load64-frame m g x byte

  head_fits : (m : Bytes) (r : ℕ) (xs : List ℕ) → Chain m r xs → AllPages xs → r < 2 ^ 64
  head_fits m r [] c all = omega arith
  head_fits m r (x ∷ xs) c all = omega arith

  -- `kfree` of a page that is not free puts it in front, and writes only there.
  pub kfree-push :
      {k : Pages} {xs : List ℕ} (p : ℕ)
      → FreeList k xs
      → IsPage p
      → NotIn p xs
      → Returns (λ _ k'. FreeList k' (p ∷ xs) × SameOutside p k.mem k'.mem) (kfree end_address p k)
  unfolding kfree
  kfree-push {k} {xs} p free hp out = rw (passes hp) (
      returns (
        record { chain = (refl, next); pages = (hp, free.pages); distinct = (out, free.distinct) },
        same,
      ))
    where
      passes : IsPage p → (p % pgsize != 0 || ltb p end_address || leb phystop p) ≡ false
      passes h = ground arith

      same : SameOutside p k.mem (store64 k.mem p k.free_mem_list)
      same a h =
          store64_off k.mem p k.free_mem_list a
            (elim h [ inl l ↦ inl l | inr r ↦ inr (omega arith) ])

      linked : load64 (store64 k.mem p k.free_mem_list) p ≡ k.free_mem_list
      linked =
          load64-store64_self k.mem p k.free_mem_list
            (head_fits k.mem k.free_mem_list xs free.chain free.pages)

      next : Chain (store64 k.mem p k.free_mem_list) (load64 (store64 k.mem p k.free_mem_list) p) xs
      next = rw linked (Chain-frame p k.free_mem_list xs hp free.pages out same free.chain)

  -- `kfree` halts exactly at what is no page address of the allocator.
  pub kfree-panic :
      (k : Pages) (p : ℕ)
      → valid_address end_address p ≡ false
      → kfree end_address p k ≡ panic Reason.kfree_invalid_address
  unfolding kfree
  kfree-panic k p h = ground arith

zero_words_outside :
    (n p : ℕ) (m : Bytes) (a : ℕ) → (a < p) ⊎ (p + 8 * n ≤ a) → zero_words n p m a ≡ m a
unfolding zero_words
zero_words_outside zero p m a h = refl
zero_words_outside (suc n) p m a h =
    zero_words_outside n (p + 8) (store64 m p 0) a
      (elim h [ inl l ↦ inl (omega arith) | inr r ↦ inr (omega arith) ])
    ∙ store64_off m p 0 a (elim h [ inl l ↦ inl l | inr r ↦ inr (omega arith) ])

zero_words_inside : (n p : ℕ) (m : Bytes) (d : ℕ) → d < 8 * n → zero_words n p m (p + d) ≡ 0
unfolding zero_words
zero_words_inside zero p m d h = absurd (omega arith)
zero_words_inside (suc n) p m d h = elim (Bool-cases (ltb d 8)) [
  | inl first ↦
      zero_words_outside n (p + 8) (store64 m p 0) (p + d) (inl (ground arith))
      ∙ store64-zero m p d (ltb→lt d 8 first)
  | inr later ↦
      let far : 8 ≤ d = ground arith in
      let e : p + d ≡ p + 8 + (d - 8) = omega arith in
      rw e (zero_words_inside n (p + 8) (store64 m p 0) (d - 8) (omega arith))
]

zero_words-IsBytes : (n p : ℕ) (m : Bytes) → IsBytes m → IsBytes (zero_words n p m)
unfolding zero_words
zero_words-IsBytes zero p m b = b
zero_words-IsBytes (suc n) p m b =
    zero_words-IsBytes n (p + 8) (store64 m p 0) (store64-IsBytes m p 0 b)

module _ (end_address : ℕ) where
  -- What `kalloc` does with the free pages `xs`: the first one comes back blank, the others stay
  -- free, and no other byte of memory changes
  -- (which stay bytes); with no free page it returns null and does nothing.
  abbrev pub Allocated : Pages → List ℕ → ℕ → Pages → Type 0
  Allocated k [] r k' = (r ≡ 0) × (k' ≡ k)
  Allocated k (x ∷ xs) r k' =
      (r ≡ x)
      × FreeList end_address k' xs
      × Blank k'.mem x
      × SameOutside x k.mem k'.mem
      × (IsBytes k.mem → IsBytes k'.mem)

  -- `kalloc` gives out the first free page.
  pub kalloc_lem :
      {k : Pages} (xs : List ℕ) → FreeList end_address k xs → Returns (Allocated k xs) (kalloc k)
  unfolding kalloc
  kalloc_lem {k} [] free = rw (free.chain) (returns (refl, refl))
  kalloc_lem {k} (x ∷ xs) free = rw (nonzero) (
      returns (
        free.chain.0,
        record { chain = next; pages = free.pages.1; distinct = free.distinct.1 },
        blank,
        same,
        bytes,
      ))
    where
      nonzero : (k.free_mem_list == 0) ≡ false
      nonzero = ground (arith, free.chain.0, free.pages.0.not_null)

      m : Bytes
      m = zero_words (pgsize / 8) k.free_mem_list k.mem

      same : SameOutside x k.mem m
      same a h = rw free.chain.0 (zero_words_outside 512 x k.mem a h)

      bytes : IsBytes k.mem → IsBytes m
      bytes b = zero_words-IsBytes 512 k.free_mem_list k.mem b

      blank : Blank m x
      blank d h = rw free.chain.0 (zero_words_inside 512 x k.mem d h)

      next : Chain m (load64 k.mem k.free_mem_list) xs
      next = rw free.chain.0 (
          Chain-frame end_address x (load64 k.mem x) xs free.pages.0 free.pages.1 free.distinct.0
            (rw free.chain.0 at same) free.chain.1)
