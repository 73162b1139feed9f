-- ===== src/Proc/Fork/Memory.antt =====
-- The memory that `fork` of proc/proc.c copies, and the pages that it takes from the free list.
use riscv_os_lab.Prelude.{
  ℕ, zero, suc, ◌+◌, ◌*◌, ◌≤◌, ◌<◌, ◌≡◌, refl, ap, ◌∙◌, ◌≢◌, ◌⊎◌, inl, inr, List, [], ◌∷◌, arith,
  ltb, Bool-cases,
}
use riscv_os_lab.Prelude.Words.{Bytes, load64, store64}
use riscv_os_lab.Prelude.Runs
use riscv_os_lab.Prelude.Runs.{
  Reason, Run, ok, panic, out_of_fuel, fault, Cmd, ◌>>=◌, ◌>>◌, and_then, put_back, pure, get,
  modify, halt, in_part, Returns, returns,
}
use riscv_os_lab.Mm.Kalloc
use riscv_os_lab.Mm.Kalloc.{Pages, pgsize}
use riscv_os_lab.Proc.{Procs, page_alloc, copy_words, fork_memory}
use riscv_os_lab.Prelude.Lists.{NotIn}
use riscv_os_lab.Prelude.Words.{
  IsBytes, store64-IsBytes, load64-lt, load64-frame, load64-store64_self, load64-store64_apart,
  store64_off,
}
use riscv_os_lab.Mm.Kalloc.{phystop, zero_words}
use riscv_os_lab.Mm.Kalloc.FreeList.{IsPage, FreeList, apart, SameOutside, kalloc_lem, Chain-frame}

copy_words_outside :
    (n dst src : ℕ) (m : Bytes) (a : ℕ)
    → (a < dst) ⊎ (dst + 8 * n ≤ a)
    → copy_words n dst src m a ≡ m a
unfolding copy_words
copy_words_outside zero dst src m a h = refl
copy_words_outside (suc n) dst src m a h =
    copy_words_outside n (dst + 8) (src + 8) (store64 m dst (load64 m src)) a
      (elim h [ inl l ↦ inl (omega arith) | inr r ↦ inr (omega arith) ])
    ∙ store64_off m dst (load64 m src) a (elim h [ inl l ↦ inl l | inr r ↦ inr (omega arith) ])

copy_words_word :
    (n dst src : ℕ) (m : Bytes) (i : ℕ)
    → IsBytes m
    → (dst + 8 * n ≤ src) ⊎ (src + 8 * n ≤ dst)
    → i < n
    → load64 (copy_words n dst src m) (dst + 8 * i) ≡ load64 m (src + 8 * i)
unfolding copy_words
copy_words_word zero dst src m i b h lt = absurd (omega arith)
copy_words_word (suc n) dst src m zero b h lt =
    let m' = store64 m dst (load64 m src) in
    let e : dst + 8 * 0 ≡ dst = omega arith in
    let e' : src + 8 * 0 ≡ src = omega arith in
    rw (e, e')
      (load64-frame m' (copy_words n (dst + 8) (src + 8) m') dst
          (λ d lt. copy_words_outside n (dst + 8) (src + 8) m' (dst + d) (inl (omega arith)))
        ∙ load64-store64_self m dst (load64 m src) (load64-lt m src b))
copy_words_word (suc n) dst src m (suc i) b h lt =
    let m' = store64 m dst (load64 m src) in
    let e : dst + 8 * suc i ≡ dst + 8 + 8 * i = omega arith in
    let e' : src + 8 * suc i ≡ src + 8 + 8 * i = omega arith in
    rw (e, e')
      (copy_words_word n (dst + 8) (src + 8) m' i (store64-IsBytes m dst (load64 m src) b)
          (elim h [ inl l ↦ inl (omega arith) | inr r ↦ inr (omega arith) ]) (omega arith)
        ∙ load64-store64_apart m dst (load64 m src) (src + 8 + 8 * i)
            (elim h [ inl l ↦ inr (omega arith) | inr r ↦ inl (omega arith) ]))

module _ (end_address : ℕ) where
  -- `kalloc` on the kernel's own free list
  pub page_alloc-cons :
      (t : ℕ) (xs : List ℕ) (h : Pages)
      → FreeList end_address h (t ∷ xs)
      → (g : Pages) × ((k : Procs) → k.pages ≡ h → page_alloc k ≡ ok t (record k { pages = g }))
        × FreeList end_address g xs
        × SameOutside t h.mem g.mem
        × (IsBytes h.mem → IsBytes g.mem)
  unfolding page_alloc
  page_alloc-cons t xs h list =
      let (r, g, e, (rt, next, blank, same, bytes)) =
        Runs.Returns-result (Kalloc.kalloc h) (kalloc_lem end_address (t ∷ xs) list) in
      let got : Kalloc.kalloc h ≡ ok t g = e ∙ ap (λ v. ok v g) rt in
      (
        g,
        λ k q. ap (put_back (λ g k. record k { pages = g }) k) (ap Kalloc.kalloc q ∙ got),
        next,
        same,
        bytes,
      )

  pub page_alloc-nil : (k : Procs) → FreeList end_address k.pages [] → page_alloc k ≡ ok 0 k
  unfolding page_alloc Kalloc.kalloc
  page_alloc-nil k list = rw list.chain

  -- a word of a page is as it was after a change inside another page
  pub word-frame :
      {m g : Bytes} (p q i : ℕ)
      → IsPage end_address p
      → IsPage end_address q
      → p ≢ q
      → SameOutside p m g
      → i < 512
      → load64 g (q + 8 * i) ≡ load64 m (q + 8 * i)
  word-frame {m} {g} p q i hp hq ne same lt = load64-frame m g (q + 8 * i) λ d h.
      same (q + 8 * i + d) (elim (apart end_address hp hq ne) [
        | inl before ↦ inl (omega arith)
        | inr after ↦ inr (omega arith)
      ])

  -- The trapframe page of the child, given that of the parent.
  pub fork_memory-words :
      (t tf : ℕ) (m : Bytes)
      → IsPage end_address t
      → IsPage end_address tf
      → t ≢ tf
      → IsBytes m
      → (load64 (fork_memory t tf m) (t + 8 * 14) ≡ 0)
        × ((i : ℕ)
            → i < 512
            → i ≢ 14
            → load64 (fork_memory t tf m) (t + 8 * i) ≡ load64 m (tf + 8 * i))
  fork_memory-words t tf m ht htf ne b =
      let copied : Bytes = copy_words 512 t tf m in
      (
        load64-store64_self copied (t + 8 * 14) 0 (omega arith),
        λ i lt off.
            load64-store64_apart copied (t + 8 * 14) 0 (t + 8 * i) (elim (Bool-cases (ltb i 14)) [
              | inl l ↦ inl (ground arith)
              | inr r ↦ inr (ground arith)
            ])
            ∙ copy_words_word 512 t tf m i b
                (elim (apart end_address ht htf ne) [
                  | inl before ↦ inr (omega arith)
                  | inr after ↦ inl (omega arith)
                ])
                lt,
      )

  pub fork_memory-SameOutside : (t tf : ℕ) (m : Bytes) → SameOutside t m (fork_memory t tf m)
  fork_memory-SameOutside t tf m a h =
      store64_off (copy_words 512 t tf m) (t + 8 * 14) 0 a
        (elim h [ inl l ↦ inl (omega arith) | inr r ↦ inr (omega arith) ])
      ∙ copy_words_outside 512 t tf m a (elim h [ inl l ↦ inl l | inr r ↦ inr (omega arith) ])

  pub FreeList-frame :
      {g : Pages} (t : ℕ) (m : Bytes) (xs : List ℕ)
      → IsPage end_address t
      → NotIn t xs
      → SameOutside t g.mem m
      → FreeList end_address g xs
      → FreeList end_address (record g { mem = m }) xs
  FreeList-frame {g} t m xs page out same list = record {
    chain = Chain-frame end_address t g.free_mem_list xs page list.pages out same list.chain;
    pages = list.pages;
    distinct = list.distinct;
  }
