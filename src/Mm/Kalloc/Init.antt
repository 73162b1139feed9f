-- ===== src/Mm/Kalloc/Init.antt =====
-- What `kinit` of mm/kalloc.c leaves behind.
use riscv_os_lab.Prelude.{
  ℕ, zero, suc, ◌+◌, ◌*◌, ◌/◌, ◌%◌, ◌≤◌, ◌<◌, ◌≡◌, refl, ◌∙◌, inl, inr, true, false, List, [], ◌∷◌,
  arith, leb, ==-false, Bool-cases, ℕ-cases,
}
use riscv_os_lab.Prelude.Lists.{has, NotIn-of_has}
use riscv_os_lab.Prelude.Runs
use riscv_os_lab.Prelude.Runs.{
  Reason, Run, ok, panic, out_of_fuel, Cmd, ◌>>=◌, ◌>>◌, pure, Returns, returns,
}
use riscv_os_lab.Mm.Kalloc.{pgsize, phystop, pgroundup, Pages, kinit_loop, kinit}
use riscv_os_lab.Mm.Kalloc.FreeList.{IsPage, FreeList, kfree-push}

module _ (end_address : ℕ) where
  -- The allocator holds exactly the pages from `lo` on, below `hi`, each once.
  pub record HoldsFrom (lo hi : ℕ) (k : Pages) : Type 0 where
    pub free : List ℕ
    pub listed : FreeList end_address k free
    pub all : (p : ℕ) → IsPage end_address p → lo ≤ p → p < hi → has p free ≡ true
    pub low : (p : ℕ) → has p free ≡ true → p < hi

  -- one more page
  HoldsFrom-next :
      {lo p : ℕ} {k k' : Pages} (h : HoldsFrom lo p k)
      → p % pgsize ≡ 0
      → FreeList end_address k' (p ∷ h.free)
      → HoldsFrom lo (p + pgsize) k'
  HoldsFrom-next {lo} {p} h aligned listed = record {
    free = p ∷ h.free;
    listed = listed;
    all = λ q page l u. elim (ℕ-cases q p) [
      | inl e ↦ ground arith
      | inr ne ↦ rw (==-false q p ne) (h.all q page l (omega (arith, page.aligned)))
    ];
    low = λ q i. elim (ℕ-cases q p) [
      | inl e ↦ omega arith
      | inr ne ↦
          let i' : has q h.free ≡ true = rw (==-false q p ne) at i in omega (arith, h.low q i')
    ];
  }

  kinit_loop_lem :
      (fuel lo p : ℕ) (k : Pages)
      → 0 < p
      → p ≤ phystop
      → end_address ≤ p
      → p % pgsize ≡ 0
      → phystop < p + pgsize * fuel
      → HoldsFrom lo p k
      → Returns
          (λ _ k'. HoldsFrom lo phystop k' × ((a : ℕ) → a < p → k'.mem a ≡ k.mem a))
          (kinit_loop end_address fuel p k)
  unfolding kinit_loop
  kinit_loop_lem zero lo p k pos top above aligned fuel h = absurd (omega arith)
  kinit_loop_lem (suc n) lo p k pos top above aligned fuel h =
      elim (Bool-cases (leb (p + pgsize) phystop)) [
        | inl more ↦
            let below : p + pgsize ≤ phystop = ground arith in
            let page : IsPage end_address p = omega arith in
            let out : has p h.free ≡ false = new p h.free (h.low p) in
            rw more (
              Runs.bind (kfree-push end_address p h.listed page (NotIn-of_has p h.free out))
                λ _ k' (free, same).
                  Runs.mono
                    (kinit_loop_lem n lo (p + pgsize) k' (omega arith) below (omega arith)
                      (omega arith) (omega arith) (HoldsFrom-next h aligned free))
                    λ _ g (held, low). (held, λ a lt. low a (omega arith) ∙ same a (inl lt)))
        | inr done ↦
            let last : phystop < p + pgsize = ground arith in
            let e : p ≡ phystop = omega arith in rw done (returns (rw e at h, λ a lt. refl))
      ]
    where
      new : (q : ℕ) (xs : List ℕ) → (has q xs ≡ true → q < q) → has q xs ≡ false
      new q xs h = elim (Bool-cases (has q xs)) [ inl y ↦ absurd (omega (arith, h y)) | inr n ↦ n ]

  -- `kinit`, started with an empty list, ends with exactly the whole pages between `end_address`
  -- and PHYSTOP free, each listed once, and has written to no byte below the first of them.
  pub kinit_lem :
      (k : Pages)
      → 0 < end_address
      → end_address ≤ phystop
      → k.free_mem_list ≡ 0
      → Returns
          (λ _ k'.
            HoldsFrom end_address phystop k'
            × ((a : ℕ) → a < pgroundup end_address → k'.mem a ≡ k.mem a))
          (kinit end_address k)
  unfolding kinit
  kinit_lem k pos top empty =
      kinit_loop_lem (phystop / pgsize + 1) end_address (pgroundup end_address) k (omega arith)
        (omega arith) (omega arith) (omega arith) (omega arith)
        (record {
          free = [];
          listed = record { chain = empty; pages = tt; distinct = tt };
          all = λ q page l u. absurd (omega (arith, page.aligned));
          low = λ q i. cc;
        })
