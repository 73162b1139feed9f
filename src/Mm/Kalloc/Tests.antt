-- ===== src/Mm/Kalloc/Tests.antt =====
-- The page allocator of mm/kalloc.c on a memory with two pages, and the properties of it there.
use riscv_os_lab.Prelude.{ℕ, ◌<◌, ◌≡◌, refl, ◌∙◌, inl, [], ◌∷◌, arith}
use riscv_os_lab.Prelude.Words.{store64, load64-store64_self, load64-store64_apart}
use riscv_os_lab.Prelude.Runs.{Returns}
use riscv_os_lab.Mm.Kalloc.{phystop, pgroundup, Pages, kalloc, kfree, kinit}
use riscv_os_lab.Mm.Kalloc.FreeList.{
  SameOutside, IsPage, FreeList, kfree-push, kalloc_lem, Allocated,
}
use riscv_os_lab.Mm.Kalloc.Init.{HoldsFrom, kinit_lem}

-- the linker's `end`, and two pages above it
abbrev pub kernel_end : ℕ
kernel_end = 0x8002_0000

abbrev pub first_page : ℕ
first_page = 0x8002_1000

abbrev pub second_page : ℕ
second_page = 0x8002_3000

abbrev pub no_pages : Pages
no_pages = record { mem = λ _. 0; free_mem_list = 0 }

abbrev pub one_page : Pages
one_page = record { mem = store64 (λ _. 0) first_page 0; free_mem_list = first_page }

abbrev pub two_pages : Pages
two_pages = record {
  mem = store64 (store64 (λ _. 0) first_page 0) second_page first_page;
  free_mem_list = second_page;
}

pub first_page-IsPage : IsPage kernel_end first_page
first_page-IsPage = omega arith

pub second_page-IsPage : IsPage kernel_end second_page
second_page-IsPage = omega arith

pub one_page-FreeList : FreeList kernel_end one_page (first_page ∷ [])
one_page-FreeList = record {
  chain = (refl, load64-store64_self (λ _. 0) first_page 0 (omega arith));
  pages = (first_page-IsPage, tt);
  distinct = (tt, tt);
}

pub two_pages-FreeList : FreeList kernel_end two_pages (second_page ∷ first_page ∷ [])
two_pages-FreeList = record {
  chain = (
    refl,
    (
      load64-store64_self one_page.mem second_page first_page (omega arith),
      load64-store64_apart one_page.mem second_page first_page first_page (inl (omega arith))
          ∙ load64-store64_self (λ _. 0) first_page 0 (omega arith),
    ),
  );
  pages = (second_page-IsPage, (first_page-IsPage, tt));
  distinct = (((λ e. omega (arith, e)), tt), (tt, tt));
}

kfree-push_example :
    Returns
      (λ _ k'.
        FreeList kernel_end k' (second_page ∷ first_page ∷ [])
        × SameOutside second_page one_page.mem k'.mem)
      (kfree kernel_end second_page one_page)
kfree-push_example =
    kfree-push kernel_end second_page one_page-FreeList second_page-IsPage
      ((λ e. omega (arith, e)), tt)

kalloc_lem_example :
    Returns (Allocated kernel_end two_pages (second_page ∷ first_page ∷ [])) (kalloc two_pages)
kalloc_lem_example = kalloc_lem kernel_end (second_page ∷ first_page ∷ []) two_pages-FreeList

kinit_lem_example :
    Returns
      (λ _ k'.
        HoldsFrom kernel_end kernel_end phystop k'
        × ((a : ℕ) → a < pgroundup kernel_end → k'.mem a ≡ 0))
      (kinit kernel_end no_pages)
kinit_lem_example = kinit_lem kernel_end no_pages (omega arith) (omega arith) refl
