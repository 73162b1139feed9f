-- ===== src/Mm/Vm.antt =====
-- mm/vm.c: the Sv39 page tables, which lie in the memory of the page allocator. A page table is the
-- address of its page and a PTE pointer is an address, 0 for null. `etext`, the linker's symbol for
-- the end of the kernel's code, is a parameter.
pub mod Entries
mod Tests
use riscv_os_lab.Prelude.{
  ℕ, zero, suc, ◌+◌, ◌-◌, ◌*◌, ◌/◌, ◌%◌, ◌^◌, ◌≤◌, ◌<◌, min, ◌≡◌, refl, sym, ap, ◌∙◌, subst,
  fun_ext, ◌≢◌, ◌⊎◌, inl, inr, Bool, true, false, ◌&&◌, ◌||◌, not, Option, none, some, List, [],
  ◌∷◌, ◌++◌, map, arith, ltb, leb, ◌==◌, ◌!=◌, if◌then◌else◌, is_some, length, ==_refl, ==-false,
  ltb→lt, lt→ltb, Bool-cases, Option-cases, ℕ-cases, update, find_first, find_first-some,
  find_first-none, update_self, update_ne,
}
use Prim.Native.Nat.{bit_or}
use riscv_os_lab.Prelude.Words.{load64, store64}
use riscv_os_lab.Prelude.Runs.{
  Reason, Run, ok, panic, out_of_fuel, Cmd, ◌>>=◌, ◌>>◌, pure, get, modify, halt,
}
use riscv_os_lab.Mm.Kalloc.{pgsize, phystop, pgrounddown, Pages, zero_words, kalloc}

-- 1 << (9 + 9 + 9 + 12 - 1)
abbrev pub maxva : ℕ
maxva = 2 ^ 38

abbrev pub pte_v : ℕ
pte_v = 1

abbrev pub pte_r : ℕ
pte_r = 2

abbrev pub pte_w : ℕ
pte_w = 4

abbrev pub pte_x : ℕ
pte_x = 8

-- PX, the index of `va` into the table of a level
unfoldable pub px : ℕ → ℕ → ℕ
px level va = va / 2 ^ (12 + 9 * level) % 512

-- PA2PTE and PTE2PA
unfoldable pub pa2pte : ℕ → ℕ
pa2pte pa = pa / 2 ^ 12 * 2 ^ 10

unfoldable pub pte2pa : ℕ → ℕ
pte2pa pte = pte / 2 ^ 10 * 2 ^ 12 % 2 ^ 64

-- pte & PTE_V, the lowest bit
abbrev pub is_valid : ℕ → Bool
is_valid pte = pte % 2 == 1

-- &pagetable[PX(level, va)]
abbrev pub pte_at : (pagetable level va : ℕ) → ℕ
pte_at pagetable level va = pagetable + 8 * px level va

-- *pte = v
abbrev pub write_pte : ℕ → ℕ → Cmd Pages (Unit {0})
write_pte pte v = modify (λ k. record k { mem = store64 k.mem pte v })

-- a new table, linked at `pte`; 0 if memory is exhausted
unfoldable pub grow : ℕ → Cmd Pages ℕ
grow pte = do
  page ← kalloc
  if page == 0 then pure 0 else do
    modify (λ k. record k { mem = zero_words (pgsize / 8) page k.mem })
    write_pte pte (bit_or (pa2pte page) pte_v)
    pure page

-- The loop of `walk` from a level down to the entry of level 0.
unfoldable pub walk_from : (level va : ℕ) → Bool → ℕ → Cmd Pages ℕ
unfolding px
walk_from zero va alloc pagetable k = ok (pte_at pagetable 0 va) k
walk_from (suc level) va alloc pagetable k =
    let pte = pte_at pagetable (suc level) va in
    let next = pte2pa (load64 k.mem pte) in
    let down = walk_from level va alloc next k in
    let made =
      (grow pte >>= (λ page. if page == 0 then pure 0 else walk_from level va alloc page)) k in
    if is_valid (load64 k.mem pte) then down else if alloc then made else ok 0 k

unfoldable pub walk : ℕ → ℕ → Bool → Cmd Pages ℕ
unfolding walk_from
walk pagetable va alloc =
    if leb maxva va then halt Reason.walk_out_of_range else walk_from 2 va alloc pagetable

-- The loop of `mappages` at the page `a`; the result is whether it returned 0 and not -1.
unfoldable pub mappages_loop : ℕ → (pagetable pa a last perm : ℕ) → Cmd Pages Bool
mappages_loop zero pagetable pa a last perm = λ k. out_of_fuel
mappages_loop (suc fuel) pagetable pa a last perm = do
  pte ← walk pagetable a true
  k ← get
  if pte == 0
      then pure false
      else if is_valid (load64 k.mem pte)
      then halt Reason.mappages_remap
      else do
        write_pte pte (bit_or (bit_or (pa2pte pa) perm) pte_v)
        if a == last
            then pure true
            else mappages_loop fuel pagetable (pa + pgsize) (a + pgsize) last perm

-- One round for each page.
unfoldable pub mappages : (pagetable pa va size perm : ℕ) → Cmd Pages Bool
unfolding mappages_loop
mappages pagetable pa va size perm =
    if size == 0
    then halt Reason.mappages_size_is_0
    else let a = pgrounddown va in
      let last = pgrounddown ((va + size - 1) % 2 ^ 64) in
      mappages_loop ((last - a) / pgsize + 1) pagetable pa a last perm

abbrev pub uart0 : ℕ
uart0 = 0x1000_0000

abbrev pub plic : ℕ
plic = 0x0c00_0000

abbrev pub virtio0 : ℕ
virtio0 = 0x1000_1000

abbrev pub kernbase : ℕ
kernbase = 0x8000_0000

-- The result is the new `kernel_pagetable`; what `mappages` returns is not looked at.
unfoldable pub kvmininit : ℕ → Cmd Pages ℕ
kvmininit etext = do
  t ← kalloc
  if t == 0 then halt Reason.kvmininit_out_of_memory else do
    modify (λ k. record k { mem = zero_words (pgsize / 8) t k.mem })
    mappages t uart0 uart0 pgsize (pte_r + pte_w)
    mappages t plic plic 0x40_0000 (pte_r + pte_w)
    mappages t virtio0 virtio0 pgsize (pte_r + pte_w)
    mappages t kernbase kernbase (etext - kernbase) (pte_r + pte_x)
    mappages t etext etext (phystop - etext) (pte_r + pte_w)
    pure t
