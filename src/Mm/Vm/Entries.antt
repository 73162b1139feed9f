-- ===== src/Mm/Vm/Entries.antt =====
-- The indices and entries of mm/vm.c, and `walk` without allocation.
use riscv_os_lab.Prelude.{ℕ, ◌+◌, ◌*◌, ◌%◌, ◌^◌, ◌<◌, ◌≡◌, ◌&&◌, arith, if◌then◌else◌}
use riscv_os_lab.Prelude.Words.{Bytes, load64}
use riscv_os_lab.Mm.Vm.{maxva, px, pa2pte, pte2pa, is_valid}

-- The three indices of an address that `walk` accepts and its offset in the page make up the address.
pub px_lem :
    (va : ℕ)
    → va < maxva
    → (px 2 va * 2 ^ 30 + px 1 va * 2 ^ 21 + px 0 va * 2 ^ 12 + va % 2 ^ 12 ≡ va) × (px 2 va < 256)
unfolding px
px_lem va lt = (omega arith, omega arith)

-- An entry made from the address of a page below 2 ^ 54, with any flags, leads back to that page.
pub pte2pa-pa2pte :
    (pa flags : ℕ)
    → pa % 2 ^ 12 ≡ 0
    → pa < 2 ^ 54
    → flags < 2 ^ 10
    → pte2pa (pa2pte pa + flags) ≡ pa
unfolding pte2pa pa2pte
pte2pa-pa2pte pa flags aligned lt f = omega arith

-- the Sv39 table walk for the address of three indices: the address of the last entry, or 0
abbrev pub entry_of : Bytes → (table i2 i1 i0 : ℕ) → ℕ
entry_of m table i2 i1 i0 =
    let e2 = load64 m (table + 8 * i2) in
    let e1 = load64 m (pte2pa e2 + 8 * i1) in
    if is_valid e2 && is_valid e1 then pte2pa e1 + 8 * i0 else 0
