-- ===== src/Trap/Init.antt =====
-- The set-up of the hart and of the PLIC: `trapinithart`, `plicinit` and `plicinithart` of trap/trap.c
-- and `kvminithart` of mm/vm.c. The PLIC's registers are words by their address.
use riscv_os_lab.Prelude.{
  ℕ, ◌+◌, ◌*◌, ◌/◌, ◌^◌, ◌<◌, ◌≡◌, refl, sym, Bool, true, false, ◌&&◌, not, arith, ltb, ◌==◌, ◌!=◌,
  if◌then◌else◌, update, find_first, find_first-none,
}
use Prim.Native.Nat.{bit_and, bit_or}
use riscv_os_lab.Mm.Vm.{plic}
use riscv_os_lab.Trap.{Hart, uart0_irq}

abbrev pub plic_priority : ℕ
plic_priority = plic

abbrev pub plic_senable : ℕ → ℕ
plic_senable hart = plic + 0x2080 + hart * 0x100

abbrev pub plic_spriority : ℕ → ℕ
plic_spriority hart = plic + 0x20_1000 + hart * 0x2000

-- MAKE_SATP
abbrev pub make_satp : ℕ → ℕ
make_satp pagetable = bit_or (8 * 2 ^ 60) (pagetable / 2 ^ 12)

-- What the functions change: the hart and the PLIC's registers.
pub record Platform : Type 0 where
  pub hart : Hart
  pub words : ℕ → ℕ

abbrev pub set_word : ℕ → ℕ → Platform → Platform
set_word a v s = record s { words = update s.words a v }

unfoldable pub trapinithart : (sys_trap_vector : ℕ) → Platform → Platform
trapinithart sys_trap_vector s = record s { hart = record (s.hart) { stvec = sys_trap_vector } }

unfoldable pub kvminithart : (kernel_pagetable : ℕ) → Platform → Platform
kvminithart kernel_pagetable s = record s {
  hart = record (s.hart) { satp = make_satp kernel_pagetable };
}

unfoldable pub plicinit : Platform → Platform
plicinit s = set_word (plic_priority + uart0_irq * 4) 1 s

unfoldable pub plicinithart : Platform → Platform
plicinithart s = set_word (plic_spriority 0) 0 (set_word (plic_senable 0) (2 ^ uart0_irq) s)

-- The PLIC hands the interrupt `irq` to hart 0: it is enabled, and its priority is above the threshold.
abbrev pub forwards : ℕ → Platform → Bool
forwards irq s =
    (bit_and (s.words (plic_senable 0)) (2 ^ irq) != 0)
    && ltb (s.words (plic_spriority 0)) (s.words (plic_priority + irq * 4))

-- After `plicinit` and `plicinithart`, of the first 32 interrupts exactly that of the UART reaches the
-- hart.
pub plicinithart-plicinit :
    (s : Platform) (irq : ℕ)
    → irq < 32
    → forwards irq (plicinithart (plicinit s)) ≡ (irq == uart0_irq)
unfolding plicinithart plicinit find_first
plicinithart-plicinit s irq lt =
    let same : (if forwards irq (plicinithart (plicinit s))
          then not (irq == uart0_irq)
          else irq == uart0_irq)
        ≡ false =
      find_first-none
        (λ i.
          if forwards i (plicinithart (plicinit s)) then not (i == uart0_irq) else i == uart0_irq)
        32 0 refl irq (omega arith) (omega arith) in
    agree _ _ same
  where
    agree : (a b : Bool) → (if a then not b else b) ≡ false → a ≡ b
    agree true true e = refl
    agree true false e = e
    agree false true e = sym e
    agree false false e = refl
