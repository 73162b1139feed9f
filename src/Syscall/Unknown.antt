-- ===== src/Syscall/Unknown.antt =====
-- The branch of `syscall` in syscall/syscall.c for numbers without a function.
use riscv_os_lab.Prelude.{
  ℕ, ◌+◌, ◌*◌, ◌%◌, ◌^◌, ◌≤◌, ◌<◌, ◌≡◌, refl, ◌⊎◌, inl, inr, false, none, some, ◌∷◌, arith, ltb,
}
use riscv_os_lab.Prelude.Words.{load64-store64_self, store64_off}
use riscv_os_lab.Prelude.Runs.{Returns, returns}
use riscv_os_lab.Proc.{Procs, unknown_syscall}
use riscv_os_lab.Proc.Touches.{myproc-ok}
use riscv_os_lab.Syscall.File.{minus_one64}
use riscv_os_lab.Syscall.Process.{register, unknown_call, handler}

-- A call with a number below 1 or above 17, as an `int`, has no function.
pub handler-out_of_range : (a7 : ℕ) → (a7 % 2 ^ 32 ≡ 0) ⊎ (17 < a7 % 2 ^ 32) → handler a7 ≡ none
unfolding handler
handler-out_of_range a7 (inl e) = rw e refl
handler-out_of_range a7 (inr lt) =
    let big : ltb (a7 % 2 ^ 32) 18 ≡ false = ground arith in ground arith

-- The current process, with a number that has no function, finds -1 in a0; the call prints the number and
-- the pid, and changes no process and no byte outside a0.
pub unknown_call_lem :
    (p : ℕ) (k : Procs)
    → k.current ≡ some p
    → Returns
        (λ _ k'.
          (register p 14 k' ≡ minus_one64)
          × (k'.proc ≡ k.proc)
          × (k'.console ≡ unknown_syscall (register p 21 k % 2 ^ 32) (k.proc p).pid ∷ k.console)
          × ((a : ℕ)
              → (a < (k.proc p).trapframe + 112) ⊎ ((k.proc p).trapframe + 120 ≤ a)
              → k'.pages.mem a ≡ k.pages.mem a))
        (unknown_call k)
unfolding unknown_call
unknown_call_lem p k cur = rw (myproc-ok p k cur) (
    returns (
      load64-store64_self k.pages.mem ((k.proc p).trapframe + 8 * 14) minus_one64 (omega arith),
      refl,
      refl,
      λ a h.
          store64_off k.pages.mem ((k.proc p).trapframe + 8 * 14) minus_one64 a
            (elim h [ inl l ↦ inl (omega arith) | inr r ↦ inr (omega arith) ]),
    ))
