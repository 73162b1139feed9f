-- ===== src/Trap.antt =====
-- trap/trap.c: traps from kernel mode and from user mode. The control registers of the hart, the PLIC
-- and the UART are the record Hart. A handler that calls `yield` stops at its call of `swtch`.
pub mod Handler
pub mod Init
mod Tests
use riscv_os_lab.Prelude.{
  ℕ, zero, suc, ◌+◌, ◌-◌, ◌*◌, ◌/◌, ◌%◌, ◌^◌, ◌≤◌, ◌<◌, min, ◌≡◌, refl, sym, ap, ◌∙◌, subst,
  fun_ext, ◌≢◌, ◌⊎◌, inl, inr, Bool, true, false, ◌&&◌, ◌||◌, not, Option, none, some, List, [],
  ◌∷◌, ◌++◌, map, arith, ltb, leb, ◌==◌, ◌!=◌, if◌then◌else◌, is_some, length, ==_refl, ==-false,
  ltb→lt, lt→ltb, Bool-cases, Option-cases, ℕ-cases, update, find_first, find_first-some,
  find_first-none, update_self, update_ne,
}
use Prim.Native.Nat.{bit_and, bit_or}
use riscv_os_lab.Prelude.Words.{load64, store64}
use riscv_os_lab.Prelude.Runs.{
  Reason, Run, ok, panic, fault, Cmd, ◌>>=◌, ◌>>◌, pure, get, modify, halt, in_part,
}
use riscv_os_lab.Mm.Kalloc.{pgsize}
use riscv_os_lab.Proc
use riscv_os_lab.Proc.{
  Status, running, Proc, Message, tick, unexpected_external, unknown_interrupt, kernel_exception,
  user_exception, Procs, set_mem, myproc,
}

-- The registers of the hart; `plic_claim` is what the next read of the PLIC's claim register gives and
-- `uart_rhr` the byte that waits in the UART. `completed` are the interrupts reported as done to the
-- PLIC and `echoed` the bytes sent to the UART, both the last one first.
pub record Hart : Type 0 where
  pub sepc : ℕ
  pub sstatus : ℕ
  pub scause : ℕ
  pub stval : ℕ
  pub sip : ℕ
  pub stvec : ℕ
  pub satp : ℕ
  pub tp : ℕ
  pub ticks : ℕ
  pub plic_claim : ℕ
  pub uart_rhr : ℕ
  pub completed : List ℕ
  pub echoed : List ℕ

pub record Kernel : Type 0 where
  pub procs : Procs
  pub hart : Hart

abbrev pub sstatus_spp : ℕ
sstatus_spp = 2 ^ 8

abbrev pub sstatus_spie : ℕ
sstatus_spie = 2 ^ 5

abbrev pub sstatus_sie : ℕ
sstatus_sie = 2 ^ 1

-- the bits of `x` that `mask` has not
abbrev pub clear_bits : ℕ → ℕ → ℕ
clear_bits x mask = bit_and x (2 ^ 64 - 1 - mask)

abbrev pub uart0_irq : ℕ
uart0_irq = 10

abbrev pub set_hart : (Hart → Hart) → Cmd Kernel (Unit {0})
set_hart f = modify (λ k. record k { hart = f k.hart })

abbrev pub print : Message → Cmd Kernel (Unit {0})
print m = modify (λ k. record k { procs = record (k.procs) { console = m ∷ k.procs.console } })

-- How a handler ends: it returns, or it stops in `yield`, with what it still has to restore.
pub data Ends : Type 0 where
  back suspended : Ends

-- myproc() != 0 && myproc()->status == TASK_RUNNING
abbrev pub is_running : Status → Bool
is_running running = true
is_running _ = false

abbrev pub preempts : Procs → Bool
preempts k = elim k.current [ none ↦ false | some p ↦ is_running (k.proc p).status ]

-- The software interrupt that stands for the timer.
unfoldable pub timer_interrupt : Cmd Kernel Ends
timer_interrupt = do
  set_hart (λ h. record h { sip = clear_bits h.sip 2; ticks = (h.ticks + 1) % 2 ^ 64 })
  k ← get
  if k.hart.ticks % 10 == 0 then print (tick k.hart.ticks) else pure tt
  if preempts k.procs
      then in_part (λ k. k.procs) (λ q k. record k { procs = q }) Proc.yield >> pure suspended
      else pure back

-- The external interrupt: claim, echo a byte of the UART, complete.
unfoldable pub external_interrupt : Cmd Kernel Ends
external_interrupt = do
  k ← get
  let irq_id = k.hart.plic_claim
  if irq_id == uart0_irq
      then (if k.hart.uart_rhr != 0
          then set_hart (λ h. record h { echoed = h.uart_rhr ∷ h.echoed })
          else pure tt)
      else if irq_id != 0
      then print (unexpected_external irq_id)
      else pure tt
  if irq_id != 0 then set_hart (λ h. record h { completed = irq_id ∷ h.completed }) else pure tt
  pure back

-- the handler of an interrupt by its number
abbrev pub interrupt : ℕ → Cmd Kernel Ends
interrupt irq =
    if irq == 1
    then timer_interrupt
    else if irq == 9
    then external_interrupt
    else print (unknown_interrupt irq) >> pure back

-- the end of `sys_trap_handler`
abbrev pub restore : (sepc sstatus : ℕ) → Cmd Kernel (Unit {0})
restore sepc sstatus = set_hart (λ h. record h { sepc = sepc; sstatus = sstatus })

-- Up to its return, or to the `swtch` of `yield`, behind which `restore` is left to do.
unfoldable pub sys_trap_handler : Cmd Kernel Ends
unfolding timer_interrupt external_interrupt
sys_trap_handler = do
  k ← get
  let h = k.hart
  if bit_and h.sstatus sstatus_spp == 0
      then halt Reason.trap_not_from_supervisor
      else if bit_and h.sstatus sstatus_sie != 0
      then halt Reason.trap_interrupts_enabled
      else if leb (2 ^ 63) h.scause
      then (do
        ends ← interrupt (h.scause % 256)
        elim ends [ back ↦ restore h.sepc h.sstatus >> pure back | suspended ↦ pure suspended ])
      else (print (kernel_exception h.scause h.sepc h.stval)
          >> halt Reason.trap_unexpected_exception)

-- p->trapframe->… = v, for the word `n` of the trapframe
abbrev pub set_frame : ℕ → ℕ → ℕ → Cmd Kernel (Unit {0})
set_frame p n v = modify (λ k. record k {
  procs = set_mem (λ m. store64 m ((k.procs.proc p).trapframe + 8 * n) v) k.procs;
})

module _ (sys_trap_vector user_trap_entry usertrap_address : ℕ) where
  -- Up to the call of `return_to_user`, to which it hands the address of the trapframe.
  unfoldable pub usertrapret : Cmd Kernel ℕ
  usertrapret = do
    p ← in_part (λ k. k.procs) (λ q k. record k { procs = q }) myproc
    set_hart (λ h. record h { sstatus = clear_bits h.sstatus sstatus_sie; stvec = user_trap_entry })
    k ← get
    set_frame p 1 (((k.procs.proc p).kstack + pgsize) % 2 ^ 64)
    set_frame p 2 usertrap_address
    set_frame p 4 k.hart.tp
    set_frame p 0 k.hart.satp
    set_hart (λ h. record h { sstatus = bit_or (clear_bits h.sstatus sstatus_spp) sstatus_spie })
    pure (k.procs.proc p).trapframe

  -- What `usertrap` does next: the call of `syscall` and then of `usertrapret`, the `swtch` of `yield`
  -- and then `usertrapret`, or the return to user mode with the address of the trapframe.
  pub data Next : Type 0 where
    calls suspends : Next
    resumes : (trapframe : ℕ) → Next

  abbrev pub finish : Ends → Cmd Kernel Next
  finish back = do tf ← usertrapret; pure (resumes tf)
  finish suspended = pure suspends

  unfoldable pub usertrap : Cmd Kernel Next
  unfolding usertrapret timer_interrupt external_interrupt
  usertrap = do
    set_hart (λ h. record h { stvec = sys_trap_vector })
    k ← get
    let cause = k.hart.scause
    if cause == 8
        then (do
          p ← in_part (λ k. k.procs) (λ q k. record k { procs = q }) myproc
          set_frame p 3
              ((load64 k.procs.pages.mem ((k.procs.proc p).trapframe + 8 * 3) + 4) % 2 ^ 64)
          set_hart (λ h. record h { sstatus = bit_or h.sstatus sstatus_sie })
          pure calls)
        else if cause == 2 ^ 63 + 1
        then (timer_interrupt >>= finish)
        else if cause == 2 ^ 63 + 9
        then (external_interrupt >>= finish)
        else (print (user_exception cause k.hart.sepc k.hart.stval)
            >> halt Reason.usertrap_unexpected)
