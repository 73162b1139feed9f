-- ===== src/Trap/Handler.antt =====
-- What an interrupt in kernel mode leaves, by trap/trap.c.
use riscv_os_lab.Prelude.{
  ℕ, ◌+◌, ◌%◌, ◌^◌, ◌≡◌, ◌&&◌, none, some, List, ◌∷◌, ◌==◌, ◌!=◌, if◌then◌else◌,
}
use riscv_os_lab.Prelude.Runs
use riscv_os_lab.Prelude.Runs.{Reason, Run, panic, ◌>>=◌}
use riscv_os_lab.Proc
use riscv_os_lab.Proc.{Status, ready, running, Proc, Message, Procs, set_status, yield}
use riscv_os_lab.Trap.{Hart, Kernel, Ends, back, suspended, uart0_irq, preempts, clear_bits}

-- what the interrupt `irq` reports to the PLIC and echoes to the UART
abbrev pub completed_by : ℕ → Hart → List ℕ
completed_by irq h =
    if (irq == 9) && (h.plic_claim != 0) then h.plic_claim ∷ h.completed else h.completed

abbrev pub echoed_by : ℕ → Hart → List ℕ
echoed_by irq h =
    if (irq == 9) && (h.plic_claim == uart0_irq) && (h.uart_rhr != 0)
    then h.uart_rhr ∷ h.echoed
    else h.echoed

-- the process table after a timer interrupt that preempts
abbrev pub preempted : Procs → ℕ → Proc
preempted k j = elim k.current [
  | none ↦ k.proc j
  | some p ↦ if j == p then set_status ready (k.proc p) else k.proc j
]

-- The state `k'` after the interrupt `irq` in the state `k`, which ended as `ends` says.
pub record Interrupted (irq : ℕ) (k : Kernel) (ends : Ends) (k' : Kernel) : Type 0 where
  pub sepc : k'.hart.sepc ≡ k.hart.sepc
  pub sstatus : k'.hart.sstatus ≡ k.hart.sstatus
  pub ticks : k'.hart.ticks ≡ (if irq == 1 then (k.hart.ticks + 1) % 2 ^ 64 else k.hart.ticks)
  pub completed : k'.hart.completed ≡ completed_by irq k.hart
  pub echoed : k'.hart.echoed ≡ echoed_by irq k.hart
  pub ends_in : ends ≡ (if (irq == 1) && preempts k.procs then suspended else back)
  pub table :
      k'.procs.proc ≡ (if (irq == 1) && preempts k.procs then preempted k.procs else k.procs.proc)
  pub current : k'.procs.current ≡ k.procs.current

-- the state when the timer interrupt comes to its test of the current process
abbrev ticked : Kernel → Kernel
ticked k =
    let now = (k.hart.ticks + 1) % 2 ^ 64 in
    record {
      procs = record (k.procs) {
        console = if now % 10 == 0 then Proc.tick now ∷ k.procs.console else k.procs.console;
      };
      hart = record (k.hart) { sip = clear_bits k.hart.sip 2; ticks = now };
    }

-- the state after an external interrupt that printed, reported and echoed what is given
abbrev with_effects : Kernel → List Message → List ℕ → List ℕ → Kernel
with_effects k console completed echoed = record {
  procs = record (k.procs) { console = console };
  hart = record (k.hart) { completed = completed; echoed = echoed };
}
