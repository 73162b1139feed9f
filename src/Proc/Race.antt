-- ===== src/Proc/Race.antt =====
-- A timer interrupt inside `wait` of proc/proc.c. System calls run with interrupts on and without
-- locks, so that the timer can come between the scan of the table and the call of `sleep`.
use riscv_os_lab.Prelude.{ℕ, some}
use riscv_os_lab.Prelude.Runs.{Cmd, ◌>>◌, modify}
use riscv_os_lab.Proc
use riscv_os_lab.Proc.{
  Status, running, same_pointer, is_sleeping, wakes, Proc, Message, Procs, set_proc, set_status,
  yield, sleep, exit,
}

-- The scheduler gives the CPU to process `q`.
abbrev pub switch_to : ℕ → Procs → Procs
switch_to q k = record (set_proc q (set_status running) k) { current = some q }

-- Process `p` has scanned the table in `wait`; the timer preempts it, its child `c` runs and exits, and
-- `p` goes on with the call of `sleep`.
unfoldable pub preempted_wait : (p c status : ℕ) → Cmd Procs (Unit {0})
preempted_wait p c status = do
  Proc.yield
  modify (switch_to c)
  exit status
  modify (switch_to p)
  sleep (some p)
