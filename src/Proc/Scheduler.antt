-- ===== src/Proc/Scheduler.antt =====
-- The scheduler of proc/proc.c and what runs between two of its calls of `swtch`. `swtch` saves the
-- registers of one side and goes on with the other: `resume` says where each process goes on.
use riscv_os_lab.Prelude.{
  ℕ, ◌+◌, ◌≡◌, Bool, ◌&&◌, not, Option, none, some, leb, if◌then◌else◌, update,
}
use riscv_os_lab.Prelude.Runs.{Run, ok}
use riscv_os_lab.Proc.{
  running, is_free, is_ready, Procs, nproc, set_proc, set_status, fork, yield, exit,
}
use riscv_os_lab.Proc.Wait.{Round, returned, asleep, wait_round, wait_resume}

-- where a process that is switched to goes on
pub data Resume : Type 0 where
  at_forkret : Resume
  after_yield : Resume
  in_wait : (addr : ℕ) → Resume
  in_exit : Resume

-- The machine: the kernel's tables, where each process goes on, and the scheduler's loop variable
-- `p`, an index of `proc[]`.
pub record Machine : Type 0 where
  pub procs : Procs
  pub resume : ℕ → Resume
  pub cursor : ℕ

-- One turn of the inner loop up to `swtch`, or past a process that is not ready. At the end of the
-- table the outer loop starts again.
unfoldable pub schedule : Machine → Machine
schedule m =
    if leb nproc m.cursor
    then record m { cursor = 0 }
    else if is_ready (m.procs.proc m.cursor).status
    then record m {
      procs = record (set_proc m.cursor (set_status running) m.procs) { current = some m.cursor };
    }
    else record m { cursor = m.cursor + 1 }

-- `swtch` returns in the scheduler: c->proc = 0, and p++.
abbrev pub to_scheduler : Procs → Resume → ℕ → Machine → Machine
to_scheduler k r p m = record {
  procs = record k { current = none };
  resume = update m.resume p r;
  cursor = m.cursor + 1;
}

-- What the process that has the CPU does next. A timer interrupt makes it yield; the other calls
-- are system calls.
pub data Call : Type 0 where
  timer : Call
  fork_call : Call
  exit_call : (status : ℕ) → Call
  wait_call : (addr : ℕ) → Call

-- the end of a round of `wait`: back in user mode, or asleep
abbrev pub after_round : ℕ → ℕ → Machine → Run Procs Round → Option Machine
after_round p addr m (ok (returned v) k) =
    some (record m { procs = k; resume = update m.resume p after_yield })
after_round p addr m (ok asleep k) = some (to_scheduler k (in_wait addr) p m)
after_round p addr m _ = none

-- whether `fork` took slot `i`
abbrev pub is_new : Procs → Procs → ℕ → Bool
is_new before after i = is_free (before.proc i).status && not (is_free (after.proc i).status)

abbrev pub after_fork : Machine → Run Procs ℕ → Option Machine
after_fork m (ok pid k) =
    some
      (record m { procs = k; resume = λ i. if is_new m.procs k i then at_forkret else m.resume i })
after_fork m _ = none

abbrev pub give_up : Resume → ℕ → Machine → Run Procs (Unit {0}) → Option Machine
give_up r p m (ok _ k) = some (to_scheduler k r p m)
give_up r p m _ = none

module _ (end_address forkret : ℕ) where
  unfoldable pub call : ℕ → Call → Machine → Option Machine
  call p timer m = give_up after_yield p m (yield m.procs)
  call p fork_call m = after_fork m (fork forkret m.procs)
  call p (exit_call status) m = give_up in_exit p m (exit status m.procs)
  call p (wait_call addr) m = after_round p addr m (wait_round end_address addr m.procs)

  -- What process `p` does with the CPU: a waiter finishes its round of `wait` first, and in `exit`
  -- a zombie that runs again panics.
  unfoldable pub turn_from : Resume → ℕ → Call → Machine → Option Machine
  turn_from at_forkret p c m = call p c m
  turn_from after_yield p c m = call p c m
  turn_from (in_wait addr) p c m = after_round p addr m (wait_resume end_address addr m.procs)
  turn_from in_exit p c m = none

  unfoldable pub turn : ℕ → Call → Machine → Option Machine
  turn p c m = turn_from (m.resume p) p c m

  -- A step: of the scheduler while no process has the CPU, else of the process that has it.
  pub data Step : Machine → Machine → Type 0 where
    scheduler_step : (m : Machine) → m.procs.current ≡ none → Step m (schedule m)
    process_step :
        (m n : Machine) (p : ℕ) (c : Call)
        → m.procs.current ≡ some p
        → turn p c m ≡ some n
        → Step m n
