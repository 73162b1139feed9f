-- ===== src/Proc/Invariant.antt =====
-- The process table and `cpus[0].proc` under the steps of the machine.
use riscv_os_lab.Prelude.{ℕ, ◌<◌, ◌≡◌, ◌≢◌, Bool, true, false, Option, none, some, ◌∷◌, arith}
use riscv_os_lab.Prelude.Runs.{Run, ok, Returns, returns}
use riscv_os_lab.Proc.{
  ready, running, sleeping, Proc, exited, Procs, nproc, set_proc, set_status, fork, yield,
  sleep_end, exit,
}
use riscv_os_lab.Prelude.Runs.{Ensures, done, panics, runs_out, faults}
use riscv_os_lab.Proc.Touches.{Forked, fork-Forked, myproc-ok}
use riscv_os_lab.Proc.Reaps.{Waited, wait_scan-Waited}
use riscv_os_lab.Proc.Exit.{exit_table, exit-ok}
use riscv_os_lab.Proc.Wait.{Round, returned, asleep, wait_round, wait_resume}
use riscv_os_lab.Proc.Scheduler.{
  Resume, at_forkret, after_yield, in_wait, in_exit, Machine, schedule, to_scheduler, Call, timer,
  fork_call, exit_call, wait_call, after_round, after_fork, give_up, call, turn_from, turn, Step,
  scheduler_step, process_step,
}

abbrev pub is_waiting : Resume → Bool
is_waiting (in_wait _) = true
is_waiting _ = false

abbrev pub has_exited : Resume → Bool
has_exited in_exit = true
has_exited _ = false

-- What holds of process `i`, which has the entry `q` in the table and goes on at `r`: it is the one
-- that runs exactly if it has the CPU, it sleeps only in `wait` and on itself, and once it has
-- called `exit` it is neither ready nor running.
pub record Agrees (current : Option ℕ) (cursor i : ℕ) (q : Proc) (r : Resume) : Type 0 where
  pub cur_running : current ≡ some i → q.status ≡ running
  pub running_cur : q.status ≡ running → current ≡ some i
  pub in_table : current ≡ some i → i < nproc
  pub at_cursor : current ≡ some i → cursor ≡ i
  pub sleeps_on : q.status ≡ sleeping → q.chan ≡ some i
  pub sleeps_in_wait : q.status ≡ sleeping → is_waiting r ≡ true
  pub ready_alive : q.status ≡ ready → has_exited r ≡ false
  pub running_alive : q.status ≡ running → has_exited r ≡ false

abbrev pub Inv : Machine → Type 0
Inv m = (i : ℕ) → Agrees m.procs.current m.cursor i (m.procs.proc i) (m.resume i)

schedule-Inv : (m : Machine) → m.procs.current ≡ none → Inv m → Inv (schedule m)
unfolding schedule
schedule-Inv m idle v i = ground (arith, v i, v m.cursor)

-- `swtch` to the scheduler, by a process that is no longer running
to_scheduler-Inv :
    (m : Machine) (k : Procs) (r : Resume) (p : ℕ)
    → m.procs.current ≡ some p
    → Inv m
    → ((i : ℕ) → i ≢ p → k.proc i ≡ m.procs.proc i)
    → (k.proc p).status ≢ running
    → ((k.proc p).status ≡ ready → has_exited r ≡ false)
    → ((k.proc p).status ≡ sleeping → ((k.proc p).chan ≡ some p) × (is_waiting r ≡ true))
    → Inv (to_scheduler k r p m)
to_scheduler-Inv m k r p cur v same stop alive slept i = ground (arith, v i, v p, same i)

timer-Inv :
    (m n : Machine) (p : ℕ)
    → m.procs.current ≡ some p
    → Inv m
    → give_up after_yield p m (yield m.procs) ≡ some n
    → Inv n
unfolding yield
timer-Inv m n p cur v e i =
    let e' : give_up after_yield p m (ok tt (set_proc p (set_status ready) m.procs)) ≡ some n =
      rw (myproc-ok p m.procs cur) at e in
    ground (arith, v i, v p)

exit-Inv :
    (m n : Machine) (p status : ℕ)
    → m.procs.current ≡ some p
    → Inv m
    → give_up in_exit p m (exit status m.procs) ≡ some n
    → Inv n
exit-Inv m n p status cur v e i =
    let k : Procs = record (m.procs) {
      proc = exit_table p status m.procs;
      console = exited (m.procs.proc p).pid status ∷ m.procs.console;
    } in
    let e' : give_up in_exit p m (ok tt k) ≡ some n = rw (exit-ok p status m.procs cur) at e in
    ground (arith, v i, v p)

after_fork-Inv :
    (m n : Machine) (r : Run Procs ℕ)
    → Inv m
    → Returns (λ _ k'. Forked m.procs k') r
    → after_fork m r ≡ some n
    → Inv n
after_fork-Inv m n r v (returns {s = k} f) e i = ground (arith, v i, f.each i, f.current)

after_round-Inv :
    (m n : Machine) (p addr : ℕ) (r : Run Procs Round)
    → m.procs.current ≡ some p
    → Inv m
    → Ensures (Waited p m.procs) r
    → after_round p addr m r ≡ some n
    → Inv n
after_round-Inv m n p addr r cur v (done {a = returned x} {s = k} (same, each)) e i =
    ground (arith, v i, v p, each i)
after_round-Inv m n p addr r cur v (done {a = asleep} {s = k} (touch, s, c)) e i =
    ground (arith, v i, v p, touch.others i)
after_round-Inv m n p addr r cur v panics e i = cc
after_round-Inv m n p addr r cur v runs_out e i = cc
after_round-Inv m n p addr r cur v faults e i = cc

-- `p` when `sleep` has returned
abbrev awake : ℕ → Procs → Procs
awake p k = set_proc p (λ q. record q { chan = none }) k

awake-Inv :
    (m : Machine) (p : ℕ)
    → m.procs.current ≡ some p
    → Inv m
    → Inv (record m { procs = awake p m.procs })
awake-Inv m p cur v i = ground (arith, v i, v p)

module _ (end_address forkret : ℕ) where
  wait_round-Waited :
      (p addr : ℕ) (k : Procs)
      → k.current ≡ some p
      → Ensures (Waited p k) (wait_round end_address addr k)
  unfolding wait_round
  wait_round-Waited p addr k cur =
      rw (myproc-ok p k cur) (wait_scan-Waited end_address nproc 0 false addr p k cur)

  wait_resume-Waited :
      (p addr : ℕ) (k : Procs)
      → k.current ≡ some p
      → Ensures (Waited p (awake p k)) (wait_resume end_address addr k)
  unfolding wait_resume sleep_end
  wait_resume-Waited p addr k cur =
      rw (myproc-ok p k cur) (wait_round-Waited p addr (awake p k) cur)

  call-Inv :
      (m n : Machine) (p : ℕ) (c : Call)
      → m.procs.current ≡ some p
      → Inv m
      → call end_address forkret p c m ≡ some n
      → Inv n
  unfolding call
  call-Inv m n p timer cur v e = timer-Inv m n p cur v e
  call-Inv m n p fork_call cur v e =
      after_fork-Inv m n (fork forkret m.procs) v (fork-Forked forkret p m.procs cur) e
  call-Inv m n p (exit_call status) cur v e = exit-Inv m n p status cur v e
  call-Inv m n p (wait_call addr) cur v e =
      after_round-Inv m n p addr (wait_round end_address addr m.procs) cur v
        (wait_round-Waited p addr m.procs cur) e

  turn_from-Inv :
      (r : Resume) (m n : Machine) (p : ℕ) (c : Call)
      → m.procs.current ≡ some p
      → Inv m
      → turn_from end_address forkret r p c m ≡ some n
      → Inv n
  unfolding turn_from
  turn_from-Inv at_forkret m n p c cur v e = call-Inv m n p c cur v e
  turn_from-Inv after_yield m n p c cur v e = call-Inv m n p c cur v e
  turn_from-Inv (in_wait addr) m n p c cur v e =
      after_round-Inv (record m { procs = awake p m.procs }) n p addr
        (wait_resume end_address addr m.procs) cur (awake-Inv m p cur v)
        (wait_resume-Waited p addr m.procs cur) e
  turn_from-Inv in_exit m n p c cur v e = cc

  -- Every step of the scheduler and of the process that has the CPU keeps the table in agreement
  -- with `cpus[0].proc`: exactly the current process is running, sleepers sleep in `wait` on
  -- themselves, and a process that has called `exit` is never ready or running again.
  pub Step-Inv : {m n : Machine} → Step end_address forkret m n → Inv m → Inv n
  unfolding turn
  Step-Inv (scheduler_step m idle) v = schedule-Inv m idle v
  Step-Inv (process_step m n p c cur e) v = turn_from-Inv (m.resume p) m n p c cur v e

  pub data Reach (m : Machine) : Machine → Type 0 where
    here : Reach m m
    next : {n o : Machine} → Reach m n → Step end_address forkret n o → Reach m o

  pub Reach-Inv : {m n : Machine} → Inv m → Reach m n → Inv n
  Reach-Inv v here = v
  Reach-Inv v (next r s) = Step-Inv s (Reach-Inv v r)

  -- Mutual exclusion on the one CPU, at every machine that steps reach: two processes that are
  -- running are the same one.
  pub Reach-running_unique :
      {m n : Machine} (i j : ℕ)
      → Inv m
      → Reach m n
      → (n.procs.proc i).status ≡ running
      → (n.procs.proc j).status ≡ running
      → i ≡ j
  Reach-running_unique i j v r hi hj =
      let w = Reach-Inv v r in ground (arith, (w i).running_cur hi, (w j).running_cur hj)
