-- ===== src/Proc/Wait.antt =====
-- `wait` of proc/proc.c: one round of its loop scans the table, reaps a zombie child if there is
-- one, and else sleeps. `swtch` ends a round, and the next one starts when the process runs again.
use riscv_os_lab.Prelude.{
  ℕ, zero, suc, ◌+◌, Bool, false, ◌&&◌, ◌||◌, none, some, ◌==◌, if◌then◌else◌, update,
}
use riscv_os_lab.Prelude.Words.{store32}
use riscv_os_lab.Prelude.Runs.{ok, Cmd, ◌>>=◌, ◌>>◌, pure, get, modify, in_part}
use riscv_os_lab.Mm.Kalloc
use riscv_os_lab.Mm.Kalloc.{Pages, pgsize}
use riscv_os_lab.Proc.{
  free, is_zombie, same_pointer, Proc, Procs, nproc, minus_one, set_proc, myproc, set_mem, sleep,
  sleep_end,
}

-- How a round of the loop ends: with a return value, or asleep.
pub data Round : Type 0 where
  returned : ℕ → Round
  asleep : Round

unfoldable pub page_free : ℕ → ℕ → Cmd Procs (Unit {0})
page_free end_address pa =
    in_part (λ k. k.pages) (λ g k. record k { pages = g }) (Kalloc.kfree end_address pa)

abbrev pub is_child : ℕ → Proc → Bool
is_child p q = same_pointer q.parent (some p)

module _ (end_address : ℕ) where
  -- kfree of a page that the slot holds, unless it holds none
  unfoldable pub release : ℕ → Cmd Procs (Unit {0})
  release pa = if pa == 0 then pure tt else page_free end_address pa

  unfoldable pub reap : ℕ → ℕ → Cmd Procs Round
  reap addr c = do
    k ← get
    let pid = (k.proc c).pid
    if addr == 0 then pure tt else modify (set_mem (λ m. store32 m addr (k.proc c).xstate))
    modify (
        set_proc c
          (λ q. record q { status = free; pid = 0; parent = none; name = update q.name 0 0 }))
    release (k.proc c).trapframe
    modify (set_proc c (λ q. record q { trapframe = 0 }))
    release (k.proc c).kstack
    modify (set_proc c (λ q. record q { kstack = 0 }))
    pure (returned pid)

  -- for (child = &proc[i]; child < &proc[i + n]; child++) …, with `havekids` so far
  unfoldable pub wait_scan : ℕ → ℕ → Bool → (addr p : ℕ) → Cmd Procs Round
  wait_scan zero i havekids addr p k =
      if havekids then (sleep (some p) >> pure asleep) k else ok (returned minus_one) k
  wait_scan (suc n) i havekids addr p k =
      let child = is_child p (k.proc i) in
      let rest = wait_scan n (i + 1) (child || havekids) addr p k in
      if child && is_zombie (k.proc i).status then reap addr i k else rest

  unfoldable pub wait_round : ℕ → Cmd Procs Round
  wait_round addr = do p ← myproc; wait_scan nproc 0 false addr p

  -- A waiter that runs again: `sleep` returns and the loop goes on.
  unfoldable pub wait_resume : ℕ → Cmd Procs Round
  wait_resume addr = sleep_end >> wait_round addr
