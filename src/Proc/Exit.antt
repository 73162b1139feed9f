-- ===== src/Proc/Exit.antt =====
-- `exit` and `wakeup` of proc/proc.c in closed form: the table that each leaves.
use riscv_os_lab.Prelude.{
  ℕ, ◌<◌, ◌≡◌, ◌≢◌, Option, some, ◌∷◌, arith, ltb, if◌then◌else◌, ==_refl, update,
}
use riscv_os_lab.Prelude.Runs.{ok, Returns, returns}
use riscv_os_lab.Proc.{
  ready, sleeping, zombie, same_pointer, Proc, exited, Procs, nproc, set_status, wakes, wakeup,
  reparent, exit,
}
use riscv_os_lab.Prelude.{for_each-eq}
use riscv_os_lab.Proc.Touches.{myproc-ok}

-- the table when `reparent` returns
abbrev pub reparented : ℕ → (ℕ → Proc) → ℕ → Proc
reparented p t i =
    if ltb i nproc
    then if same_pointer (t i).parent (some p) then record (t i) { parent = some 0 } else t i
    else t i

-- the table when `wakeup` returns
abbrev pub woken : Option ℕ → Option ℕ → (ℕ → Proc) → ℕ → Proc
woken current chan t i =
    if ltb i nproc then if wakes current chan i (t i) then set_status ready (t i) else t i else t i

pub reparent-ok :
    (p : ℕ) (k : Procs) → reparent p k ≡ ok tt (record k { proc = reparented p k.proc })
unfolding reparent
reparent-ok p k = rw for_each-eq

pub wakeup-ok :
    (chan : Option ℕ) (k : Procs)
    → wakeup chan k ≡ ok tt (record k { proc = woken k.current chan k.proc })
unfolding wakeup
wakeup-ok chan k = rw for_each-eq

-- the table when `exit` calls `swtch`
abbrev pub exit_table : ℕ → ℕ → Procs → ℕ → Proc
exit_table p status k =
    let t = reparented p (update k.proc p (record (k.proc p) { xstate = status })) in
    let u = woken k.current (t p).parent t in update u p (set_status zombie (u p))

pub exit-ok :
    (p status : ℕ) (k : Procs)
    → k.current ≡ some p
    → exit status k
      ≡ ok tt (record k {
        proc = exit_table p status k;
        console = exited (k.proc p).pid status ∷ k.console;
      })
unfolding exit
exit-ok p status k cur = rw (myproc-ok p k cur, reparent-ok, wakeup-ok, ==_refl p)

-- What `exit` by `p` does to the table.
pub record ExitEffects (p status : ℕ) (k k' : Procs) : Type 0 where
  pub zombie_left : (k'.proc p).status ≡ zombie
  pub code : (k'.proc p).xstate ≡ status
  pub parent_woken :
      (j : ℕ)
      → (k.proc p).parent ≡ some j
      → j ≢ p
      → j < nproc
      → (k.proc j).status ≡ sleeping
      → (k.proc j).chan ≡ some j
      → (k'.proc j).status ≡ ready
  pub orphans : (i : ℕ) → i < nproc → (k.proc i).parent ≡ some p → (k'.proc i).parent ≡ some 0
  pub families : (i : ℕ) → (k.proc i).parent ≢ some p → (k'.proc i).parent ≡ (k.proc i).parent
  pub awake_kept :
      (i : ℕ) → i ≢ p → (k.proc i).status ≢ sleeping → (k'.proc i).status ≡ (k.proc i).status

-- `exit` leaves a zombie with the exit code, wakes a parent that sleeps in `wait`, hands every child
-- of the process to proc[0] and changes no other parent, and leaves the status of every other
-- process that is not asleep.
pub exit_lem :
    (p status : ℕ) (k : Procs)
    → k.current ≡ some p
    → p < nproc
    → Returns (λ _. ExitEffects p status k) (exit status k)
exit_lem p status k cur lt = rw (exit-ok p status k cur) (
    returns (record {
      zombie_left = ground arith;
      code = ground arith;
      parent_woken = λ j e ne b s c. ground arith;
      orphans = λ i b e. ground arith;
      families = λ i e. ground arith;
      awake_kept = λ i ne s. ground arith;
    }))

-- A zombie child of a process that exits goes to proc[0] without a wakeup: if proc[0] sleeps in
-- `wait` on itself and is not the parent of the process that exits, it sleeps on, though a child
-- of its own is now a zombie.
pub exit-lost_wakeup :
    (p c status : ℕ) (k : Procs)
    → k.current ≡ some p
    → c < nproc
    → c ≢ p
    → p ≢ 0
    → (k.proc c).parent ≡ some p
    → (k.proc c).status ≡ zombie
    → (k.proc 0).status ≡ sleeping
    → (k.proc 0).chan ≡ some 0
    → (k.proc p).parent ≢ some 0
    → (k.proc p).parent ≢ some p
    → Returns
        (λ _ k'.
          ((k'.proc 0).status ≡ sleeping)
          × ((k'.proc c).status ≡ zombie)
          × ((k'.proc c).parent ≡ some 0))
        (exit status k)
exit-lost_wakeup p c status k cur b ne np par z s ch other self =
    rw (exit-ok p status k cur) (returns (ground arith, ground arith, ground arith))
