-- ===== src/Proc/Tests.antt =====
-- A process table with a few processes, and the properties of proc/proc.c on it.
use riscv_os_lab.Prelude.{ℕ, zero, ◌≡◌, refl, ◌≢◌, none, some, [], arith, update, find_first}
use riscv_os_lab.Prelude.Runs.{Returns}
use riscv_os_lab.Mm.Kalloc.{Pages}
use riscv_os_lab.Proc.{
  Status, free, ready, running, sleeping, zombie, Proc, Procs, minus_one, fork, exit,
}
use riscv_os_lab.Prelude.Words.{IsBytes, store64-IsBytes}
use riscv_os_lab.Mm.Kalloc.FreeList.{FreeList}
use riscv_os_lab.Mm.Kalloc.Tests.{
  kernel_end, first_page, second_page, no_pages, one_page, two_pages, one_page-FreeList,
  two_pages-FreeList,
}
use riscv_os_lab.Proc.Exit.{ExitEffects, exit_lem, exit-lost_wakeup}
use riscv_os_lab.Proc.Fork.{Child, fork_lem, fork_leak}
use riscv_os_lab.Proc.Scheduler.{Machine, at_forkret, schedule, scheduler_step}
use riscv_os_lab.Proc.Invariant.{Inv, Step-Inv, here, next, Reach-running_unique}

abbrev forkret : ℕ
forkret = 0x8000_0200

abbrev unused : Proc
unused = record {
  status = free;
  pid = 0;
  pagetable = 0;
  trapframe = 0;
  context = λ _. 0;
  kstack = 0;
  sz = 0;
  name = λ _. 0;
  ofile = λ _. none;
  parent = none;
  chan = none;
  killed = 0;
  xstate = 0;
}

-- the page of the trapframe of proc[0]
abbrev frame_page : ℕ
frame_page = 0x8002_5000

-- proc[0] runs, and nothing else is there
abbrev alone : Pages → Procs
alone g = record {
  pages = g;
  proc =
      update (λ _. unused) 0 (record unused { status = running; pid = 1; trapframe = frame_page });
  current = some 0;
  nextpid = 2;
  console = [];
}

two_pages-IsBytes : IsBytes two_pages.mem
two_pages-IsBytes =
    store64-IsBytes one_page.mem second_page first_page
      (store64-IsBytes (λ _. 0) first_page 0 (λ a. omega arith))

fork_lem_example :
    Returns
      (λ v k'.
        (v ≡ 2)
        × FreeList kernel_end k'.pages []
        × Child kernel_end forkret (alone two_pages) 0 1 second_page first_page k')
      (fork forkret (alone two_pages))
unfolding find_first
fork_lem_example =
    fork_lem kernel_end forkret (alone two_pages) 0 1 second_page first_page [] refl refl
      (λ e. omega (arith, e)) two_pages-FreeList two_pages-IsBytes (omega arith)
      ((λ e. omega (arith, e)), ((λ e. omega (arith, e)), tt))

fork_leak_example :
    Returns
      (λ v k'.
        (v ≡ minus_one)
        × FreeList kernel_end k'.pages []
        × ((k'.proc 1).status ≡ Status.free)
        × ((j : ℕ) → j ≢ 1 → k'.proc j ≡ (alone one_page).proc j))
      (fork forkret (alone one_page))
unfolding find_first
fork_leak_example =
    fork_leak kernel_end forkret (alone one_page) 0 1 first_page refl refl one_page-FreeList

-- proc[0] waits for its child proc[1], which runs and is the parent of proc[2]
abbrev pub waited_for : Procs
waited_for = record (alone no_pages) {
  current = some 1;
  proc =
      update
        (update
          (update (λ _. unused) 0 (record unused { status = sleeping; pid = 1; chan = some 0 })) 1
          (record unused { status = running; pid = 2; parent = some 0 }))
        2 (record unused { status = ready; pid = 3; parent = some 1 });
}

exit_lem_example : Returns (λ _. ExitEffects 1 7 waited_for) (exit 7 waited_for)
exit_lem_example = exit_lem 1 7 waited_for refl (omega arith)

-- proc[3] is the parent of proc[1], which runs and has a zombie child, and proc[0] waits
abbrev orphaned : Procs
orphaned = record (alone no_pages) {
  current = some 1;
  proc =
      update
        (update
          (update
            (update (λ _. unused) 0 (record unused { status = sleeping; pid = 1; chan = some 0 })) 1
            (record unused { status = running; pid = 2; parent = some 3 }))
          2 (record unused { status = zombie; pid = 3; parent = some 1 }))
        3 (record unused { status = ready; pid = 4; parent = some 0 });
}

exit-lost_wakeup_example :
    Returns
      (λ _ k'.
        ((k'.proc 0).status ≡ sleeping)
        × ((k'.proc 2).status ≡ zombie)
        × ((k'.proc 2).parent ≡ some 0))
      (exit 0 orphaned)
exit-lost_wakeup_example =
    exit-lost_wakeup 1 2 0 orphaned refl (omega arith) (λ e. omega (arith, e))
      (λ e. omega (arith, e)) refl refl refl refl (λ e. cc) (λ e. cc)

-- the scheduler about to run proc[0]
abbrev booted : Machine
booted = record {
  procs = record (alone no_pages) {
    current = none;
    proc = update (λ _. unused) 0 (record unused { status = ready; pid = 1 });
  };
  resume = λ _. at_forkret;
  cursor = 0;
}

booted-Inv : Inv booted
booted-Inv i = ground arith

Step-Inv_example : Inv (schedule booted)
Step-Inv_example = Step-Inv kernel_end forkret (scheduler_step booted refl) booted-Inv

scheduled-running : ((schedule booted).procs.proc 0).status ≡ running
unfolding schedule
scheduled-running = refl

Reach-running_unique_example : zero ≡ zero
Reach-running_unique_example =
    Reach-running_unique kernel_end forkret {m = booted} {n = schedule booted} 0 0 booted-Inv
      (next here (scheduler_step booted refl)) scheduled-running scheduled-running

-- proc[0] with its child proc[1]
abbrev with_child : Procs
with_child = record (alone no_pages) {
  proc =
      update (alone no_pages).proc 1 (record unused { status = ready; pid = 2; parent = some 0 });
}
