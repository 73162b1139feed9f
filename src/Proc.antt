-- ===== src/Proc.antt =====
-- proc/proc.c: the process table and the life of a process. A pointer into `proc[]` is the index
-- behind `some`, and `none` is the null pointer. The kernel runs on one hart (NCPU is 1), so
-- `cpus[0].proc` is the field `current`. What `printf` is told stands in `console`.
pub mod Wait
pub mod Fork
pub mod Invariant
pub mod Exit
pub mod Touches
pub mod Reaps
pub mod Race
pub mod Init
pub mod Scheduler
pub mod Tests
use riscv_os_lab.Prelude.{
  ℕ, zero, suc, ◌+◌, ◌-◌, ◌*◌, ◌/◌, ◌%◌, ◌^◌, ◌≤◌, ◌<◌, min, ◌≡◌, refl, sym, ap, ◌∙◌, subst,
  fun_ext, ◌≢◌, ◌⊎◌, inl, inr, Bool, true, false, ◌&&◌, ◌||◌, not, Option, none, some, List, [],
  ◌∷◌, ◌++◌, map, arith, ltb, leb, ◌==◌, ◌!=◌, if◌then◌else◌, is_some, length, ==_refl, ==-false,
  ltb→lt, lt→ltb, Bool-cases, Option-cases, ℕ-cases, update, find_first, find_first-some,
  find_first-none, update_self, update_ne,
}
use riscv_os_lab.Prelude.{for_each}
use riscv_os_lab.Prelude.Words.{Bytes, load64, store64, store32}
use riscv_os_lab.Prelude.Runs.{
  Reason, Run, ok, panic, out_of_fuel, fault, Cmd, ◌>>=◌, ◌>>◌, pure, get, modify, halt, in_part,
}
use riscv_os_lab.Mm.Kalloc
use riscv_os_lab.Mm.Kalloc.{Pages, pgsize}

-- enum task_status
pub data Status : Type 0 where
  free allocated ready running sleeping zombie : Status

abbrev pub is_free : Status → Bool
is_free free = true
is_free _ = false

abbrev pub is_ready : Status → Bool
is_ready ready = true
is_ready _ = false

abbrev pub is_sleeping : Status → Bool
is_sleeping sleeping = true
is_sleeping _ = false

abbrev pub is_zombie : Status → Bool
is_zombie zombie = true
is_zombie _ = false

-- p == q for pointers
abbrev pub same_pointer : Option ℕ → Option ℕ → Bool
same_pointer none none = true
same_pointer (some a) (some b) = a == b
same_pointer _ _ = false

-- struct proc. `context` is the 14 words of struct context, of which word 12 is `ra` and word 13
-- is `sp`; a sleep channel is a pointer to a process, the only kind the kernel sleeps on.
pub record Proc : Type 0 where
  pub status : Status
  pub pid : ℕ
  pub pagetable : ℕ
  pub trapframe : ℕ
  pub context : ℕ → ℕ
  pub kstack : ℕ
  pub sz : ℕ
  pub name : ℕ → ℕ
  pub ofile : ℕ → Option ℕ
  pub parent : Option ℕ
  pub chan : Option ℕ
  pub killed : ℕ
  pub xstate : ℕ

-- The lines that the process and trap code prints.
pub data Message : Type 0 where
  exited : (pid status : ℕ) → Message
  unknown_syscall : (num pid : ℕ) → Message
  tick : (ticks : ℕ) → Message
  unexpected_external unknown_interrupt : (irq : ℕ) → Message
  kernel_exception user_exception : (scause sepc stval : ℕ) → Message
  proczero_created : (pid epc sp : ℕ) → Message

pub record Procs : Type 0 where
  pub pages : Pages
  pub proc : ℕ → Proc
  pub current : Option ℕ
  pub nextpid : ℕ
  pub console : List Message

abbrev pub nproc : ℕ
nproc = 64

-- (int)-1
abbrev pub minus_one : ℕ
minus_one = 2 ^ 32 - 1

-- proc[i].field = …
abbrev pub set_proc : ℕ → (Proc → Proc) → Procs → Procs
set_proc i f k = record k { proc = update k.proc i (f (k.proc i)) }

abbrev pub set_status : Status → Proc → Proc
set_status s p = record p { status = s }

-- `myproc` where its caller dereferences the result
unfoldable pub myproc : Cmd Procs ℕ
myproc k = elim k.current [ none ↦ fault | some p ↦ ok p k ]

unfoldable pub allocpid : Cmd Procs ℕ
allocpid k = ok k.nextpid (record k { nextpid = (k.nextpid + 1) % 2 ^ 32 })

unfoldable pub procinit : Cmd Procs (Unit {0})
procinit k = ok tt (record k { proc = for_each nproc 0 (λ _ p. set_status free p) k.proc })

unfoldable pub page_alloc : Cmd Procs ℕ
page_alloc = in_part (λ k. k.pages) (λ g k. record k { pages = g }) Kalloc.kalloc

-- the slot that `allocproc` takes
abbrev pub free_slot : Procs → Option ℕ
free_slot k = find_first (λ i. is_free (k.proc i).status) nproc 0

-- dst[i] = src[i] for the words of a page
unfoldable pub copy_words : ℕ → ℕ → ℕ → Bytes → Bytes
copy_words zero dst src m = m
copy_words (suc n) dst src m = copy_words n (dst + 8) (src + 8) (store64 m dst (load64 m src))

-- the trapframe of the child: that of the parent, with a0 (word 14) zero
abbrev pub fork_memory : ℕ → ℕ → Bytes → Bytes
fork_memory dst src m = store64 (copy_words (pgsize / 8) dst src m) (dst + 8 * 14) 0

abbrev pub set_mem : (Bytes → Bytes) → Procs → Procs
set_mem f k = record k { pages = record (k.pages) { mem = f k.pages.mem } }

-- what `fork` sets in the child, given its kernel stack and the parent
abbrev pub child_of : ℕ → Proc → Proc → Proc
child_of parent p np = record np {
  pagetable = p.pagetable;
  sz = p.sz;
  parent = some parent;
  name = for_each 16 0 (λ i _. p.name i) np.name;
  status = ready;
}

unfoldable pub fork_into : ℕ → ℕ → Cmd Procs ℕ
fork_into p np = do
  stack ← page_alloc
  modify (set_proc np (λ c. record c { kstack = stack }))
  if stack == 0 then modify (set_proc np (set_status free)) >> pure minus_one else do
    modify
        (set_proc np (λ c. record c { context = update c.context 13 ((stack + pgsize) % 2 ^ 64) }))
    modify (λ k. set_mem (fork_memory (k.proc np).trapframe (k.proc p).trapframe) k)
    modify (λ k. set_proc np (child_of p (k.proc p)) k)
    k ← get
    pure (k.proc np).pid

module _ (forkret : ℕ) where
  -- the fields that `allocproc` sets once it has its trapframe page
  abbrev pub fresh_proc : Proc → Proc
  fresh_proc p = record p {
    status = allocated;
    parent = none;
    chan = none;
    killed = 0;
    xstate = 0;
    context = update (λ _. 0) 12 forkret;
  }

  unfoldable pub init_slot : ℕ → Cmd Procs (Option ℕ)
  init_slot i = do
    pid ← allocpid
    modify (set_proc i (λ p. record p { pid = pid }))
    tf ← page_alloc
    modify (set_proc i (λ p. record p { trapframe = tf }))
    if tf == 0
        then modify (set_proc i (set_status free)) >> pure none
        else modify (set_proc i fresh_proc) >> pure (some i)

  unfoldable pub allocproc : Cmd Procs (Option ℕ)
  allocproc k = elim (free_slot k) [ none ↦ ok none k | some i ↦ init_slot i k ]

  unfoldable pub fork : Cmd Procs ℕ
  fork = do p ← myproc; np ← allocproc; elim np [ none ↦ pure minus_one | some c ↦ fork_into p c ]

-- `yield`, `sleep` and `exit` up to their call of `swtch`
unfoldable pub yield : Cmd Procs (Unit {0})
yield = do p ← myproc; modify (set_proc p (set_status ready))

unfoldable pub sleep : Option ℕ → Cmd Procs (Unit {0})
sleep chan = do p ← myproc; modify (set_proc p (λ q. record q { chan = chan; status = sleeping }))

-- what `sleep` does when `swtch` returns
unfoldable pub sleep_end : Cmd Procs (Unit {0})
sleep_end = do p ← myproc; modify (set_proc p (λ q. record q { chan = none }))

-- whether `wakeup(chan)` wakes process `i`
abbrev pub wakes : Option ℕ → Option ℕ → ℕ → Proc → Bool
wakes current chan i q =
    not (same_pointer (some i) current) && is_sleeping q.status && same_pointer q.chan chan

unfoldable pub wakeup : Option ℕ → Cmd Procs (Unit {0})
wakeup chan = modify (λ k. record k {
  proc =
      for_each nproc 0 (λ i q. if wakes k.current chan i q then set_status ready q else q) k.proc;
})

-- the children of `p` go to proc[0]
unfoldable pub reparent : ℕ → Cmd Procs (Unit {0})
reparent p = modify (λ k. record k {
  proc =
      for_each nproc 0
        (λ _ q. if same_pointer q.parent (some p) then record q { parent = some 0 } else q) k.proc;
})

unfoldable pub exit : ℕ → Cmd Procs (Unit {0})
exit status = do
  p ← myproc
  modify (set_proc p (λ q. record q { xstate = status }))
  modify (λ k. record k { console = exited (k.proc p).pid status ∷ k.console })
  reparent p
  k ← get
  wakeup (k.proc p).parent
  modify (set_proc p (set_status zombie))
