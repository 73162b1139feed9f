-- ===== src/Proc/Touches.antt =====
-- Which processes each function of proc/proc.c touches, whatever memory holds.
use riscv_os_lab.Prelude.{
  ℕ, ◌+◌, ◌/◌, ◌%◌, ◌^◌, ◌<◌, ◌≡◌, refl, ◌∙◌, ◌≢◌, ◌⊎◌, inl, inr, Option, none, some, arith, ◌==◌,
  if◌then◌else◌, Bool-cases, Option-cases, ℕ-cases, find_first-some,
}
use riscv_os_lab.Prelude.{for_each_lem}
use riscv_os_lab.Prelude.Words.{load64}
use riscv_os_lab.Prelude.Runs
use riscv_os_lab.Prelude.Runs.{
  Reason, Run, ok, panic, out_of_fuel, fault, Cmd, ◌>>=◌, ◌>>◌, and_then, put_back, pure, get,
  modify, halt, in_part, Returns, returns,
}
use riscv_os_lab.Mm.Kalloc
use riscv_os_lab.Mm.Kalloc.{Pages, pgsize}
use riscv_os_lab.Prelude.Runs.{
  Ensures, done, panics, runs_out, faults, Ensures-bind, Ensures-mono, Ensures-of_Returns,
}
use riscv_os_lab.Proc
use riscv_os_lab.Proc.{
  Status, free, allocated, ready, is_free, Procs, nproc, minus_one, set_proc, set_status, myproc,
  allocpid, page_alloc, free_slot, init_slot, allocproc, fork_into, fork, wakes, wakeup,
}

-- Apart from the slot `i` the table is the same, and so is the process that has the CPU.
pub record Touches (i : ℕ) (k k' : Procs) : Type 0 where
  pub current : k'.current ≡ k.current
  pub others : (j : ℕ) → j ≢ i → k'.proc j ≡ k.proc j

-- `kalloc` always returns, and changes only memory and its list.
pub page_alloc-ok :
    (k : Procs) → (r : ℕ) × (g : Pages) × (page_alloc k ≡ ok r (record k { pages = g }))
unfolding page_alloc Kalloc.kalloc
page_alloc-ok k = elim (Bool-cases (k.pages.free_mem_list == 0)) [
  | inl empty ↦ (0, k.pages, rw empty)
  | inr more ↦ (
    k.pages.free_mem_list,
    record {
      mem = Kalloc.zero_words (pgsize / 8) k.pages.free_mem_list k.pages.mem;
      free_mem_list = load64 k.pages.mem k.pages.free_mem_list;
    },
    rw more,
  )
]

-- what `init_slot` makes of a free slot
abbrev pub SlotStatus : ℕ → Option ℕ → Status → Type 0
SlotStatus i none s = s ≡ free
SlotStatus i (some c) s = (c ≡ i) × (s ≡ allocated)

abbrev pub Filled : ℕ → Procs → Option ℕ → Procs → Type 0
Filled i k r k' = Touches i k k' × SlotStatus i r (k'.proc i).status

module _ (forkret : ℕ) where
  pub init_slot-Filled : (i : ℕ) (k : Procs) → Returns (Filled i k) (init_slot forkret i k)
  unfolding init_slot allocpid
  init_slot-Filled i k =
      let k1 : Procs =
        set_proc i (λ p. record p { pid = k.nextpid })
          (record k { nextpid = (k.nextpid + 1) % 2 ^ 32 }) in
      let (r, g, e) = page_alloc-ok k1 in
      rw e (elim (Bool-cases (r == 0)) [
        | inl null ↦
            rw null
              (returns (record { current = refl; others = λ j ne. ground arith }, ground arith))
        | inr page ↦
            rw page
              (returns (record { current = refl; others = λ j ne. ground arith }, ground arith))
      ])

-- What `fork_into` does to a slot other than the parent's: the child is ready or its slot free.
abbrev pub Spawned : ℕ → Procs → ℕ → Procs → Type 0
Spawned i k v k' = Touches i k k' × ((((k'.proc i).status) ≡ ready) ⊎ (((k'.proc i).status) ≡ free))

pub fork_into-Spawned : (p i : ℕ) (k : Procs) → Returns (Spawned i k) (fork_into p i k)
unfolding fork_into
fork_into-Spawned p i k =
    let (r, g, e) = page_alloc-ok k in
    rw e (elim (Bool-cases (r == 0)) [
      | inl null ↦
          rw null
            (returns (record { current = refl; others = λ j ne. ground arith }, inr (ground arith)))
      | inr page ↦
          rw page
            (returns (record { current = refl; others = λ j ne. ground arith }, inl (ground arith)))
    ])

pub myproc-ok : (p : ℕ) (k : Procs) → k.current ≡ some p → myproc k ≡ ok p k
unfolding myproc
myproc-ok p k e = ground arith

pub yield-ok :
    (p : ℕ) (k : Procs)
    → k.current ≡ some p
    → Proc.yield k ≡ ok tt (set_proc p (set_status ready) k)
unfolding Proc.yield
yield-ok p k cur = rw (myproc-ok p k cur) refl

module _ (forkret : ℕ) (k : Procs) where
  pub allocproc-none : free_slot k ≡ none → allocproc forkret k ≡ ok none k
  unfolding allocproc
  allocproc-none e = rw (e, allocproc)

  pub allocproc-some : (c : ℕ) → free_slot k ≡ some c → allocproc forkret k ≡ init_slot forkret c k
  unfolding allocproc
  allocproc-some c e = rw (e, allocproc)

-- What a call leaves of the table: a process in use is as it was, and a slot that was free is free
-- still or holds a process that is ready.
pub record Forked (k k' : Procs) : Type 0 where
  pub current : k'.current ≡ k.current
  pub each :
      (i : ℕ)
      → (k'.proc i ≡ k.proc i)
        ⊎ (((k.proc i).status ≡ free)
            × (((k'.proc i).status ≡ ready) ⊎ ((k'.proc i).status ≡ free)))

free_slot-free : (k : Procs) (c : ℕ) → free_slot k ≡ some c → (k.proc c).status ≡ free
free_slot-free k c e =
    let (lo, hi, t, before) = find_first-some (λ i. is_free (k.proc i).status) nproc 0 e in
    ground arith

Forked-slot :
    {k k' : Procs} (c : ℕ)
    → Touches c k k'
    → (k.proc c).status ≡ free
    → (((k'.proc c).status ≡ ready) ⊎ ((k'.proc c).status ≡ free))
    → Forked k k'
Forked-slot c touch was now = record {
  current = touch.current;
  each = λ i. elim (ℕ-cases i c) [
    | inl e ↦ inr (rw e was, rw e now)
    | inr ne ↦ inl (touch.others i ne)
  ];
}

module _ (forkret : ℕ) where
  -- `fork` returns, and touches at most one free slot.
  pub fork-Forked :
      (p : ℕ) (k : Procs) → k.current ≡ some p → Returns (λ _ k'. Forked k k') (fork forkret k)
  unfolding fork
  fork-Forked p k cur = rw (myproc-ok p k cur) (elim (Option-cases (free_slot k)) [
    | inl full ↦
        rw (allocproc-none forkret k full)
          (returns (record { current = refl; each = λ i. inl refl }))
    | inr (c, slot) ↦
        let was = free_slot-free k c slot in
        rw (allocproc-some forkret k c slot)
          (Runs.bind (init_slot-Filled forkret c k) (spawn p k c was))
  ])
    where
      spawn :
          (p : ℕ) (k : Procs) (c : ℕ)
          → (k.proc c).status ≡ free
          → (r : Option ℕ) (k' : Procs) → Filled c k r k'
          → Returns
              (λ _ k''. Forked k k'')
              (and_then (ok r k') λ np. elim np [ none ↦ pure minus_one | some c ↦ fork_into p c ])
      spawn p k c was none k' (touch, s) = returns (Forked-slot c touch was (inr s))
      spawn p k c was (some d) k' (touch, s) = rw s.0 (
          Runs.mono (fork_into-Spawned p c k') λ v k'' (touch', s').
            Forked-slot c
              (record {
                current = touch'.current ∙ touch.current;
                others = λ j ne. touch'.others j ne ∙ touch.others j ne;
              })
              was s')

pub wakeup_lem :
    (chan : Option ℕ) (k : Procs) (i : ℕ)
    → i < nproc
    → Returns
        (λ _ k'.
          k'.proc i
          ≡ (if wakes k.current chan i (k.proc i) then set_status ready (k.proc i) else k.proc i))
        (wakeup chan k)
unfolding wakeup
wakeup_lem chan k i h = returns (
    ground (
      arith,
      for_each_lem nproc 0 (λ i q. if wakes k.current chan i q then set_status ready q else q)
          k.proc i,
    ))
