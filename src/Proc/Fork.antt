-- ===== src/Proc/Fork.antt =====
-- `fork` of proc/proc.c over a given free list.
pub mod Memory
use riscv_os_lab.Prelude.{
  ℕ, zero, suc, ◌+◌, ◌*◌, ◌%◌, ◌^◌, ◌≤◌, ◌<◌, ◌≡◌, refl, sym, ap, ◌∙◌, fun_ext, ◌≢◌, ◌⊎◌, inl, inr,
  false, some, List, [], ◌∷◌, arith, ltb, ◌==◌, ==_refl, ==-false, Bool-cases, update,
}
use riscv_os_lab.Prelude.Words.{Bytes, load64, store64}
use riscv_os_lab.Prelude.Runs
use riscv_os_lab.Prelude.Runs.{
  Reason, Run, ok, panic, out_of_fuel, fault, Cmd, ◌>>=◌, ◌>>◌, and_then, put_back, pure, get,
  modify, halt, in_part, Returns, returns,
}
use riscv_os_lab.Mm.Kalloc
use riscv_os_lab.Mm.Kalloc.{Pages, pgsize}
use riscv_os_lab.Proc.{
  Status, ready, Proc, Procs, minus_one, set_proc, allocpid, page_alloc, free_slot, fresh_proc,
  init_slot, copy_words, fork_memory, child_of, fork_into, fork,
}
use riscv_os_lab.Prelude.Lists.{NotIn}
use riscv_os_lab.Prelude.Words.{
  IsBytes, store64-IsBytes, load64-lt, load64-frame, load64-store64_self, load64-store64_apart,
  store64_off,
}
use riscv_os_lab.Mm.Kalloc.{phystop, zero_words}
use riscv_os_lab.Mm.Kalloc.FreeList.{IsPage, FreeList, apart, SameOutside, kalloc_lem, Chain-frame}
use riscv_os_lab.Proc.Touches.{myproc-ok, allocproc-some}
use riscv_os_lab.Proc.Fork.Memory.{
  page_alloc-cons, page_alloc-nil, word-frame, fork_memory-words, fork_memory-SameOutside,
  FreeList-frame,
}

module _ (end_address : ℕ) where
  module _ (forkret : ℕ) where
    -- The child in slot `c` that `fork` by `p` makes of the pages `t` and `s`.
    pub record Child (k : Procs) (p c t s : ℕ) (k' : Procs) : Type 0 where
      pub status : (k'.proc c).status ≡ ready
      pub pid : (k'.proc c).pid ≡ k.nextpid
      pub parent : (k'.proc c).parent ≡ some p
      pub trapframe : (k'.proc c).trapframe ≡ t
      pub kstack : (k'.proc c).kstack ≡ s
      pub ra : (k'.proc c).context 12 ≡ forkret
      pub sp : (k'.proc c).context 13 ≡ s + pgsize
      pub pagetable : (k'.proc c).pagetable ≡ (k.proc p).pagetable
      pub sz : (k'.proc c).sz ≡ (k.proc p).sz
      pub ofile : (k'.proc c).ofile ≡ (k.proc c).ofile
      pub a0 : load64 k'.pages.mem (t + 8 * 14) ≡ 0
      pub words :
          (i : ℕ)
          → i < 512
          → i ≢ 14
          → load64 k'.pages.mem (t + 8 * i) ≡ load64 k.pages.mem ((k.proc p).trapframe + 8 * i)
      pub others : (j : ℕ) → j ≢ c → k'.proc j ≡ k.proc j

    -- the slot when `allocproc` returns
    abbrev started : ℕ → ℕ → Proc → Proc
    started pid t q = fresh_proc forkret (record q { pid = pid; trapframe = t })

    abbrev slot_taken : Procs → ℕ → ℕ → Pages → Procs
    slot_taken k c t g = record k {
      pages = g;
      nextpid = (k.nextpid + 1) % 2 ^ 32;
      proc = update k.proc c (started k.nextpid t (k.proc c));
    }

    init_slot-ok :
        (k : Procs) (c t : ℕ) (g : Pages)
        → 0 < t
        → ((k' : Procs) → k'.pages ≡ k.pages → page_alloc k' ≡ ok t (record k' { pages = g }))
        → init_slot forkret c k ≡ ok (some c) (slot_taken k c t g)
    unfolding init_slot allocpid
    init_slot-ok k c t g pos got =
        let k1 : Procs =
          set_proc c (λ q. record q { pid = k.nextpid })
            (record k { nextpid = (k.nextpid + 1) % 2 ^ 32 }) in
        let tz : (t == 0) ≡ false = ground arith in
        rw (got k1 refl, tz)
          (ap
            (λ f.
              ok (some c) (record k { pages = g; nextpid = (k.nextpid + 1) % 2 ^ 32; proc = f }))
            (fun_ext (λ j. ground arith)))

    -- the child when `fork` returns
    abbrev finished : ℕ → Proc → ℕ → Proc → Proc
    finished p parent s q =
        child_of p parent
          (record q { kstack = s; context = update q.context 13 ((s + pgsize) % 2 ^ 64) })

    fork_into-ok :
        (k : Procs) (p c s : ℕ) (g : Pages)
        → 0 < s
        → p ≢ c
        → page_alloc k ≡ ok s (record k { pages = g })
        → fork_into p c k
          ≡ ok (k.proc c).pid (record k {
            pages = record g { mem = fork_memory (k.proc c).trapframe (k.proc p).trapframe g.mem };
            proc = update k.proc c (finished p (k.proc p) s (k.proc c));
          })
    unfolding fork_into
    fork_into-ok k p c s g pos ne got =
        let sz : (s == 0) ≡ false = ground arith in
        let pc : (p == c) ≡ false = ==-false p c ne in
        rw (got, sz, ==_refl c, pc)
          (ap
            (λ f. ok (k.proc c).pid (record k {
              pages = record g {
                mem = fork_memory (k.proc c).trapframe (k.proc p).trapframe g.mem;
              };
              proc = f;
            }))
            (fun_ext (λ j. ground arith)))

    -- the state that `fork` leaves, by the parts that it is made of
    abbrev forked : (k : Procs) (p c t s : ℕ) (g : Pages) → Procs
    forked k p c t s g = record k {
      pages = record g { mem = fork_memory t (k.proc p).trapframe g.mem };
      nextpid = (k.nextpid + 1) % 2 ^ 32;
      proc =
          update (update k.proc c (started k.nextpid t (k.proc c))) c
            (finished p (k.proc p) s (started k.nextpid t (k.proc c)));
    }

    forked-Child :
        (k : Procs) (p c t s : ℕ) (g : Pages)
        → IsPage end_address t
        → IsPage end_address s
        → IsPage end_address (k.proc p).trapframe
        → t ≢ (k.proc p).trapframe
        → IsBytes g.mem
        → ((i : ℕ)
            → i < 512
            → load64 g.mem ((k.proc p).trapframe + 8 * i)
              ≡ load64 k.pages.mem ((k.proc p).trapframe + 8 * i))
        → Child k p c t s (forked k p c t s g)
    forked-Child k p c t s g ht hs htf ne b kept =
        let (zeroed, copied) =
          fork_memory-words end_address t (k.proc p).trapframe g.mem ht htf ne b in
        record {
          status = ground arith;
          pid = ground arith;
          parent = ground arith;
          trapframe = ground arith;
          kstack = ground arith;
          ra = ground arith;
          sp = rw (==_refl c) (omega arith);
          pagetable = ground arith;
          sz = ground arith;
          ofile = rw (==_refl c);
          a0 = zeroed;
          words = λ i lt off. copied i lt off ∙ kept i lt;
          others = λ j off. ground arith;
        }

    -- `fork` with a free slot and two free pages returns the new pid, takes exactly those pages, and
    -- leaves a ready child: its parent, pid, kernel stack and entry point are set, its trapframe is the
    -- parent's word for word but for a0, which is 0; every other process is unchanged, and the child's
    -- open files are those that its slot held before.
    pub fork_lem :
        (k : Procs) (p c t s : ℕ) (rest : List ℕ)
        → k.current ≡ some p
        → free_slot k ≡ some c
        → p ≢ c
        → FreeList end_address k.pages (t ∷ s ∷ rest)
        → IsBytes k.pages.mem
        → IsPage end_address (k.proc p).trapframe
        → NotIn (k.proc p).trapframe (t ∷ s ∷ rest)
        → Returns
            (λ v k'. (v ≡ k.nextpid) × FreeList end_address k'.pages rest × Child k p c t s k')
            (fork forkret k)
    unfolding fork
    fork_lem k p c t s rest cur slot ne list b page out =
        let (g1, got1, list1, same1, b1) = page_alloc-cons end_address t (s ∷ rest) k.pages list in
        let k2 = slot_taken k c t g1 in
        let (g2, got2, list2, same2, b2) = page_alloc-cons end_address s rest g1 list1 in
        rw
          (
            myproc-ok p k cur,
            allocproc-some forkret k c slot,
            init_slot-ok k c t g1 list.pages.0.not_null got1,
            fork_into-ok k2 p c s g2 list.pages.1.0.not_null ne (got2 k2 refl),
            ==_refl c,
            ==-false p c ne,
          )
          (returns (
            refl,
            FreeList-frame end_address t _ rest list.pages.0 list.distinct.0.1
                (fork_memory-SameOutside end_address t (k.proc p).trapframe g2.mem) list2,
            forked-Child k p c t s g2 list.pages.0 list.pages.1.0 page (λ e. out.0 (sym e))
                (b2 (b1 b))
                λ i lt.
                  word-frame end_address s (k.proc p).trapframe i list.pages.1.0 page
                    (λ e. out.1.0 (sym e)) same2 lt
                  ∙ word-frame end_address t (k.proc p).trapframe i list.pages.0 page
                      (λ e. out.0 (sym e)) same1 lt,
          ))

    -- With a free slot and a single free page `fork` returns -1 and frees the slot, but the page
    -- that it took for the trapframe is in no list any more: the free list is empty.
    pub fork_leak :
        (k : Procs) (p c t : ℕ)
        → k.current ≡ some p
        → free_slot k ≡ some c
        → FreeList end_address k.pages (t ∷ [])
        → Returns
            (λ v k'.
              (v ≡ minus_one)
              × FreeList end_address k'.pages []
              × ((k'.proc c).status ≡ Status.free)
              × ((j : ℕ) → j ≢ c → k'.proc j ≡ k.proc j))
            (fork forkret k)
    unfolding fork fork_into
    fork_leak k p c t cur slot list =
        let (g1, got1, list1, same1, b1) = page_alloc-cons end_address t [] k.pages list in
        rw
          (
            myproc-ok p k cur,
            allocproc-some forkret k c slot,
            init_slot-ok k c t g1 list.pages.0.not_null got1,
            page_alloc-nil end_address (slot_taken k c t g1) list1,
          )
          (returns (refl, list1, ground arith, λ j off. ground arith))
