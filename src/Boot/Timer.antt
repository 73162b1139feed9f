-- ===== src/Boot/Timer.antt =====
-- The timer interrupts that `timerinit` sets up and `timervec` serves.
use riscv_os_lab.Prelude.{ℕ, suc, ◌+◌, ◌*◌, ◌%◌, ◌^◌, ◌≤◌, ◌≡◌, ◌∙◌, ◌≢◌, arith}
use riscv_os_lab.Boot.{
  Hart, interval, clint_mtime, clint_mtimecmp, scratch_at, timerinit, start, timervec,
}

-- `timervec` finds what it needs: the row of `timer_scratch` is at `row`, and holds the address `cmp` of
-- mtimecmp, outside the row, and the interval.
pub record Armed (row cmp : ℕ) (s : Hart) : Type 0 where
  pub scratch : s.mscratch ≡ row
  pub where_cmp : s.words (row + 24) ≡ cmp
  pub period : s.words (row + 32) ≡ interval

-- One interrupt: the next one is due an interval later, the registers are as before, and no word changes
-- but mtimecmp and the two that the row has for registers.
pub record Served (row cmp : ℕ) (s s' : Hart) : Type 0 where
  pub due : s'.words cmp ≡ (s.words cmp + interval) % 2 ^ 64
  pub kept_a0 : s'.a0 ≡ s.a0
  pub kept_a1 : s'.a1 ≡ s.a1
  pub kept_a2 : s'.a2 ≡ s.a2
  pub raised : s'.sip ≡ 2
  pub rest : (a : ℕ) → a ≢ cmp → a ≢ row + 8 → a ≢ row + 16 → s'.words a ≡ s.words a

-- `timervec`, with its row of `timer_scratch` set up behind the register mtimecmp, puts the next interrupt
-- an interval later, raises the software interrupt, keeps the registers it uses and its row, and
-- changes no other word.
pub timervec-Served :
    (row cmp : ℕ) (s : Hart)
    → cmp + 8 ≤ row
    → Armed row cmp s
    → Served row cmp s (timervec s) × Armed row cmp (timervec s)
unfolding timervec
timervec-Served row cmp s apart armed = (
  record {
    due = ground arith;
    kept_a0 = ground arith;
    kept_a1 = ground arith;
    kept_a2 = ground arith;
    raised = ground arith;
    rest = λ a h1 h2 h3. ground arith;
  },
  record { scratch = ground arith; where_cmp = ground arith; period = ground arith },
)

-- Between two timer interrupts the kernel does not touch what `timervec` relies on.
pub record Quiet (row cmp : ℕ) (s s' : Hart) : Type 0 where
  pub scratch : s'.mscratch ≡ s.mscratch
  pub where_cmp : s'.words (row + 24) ≡ s.words (row + 24)
  pub period : s'.words (row + 32) ≡ s.words (row + 32)
  pub due : s'.words cmp ≡ s.words cmp

-- `k` timer interrupts, with anything quiet before, between and after them
pub data Trace (row cmp : ℕ) (s : Hart) : ℕ → Hart → Type 0 where
  begin : Trace row cmp s 0 s
  timer : {k : ℕ} {t u : Hart} → Trace row cmp s k t → u ≡ timervec t → Trace row cmp s (suc k) u
  other : {k : ℕ} {t u : Hart} → Trace row cmp s k t → Quiet row cmp t u → Trace row cmp s k u

-- the value of mtimecmp after `k` interrupts, when it was set up at the time `now`
abbrev pub due_after : (now k : ℕ) → ℕ
due_after now k = (now + (k + 1) * interval) % 2 ^ 64

module _ (row cmp : ℕ) (s : Hart) (now : ℕ) (apart : cmp + 8 ≤ row) (armed : Armed row cmp s)
    (first : s.words cmp ≡ due_after now 0) where
  Trace-due :
      (k : ℕ) (t : Hart) → Trace row cmp s k t → Armed row cmp t × (t.words cmp ≡ due_after now k)
  Trace-due k t begin = (armed, first)
  Trace-due k t (timer {k = j} {t = before} tr e) =
      let (armed_t, due_t) = Trace-due j before tr in
      let (served, armed_u) = timervec-Served row cmp before apart armed_t in
      (rw e armed_u, rw e (served.due ∙ rw due_t (omega arith)))
  Trace-due k t (other {k = j} {t = before} tr q) =
      let (armed_t, due_t) = Trace-due j before tr in
      (
        record {
          scratch = q.scratch ∙ armed_t.scratch;
          where_cmp = q.where_cmp ∙ armed_t.where_cmp;
          period = q.period ∙ armed_t.period;
        },
        q.due ∙ due_t,
      )

module _ (timer_scratch timervec_at start_main : ℕ) where
  start-Armed :
      (s : Hart)
      → clint_mtimecmp s.mhartid + 8 ≤ timer_scratch
      → Armed
          (scratch_at timer_scratch s.mhartid)
          (clint_mtimecmp s.mhartid)
          (start timer_scratch timervec_at start_main s)
        × ((start timer_scratch timervec_at start_main s).words (clint_mtimecmp s.mhartid)
            ≡ due_after (s.words clint_mtime) 0)
  unfolding start timerinit
  start-Armed s behind = (
    record { scratch = ground arith; where_cmp = ground arith; period = ground arith },
    ground arith,
  )

  -- After `start`, with `timer_scratch` behind the timer register of the hart, and any number of
  -- timer interrupts served by `timervec`, with code before, between and after them that leaves
  -- mscratch, the two words of the row that `timervec` reads and the timer register alone, the
  -- next interrupt is due as many intervals and one after the time at which `start` read the
  -- clock, in 64 bits.
  pub start-Trace :
      (k : ℕ) (t s : Hart)
      → clint_mtimecmp s.mhartid + 8 ≤ timer_scratch
      → Trace
          (scratch_at timer_scratch s.mhartid)
          (clint_mtimecmp s.mhartid)
          (start timer_scratch timervec_at start_main s)
          k
          t
      → t.words (clint_mtimecmp s.mhartid) ≡ due_after (s.words clint_mtime) k
  start-Trace k t s behind tr =
      let (armed, first) = start-Armed s behind in
      (Trace-due (scratch_at timer_scratch s.mhartid) (clint_mtimecmp s.mhartid)
        (start timer_scratch timervec_at start_main s) (s.words clint_mtime) (omega arith) armed
        first k t tr).1
