-- ===== src/Boot/Tests.antt =====
-- The timer of hart 0 at a memory of zeros.
use riscv_os_lab.Prelude.{ℕ, ◌%◌, ◌≡◌, refl, arith, ◌==◌, if◌then◌else◌}
use riscv_os_lab.Boot.{Hart, clint_mtimecmp, start, timervec}
use riscv_os_lab.Boot.Timer.{Trace, begin, timer, other, due_after, start-Trace}

abbrev reset : Hart
reset = record {
  mhartid = 0;
  mstatus = 0;
  mepc = 0;
  medeleg = 0;
  mideleg = 0;
  mie = 0;
  mtvec = 0;
  mscratch = 0;
  pmpaddr0 = 0;
  pmpcfg0 = 0;
  sie = 0;
  sip = 0;
  satp = 0;
  tp = 0;
  a0 = 5;
  a1 = 6;
  a2 = 7;
  words = λ a. a % 9;
}

abbrev scratch : ℕ
scratch = 0x8000_9000

abbrev started : Hart
started = start scratch 0x8000_0100 0x8000_0200 reset

-- two interrupts, and an instruction of the kernel between them
two_interrupts :
    Trace scratch (clint_mtimecmp 0) started 2 (timervec (record (timervec started) { a1 = 9 }))
two_interrupts =
    timer
      (other (timer begin refl)
        (record { scratch = refl; where_cmp = refl; period = refl; due = refl }))
      refl

start-Trace_example :
    (timervec (record (timervec started) { a1 = 9 })).words (clint_mtimecmp 0)
    ≡ due_after (0x200_bff8 % 9) 2
start-Trace_example =
    start-Trace scratch 0x8000_0100 0x8000_0200 2 (timervec (record (timervec started) { a1 = 9 }))
      reset (omega arith) two_interrupts

-- the row of hart 0 set up by hand
abbrev set_up : Hart
set_up = record reset {
  mscratch = 100;
  words = λ a. if a == 124 then 8 else if a == 132 then 1000000 else a;
}
