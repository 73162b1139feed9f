-- ===== src/Trap/Tests.antt =====
-- Interrupts of trap/trap.c at small inputs.
use riscv_os_lab.Prelude.{◌+◌, ◌^◌, none, []}
use riscv_os_lab.Mm.Kalloc.Tests.{no_pages}
use riscv_os_lab.Proc.{Procs, free}
use riscv_os_lab.Trap.{Kernel}

abbrev no_procs : Procs
no_procs = record {
  pages = no_pages;
  proc = λ _. record {
    status = free;
    pid = 0;
    pagetable = 0;
    trapframe = 0;
    context = λ _. 0;
    kstack = 0;
    sz = 0;
    name = λ _. 0;
    ofile = λ _. none;
    parent = none;
    chan = none;
    killed = 0;
    xstate = 0;
  };
  current = none;
  nextpid = 1;
  console = [];
}

-- an interrupt of the UART while the scheduler runs
abbrev uart_interrupt : Kernel
uart_interrupt = record {
  procs = no_procs;
  hart = record {
    sepc = 0x8000_1000;
    sstatus = 256;
    scause = 2 ^ 63 + 9;
    stval = 0;
    sip = 0;
    stvec = 0;
    satp = 0;
    tp = 0;
    ticks = 5;
    plic_claim = 10;
    uart_rhr = 65;
    completed = [];
    echoed = [];
  };
}
