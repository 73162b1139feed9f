-- ===== src/Syscall/Process.antt =====
-- The system calls of syscall/sysproc.c and the dispatch of syscall/syscall.c. The registers of the
-- caller stand in its trapframe, a0 in word 14 and a7 in word 21. `exit` and `wait` go up to their
-- call of `swtch`.
use riscv_os_lab.Prelude.{
  ℕ, ◌+◌, ◌*◌, ◌%◌, ◌^◌, ◌&&◌, Option, none, some, ◌∷◌, ltb, ◌==◌, ◌!=◌, if◌then◌else◌,
}
use riscv_os_lab.Prelude.Words.{load64, store64}
use riscv_os_lab.Prelude.Runs.{Reason, Cmd, ◌>>=◌, ◌>>◌, pure, get, modify, halt}
use riscv_os_lab.Proc
use riscv_os_lab.Proc.{Message, unknown_syscall, Procs, set_mem, myproc, minus_one}
use riscv_os_lab.Proc.Wait.{Round, wait_round}
use riscv_os_lab.Syscall.File.{sign_extend, minus_one64}

-- p->trapframe->a0 for n = 14, and so on
abbrev pub register : ℕ → ℕ → Procs → ℕ
register p n k = load64 k.pages.mem ((k.proc p).trapframe + 8 * n)

abbrev pub set_a0 : ℕ → ℕ → Procs → Procs
set_a0 p v k = set_mem (λ m. store64 m ((k.proc p).trapframe + 8 * 14) v) k

-- argraw for the current process
unfoldable pub proc_arg : ℕ → Cmd Procs ℕ
proc_arg n = do
  p ← myproc
  k ← get
  if ltb n 6 then pure (register p (14 + n) k) else halt Reason.argraw_invalid_argument_index

unfoldable pub sys_getpid : Cmd Procs ℕ
sys_getpid = do p ← myproc; k ← get; pure (sign_extend (k.proc p).pid)

unfoldable pub sys_exit : Cmd Procs (Unit {0})
unfolding proc_arg
sys_exit = do n ← proc_arg 0; Proc.exit (n % 2 ^ 32)

unfoldable pub sys_fork : ℕ → Cmd Procs ℕ
sys_fork forkret = do pid ← Proc.fork forkret; pure (sign_extend pid)

unfoldable pub sys_wait : ℕ → Cmd Procs Round
unfolding proc_arg
sys_wait end_address = do addr ← proc_arg 0; wait_round end_address addr

unfoldable pub sys_sbrk : Cmd Procs ℕ
sys_sbrk = pure minus_one64

-- The functions in `syscalls[]`.
pub data Handler : Type 0 where
  do_fork do_exit do_wait do_read do_getpid do_sbrk do_open do_write do_close : Handler

-- syscalls[num], `none` where the entry is null; NELEM(syscalls) is 18.
unfoldable pub syscalls : ℕ → Option Handler
syscalls num =
    if num == 1
    then some do_fork
    else if num == 2
    then some do_exit
    else if num == 3
    then some do_wait
    else if num == 11
    then some do_getpid
    else if num == 12
    then some do_sbrk
    else if num == 13
    then some do_read
    else if num == 15
    then some do_open
    else if num == 16
    then some do_write
    else if num == 17
    then some do_close
    else none

-- The test of `syscall` on the number in a7, as an `int`.
unfoldable pub handler : ℕ → Option Handler
handler a7 =
    let num = a7 % 2 ^ 32 in
    if (num != 0) && ltb num (2 ^ 31) && ltb num 18 then syscalls num else none

-- The branch of `syscall` for a number that has no function.
unfoldable pub unknown_call : Cmd Procs (Unit {0})
unknown_call = do
  p ← myproc
  modify (λ k. record k {
    console = unknown_syscall (register p 21 k % 2 ^ 32) (k.proc p).pid ∷ k.console;
  })
  modify (set_a0 p minus_one64)

-- `syscall` for a call that returns a value.
unfoldable pub returning : Cmd Procs ℕ → Cmd Procs (Unit {0})
returning call = do p ← myproc; v ← call; modify (set_a0 p v)

-- `syscall` for the calls of sysproc.c that return without a call of `swtch`, and for a number that
-- has no function; `none` for the other calls.
unfoldable pub syscall_proc : ℕ → Option Handler → Option (Cmd Procs (Unit {0}))
unfolding sys_getpid sys_fork sys_sbrk
syscall_proc forkret none = some unknown_call
syscall_proc forkret (some do_fork) = some (returning (sys_fork forkret))
syscall_proc forkret (some do_getpid) = some (returning sys_getpid)
syscall_proc forkret (some do_sbrk) = some (returning sys_sbrk)
syscall_proc forkret (some _) = none
