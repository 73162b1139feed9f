-- ===== src/User.antt =====
-- The user program user/proczero.c over the system calls that it makes.
pub mod Texts
pub mod Numbers
mod Tests
use riscv_os_lab.Prelude.{
  ℕ, zero, suc, ◌+◌, ◌-◌, ◌*◌, ◌/◌, ◌%◌, ◌^◌, ◌≤◌, ◌≡◌, Bool, true, false, Option, none, some, List,
  [], ◌∷◌, ◌++◌, ltb, ◌==◌, ◌!=◌, if◌then◌else◌,
}
use riscv_os_lab.Prelude.Words.{Bytes}
use riscv_os_lab.Prelude.Runs.{fault, Cmd, ◌>>=◌, ◌>>◌, pure, Returns}
use riscv_os_lab.Driver.Console.{is_negative}
use riscv_os_lab.User.Texts.{
  my_pid, test_1, file_path, open_failed, file_text, write_failed, test_1_passed, test_2,
  reopen_failed, wrong_length, test_2_passed, child_hello, parent_child, exited_with,
}

-- The system calls. An `int` is its bit pattern; `sys_write` is handed the bytes themselves, and
-- `sys_read` returns the buffer. The law is that of the console: a write to descriptor 1 sends the bytes.
pub record Kernel : Type 1 where
  pub World : Type 0
  pub printed : World → List ℕ
  pub sys_getpid : Cmd World ℕ
  pub sys_fork : Cmd World ℕ
  pub sys_wait : Cmd World (ℕ × ℕ)
  pub sys_exit : ℕ → Cmd World (Unit {0})
  pub sys_write : ℕ → List ℕ → Cmd World ℕ
  pub sys_open : List ℕ → ℕ → Cmd World ℕ
  pub sys_read : ℕ → Bytes → ℕ → Cmd World (ℕ × Bytes)
  pub sys_close : ℕ → Cmd World ℕ
  pub write_lem :
      (out : List ℕ) (w : World)
      → Returns (λ _ w'. printed w' ≡ printed w ++ out) (sys_write 1 out w)

abbrev pub o_rdonly : ℕ
o_rdonly = 0x000

abbrev pub o_wronly : ℕ
o_wronly = 0x001

abbrev pub o_creat : ℕ
o_creat = 0x200

-- while (s[n]) n++; on a buffer with `room` bytes from `n` on. `none` is a read past its end.
unfoldable pub count_to_nul : ℕ → Bytes → ℕ → Option ℕ
count_to_nul zero s n = none
count_to_nul (suc room) s n =
    let rest = count_to_nul room s (n + 1) in if s n == 0 then some n else rest

-- the first `n` bytes from `i` on
unfoldable pub bytes_from : ℕ → Bytes → ℕ → List ℕ
bytes_from zero s i = []
bytes_from (suc n) s i = s i ∷ bytes_from n s (i + 1)

-- The loop that fills `buf`, with `room` bytes left of its 16: the digit written last is the first of the
-- list. `none` is a write past the end of `buf`.
unfoldable pub put_digits : ℕ → ℕ → List ℕ → Option (List ℕ)
put_digits zero x buf = if x == 0 then some buf else none
put_digits (suc room) x buf =
    let rest = put_digits room (x / 10) ((b'0' + x % 10) ∷ buf) in if x == 0 then some buf else rest

-- x = -n if n < 0, else n
abbrev pub absolute : ℕ → ℕ
absolute n = if is_negative 32 n then (2 ^ 32 - n) % 2 ^ 32 else n

module _ ⦃kernel : Kernel⦄ where
  unfoldable pub printchar : ℕ → Cmd kernel.World (Unit {0})
  printchar c = do kernel.sys_write 1 (c ∷ []); pure tt

  unfoldable pub printstr : ℕ → Bytes → Cmd kernel.World (Unit {0})
  printstr room s = elim (count_to_nul room s 0) [
    | none ↦ λ w. fault
    | some n ↦ do kernel.sys_write 1 (bytes_from n s 0); pure tt
  ]

  -- `printstr` of a literal
  abbrev pub say : List ℕ → Cmd kernel.World (Unit {0})
  say text = do kernel.sys_write 1 text; pure tt

  -- while (--i >= 0) write(1, &buf[i], 1);
  unfoldable pub print_each : List ℕ → Cmd kernel.World (Unit {0})
  print_each [] = pure tt
  print_each (c ∷ buf) = do printchar c; print_each buf

  unfoldable pub print_digits : ℕ → Cmd kernel.World (Unit {0})
  print_digits x =
      if x == 0
      then printchar b'0'
      else elim (put_digits 16 x []) [ none ↦ λ w. fault | some buf ↦ print_each buf ]

  unfoldable pub printnum : ℕ → Cmd kernel.World (Unit {0})
  printnum n =
      if is_negative 32 n
      then (do printchar b'-'; print_digits (absolute n))
      else print_digits (absolute n)

  unfoldable pub show_pid : Cmd kernel.World (Unit {0})
  show_pid = do pid ← kernel.sys_getpid; say my_pid; printnum pid; printchar 10

  unfoldable pub test_write : Cmd kernel.World (Unit {0})
  test_write = do
    say test_1
    fd ← kernel.sys_open file_path (o_creat + o_wronly)
    if is_negative 32 fd then say open_failed else do
      r ← kernel.sys_write fd file_text
      if r != 20 then say write_failed else say test_1_passed
      kernel.sys_close fd
      pure tt

  unfoldable pub test_read : Cmd kernel.World (Unit {0})
  test_read = do
    say test_2
    fd ← kernel.sys_open file_path o_rdonly
    if is_negative 32 fd then say reopen_failed else do
      (r, buf) ← kernel.sys_read fd (λ _. 0) 64
      kernel.sys_close fd
      if r != 20 then say wrong_length else do say test_2_passed; printstr 64 buf

  unfoldable pub test_fork : Cmd kernel.World (Unit {0})
  test_fork = do
    child ← kernel.sys_fork
    if child == 0 then (do say child_hello; kernel.sys_exit 1) else do
      (cpid, status) ← kernel.sys_wait
      say parent_child
      printnum cpid
      say exited_with
      printnum status
      printchar 10

  -- Code behind a call of `exit` runs only if the call returns.
  unfoldable pub main : Cmd kernel.World (Unit {0})
  main = do show_pid; test_write; test_read; test_fork; kernel.sys_exit 0

  unfoldable pub start : Cmd kernel.World (Unit {0})
  start = do main; kernel.sys_exit 0
