-- ===== src/Syscall/Args.antt =====
-- The arguments of a system call in syscall/syscall.c. User addresses are physical addresses, since
-- the kernel maps memory identically.
use riscv_os_lab.Prelude.{
  ℕ, zero, suc, ◌+◌, ◌-◌, ◌%◌, ◌^◌, Option, List, [], ◌∷◌, ltb, ◌==◌, if◌then◌else◌,
}
use riscv_os_lab.Prelude.Words.{Bytes}
use riscv_os_lab.Prelude.Runs.{Reason, ok, panic, Cmd, ◌>>=◌, pure, get, in_part}
use riscv_os_lab.Fs.State.{Fs}

-- What a system call on files works on: the file system, the table `ofile` of the current process,
-- the registers a0 to a5 of its trapframe, memory, and the bytes sent to the console, last first.
pub record Task (D : Type 0) : Type 0 where
  pub fs : Fs D
  pub ofile : ℕ → Option ℕ
  pub arg : ℕ → ℕ
  pub mem : Bytes
  pub console : List ℕ

-- The string at address `a`, cut after `n` bytes.
unfoldable pub arg_bytes : ℕ → Bytes → ℕ → List ℕ
arg_bytes zero mem a = []
arg_bytes (suc n) mem a =
    let rest = arg_bytes n mem (a + 1) in if mem a == 0 then [] else mem a ∷ rest

module _ {D : Type 0} where
  unfoldable pub argraw : ℕ → Cmd (Task D) ℕ
  argraw n t = if ltb n 6 then ok (t.arg n) t else panic Reason.argraw_invalid_argument_index

  -- (int), as a bit pattern
  unfoldable pub argint : ℕ → Cmd (Task D) ℕ
  unfolding argraw
  argint n = do v ← argraw n; pure (v % 2 ^ 32)

  unfoldable pub argaddr : ℕ → Cmd (Task D) ℕ
  unfolding argraw
  argaddr n = argraw n

  -- The string that `buf` holds when `argstr` returns its length, at most max - 1.
  unfoldable pub argstr : ℕ → ℕ → Cmd (Task D) (List ℕ)
  unfolding argaddr arg_bytes
  argstr n max = do addr ← argaddr n; t ← get; pure (arg_bytes (max - 1) t.mem addr)

  abbrev pub on_fs : {A : Type 0} → Cmd (Fs D) A → Cmd (Task D) A
  on_fs = in_part (λ t. t.fs) (λ s t. record t { fs = s })
