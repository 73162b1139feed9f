-- ===== src/Syscall/Descriptors.antt =====
-- The system calls of syscall/sysfile.c on a descriptor that names no open file.
use riscv_os_lab.Prelude.{ℕ, ◌%◌, ◌^◌}
use riscv_os_lab.Prelude.Runs.{◌>>=◌, ◌>>◌}
use riscv_os_lab.Fs.Bio.{BlockDriver}
use riscv_os_lab.Syscall.File.{TaskState}

module _ ⦃driver : BlockDriver⦄ where
  -- the first argument of the call, as an `int`
  abbrev pub descriptor : TaskState → ℕ
  descriptor t = t.arg 0 % 2 ^ 32
