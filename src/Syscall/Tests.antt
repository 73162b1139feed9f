-- ===== src/Syscall/Tests.antt =====
-- The properties of the system calls, for a process whose a7 is 0 and a task without open files.
use riscv_os_lab.Prelude.{[]}
use riscv_os_lab.Prelude.{none, []}
use riscv_os_lab.Fs.Tests.{ram_disk, root_only}
use riscv_os_lab.Syscall.File.{TaskState}

-- read(3, …), close(3) and write(3, …) with no open file
abbrev no_files : TaskState ⦃driver = ram_disk⦄
no_files = record { fs = root_only; ofile = λ _. none; arg = λ _. 3; mem = λ _. 0; console = [] }
