-- ===== src/Syscall.antt =====
-- syscall/syscall.c and syscall/sysfile.c: the arguments of a system call, and the calls on files.
pub mod Args
pub mod File
pub mod Process
pub mod Unknown
pub mod Descriptors
mod Tests
