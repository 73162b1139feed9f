-- ===== src/Syscall/File.antt =====
-- The system calls of syscall/sysfile.c. A result is the uint64 that goes to a0.
use riscv_os_lab.Prelude.{
  ℕ, zero, suc, ◌+◌, ◌-◌, ◌^◌, Bool, true, ◌&&◌, ◌||◌, not, Option, none, some, List, ◌∷◌, ltb,
  ◌==◌, ◌!=◌, if◌then◌else◌, is_some, update, find_first,
}
use Prim.Native.Nat.{bit_and}
use riscv_os_lab.Prelude.Words.{Bytes}
use riscv_os_lab.Prelude.Runs.{Reason, Cmd, ◌>>=◌, ◌>>◌, pure, get, modify, halt}
use riscv_os_lab.Fs.Bio.{BlockDriver}
use riscv_os_lab.Fs.State.{t_file, t_dir, t_device, set_file, FileSystem}
use riscv_os_lab.Fs.Inode.{iput, ilock, iunlock, ialloc}
use riscv_os_lab.Fs.Dir.{dirlookup, dirlink}
use riscv_os_lab.Fs.Path.{namei, nameiparent}
use riscv_os_lab.Fs.File.{filealloc, fileclose, fileread, filewrite}
use riscv_os_lab.Syscall.Args.{Task, argint, argaddr, argstr, on_fs}

abbrev pub nofile : ℕ
nofile = 16

abbrev pub maxpath : ℕ
maxpath = 128

-- (uint64)-1
abbrev pub minus_one64 : ℕ
minus_one64 = 2 ^ 64 - 1

-- an `int` as a uint64
abbrev pub sign_extend : ℕ → ℕ
sign_extend v = if ltb v (2 ^ 31) then v else v + (2 ^ 64 - 2 ^ 32)

-- omode & flag
abbrev pub has_flag : ℕ → ℕ → Bool
has_flag omode flag = bit_and omode flag != 0

abbrev pub o_wronly : ℕ
o_wronly = 0x001

abbrev pub o_rdwr : ℕ
o_rdwr = 0x002

abbrev pub o_creat : ℕ
o_creat = 0x200

-- the file of a descriptor that passes the checks
abbrev pub file_at : (ℕ → Option ℕ) → ℕ → Option ℕ
file_at ofile fd = if ltb fd nofile then ofile fd else none

module _ ⦃driver : BlockDriver⦄ where
  abbrev pub TaskState : Type 0
  TaskState = Task driver.Disk

  -- The inode that `sys_open` creates or opens with O_CREAT, locked; `none` for the result -1.
  unfoldable pub create_in : ℕ → Bytes → Cmd FileSystem (Option ℕ)
  create_in dp name = do
    ilock (some dp)
    found ← dirlookup dp name
    elim found [
      | some (next, off) ↦ do
        iunlock (some dp)
        iput dp
        ilock (some next)
        s ← get
        if ((s.inode next).kind == t_dir) || ((s.inode next).kind == t_device)
            then (do iunlock (some next); iput next; pure none)
            else pure (some next)
      | none ↦ do
        s ← get
        next ← ialloc (s.inode dp).dev t_file
        s ← get
        linked ← dirlink dp name (s.inode next).inum
        if not linked
            then halt Reason.sys_open_dirlink
            else do iunlock (some dp); iput dp; ilock (some next); pure (some next)
    ]

  unfoldable pub open_inode : List ℕ → ℕ → Cmd FileSystem (Option ℕ)
  unfolding create_in
  open_inode path omode =
      if has_flag omode o_creat
      then (do
        (parent, name) ← nameiparent path (λ _. 0)
        elim parent [ none ↦ pure none | some dp ↦ create_in dp name ])
      else do
        found ← namei path
        elim found [
          | none ↦ pure none
          | some ip ↦ do
            ilock (some ip)
            s ← get
            if ((s.inode ip).kind == t_dir) && (omode != 0)
                then (do iunlock (some ip); iput ip; pure none)
                else pure (some ip)
        ]

  -- The descriptor that `sys_open` finds for the file `f`, and the end of `sys_open`.
  unfoldable pub install : ℕ → ℕ → ℕ → Cmd TaskState ℕ
  install ip omode f = do
    t ← get
    elim (find_first (λ i. not (is_some (t.ofile i))) nofile 0) [
      | none ↦ do on_fs (fileclose f); on_fs (iunlock (some ip)); on_fs (iput ip); pure minus_one64
      | some fd ↦ do
        modify (λ t. record t {
          ofile = update t.ofile fd (some f);
          fs =
              set_file f
                (λ x. record x {
                  opened = true;
                  ip = some ip;
                  off = 0;
                  readable = not (has_flag omode o_wronly);
                  writable = has_flag omode o_wronly || has_flag omode o_rdwr;
                })
                t.fs;
        })
        on_fs (iunlock (some ip))
        pure fd
    ]

  unfoldable pub open_file : ℕ → ℕ → Cmd TaskState ℕ
  unfolding install
  open_file ip omode = do
    f ← on_fs filealloc
    elim f [
      | none ↦ do on_fs (iunlock (some ip)); on_fs (iput ip); pure minus_one64
      | some f ↦ install ip omode f
    ]

  unfoldable pub sys_open : Cmd TaskState ℕ
  unfolding open_inode open_file
  sys_open = do
    path ← argstr 0 maxpath
    omode ← argint 1
    target ← on_fs (open_inode path omode)
    elim target [ none ↦ pure minus_one64 | some ip ↦ open_file ip omode ]

  unfoldable pub read_file : ℕ → (addr n : ℕ) → Cmd TaskState ℕ
  read_file f addr n = do
    t ← get
    (r, mem) ← on_fs (fileread f t.mem addr n)
    modify (λ t. record t { mem = mem })
    pure (sign_extend r)

  unfoldable pub sys_read : Cmd TaskState ℕ
  sys_read = do
    fd ← argint 0
    addr ← argaddr 1
    n ← argint 2
    t ← get
    elim (file_at t.ofile fd) [ none ↦ pure minus_one64 | some f ↦ read_file f addr n ]

  -- the bytes that go to the UART, last first
  unfoldable pub send_bytes : ℕ → Bytes → ℕ → List ℕ → List ℕ
  send_bytes zero mem src out = out
  send_bytes (suc n) mem src out = send_bytes n mem (src + 1) (mem src ∷ out)

  unfoldable pub consolewrite : ℕ → ℕ → Cmd TaskState ℕ
  consolewrite src n = do
    modify (λ t. record t {
      console = if ltb n (2 ^ 31) then send_bytes n t.mem src t.console else t.console;
    })
    pure n

  unfoldable pub sys_write : Cmd TaskState ℕ
  sys_write = do
    fd ← argint 0
    addr ← argaddr 1
    n ← argint 2
    t ← get
    if (fd == 1) && not (is_some (t.ofile 1))
        then (do r ← consolewrite addr n; pure (sign_extend r))
        else elim (file_at t.ofile fd) [
          | none ↦ pure minus_one64
          | some f ↦ do r ← on_fs (filewrite f t.mem addr n); pure (sign_extend r)
        ]

  unfoldable pub sys_close : Cmd TaskState ℕ
  sys_close = do
    fd ← argint 0
    t ← get
    elim (file_at t.ofile fd) [
      | none ↦ pure minus_one64
      | some f ↦ do
        on_fs (fileclose f)
        modify (λ t. record t { ofile = update t.ofile fd none })
        pure 0
    ]
