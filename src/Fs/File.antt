-- ===== src/Fs/File.antt =====
-- fs/file.c: the table of open files.
use riscv_os_lab.Prelude.{
  ℕ, ◌+◌, ◌-◌, ◌%◌, ◌^◌, false, not, Option, none, some, ◌==◌, if◌then◌else◌, find_first,
}
use riscv_os_lab.Prelude.Words.{Bytes}
use riscv_os_lab.Prelude.Runs.{Reason, ok, panic, Cmd, ◌>>=◌, ◌>>◌, pure, get, modify, halt}
use riscv_os_lab.Fs.Bio.{BlockDriver}
use riscv_os_lab.Fs.State.{nfile, is_pos, Fs, set_file, FileSystem}
use riscv_os_lab.Fs.Inode.{iput, ilock, iunlock}
use riscv_os_lab.Fs.Data.{readi, writei}

-- (int)-1
abbrev pub minus_one : ℕ
minus_one = 2 ^ 32 - 1

-- f->ref - 1, of an `int`
abbrev pub pred_ref : ℕ → ℕ
pred_ref r = (r + 2 ^ 32 - 1) % 2 ^ 32

-- the result of `writei` as an `int`
abbrev pub int_of : Option ℕ → ℕ
int_of none = minus_one
int_of (some n) = n

module _ {D : Type 0} where
  -- the first file that nobody holds
  abbrev pub free_file : Fs D → Option ℕ
  free_file s = find_first (λ i. (s.file i).ref == 0) nfile 0

  unfoldable pub filealloc : Cmd (Fs D) (Option ℕ)
  filealloc s = elim (free_file s) [
    | none ↦ ok none s
    | some i ↦ ok (some i) (set_file i (λ f. record f { ref = 1 }) s)
  ]

  unfoldable pub filedup : ℕ → Cmd (Fs D) ℕ
  filedup i s =
      if is_pos (s.file i).ref
      then ok i (set_file i (λ f. record f { ref = (f.ref + 1) % 2 ^ 32 }) s)
      else panic Reason.filedup_unreferenced

  abbrev pub put_ip : Option ℕ → Cmd (Fs D) (Unit {0})
  put_ip none = pure tt
  put_ip (some ip) = iput ip

  unfoldable pub fileclose : ℕ → Cmd (Fs D) (Unit {0})
  fileclose i s =
      if is_pos (s.file i).ref
      then if is_pos (pred_ref (s.file i).ref)
        then ok tt (set_file i (λ f. record f { ref = pred_ref f.ref }) s)
        else put_ip (s.file i).ip (
            set_file i
              (λ f. record f {
                ref = pred_ref f.ref;
                opened = false;
                ip = none;
                off = 0;
                readable = false;
                writable = false;
              })
              s)
      else panic Reason.fileclose_unreferenced

  -- f->off += r
  abbrev pub advance : ℕ → ℕ → Fs D → Fs D
  advance i r = set_file i (λ f. record f { off = (f.off + r) % 2 ^ 32 })

module _ ⦃driver : BlockDriver⦄ where
  unfoldable pub read_inode : ℕ → ℕ → Bytes → (addr n : ℕ) → Cmd FileSystem (ℕ × Bytes)
  read_inode i ip mem addr n = do
    s ← get
    (r, mem') ← readi ip mem addr (s.file i).off n
    if is_pos r then modify (advance i r) else pure tt
    iunlock (some ip)
    pure (r, mem')

  -- The result is the `int` that is returned, with memory; `n` is the bit pattern of an `int`.
  unfoldable pub fileread : ℕ → Bytes → (addr n : ℕ) → Cmd FileSystem (ℕ × Bytes)
  fileread i mem addr n = do
    s ← get
    if not (s.file i).readable then pure (minus_one, mem) else do
      ilock (s.file i).ip
      elim (s.file i).ip [
        | none ↦ halt Reason.ilock_bad_inode
        | some ip ↦ read_inode i ip mem addr n
      ]

  unfoldable pub write_inode : ℕ → ℕ → Bytes → (addr n : ℕ) → Cmd FileSystem ℕ
  write_inode i ip mem addr n = do
    s ← get
    written ← writei ip mem addr (s.file i).off n
    let r = int_of written
    if is_pos r then modify (advance i r) else pure tt
    iunlock (some ip)
    pure r

  unfoldable pub filewrite : ℕ → Bytes → (addr n : ℕ) → Cmd FileSystem ℕ
  filewrite i mem addr n = do
    s ← get
    if not (s.file i).writable then pure minus_one else do
      ilock (s.file i).ip
      elim (s.file i).ip [
        | none ↦ halt Reason.ilock_bad_inode
        | some ip ↦ write_inode i ip mem addr n
      ]
