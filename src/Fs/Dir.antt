-- ===== src/Fs/Dir.antt =====
-- Directories in fs/fs.c: `dirlookup` and `dirlink`. A directory entry is 16 bytes, the inode number
-- and the 14 bytes of the name; a `char *name` is the bytes at the pointer.
pub mod Names
use riscv_os_lab.Prelude.{
  ℕ, zero, suc, ◌+◌, ◌-◌, ◌*◌, ◌/◌, ◌%◌, ◌^◌, ◌≤◌, ◌<◌, min, ◌≡◌, refl, sym, ap, ◌∙◌, subst,
  fun_ext, ◌≢◌, ◌⊎◌, inl, inr, Bool, true, false, ◌&&◌, ◌||◌, not, Option, none, some, List, [],
  ◌∷◌, ◌++◌, map, arith, ltb, leb, ◌==◌, ◌!=◌, if◌then◌else◌, is_some, length, ==_refl, ==-false,
  ltb→lt, lt→ltb, Bool-cases, Option-cases, ℕ-cases, update, find_first, find_first-some,
  find_first-none, update_self, update_ne,
}
use Prim.Native.Nat.{bit_and, bit_or}
use riscv_os_lab.Prelude.{for_each}
use riscv_os_lab.Prelude.Words.{Bytes, load16, load32, store16, store32, memmove, memset}
use riscv_os_lab.Prelude.Runs.{
  Reason, Run, ok, panic, out_of_fuel, fault, Cmd, ◌>>=◌, ◌>>◌, and_then, put_back, pure, get,
  modify, halt, in_part,
}
use riscv_os_lab.Fs.Bio.{Block, Bcache, BlockDriver, bsize}
use riscv_os_lab.Fs.State.{
  ndirect, nindirect, dirsiz, fsmagic, rootino, rootdev, t_file, t_dir, t_device, ninode, nfile,
  Superblock, read_superblock, Inode, File, is_pos, Fs, set_inode, set_file, on_cache, data_at,
  set_data, brelse, FileSystem, bread, bwrite,
}
use riscv_os_lab.Fs.Inode.{iget, iput}
use riscv_os_lab.Fs.Data.{readi, writei}

-- sizeof(struct dirent)
abbrev pub dirent_size : ℕ
dirent_size = 16

-- the name in an entry
abbrev pub name_of : Bytes → Bytes
name_of de i = de (2 + i)

-- The comparison loop of `dirlookup`, from byte `i` on with `n` to go.
unfoldable pub match_from : ℕ → ℕ → (stored name : Bytes) → Bool
match_from zero i stored name = true
match_from (suc n) i stored name =
    let rest = match_from n (i + 1) stored name in
    if stored i != name i then false else if name i == 0 then true else rest

abbrev pub names_match : (stored name : Bytes) → Bool
names_match = match_from dirsiz 0

-- for(i = 0; i < DIRSIZ && name[i]; i++) de.name[i] = name[i];
unfoldable pub copy_name : ℕ → ℕ → (name de : Bytes) → Bytes
copy_name zero i name de = de
copy_name (suc n) i name de =
    let rest = copy_name n (i + 1) name (update de (2 + i) (name i)) in
    if name i == 0 then de else rest

-- the entry that `dirlink` writes, over what `de` held
abbrev pub new_dirent : Bytes → ℕ → Bytes → Bytes
new_dirent name inum de = store16 (copy_name dirsiz 0 name (memset de 2 0 dirsiz)) 0 inum

module _ ⦃driver : BlockDriver⦄ where
  -- The loop over the entries from byte `off` on; the result is the inode and the offset.
  unfoldable pub dirlookup_loop : ℕ → ℕ → Bytes → Bytes → ℕ → Cmd FileSystem (Option (ℕ × ℕ))
  dirlookup_loop zero dp name de off = λ s. out_of_fuel
  dirlookup_loop (suc fuel) dp name de off = do
    s ← get
    if ltb off (s.inode dp).size
        then (do
          (n, de') ← readi dp de 0 off dirent_size
          if n != dirent_size
              then halt Reason.dirlookup_read_error
              else if load16 de' 0 == 0
              then dirlookup_loop fuel dp name de' (off + dirent_size)
              else if names_match (name_of de') name
              then (do s ← get; ip ← iget (s.inode dp).dev (load16 de' 0); pure (some (ip, off)))
              else dirlookup_loop fuel dp name de' (off + dirent_size))
        else pure none

  -- One round for each entry, and one for the test that ends the loop. The local entry holds no
  -- value at first; it is read only after `readi` has filled it.
  unfoldable pub dirlookup : ℕ → Bytes → Cmd FileSystem (Option (ℕ × ℕ))
  dirlookup dp name = do
    s ← get
    dirlookup_loop ((s.inode dp).size / dirent_size + 2) dp name (λ _. 0) 0

  -- the walk of `dirlink` to an empty entry, or to the end
  unfoldable pub find_slot : ℕ → ℕ → Bytes → ℕ → Cmd FileSystem (ℕ × Bytes)
  find_slot zero dp de off = λ s. out_of_fuel
  find_slot (suc fuel) dp de off = do
    s ← get
    if ltb off (s.inode dp).size
        then (do
          (n, de') ← readi dp de 0 off dirent_size
          if n != dirent_size
              then halt Reason.dirlink_read
              else if load16 de' 0 == 0
              then pure (off, de')
              else find_slot fuel dp de' (off + dirent_size))
        else pure (off, de)

  unfoldable pub dirlink_write : ℕ → Bytes → ℕ → Cmd FileSystem Bool
  dirlink_write dp name inum = do
    s ← get
    (off, de) ← find_slot ((s.inode dp).size / dirent_size + 2) dp (λ _. 0) 0
    written ← writei dp (new_dirent name inum de) 0 off dirent_size
    elim written [
      | none ↦ halt Reason.dirlink_write
      | some n ↦ if n != dirent_size then halt Reason.dirlink_write else pure true
    ]

  -- `false` is the result -1: the name is there already.
  unfoldable pub dirlink : ℕ → Bytes → ℕ → Cmd FileSystem Bool
  dirlink dp name inum = do
    found ← dirlookup dp name
    elim found [ some (ip, off) ↦ do iput ip; pure false | none ↦ dirlink_write dp name inum ]
