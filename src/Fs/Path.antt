-- ===== src/Fs/Path.antt =====
-- Paths in fs/fs.c: `skipelem`, `namex`, `namei` and `nameiparent`. A `char *path` is the string at
-- the pointer, the list of its bytes before the NUL; a `char *name` is the bytes at the pointer.
pub mod Split
pub mod Name
use riscv_os_lab.Prelude.{
  ℕ, zero, suc, ◌+◌, ◌-◌, ◌*◌, ◌/◌, ◌%◌, ◌^◌, ◌≤◌, ◌<◌, min, ◌≡◌, refl, sym, ap, ◌∙◌, subst,
  fun_ext, ◌≢◌, ◌⊎◌, inl, inr, Bool, true, false, ◌&&◌, ◌||◌, not, Option, none, some, List, [],
  ◌∷◌, ◌++◌, map, arith, ltb, leb, ◌==◌, ◌!=◌, if◌then◌else◌, is_some, length, ==_refl, ==-false,
  ltb→lt, lt→ltb, Bool-cases, Option-cases, ℕ-cases, update, find_first, find_first-some,
  find_first-none, update_self, update_ne,
}
use Prim.Native.Nat.{bit_and, bit_or}
use riscv_os_lab.Prelude.{for_each}
use riscv_os_lab.Prelude.Words.{Bytes, load16, load32, store16, store32, memmove, memset}
use riscv_os_lab.Prelude.Runs.{
  Reason, Run, ok, panic, out_of_fuel, fault, Cmd, ◌>>=◌, ◌>>◌, and_then, put_back, pure, get,
  modify, halt, in_part,
}
use riscv_os_lab.Fs.Bio.{Block, Bcache, BlockDriver, bsize}
use riscv_os_lab.Fs.State.{
  ndirect, nindirect, dirsiz, fsmagic, rootino, rootdev, t_file, t_dir, t_device, ninode, nfile,
  Superblock, read_superblock, Inode, File, is_pos, Fs, set_inode, set_file, on_cache, data_at,
  set_data, brelse, FileSystem, bread, bwrite,
}
use riscv_os_lab.Fs.Inode.{iget, iput, ilock, iunlock}
use riscv_os_lab.Fs.Dir.{dirlookup}

abbrev pub slash : ℕ
slash = b'/'

-- while(*path == '/') path++;
unfoldable pub skip_slashes : List ℕ → List ℕ
skip_slashes [] = []
skip_slashes (c ∷ path) = let rest = skip_slashes path in if c == slash then rest else c ∷ path

-- while(*path != '/' && *path != 0) path++; the bytes passed, and the rest
unfoldable pub span_elem : List ℕ → List ℕ × List ℕ
span_elem [] = ([], [])
span_elem (c ∷ path) =
    let (elem, rest) = span_elem path in if c == slash then ([], c ∷ path) else (c ∷ elem, rest)

-- memmove(name + i, s, n)
unfoldable pub copy_bytes : ℕ → ℕ → List ℕ → Bytes → Bytes
copy_bytes zero i elem name = name
copy_bytes (suc n) i [] name = name
copy_bytes (suc n) i (c ∷ elem) name = copy_bytes n (i + 1) elem (update name i c)

-- A name of DIRSIZ bytes or more is cut, and a shorter one gets its NUL.
unfoldable pub copy_elem : List ℕ → Bytes → Bytes
unfolding copy_bytes
copy_elem elem name =
    let len = length elem in
    if leb dirsiz len
    then copy_bytes dirsiz 0 elem name
    else update (copy_bytes len 0 elem name) len 0

-- the end of `skipelem`, once the slashes in front are gone
abbrev pub take_elem : List ℕ → Bytes → Option (List ℕ × Bytes)
take_elem [] name = none
take_elem (c ∷ path) name =
    let (elem, rest) = span_elem (c ∷ path) in some (skip_slashes rest, copy_elem elem name)

-- `none` is the null pointer, which ends a path.
unfoldable pub skipelem : List ℕ → Bytes → Option (List ℕ × Bytes)
skipelem path name = take_elem (skip_slashes path) name

abbrev pub is_end : List ℕ → Bool
is_end [] = true
is_end (_ ∷ _) = false

module _ ⦃driver : BlockDriver⦄ where
  -- The loop of `namex` at the inode `ip`, with what is left of the path. Each round uses up a byte.
  unfoldable pub namex_loop : ℕ → Bool → ℕ → List ℕ → Bytes → Cmd FileSystem (Option ℕ × Bytes)
  namex_loop zero nameiparent ip path name = λ s. out_of_fuel
  namex_loop (suc fuel) nameiparent ip path name = elim (skipelem path name) [
    | none ↦ if nameiparent then (do iput ip; pure (none, name)) else pure (some ip, name)
    | some (path', name') ↦ do
      ilock (some ip)
      s ← get
      if (s.inode ip).kind != t_dir
          then (do iunlock (some ip); iput ip; pure (none, name'))
          else if nameiparent && is_end path'
          then (do iunlock (some ip); pure (some ip, name'))
          else do
            found ← dirlookup ip name'
            elim found [
              | none ↦ do iunlock (some ip); iput ip; pure (none, name')
              | some (next, off) ↦ do
                iunlock (some ip)
                iput ip
                namex_loop fuel nameiparent next path' name'
            ]
  ]

  -- Both branches of the source on the first byte start at the root directory.
  unfoldable pub namex : List ℕ → Bool → Bytes → Cmd FileSystem (Option ℕ × Bytes)
  namex path nameiparent name = do
    ip ← iget rootdev rootino
    namex_loop (length path + 1) nameiparent ip path name

  -- The local `name` of the source holds no value at first.
  unfoldable pub namei : List ℕ → Cmd FileSystem (Option ℕ)
  namei path = do (ip, name) ← namex path false (λ _. 0); pure ip

  unfoldable pub nameiparent : List ℕ → Bytes → Cmd FileSystem (Option ℕ × Bytes)
  nameiparent path name = namex path true name
