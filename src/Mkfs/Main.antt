-- ===== src/Mkfs/Main.antt =====
-- mkfs/mkfs.c: `iappend`, and `main` with the files it writes.
use riscv_os_lab.Prelude.{
  ℕ, zero, suc, ◌+◌, ◌-◌, ◌*◌, ◌/◌, ◌%◌, ◌^◌, Option, none, some, [], ◌∷◌, ltb, leb, ◌==◌, ◌!=◌,
  if◌then◌else◌, update,
}
use riscv_os_lab.Prelude.Words.{Bytes, load32, store16, store32, memset, memmove}
use riscv_os_lab.Prelude.Runs.{
  Reason, Run, panic, out_of_fuel, Cmd, ◌>>=◌, ◌>>◌, pure, modify, halt,
}
use riscv_os_lab.Fs.Bio.{Block, bsize}
use riscv_os_lab.Fs.State.{ndirect, nindirect, fsmagic, rootino, t_dir, Superblock}
use riscv_os_lab.Mkfs.{
  fssize, sblock, ninodes, ipb, bpb, ImageFile, created, root_size, addr_of, set_addr, size_of,
  store_superblock, MkfsState, wsect, rsect, balloc_mark, next_block, winode, rinode, ialloc,
}

-- the size of a directory entry
abbrev pub dirent_size : ℕ
dirent_size = 16

-- n1: the rest of the block, or of the data
abbrev pub chunk : (off n : ℕ) → ℕ
chunk off n = let m = bsize - off % bsize in if ltb n m then n else m

-- a directory entry with the name "." or ".."
abbrev pub dot_entry : ℕ → Bytes
dot_entry inum = update (store16 (memset (λ _. 0) 0 0 dirent_size) 0 inum) 2 b'.'

abbrev pub dotdot_entry : ℕ → Bytes
dotdot_entry inum = update (dot_entry inum) 3 b'.'

-- the layout that `main` works out
abbrev pub inodeblocks : ℕ
inodeblocks = (ninodes + ipb - 1) / ipb

abbrev pub nbitmap : ℕ → ℕ
nbitmap total = (total + bpb - 1) / bpb

abbrev pub nmeta : ℕ → ℕ
nmeta total = 1 + 1 + inodeblocks + nbitmap total

-- total - nmeta, as its bit pattern
abbrev pub nblocks : ℕ → ℕ
nblocks total = (total + 2 ^ 32 - nmeta total) % 2 ^ 32

abbrev pub new_superblock : ℕ → Superblock
new_superblock total = record {
  magic = fsmagic;
  size = total;
  nblocks = nblocks total;
  ninodes = ninodes;
  nlog = 0;
  logstart = 0;
  inodestart = 2;
  bmapstart = 2 + inodeblocks;
}

-- the static `sb` as the program starts
abbrev pub no_superblock : Superblock
no_superblock = record {
  magic = 0;
  size = 0;
  nblocks = 0;
  ninodes = 0;
  nlog = 0;
  logstart = 0;
  inodestart = 0;
  bmapstart = 0;
}

module _ ⦃image : ImageFile⦄ where
  -- din.addrs[i], allocated if it is 0; the result is the block and the dinode
  unfoldable pub own_addr : ℕ → Bytes → Cmd MkfsState (ℕ × Bytes)
  own_addr i din =
      if addr_of din i == 0
      then (do x ← next_block; pure (x, set_addr i x din))
      else pure (addr_of din i, din)

  -- ibuf[i] of the indirect block `blk`, allocated and written back if it is 0
  unfoldable pub slot_of : (blk i : ℕ) → Block → Cmd MkfsState ℕ
  slot_of blk i ibuf =
      if load32 ibuf (4 * i) == 0
      then (do x ← next_block; wsect blk (store32 ibuf (4 * i) x); pure x)
      else pure (load32 ibuf (4 * i))

  unfoldable pub indirect_addr : (blk i : ℕ) → Cmd MkfsState ℕ
  indirect_addr blk i = do ibuf ← rsect blk; slot_of blk i ibuf

  -- the block that holds block `fbn` of the file
  unfoldable pub file_block : ℕ → Bytes → Cmd MkfsState (ℕ × Bytes)
  file_block fbn din = if ltb fbn ndirect then own_addr fbn din else (do
    (blk, din') ← own_addr ndirect din
    x ← indirect_addr blk (fbn - ndirect)
    pure (x, din'))

  -- One round: `n` of the bytes of `src` from `p` on go to `off`, in one block of the file.
  unfoldable pub put_chunk : Bytes → (p n off : ℕ) → Bytes → Cmd MkfsState Bytes
  put_chunk src p n off din = do
    (x, din') ← file_block (off / bsize) din
    buf ← rsect x
    wsect x (memmove buf (off % bsize) src p n)
    pure din'

  -- The loop with `n` bytes of `src` from `p` on left to write; a round writes at least one.
  unfoldable pub iappend_loop : ℕ → Bytes → (p n off : ℕ) → Bytes → Cmd MkfsState (ℕ × Bytes)
  iappend_loop zero src p n off din = if n == 0 then pure (off, din) else (λ s. out_of_fuel)
  iappend_loop (suc fuel) src p n off din =
      if n == 0
      then pure (off, din)
      else if ltb (off / bsize) (ndirect + nindirect)
      then (do
        din' ← put_chunk src p (chunk off n) off din
        iappend_loop fuel src (p + chunk off n) (n - chunk off n) (off + chunk off n) din')
      else halt Reason.mkfs_assert

  unfoldable pub iappend : ℕ → Bytes → ℕ → Cmd MkfsState (Unit {0})
  iappend inum src n = do
    din ← rinode inum
    (off, din') ← iappend_loop n src 0 n (size_of din) din
    winode inum (store32 din' 8 off)

  -- for (i = 0; i < total; i++) wsect(i, zeroes);
  unfoldable pub zero_blocks : ℕ → ℕ → Cmd MkfsState (Unit {0})
  zero_blocks zero i = pure tt
  zero_blocks (suc n) i = do wsect i (λ _. 0); zero_blocks n (i + 1)

  -- for (i = 0; i < nmeta; i++) balloc_mark(i);
  unfoldable pub mark_blocks : ℕ → ℕ → Cmd MkfsState (Unit {0})
  mark_blocks zero i = pure tt
  mark_blocks (suc n) i = do balloc_mark i; mark_blocks n (i + 1)

  -- the superblock, and the blocks before the data marked as in use
  unfoldable pub write_layout : Superblock → ℕ → Cmd MkfsState (Unit {0})
  write_layout sb meta = do
    modify (λ s. record s { sb = sb })
    wsect sblock (store_superblock sb (λ _. 0))
    modify (λ s. record s { freeblock = meta })
    mark_blocks meta 0

  -- the entries of the root directory, which must have the inode number of the root
  unfoldable pub write_entries : ℕ → Cmd MkfsState ℕ
  write_entries inum = if inum != rootino then halt Reason.mkfs_assert else do
    iappend inum (dot_entry inum) dirent_size
    iappend inum (dotdot_entry inum) dirent_size
    pure inum

  unfoldable pub write_root : Cmd MkfsState ℕ
  write_root = do inum ← ialloc t_dir; write_entries inum

  -- what `main` prints in the end
  unfoldable pub report : (total : ℕ) → Superblock → (meta inum : ℕ) → Cmd MkfsState (Unit {0})
  report total sb meta inum = do
    din ← rinode inum
    modify (λ s. record s {
      printed = root_size (size_of din) ∷ created total meta sb.nblocks ∷ s.printed;
    })

  -- `main` from the zeroed file on
  unfoldable pub fill_image : (total : ℕ) → Superblock → (meta : ℕ) → Cmd MkfsState (Unit {0})
  fill_image total sb meta = do write_layout sb meta; inum ← write_root; report total sb meta inum

  unfoldable pub make_image : ℕ → Cmd MkfsState (Unit {0})
  make_image total = do zero_blocks total 0; fill_image total (new_superblock total) (nmeta total)

  -- The static variables as the program starts, and the result of `open`, none where it fails;
  -- `arg` is what `atoi` makes of the second argument.
  unfoldable pub main : (argc arg : ℕ) → Option image.File → Run MkfsState (Unit {0})
  main argc arg opened = if ltb argc 2 then panic Reason.mkfs_usage else elim opened [
    | none ↦ panic Reason.mkfs_open
    | some f ↦
        make_image (if leb 3 argc then arg else fssize)
          (record { file = f; sb = no_superblock; freeblock = 0; freeinode = 1; printed = [] })
  ]
