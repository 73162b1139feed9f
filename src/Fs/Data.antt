-- ===== src/Fs/Data.antt =====
-- The contents of a file in fs/fs.c: `bmap`, `readi` and `writei`. The memory that `readi` fills and
-- that `writei` reads is an argument, so that it can be the user's or a local of the caller.
pub mod Contents
pub mod Overwrite
pub mod Size
pub mod Write
pub mod View
pub mod Mapped
pub mod Grow
pub mod Append
pub mod Durable
use riscv_os_lab.Prelude.{
  ℕ, zero, suc, ◌+◌, ◌-◌, ◌*◌, ◌/◌, ◌%◌, ◌^◌, ◌&&◌, ◌||◌, Option, none, some, ltb, ◌==◌, ◌!=◌,
  if◌then◌else◌, update,
}
use riscv_os_lab.Prelude.Words.{Bytes, load32, store32, memmove}
use riscv_os_lab.Prelude.Runs.{Reason, out_of_fuel, Cmd, ◌>>=◌, ◌>>◌, pure, get, modify, halt}
use riscv_os_lab.Fs.Bio.{BlockDriver, bsize}
use riscv_os_lab.Fs.State.{
  ndirect, nindirect, Inode, set_inode, data_at, set_data, brelse, FileSystem, bread, bwrite,
}
use riscv_os_lab.Fs.Bitmap.{balloc}
use riscv_os_lab.Fs.Inode.{iupdate}

abbrev pub max_file : ℕ
max_file = (ndirect + nindirect) * bsize

abbrev pub set_addr : ℕ → ℕ → Inode → Inode
set_addr n v ip = record ip { addrs = update ip.addrs n v }

-- the bytes that one round of the loops of `readi` and `writei` moves
abbrev pub chunk : (off left : ℕ) → ℕ
chunk off left = let m = bsize - off % bsize in if ltb left m then left else m

-- How many bytes `readi` reads of a file of `size` bytes.
abbrev pub read_count : (size off n : ℕ) → ℕ
read_count size off n =
    if ltb size off || ltb ((off + n) % 2 ^ 32) off
    then 0
    else if ltb size ((off + n) % 2 ^ 32)
    then size - off
    else n

module _ ⦃driver : BlockDriver⦄ where
  -- ip->addrs[n], allocated if it is 0
  unfoldable pub own_addr : ℕ → ℕ → Cmd FileSystem ℕ
  own_addr i n = do
    s ← get
    let addr = (s.inode i).addrs n
    if addr == 0
        then (do
          fresh ← balloc (s.inode i).dev
          modify (set_inode i (set_addr n fresh))
          pure fresh)
        else pure addr

  -- a[n] of the indirect block `addr`, allocated if it is 0
  unfoldable pub indirect_addr : ℕ → ℕ → ℕ → Cmd FileSystem ℕ
  indirect_addr i addr n = do
    s ← get
    bp ← bread (s.inode i).dev addr
    s ← get
    let found = load32 (data_at bp s) (4 * n)
    if found == 0
        then (do
          fresh ← balloc (s.inode i).dev
          modify (set_data bp (λ d. store32 d (4 * n) fresh))
          bwrite bp
          brelse bp
          pure fresh)
        else do brelse bp; pure found

  unfoldable pub bmap : ℕ → ℕ → Cmd FileSystem ℕ
  bmap i bn =
      if ltb bn ndirect
      then own_addr i bn
      else if ltb (bn - ndirect) nindirect
      then (do addr ← own_addr i ndirect; indirect_addr i addr (bn - ndirect))
      else halt Reason.bmap_out_of_range

  -- The loop of `readi`, with `left` bytes to read: each round reads at least one.
  unfoldable pub readi_loop : ℕ → ℕ → Bytes → (dst off left : ℕ) → Cmd FileSystem Bytes
  readi_loop zero i mem dst off left = if left == 0 then pure mem else (λ s. out_of_fuel)
  readi_loop (suc fuel) i mem dst off left = if left == 0 then pure mem else do
    blockno ← bmap i (off / bsize)
    s ← get
    bp ← bread (s.inode i).dev blockno
    let m = chunk off left
    s ← get
    let mem' = memmove mem dst (data_at bp s) (off % bsize) m
    brelse bp
    readi_loop fuel i mem' (dst + m) (off + m) (left - m)

  unfoldable pub readi : ℕ → Bytes → (dst off n : ℕ) → Cmd FileSystem (ℕ × Bytes)
  readi i mem dst off n = do
    s ← get
    let n' = read_count (s.inode i).size off n
    mem' ← readi_loop n' i mem dst off n'
    pure (n', mem')

  -- The loop of `writei`; the result is the offset that it ends at.
  unfoldable pub writei_loop : ℕ → ℕ → Bytes → (src off left : ℕ) → Cmd FileSystem ℕ
  writei_loop zero i mem src off left = if left == 0 then pure off else (λ s. out_of_fuel)
  writei_loop (suc fuel) i mem src off left = if left == 0 then pure off else do
    blockno ← bmap i (off / bsize)
    s ← get
    bp ← bread (s.inode i).dev blockno
    let m = chunk off left
    modify (set_data bp (λ d. memmove d (off % bsize) mem src m))
    bwrite bp
    brelse bp
    writei_loop fuel i mem (src + m) (off + m) (left - m)

  -- `none` is the result -1.
  unfoldable pub writei : ℕ → Bytes → (src off n : ℕ) → Cmd FileSystem (Option ℕ)
  writei i mem src off n = do
    s ← get
    if ltb (s.inode i).size off || ltb ((off + n) % 2 ^ 32) off
        then pure none
        else if ltb max_file ((off + n) % 2 ^ 32)
        then pure none
        else do
          end ← writei_loop n i mem src off n
          s ← get
          if (n != 0) && ltb (s.inode i).size end
              then (do
                modify (set_inode i (λ ip. record ip { size = end }))
                iupdate i
                pure (some n))
              else pure (some n)
