-- ===== src/Mkfs.antt =====
-- mkfs/mkfs.c: the host program that writes the disk image. The image file is the interface ImageFile.
-- The number of blocks is an `int` small enough that the sums with it do not overflow.
pub mod Main
pub mod Paper
pub mod Sectors
pub mod Follows
pub mod Format
pub mod Image
pub mod Boot
mod Tests
use riscv_os_lab.Prelude.{
  ℕ, zero, suc, ◌+◌, ◌-◌, ◌*◌, ◌/◌, ◌%◌, ◌^◌, ◌≤◌, ◌<◌, min, ◌≡◌, refl, sym, ap, ◌∙◌, subst,
  fun_ext, ◌≢◌, ◌⊎◌, inl, inr, Bool, true, false, ◌&&◌, ◌||◌, not, Option, none, some, List, [],
  ◌∷◌, ◌++◌, map, arith, ltb, leb, ◌==◌, ◌!=◌, if◌then◌else◌, is_some, length, ==_refl, ==-false,
  ltb→lt, lt→ltb, Bool-cases, Option-cases, ℕ-cases, update, find_first, find_first-some,
  find_first-none, update_self, update_ne,
}
use Prim.Native.Nat.{bit_or}
use riscv_os_lab.Prelude.Words.{Bytes, load32, store16, store32, memset, memmove}
use riscv_os_lab.Prelude.Runs.{
  Reason, Run, ok, panic, out_of_fuel, Cmd, ◌>>=◌, ◌>>◌, pure, get, modify, halt, in_part,
}
use riscv_os_lab.Fs.Bio.{Block, bsize}
use riscv_os_lab.Fs.State.{ndirect, nindirect, fsmagic, rootino, t_dir, Superblock}

abbrev pub fssize : ℕ
fssize = 1000

abbrev pub sblock : ℕ
sblock = 1

abbrev pub ninodes : ℕ
ninodes = 200

-- BSIZE / sizeof(struct dinode), and the blocks to a bitmap block
abbrev pub ipb : ℕ
ipb = 16

abbrev pub bpb : ℕ
bpb = bsize * 8

-- The open image file: `block f n` are the BSIZE bytes from `n * BSIZE` on, and it is `blocks f` blocks
-- long. `lseek` returns the new position, `read` and `write` the number of bytes moved. The laws are
-- of a file on a device that does not fail and has room for the image.
pub record ImageFile : Type 1 where
  pub File : Type 0
  pub IsOpen : File → Type 0
  pub position : File → ℕ
  pub blocks : File → ℕ
  pub block : File → ℕ → Block
  pub lseek : ℕ → Cmd File ℕ
  pub read : Cmd File (ℕ × Block)
  pub write : Block → Cmd File ℕ
  pub lseek_lem :
      (f : File) (to : ℕ)
      → IsOpen f
      → (f' : File) × (lseek to f ≡ ok to f')
        × IsOpen f'
        × (position f' ≡ to)
        × (blocks f' ≡ blocks f)
        × (block f' ≡ block f)
  pub read_lem :
      (f : File) (n : ℕ)
      → IsOpen f
      → position f ≡ n * bsize
      → n < blocks f
      → (f' : File) × (read f ≡ ok (bsize, block f n) f')
        × IsOpen f'
        × (blocks f' ≡ blocks f)
        × (block f' ≡ block f)
  pub write_lem :
      (f : File) (n : ℕ) (x : Block)
      → IsOpen f
      → position f ≡ n * bsize
      → n ≤ blocks f
      → (f' : File) × (write x f ≡ ok bsize f')
        × IsOpen f'
        × (blocks f' ≡ (if n == blocks f then n + 1 else blocks f))
        × (block f' ≡ update (block f) n x)

-- what `main` prints
pub data Line : Type 0 where
  created : (total meta free : ℕ) → Line
  root_size : ℕ → Line

-- the static variables, the open file, and the output, the last line first
pub record Mkfs (F : Type 0) : Type 0 where
  pub file : F
  pub sb : Superblock
  pub freeblock : ℕ
  pub freeinode : ℕ
  pub printed : List Line

-- buf[(blockno % (BSIZE * 8)) / 8] |= 1 << (blockno % 8)
abbrev pub set_bit : ℕ → Block → Block
set_bit blockno buf = let i = blockno % bpb / 8 in update buf i (bit_or (buf i) (2 ^ (blockno % 8)))

-- the byte of the block at which the dinode of `inum` begins
abbrev pub dinode_at : ℕ → ℕ
dinode_at inum = inum % ipb * 64

-- A `struct dinode` is its 64 bytes: din.addrs[i], din.size, and a new one.
abbrev pub addr_of : Bytes → ℕ → ℕ
addr_of din i = load32 din (12 + 4 * i)

abbrev pub set_addr : ℕ → ℕ → Bytes → Bytes
set_addr i x din = store32 din (12 + 4 * i) x

abbrev pub size_of : Bytes → ℕ
size_of din = load32 din 8

abbrev pub new_dinode : ℕ → Bytes
new_dinode kind = store32 (store16 (store16 (memset (λ _. 0) 0 0 64) 0 kind) 6 1) 8 0

-- memcpy(sbuf, &sb, sizeof(sb))
unfoldable pub store_superblock : Superblock → Block → Block
store_superblock sb d0 =
    let d1 = store32 d0 0 sb.magic in
    let d2 = store32 d1 4 sb.size in
    let d3 = store32 d2 8 sb.nblocks in
    let d4 = store32 d3 12 sb.ninodes in
    let d5 = store32 d4 16 sb.nlog in
    let d6 = store32 d5 20 sb.logstart in
    let d7 = store32 d6 24 sb.inodestart in store32 d7 28 sb.bmapstart

module _ ⦃image : ImageFile⦄ where
  abbrev pub MkfsState : Type 0
  MkfsState = Mkfs image.File

  abbrev pub on_file : {A : Type 0} → Cmd image.File A → Cmd MkfsState A
  on_file = in_part (λ s. s.file) (λ f s. record s { file = f })

  unfoldable pub wsect : ℕ → Block → Cmd MkfsState (Unit {0})
  wsect sec buf = do
    at ← on_file (image.lseek (sec * bsize))
    if at != sec * bsize then halt Reason.mkfs_lseek else do
      n ← on_file (image.write buf)
      if n != bsize then halt Reason.mkfs_write else pure tt

  unfoldable pub rsect : ℕ → Cmd MkfsState Block
  rsect sec = do
    at ← on_file (image.lseek (sec * bsize))
    if at != sec * bsize then halt Reason.mkfs_lseek else do
      (n, buf) ← on_file image.read
      if n != bsize then halt Reason.mkfs_read else pure buf

  unfoldable pub balloc_mark : ℕ → Cmd MkfsState (Unit {0})
  balloc_mark blockno = do
    s ← get
    buf ← rsect (s.sb.bmapstart + blockno / bpb)
    wsect (s.sb.bmapstart + blockno / bpb) (set_bit blockno buf)

  unfoldable pub next_block : Cmd MkfsState ℕ
  next_block = do
    s ← get
    modify (λ s. record s { freeblock = (s.freeblock + 1) % 2 ^ 32 })
    balloc_mark s.freeblock
    pure s.freeblock

  unfoldable pub winode : ℕ → Bytes → Cmd MkfsState (Unit {0})
  winode inum din = do
    s ← get
    buf ← rsect (s.sb.inodestart + inum / ipb)
    wsect (s.sb.inodestart + inum / ipb) (memmove buf (dinode_at inum) din 0 64)

  unfoldable pub rinode : ℕ → Cmd MkfsState Bytes
  rinode inum = do
    s ← get
    buf ← rsect (s.sb.inodestart + inum / ipb)
    pure (memmove (λ _. 0) 0 buf (dinode_at inum) 64)

  unfoldable pub ialloc : ℕ → Cmd MkfsState ℕ
  ialloc kind = do
    s ← get
    modify (λ s. record s { freeinode = (s.freeinode + 1) % 2 ^ 32 })
    winode s.freeinode (new_dinode kind)
    pure s.freeinode
