-- ===== src/Fs/Bitmap.antt =====
-- The block allocation of fs/fs.c: `fsinit`, `bzero`, `balloc` and `bfree`. Block numbers stay below
-- 2 ^ 31, where the `int` and `uint` of the source agree.
pub mod Scan
pub mod Bits
pub mod Marks
pub mod Alloc
pub mod Count
use riscv_os_lab.Prelude.{
  ℕ, zero, suc, ◌+◌, ◌-◌, ◌*◌, ◌/◌, ◌%◌, ◌^◌, false, Option, none, some, ltb, ◌==◌, ◌!=◌,
  if◌then◌else◌, update, find_first,
}
use Prim.Native.Nat.{bit_and, bit_or}
use riscv_os_lab.Prelude.{for_each}
use riscv_os_lab.Prelude.Words.{memset}
use riscv_os_lab.Prelude.Runs.{Reason, out_of_fuel, Cmd, ◌>>=◌, ◌>>◌, pure, get, modify, halt}
use riscv_os_lab.Fs.Bio.{Block, BlockDriver, bsize}
use riscv_os_lab.Fs.State.{
  fsmagic, ninode, read_superblock, data_at, set_data, brelse, FileSystem, bread, bwrite,
}

-- blocks to a bitmap block
abbrev pub bpb : ℕ
bpb = bsize * 8

-- the first of the 8 bits of `m` that is clear
unfoldable pub clear_bit : ℕ → Option ℕ
clear_bit m = find_first (λ j. bit_and m (2 ^ j) == 0) 8 0

-- The two inner loops of `balloc` over a bitmap block that stands for the blocks from `b` on: the
-- first byte, of `n` from `bi` on, with a clear bit, and the bit.
unfoldable pub scan_bytes : ℕ → ℕ → (size b : ℕ) → Block → Option (ℕ × ℕ)
scan_bytes zero bi size b bits = none
scan_bytes (suc n) bi size b bits =
    let rest = scan_bytes n (bi + 1) size b bits in
    if ltb (b + bi * 8) size
    then if bits bi != 0xff
      then elim (clear_bit (bits bi)) [ some j ↦ some (bi, j) | none ↦ rest ]
      else rest
    else none

module _ ⦃driver : BlockDriver⦄ where
  unfoldable pub fsinit : ℕ → Cmd FileSystem (Unit {0})
  fsinit dev = do
    bp ← bread dev 1
    modify (λ s. record s { sb = read_superblock (data_at bp s) })
    brelse bp
    s ← get
    if s.sb.magic != fsmagic
        then halt Reason.invalid_file_system
        else modify (λ s. record s {
          inode = for_each ninode 0 (λ _ ip. record ip { ref = 0; valid = false }) s.inode;
        })

  unfoldable pub bzero : ℕ → ℕ → Cmd FileSystem (Unit {0})
  bzero dev bno = do
    bp ← bread dev bno
    modify (set_data bp (λ d. memset d 0 0 bsize))
    bwrite bp
    brelse bp

  -- the block whose bit `bi2` of byte `bi` is clear in the bitmap block `bp`
  unfoldable pub balloc_take : ℕ → ℕ → ℕ → ℕ × ℕ → Cmd FileSystem ℕ
  balloc_take dev bp b (bi, bi2) = do
    modify (set_data bp (λ d. update d bi (bit_or (d bi) (2 ^ bi2))))
    bwrite bp
    brelse bp
    bzero dev (b + bi * 8 + bi2)
    pure (b + bi * 8 + bi2)

  -- The outer loop, with a round for each bitmap block and one for the test that ends it.
  unfoldable pub balloc_loop : ℕ → ℕ → ℕ → Cmd FileSystem ℕ
  balloc_loop zero dev b = λ s. out_of_fuel
  balloc_loop (suc n) dev b = do
    s ← get
    if ltb b s.sb.size
        then (do
          bp ← bread dev (s.sb.bmapstart + b / bpb)
          s ← get
          elim (scan_bytes bsize 0 s.sb.size b (data_at bp s)) [
            | some hit ↦ balloc_take dev bp b hit
            | none ↦ do brelse bp; balloc_loop n dev (b + bpb)
          ])
        else halt Reason.balloc_out_of_blocks

  unfoldable pub balloc : ℕ → Cmd FileSystem ℕ
  balloc dev = do s ← get; balloc_loop (s.sb.size / bpb + 2) dev 0

  unfoldable pub bfree : ℕ → ℕ → Cmd FileSystem (Unit {0})
  bfree dev b = do
    s ← get
    bp ← bread dev (s.sb.bmapstart + b / bpb)
    s ← get
    let bi = b % bpb / 8
    let m = 2 ^ (b % 8)
    if bit_and (data_at bp s bi) m == 0 then halt Reason.freeing_free_block else do
      modify (set_data bp (λ d. update d bi (bit_and (d bi) (255 - m))))
      bwrite bp
      brelse bp
