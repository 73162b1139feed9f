-- ===== src/Fs/Inode.antt =====
-- The inodes of fs/fs.c: the table in memory (`iget`, `ilock`, `iunlock`, `iput`), and the inodes on
-- disk (`iupdate`, `ialloc`). `ilock` and `iunlock` take a pointer that may be null.
pub mod Scan
pub mod Slots
pub mod Dinode
pub mod Stored
use riscv_os_lab.Prelude.{
  ℕ, zero, suc, ◌+◌, ◌-◌, ◌*◌, ◌/◌, ◌%◌, ◌^◌, Bool, true, false, ◌&&◌, Option, none, some, ◌==◌,
  if◌then◌else◌,
}
use riscv_os_lab.Prelude.Words.{load16, load32, store16, store32, memset}
use riscv_os_lab.Prelude.Runs.{Reason, ok, panic, Cmd, ◌>>=◌, ◌>>◌, pure, get, modify, halt}
use riscv_os_lab.Fs.Bio.{Block, BlockDriver}
use riscv_os_lab.Fs.State.{
  ndirect, ninode, Inode, is_pos, Fs, set_inode, data_at, set_data, brelse, FileSystem, bread,
  bwrite,
}

-- BSIZE / sizeof(struct dinode)
abbrev pub ipb : ℕ
ipb = 16

-- the byte at which the dinode of `inum` begins in its block
abbrev pub dinode_at : ℕ → ℕ
dinode_at inum = inum % ipb * 64

-- What `ilock` copies from the dinode at byte `o` of a block, and what `iupdate` copies to it.
unfoldable pub load_dinode : Block → ℕ → Inode → Inode
load_dinode d o ip = record ip {
  kind = load16 d o;
  major = load16 d (o + 2);
  minor = load16 d (o + 4);
  nlink = load16 d (o + 6);
  size = load32 d (o + 8);
  addrs = λ i. load32 d (o + 12 + 4 * i);
}

-- ip->addrs[i], …, ip->addrs[i + n - 1] to the words of a dinode at byte `o`
unfoldable pub store_addrs : ℕ → ℕ → (ℕ → ℕ) → ℕ → Block → Block
store_addrs zero i addrs o d = d
store_addrs (suc n) i addrs o d =
    store_addrs n (i + 1) addrs o (store32 d (o + 12 + 4 * i) (addrs i))

unfoldable pub store_dinode : Inode → ℕ → Block → Block
unfolding store_addrs
store_dinode ip o d =
    let d1 = store16 d o ip.kind in
    let d2 = store16 d1 (o + 2) ip.major in
    let d3 = store16 d2 (o + 4) ip.minor in
    let d4 = store16 d3 (o + 6) ip.nlink in
    let d5 = store32 d4 (o + 8) ip.size in store_addrs (ndirect + 1) 0 ip.addrs o d5

-- `iget` looks for the inode and remembers the first empty slot, in one walk.
abbrev pub is_inode : ℕ → ℕ → Inode → Bool
is_inode dev inum ip = is_pos ip.ref && (ip.dev == dev) && (ip.inum == inum)

-- the hit, or the empty slot to use
pub data Lookup : Type 0 where
  hit : ℕ → Lookup
  miss : Option ℕ → Lookup

abbrev pub first_empty : Option ℕ → ℕ → Inode → Option ℕ
first_empty (some e) i ip = some e
first_empty none i ip = if ip.ref == 0 then some i else none

unfoldable pub iget_scan : ℕ → ℕ → Option ℕ → (dev inum : ℕ) → (ℕ → Inode) → Lookup
iget_scan zero i empty dev inum t = miss empty
iget_scan (suc n) i empty dev inum t =
    let rest = iget_scan n (i + 1) (first_empty empty i (t i)) dev inum t in
    if is_inode dev inum (t i) then hit i else rest

-- the flag `valid` after the first test of `iput`, and the whole of it
abbrev pub put_inode : Inode → Inode
put_inode ip =
    let kept = if (ip.ref == 1) && ip.valid && (ip.nlink == 0) then false else ip.valid in
    let ref = (ip.ref + 2 ^ 32 - 1) % 2 ^ 32 in
    record ip { ref = ref; valid = if ref == 0 then false else kept }

module _ {D : Type 0} where
  unfoldable pub iget_from : ℕ → ℕ → Lookup → Cmd (Fs D) ℕ
  iget_from dev inum (hit i) = do
    modify (set_inode i (λ ip. record ip { ref = (ip.ref + 1) % 2 ^ 32 }))
    pure i
  iget_from dev inum (miss none) = halt Reason.iget_no_inodes
  iget_from dev inum (miss (some i)) = do
    modify (set_inode i (λ ip. record ip { dev = dev; inum = inum; ref = 1; valid = false }))
    pure i

  unfoldable pub iget : ℕ → ℕ → Cmd (Fs D) ℕ
  unfolding iget_from
  iget dev inum s = iget_from dev inum (iget_scan ninode 0 none dev inum s.inode) s

  unfoldable pub iunlock : Option ℕ → Cmd (Fs D) (Unit {0})
  iunlock none s = panic Reason.iunlock_bad_inode
  iunlock (some i) s = if is_pos (s.inode i).ref then ok tt s else panic Reason.iunlock_bad_inode

  unfoldable pub iput : ℕ → Cmd (Fs D) (Unit {0})
  iput i = modify (set_inode i put_inode)

module _ ⦃driver : BlockDriver⦄ where
  unfoldable pub ilock_load : ℕ → Cmd FileSystem (Unit {0})
  ilock_load i = do
    s ← get
    bp ← bread (s.inode i).dev (s.sb.inodestart + (s.inode i).inum / ipb)
    modify (λ s. set_inode i (load_dinode (data_at bp s) (dinode_at (s.inode i).inum)) s)
    brelse bp
    modify (set_inode i (λ ip. record ip { valid = true }))
    s ← get
    if (s.inode i).kind == 0 then halt Reason.ilock_no_type else pure tt

  unfoldable pub ilock : Option ℕ → Cmd FileSystem (Unit {0})
  ilock none s = panic Reason.ilock_bad_inode
  ilock (some i) s =
      if is_pos (s.inode i).ref
      then if (s.inode i).valid then ok tt s else ilock_load i s
      else panic Reason.ilock_bad_inode

  unfoldable pub iupdate : ℕ → Cmd FileSystem (Unit {0})
  iupdate i = do
    s ← get
    bp ← bread (s.inode i).dev (s.sb.inodestart + (s.inode i).inum / ipb)
    modify (λ s. set_data bp (store_dinode (s.inode i) (dinode_at (s.inode i).inum)) s)
    bwrite bp
    brelse bp

  -- the dinode at byte `o`, cleared and given its type
  abbrev pub claim_dinode : ℕ → ℕ → Block → Block
  claim_dinode kind o d = store16 (memset d o 0 64) o kind

  -- The rounds for `inum` and the `n - 1` inodes after it.
  unfoldable pub ialloc_loop : ℕ → ℕ → (dev kind : ℕ) → Cmd FileSystem ℕ
  ialloc_loop zero inum dev kind = halt Reason.ialloc_no_inodes
  ialloc_loop (suc n) inum dev kind = do
    s ← get
    bp ← bread dev (s.sb.inodestart + inum / ipb)
    s ← get
    if load16 (data_at bp s) (dinode_at inum) == 0
        then (do
          modify (set_data bp (claim_dinode kind (dinode_at inum)))
          bwrite bp
          brelse bp
          iget dev inum)
        else do brelse bp; ialloc_loop n (inum + 1) dev kind

  -- for(inum = 1; inum < sb.ninodes; inum++)
  unfoldable pub ialloc : ℕ → ℕ → Cmd FileSystem ℕ
  ialloc dev kind = do s ← get; ialloc_loop (s.sb.ninodes - 1) 1 dev kind
