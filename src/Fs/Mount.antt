-- ===== src/Fs/Mount.antt =====
-- `fsinit` of fs/fs.c on a disk.
use riscv_os_lab.Prelude.{
  ℕ, ◌+◌, ◌-◌, ◌%◌, ◌^◌, ◌≤◌, ◌<◌, ◌≡◌, refl, ap, ◌∙◌, ◌≢◌, inl, inr, true, false, ◌||◌, List,
  arith, ltb, leb, ◌==◌, ◌!=◌, is_some, length, ==_refl, Bool-cases, ℕ-cases,
}
use riscv_os_lab.Prelude.{for_each, for_each_lem}
use riscv_os_lab.Prelude.Runs
use riscv_os_lab.Prelude.Runs.{Reason, Run, ok, panic, Returns}
use riscv_os_lab.Prelude.Words.{load32}
use riscv_os_lab.Fs.Bio
use riscv_os_lab.Fs.Bio.{Block, nbuf, BlockDriver, Bcache}
use riscv_os_lab.Fs.Bio.Ring.{Ring}
use riscv_os_lab.Fs.Bio.Lru.{cached, evicted}
use riscv_os_lab.Fs.Bio.Read.{InSync, bread_lem}
use riscv_os_lab.Fs.State.{
  ninode, fsmagic, Inode, Superblock, read_superblock, FileSystem, bread, brelse,
}
use riscv_os_lab.Fs.Bitmap.{fsinit}

brelse-returns :
    {D : Type 0} (b : ℕ) (c : Bcache D)
    → (c' : Bcache D) × (Bio.brelse b c ≡ ok tt c') × (c'.disk ≡ c.disk)
unfolding Bio.brelse
brelse-returns b c = elim (Bool-cases (((c.nodes b).refcnt + 2 ^ 32 - 1) % 2 ^ 32 == 0)) [
  | inl last ↦ rw (==_refl b, last) (_, refl, refl)
  | inr more ↦ rw (==_refl b, more) (_, refl, refl)
]

-- the loop of `fsinit` over the inodes
abbrev no_refs : (ℕ → Inode) → ℕ → Inode
no_refs t = for_each ninode 0 (λ _ ip. record ip { ref = 0; valid = false }) t

emptied :
    (t : ℕ → Inode) (i : ℕ) → i < ninode → ((no_refs t i).ref ≡ 0) × ((no_refs t i).valid ≡ false)
emptied t i lt =
    let inside : ltb i (0 + ninode) ≡ true = ground arith in
    let from : leb 0 i ≡ true = ground arith in
    let each = for_each_lem ninode 0 (λ _ ip. record ip { ref = 0; valid = false }) t i in
    let each' : no_refs t i ≡ record (t i) { ref = 0; valid = false } = rw (from, inside) at each in
    rw each' (refl, refl)

module _ ⦃driver : BlockDriver⦄ where
  -- the superblock on the disk
  abbrev pub superblock_on : driver.Disk → Superblock
  superblock_on disk = read_superblock (driver.block disk 1)

  -- The file system on `disk` is in use, with an empty table of inodes.
  pub record Mounted (disk : driver.Disk) (s : FileSystem) : Type 0 where
    pub sb : s.sb ≡ superblock_on disk
    pub no_inodes : (i : ℕ) → i < ninode → ((s.inode i).ref ≡ 0) × ((s.inode i).valid ≡ false)
    pub same_disk : (m : ℕ) → driver.block s.cache.disk m ≡ driver.block disk m

  pub data MountEnds (disk : driver.Disk) : Run FileSystem (Unit {0}) → Type 0 where
    mounted :
        {s : FileSystem}
        → (superblock_on disk).magic ≡ fsmagic
        → Mounted disk s
        → MountEnds disk (ok tt s)
    refused :
        (superblock_on disk).magic ≢ fsmagic → MountEnds disk (panic Reason.invalid_file_system)

  -- `fsinit`, with the disk ready and a buffer for block 1: if the superblock has the magic number, it is
  -- read as the disk holds it, no inode is in use and the disk is as it was; else `fsinit` panics.
  pub fsinit_lem :
      (dev : ℕ) (xs : List ℕ) (s : FileSystem)
      → Ring s.cache.nodes xs
      → length xs ≤ nbuf
      → driver.IsReady s.cache.disk
      → (is_some (cached dev 1 s.cache.nodes xs) || is_some (evicted s.cache.nodes xs)) ≡ true
      → InSync dev 1 xs s.cache
      → MountEnds s.cache.disk (fsinit dev s)
  unfolding fsinit bread brelse
  fsinit_lem dev xs s ring short ready room sync =
      let (b, c1, e1, l) =
        Runs.Returns-result (Bio.bread dev 1 s.cache)
          (bread_lem dev 1 xs s.cache ring short ready room sync) in
      let (c2, e2, d2) = brelse-returns b c1 in
      elim (ℕ-cases (superblock_on s.cache.disk).magic fsmagic) [
        | inl is ↦
            let good : (load32 (driver.block s.cache.disk 1) 0 != fsmagic) ≡ false = ground arith in
            rw (e1, l.data_read, e2, good)
              (mounted is (record {
                sb = refl;
                no_inodes = emptied s.inode;
                same_disk = λ m. ap (λ d. driver.block d m) d2 ∙ l.same_disk m;
              }))
        | inr isnt ↦
            let bad : (load32 (driver.block s.cache.disk 1) 0 != fsmagic) ≡ true = ground arith in
            rw (e1, l.data_read, e2, bad) (refused isnt)
      ]
