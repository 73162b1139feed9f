-- ===== src/Mkfs/Boot.antt =====
-- The kernel of kernel/ on an image that mkfs wrote: `fsinit` of fs/fs.c.
use riscv_os_lab.Prelude.{ℕ, ◌≤◌, ◌≡◌, ap, ◌∙◌, true, ◌||◌, List, is_some, length}
use riscv_os_lab.Prelude.Runs.{Run, Returns, returns}
use riscv_os_lab.Fs.Bio.{nbuf, BlockDriver}
use riscv_os_lab.Fs.Bio.Ring.{Ring}
use riscv_os_lab.Fs.Bio.Lru.{cached, evicted}
use riscv_os_lab.Fs.Bio.Read.{InSync}
use riscv_os_lab.Fs.State.{FileSystem}
use riscv_os_lab.Fs.Bitmap.{fsinit}
use riscv_os_lab.Fs.Mount.{Mounted, MountEnds, mounted, refused, superblock_on, fsinit_lem}
use riscv_os_lab.Mkfs.Format.{layout, Formatted}

module _ ⦃driver : BlockDriver⦄ where
  accepted :
      (total free : ℕ) (disk : driver.Disk) (r : Run FileSystem (Unit {0}))
      → superblock_on disk ≡ layout total free
      → MountEnds disk r
      → Returns (λ _ s. Mounted disk s × (s.sb ≡ layout total free)) r
  accepted total free disk r e (mounted is m) = returns (m, m.sb ∙ e)
  accepted total free disk r e (refused isnt) = absurd (isnt (ap (λ sb. sb.magic) e))

  -- `fsinit` of a disk that holds an image as mkfs writes it, with the disk ready and a buffer for block
  -- 1, returns with the layout that mkfs chose as its superblock, no inode in use and the disk as it was.
  pub fsinit-Formatted :
      (dev total free : ℕ) (xs : List ℕ) (s : FileSystem)
      → Formatted total free
          (driver.block s.cache.disk 1)
          (driver.block s.cache.disk 2)
          (driver.block s.cache.disk 15)
          (driver.block s.cache.disk 16)
      → Ring s.cache.nodes xs
      → length xs ≤ nbuf
      → driver.IsReady s.cache.disk
      → (is_some (cached dev 1 s.cache.nodes xs) || is_some (evicted s.cache.nodes xs)) ≡ true
      → InSync dev 1 xs s.cache
      → Returns (λ _ s'. Mounted s.cache.disk s' × (s'.sb ≡ layout total free)) (fsinit dev s)
  fsinit-Formatted dev total free xs s f ring short ready room sync =
      accepted total free s.cache.disk (fsinit dev s) f.superblock
        (fsinit_lem dev xs s ring short ready room sync)
