-- ===== src/Mkfs/Tests.antt =====
-- mkfs/mkfs.c with an image file in memory.
use riscv_os_lab.Prelude.{ℕ, ◌≡◌, refl, false, none, [], ◌∷◌, arith}
use riscv_os_lab.Prelude.Runs
use riscv_os_lab.Prelude.Runs.{Returns}
use riscv_os_lab.Mkfs.{Mkfs}
use riscv_os_lab.Mkfs.Paper.{Paper, paper}
use riscv_os_lab.Mkfs.Boot.{fsinit-Formatted}
use riscv_os_lab.Mkfs.Format.{layout, blank, Formatted, fill_image-Written}
use riscv_os_lab.Fs.Bio.{Block}
use riscv_os_lab.Fs.State.{Fs}
use riscv_os_lab.Fs.Bitmap.{fsinit}
use riscv_os_lab.Fs.Mount.{Mounted}
use riscv_os_lab.Fs.Tests.{ram_disk, small_cache, small_inode, two_nodes-Ring}
use riscv_os_lab.Mkfs.Main.{no_superblock, fill_image}

-- the file as `open` leaves it
abbrev empty_file : Paper
empty_file = record { block = λ _ _. 9; blocks = 0; position = 0 }

-- the disk with an image of 1000 blocks
abbrev image_run :
    (t : Mkfs Paper) × Formatted 1000 984
      (t.file.block 1)
      (t.file.block 2)
      (t.file.block 15)
      (t.file.block 16)
image_run =
    let (u, t, e, p) =
      Runs.Returns-result (fill_image ⦃image = paper⦄ 1000 (layout 1000 984) 16 (blank 17))
        (fill_image-Written 1000 984 (omega arith) (omega arith)) in
    (t, p.0)

abbrev formatted_disk : ℕ → Block
formatted_disk = image_run.0.file.block

-- a kernel with a few buffers and this disk
abbrev booting : Fs (ℕ → Block)
booting = record {
  cache = record small_cache { disk = formatted_disk };
  sb = no_superblock;
  inode = λ _. small_inode;
  file = λ _. record {
    opened = false;
    ref = 0;
    readable = false;
    writable = false;
    ip = none;
    off = 0;
  };
}

fsinit-Formatted_example :
    Returns
      (λ _ s. Mounted ⦃driver = ram_disk⦄ formatted_disk s × (s.sb ≡ layout 1000 984))
      (fsinit ⦃driver = ram_disk⦄ 1 booting)
fsinit-Formatted_example =
    fsinit-Formatted ⦃driver = ram_disk⦄ 1 1000 984 (5 ∷ 7 ∷ []) booting image_run.1 two_nodes-Ring
      (omega arith) tt refl (λ b e. absurd cc)
