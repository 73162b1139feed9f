-- ===== src/Mkfs/Image.antt =====
-- `main` of mkfs/mkfs.c on an image file, from the first block of zeros to the root directory.
use riscv_os_lab.Prelude.{ℕ, ◌-◌}
use riscv_os_lab.Prelude.Runs
use riscv_os_lab.Prelude.Runs.{ok, panic, out_of_fuel, fault, Cmd, and_then, ◌>>=◌}
use riscv_os_lab.Mkfs.{ImageFile, Mkfs, MkfsState}
use riscv_os_lab.Mkfs.Paper.{Paper, Follows}
use riscv_os_lab.Mkfs.Format.{Formatted}

module _ ⦃image : ImageFile⦄ where
  -- the blocks of a file that holds an empty file system of `total` blocks
  abbrev pub IsImage : ℕ → MkfsState → Type 0
  IsImage total s =
      Formatted total (total - 16) (image.block s.file 1) (image.block s.file 2)
        (image.block s.file 15) (image.block s.file 16)
