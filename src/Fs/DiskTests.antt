-- ===== src/Fs/DiskTests.antt =====
-- The properties of fs/ that are about the blocks of the disk, at a small file system.
use riscv_os_lab.Prelude.{
  Bool-cases, List, [], arith, find_first, find_first-none, if◌then◌else◌, inl, inr, ltb, ltb→lt,
  refl, some, true, update, ℕ, ◌%◌, ◌+◌, ◌==◌, ◌∷◌, ◌≡◌, ◌≤◌,
}
use riscv_os_lab.Prelude.Words.{memmove}
use riscv_os_lab.Prelude.Runs.{◌>>=◌, ◌>>◌, Returns}
use riscv_os_lab.Fs.Tests.{ram_disk, empty_buf, free_inode, root_only}
use riscv_os_lab.Fs.Bio.{Block, Nodes, head, Bcache, nbuf, binit}
use riscv_os_lab.Fs.Bio.Release.{below}
use riscv_os_lab.Fs.Bio.Start.{binit-Steady}
use riscv_os_lab.Fs.Bio.Ring.{Ring}
use riscv_os_lab.Fs.Bio.Coherence.{Steady}
use riscv_os_lab.Fs.State.{Inode, Fs}
use riscv_os_lab.Fs.Access.{Settled, OnDisk}
use riscv_os_lab.Fs.Transparent.{Access, read, write, through_cache, through_cache-on_blocks}
use riscv_os_lab.Fs.Bitmap.{balloc, bfree}
use riscv_os_lab.Fs.Bitmap.Marks.{OfBytes, FirstFree, NotBitmap, Allocated, Freed, disk_free}
use riscv_os_lab.Fs.Bitmap.Alloc.{balloc_lem, bfree_lem}
use riscv_os_lab.Fs.Inode.{iupdate, ilock}
use riscv_os_lab.Fs.Inode.Dinode.{Fits}
use riscv_os_lab.Fs.Inode.Stored.{Stored, SameEntry, iupdate-Stored, iupdate-ilock}
use riscv_os_lab.Fs.Data.{readi, writei}
use riscv_os_lab.Fs.Data.Contents.{file_bytes, readi_lem}
use riscv_os_lab.Fs.Bitmap.Count.{count}
use riscv_os_lab.Fs.Data.View.{WellKept}
use riscv_os_lab.Fs.Data.Append.{writei-readi_fresh}
use riscv_os_lab.Fs.Data.Durable.{writei-durable}

-- the nodes 5 and 7 in the list, with no block
abbrev idle_nodes : Nodes
idle_nodes =
    update
      (update (update (λ _. empty_buf) head (record empty_buf { next = 5; prev = 7 })) 5
        (record empty_buf { next = 7; prev = head }))
      7 (record empty_buf { next = head; prev = 5 })

-- a bitmap block with the first 5 blocks in use
abbrev five_used : Block
five_used i = if i == 0 then 31 else 0

-- The bitmap is block 2, and block `n` of the others holds `n` throughout.
abbrev blocks : ℕ → Block
blocks = update (λ n _. n % 256) 2 five_used

abbrev idle_cache : Bcache (ℕ → Block)
idle_cache = record { nodes = idle_nodes; disk = blocks }

-- an inode with 12 blocks, and one that is not read yet
abbrev long_inode : Inode
long_inode = record free_inode {
  dev = 1;
  inum = 3;
  ref = 1;
  valid = true;
  kind = 2;
  nlink = 1;
  size = 2000;
  addrs = λ i. 40 + i % 16;
}

abbrev small_fs : Fs (ℕ → Block)
small_fs = record {
  cache = idle_cache;
  sb = record root_only.sb { size = 60; inodestart = 3; bmapstart = 2 };
  inode =
      update (update (λ _. free_inode) 0 long_inode) 1
        (record free_inode { dev = 1; inum = 3; ref = 2 });
  file = root_only.file;
}

idle_nodes-Ring : Ring idle_nodes (5 ∷ 7 ∷ [])
idle_nodes-Ring = record {
  links = (refl, refl, (refl, refl, (refl, refl)));
  distinct = (((λ e. omega (arith, e)), tt), (tt, tt));
  no_head = ((λ e. omega (arith, e)), ((λ e. omega (arith, e)), tt));
}

idle_cache-Settled : Settled ⦃driver = ram_disk⦄ 1 blocks idle_cache
idle_cache-Settled = (
  5 ∷ 7 ∷ [],
  record {
    ring = idle_nodes-Ring;
    short = omega arith;
    some_buffer = (5, refl);
    unused = λ j h. ground arith;
    synced = λ j h d. absurd (ground arith);
    one = λ i j hi hj di dj same. absurd (ground arith);
    ready = tt;
    on_disk = λ m. refl;
  },
)

blocks-OfBytes : OfBytes blocks
blocks-OfBytes m i = ground arith

five-FirstFree : FirstFree small_fs.sb blocks 0 5
unfolding find_first
five-FirstFree = record {
  from = omega arith;
  in_size = omega arith;
  free = refl;
  first = λ y lo hi.
      find_first-none (λ y. disk_free small_fs.sb blocks y) 5 0 refl y (omega arith) (omega arith);
}

five-NotBitmap : NotBitmap small_fs.sb 5
five-NotBitmap y lt e = omega (arith, e)

balloc_lem_example :
    Returns
      (λ r s'.
        (r ≡ 5)
        × ((dk' : ℕ → Block) × Allocated small_fs.sb 5 blocks dk'
            × OnDisk ⦃driver = ram_disk⦄ 1 dk' small_fs s'))
      (balloc ⦃driver = ram_disk⦄ 1 small_fs)
balloc_lem_example =
    balloc_lem ⦃driver = ram_disk⦄ 1 5 blocks small_fs idle_cache-Settled blocks-OfBytes
      five-FirstFree five-NotBitmap

bfree_lem_example :
    Returns
      (λ _ s'.
        (dk' : ℕ → Block) × Freed small_fs.sb 4 blocks dk'
        × OnDisk ⦃driver = ram_disk⦄ 1 dk' small_fs s')
      (bfree ⦃driver = ram_disk⦄ 1 4 small_fs)
bfree_lem_example =
    bfree_lem ⦃driver = ram_disk⦄ 1 4 blocks small_fs idle_cache-Settled blocks-OfBytes refl

long_inode-Fits : Fits long_inode
long_inode-Fits = record {
  kind = omega arith;
  major = omega arith;
  minor = omega arith;
  nlink = omega arith;
  size = omega arith;
  addrs = λ i. omega arith;
}

iupdate-Stored_example :
    Returns
      (λ _ s'.
        (dk' : ℕ → Block) × Stored small_fs.sb long_inode blocks dk'
        × OnDisk ⦃driver = ram_disk⦄ 1 dk' small_fs s')
      (iupdate ⦃driver = ram_disk⦄ 0 small_fs)
iupdate-Stored_example =
    iupdate-Stored ⦃driver = ram_disk⦄ 0 blocks small_fs idle_cache-Settled long_inode-Fits

iupdate-ilock_example :
    Returns
      (SameEntry ⦃driver = ram_disk⦄ 0 1 small_fs)
      ((iupdate ⦃driver = ram_disk⦄ 0 >> ilock ⦃driver = ram_disk⦄ (some 1)) small_fs)
iupdate-ilock_example =
    iupdate-ilock ⦃driver = ram_disk⦄ 0 1 blocks small_fs idle_cache-Settled long_inode-Fits
      (λ e. omega (arith, e)) refl refl refl refl

readi_lem_example :
    Returns
      (λ r s'.
        (r ≡ (1000, memmove (λ _. 0) 8 (file_bytes blocks long_inode) 1000 1000))
        × OnDisk ⦃driver = ram_disk⦄ 1 blocks small_fs s')
      (readi ⦃driver = ram_disk⦄ 0 (λ _. 0) 8 1000 4000 small_fs)
readi_lem_example =
    readi_lem ⦃driver = ram_disk⦄ 0 (λ _. 0) 8 1000 4000 blocks small_fs idle_cache-Settled
      (λ o lo hi. (omega arith, λ e. omega (arith, e)))

abbrev three_accesses : List Access
three_accesses = write 9 five_used ∷ read 9 ∷ read 44 ∷ []

through_cache-on_blocks_example :
    Returns
      (λ xs s'.
        (xs ≡ five_used ∷ (λ _. 44) ∷ [])
        × OnDisk ⦃driver = ram_disk⦄ 1 (update blocks 9 five_used) small_fs s')
      (through_cache ⦃driver = ram_disk⦄ 1 three_accesses small_fs)
through_cache-on_blocks_example =
    through_cache-on_blocks ⦃driver = ram_disk⦄ 1 three_accesses blocks small_fs idle_cache-Settled

binit-Steady_example :
    Steady ⦃driver = ram_disk⦄ 1 blocks
      (below nbuf)
      (record { nodes = binit (λ _. empty_buf); disk = blocks })
binit-Steady_example =
    binit-Steady ⦃driver = ram_disk⦄ 1 (λ _. empty_buf) blocks (λ e. omega (arith, e))
      (λ j. (refl, refl)) tt

-- an empty file in slot 2, and in slot 3 an entry for it that is not read yet
abbrev fresh_fs : Fs (ℕ → Block)
fresh_fs = record small_fs {
  inode =
      update
        (update small_fs.inode 2
          (record free_inode { dev = 1; inum = 4; ref = 1; valid = true; kind = 2; nlink = 1 }))
        3 (record free_inode { dev = 1; inum = 4; ref = 1 });
}

below_five : (y : ℕ) → disk_free small_fs.sb blocks y ≡ true → 5 ≤ y
below_five y free = elim (Bool-cases (ltb y 5)) [
  | inl below ↦ let in_use = five-FirstFree.first y (omega arith) (ltb→lt y 5 below) in absurd cc
  | inr past ↦ ground arith
]

fresh_fs-WellKept : WellKept fresh_fs.sb (fresh_fs.inode 2) blocks
unfolding count
fresh_fs-WellKept = record {
  bytes = blocks-OfBytes;
  used = λ k lk there. absurd (there refl);
  inside = λ k lk there. absurd (there refl);
  apart = λ k lk there. absurd (there refl);
  one = λ j k lj lk there e. absurd (there refl);
  reserved = λ y ly is.
      let past = below_five y is in ((λ e. omega (arith, e)), (λ x lx e. omega (arith, e)));
  home_used = refl;
  home_inside = omega arith;
  home_apart = λ k lk there. absurd (there refl);
  enough = omega arith;
}

writei-readi_fresh_example :
    Returns
      (λ r s'. r ≡ (3000, memmove (λ _. 0) 8 (λ a. a % 7) 16 3000))
      ((writei ⦃driver = ram_disk⦄ 2 (λ a. a % 7) 16 0 3000 >>= λ _.
          readi ⦃driver = ram_disk⦄ 2 (λ _. 0) 8 0 3000)
        fresh_fs)
writei-readi_fresh_example =
    writei-readi_fresh ⦃driver = ram_disk⦄ 2 fresh_fs (λ a. a % 7) 16 0 3000 (λ _. 0) 8 blocks
      (λ j. omega arith) (omega arith) (omega arith) idle_cache-Settled fresh_fs-WellKept

fresh_file-Fits : Fits (fresh_fs.inode 2)
fresh_file-Fits = record {
  kind = omega arith;
  major = omega arith;
  minor = omega arith;
  nlink = omega arith;
  size = omega arith;
  addrs = λ i. omega arith;
}

writei-durable_example :
    Returns
      (λ r s'. r ≡ (3000, memmove (λ _. 0) 8 (λ a. a % 7) 16 3000))
      ((writei ⦃driver = ram_disk⦄ 2 (λ a. a % 7) 16 0 3000 >>= λ _.
          ilock ⦃driver = ram_disk⦄ (some 3) >> readi ⦃driver = ram_disk⦄ 3 (λ _. 0) 8 0 3000)
        fresh_fs)
writei-durable_example =
    writei-durable ⦃driver = ram_disk⦄ 2 3 fresh_fs (λ e. omega (arith, e)) (λ a. a % 7) 16 0 3000
      (λ _. 0) 8 blocks (λ j. omega arith) (omega arith) (omega arith) idle_cache-Settled
      fresh_fs-WellKept (record { dev = refl; inum = refl; held = refl; fresh = refl })
      fresh_file-Fits (omega arith) (λ e. omega (arith, e)) refl
