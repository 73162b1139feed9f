-- ===== src/Mkfs/Format.antt =====
-- What `main` of mkfs/mkfs.c writes: the superblock, the bitmap, the root inode and its directory.
use riscv_os_lab.Prelude.{
  ℕ, ◌+◌, ◌/◌, ◌%◌, ◌^◌, ◌≤◌, ◌<◌, ◌≡◌, refl, ap, ◌∙◌, inl, inr, Bool, true, false, ◌||◌, not, none,
  [], arith, ltb, ◌==◌, ◌!=◌, if◌then◌else◌, ==-false, ltb→lt, Bool-cases, find_first,
  find_first-none,
}
use riscv_os_lab.Prelude.Words.{byte_of, load16, load32, store, store16, store32, memset, memmove}
use riscv_os_lab.Prelude.Runs.{Returns, returns}
use riscv_os_lab.Fs.Bio.{Block, bsize}
use riscv_os_lab.Fs.Inode.{load_dinode}
use riscv_os_lab.Fs.Inode.Dinode.{SameDinode}
use riscv_os_lab.Fs.Bitmap.Scan.{is_clear, is_free}
use riscv_os_lab.Fs.State.{Inode, fsmagic, rootino, t_dir, Superblock, read_superblock}
use riscv_os_lab.Mkfs.{
  Mkfs, bpb, dinode_at, store_superblock, wsect, rsect, balloc_mark, next_block, winode, rinode,
  ialloc,
}
use riscv_os_lab.Mkfs.Main.{
  no_superblock, own_addr, slot_of, indirect_addr, file_block, put_chunk, iappend_loop, iappend,
  mark_blocks, write_layout, write_entries, write_root, report, fill_image,
}
use riscv_os_lab.Mkfs.Paper.{Paper, paper}

-- the program as it starts, with an image of `n` blocks of zeros
abbrev pub blank : ℕ → Mkfs Paper
blank n = record {
  file = record { block = λ _ _. 0; blocks = n; position = 0 };
  sb = no_superblock;
  freeblock = 0;
  freeinode = 1;
  printed = [];
}

abbrev pub layout : (total free : ℕ) → Superblock
layout total free = record {
  magic = fsmagic;
  size = total;
  nblocks = free;
  ninodes = 200;
  nlog = 0;
  logstart = 0;
  inodestart = 2;
  bmapstart = 15;
}

-- the root directory's inode as the file system reads it
abbrev pub root_inode : Inode → Inode
root_inode old = record old {
  kind = t_dir;
  major = 0;
  minor = 0;
  nlink = 1;
  size = 32;
  addrs = λ i. if i == 0 then 16 else 0;
}

-- the bytes of the entries "." and ".."
abbrev pub entry_bytes : Block
entry_bytes i =
    if (i == 0) || (i == 16)
    then rootino
    else if (i == 2) || (i == 18) || (i == 19)
    then b'.'
    else 0

-- The blocks of an empty file system with one bitmap block: the superblock, the first inode block, the
-- bitmap, in which the 16 blocks before the data and one data block are in use, and that data block
-- with the root directory.
pub record Formatted (total free : ℕ) (super inodes bitmap root : Block) : Type 0 where
  pub superblock : read_superblock super ≡ layout total free
  pub root_dinode :
      (old : Inode) → SameDinode (load_dinode inodes (dinode_at rootino) old) (root_inode old)
  pub in_use : (x : ℕ) → x < 17 → is_free bitmap x ≡ false
  pub free_data : (x : ℕ) → 17 ≤ x → x < bpb → is_free bitmap x ≡ true
  pub entries : (i : ℕ) → i < bsize → root i ≡ entry_bytes i

store_superblock-read :
    (total free : ℕ)
    → total < 2 ^ 32
    → free < 2 ^ 32
    → read_superblock (store_superblock (layout total free) (λ _. 0)) ≡ layout total free
unfolding load32 store32 store byte_of store_superblock
store_superblock-read total free ht hf =
    let a : load32 (store_superblock (layout total free) (λ _. 0)) 4 ≡ total = omega arith in
    let b : load32 (store_superblock (layout total free) (λ _. 0)) 8 ≡ free = omega arith in
    rw (a, b) refl

-- What holds at each number of a range by evaluation.
agree_below :
    (f g : ℕ → ℕ) (n : ℕ) → find_first (λ i. f i != g i) n 0 ≡ none → (i : ℕ) → i < n → f i ≡ g i
agree_below f g n e i lt =
    let same : (f i != g i) ≡ false =
      find_first-none (λ i. f i != g i) n 0 e i (omega arith) (omega arith) in
    ground arith

false_below : (f : ℕ → Bool) (n : ℕ) → find_first f n 0 ≡ none → (x : ℕ) → x < n → f x ≡ false
false_below f n e x lt = find_first-none f n 0 e x (omega arith) (omega arith)

true_between :
    (f : ℕ → Bool) (n i : ℕ)
    → find_first (λ x. not (f x)) n i ≡ none
    → (x : ℕ) → i ≤ x
    → x < i + n
    → f x ≡ true
true_between f n i e x lo hi =
    let no : not (f x) ≡ false = find_first-none (λ x. not (f x)) n i e x lo hi in ground arith

-- the bytes of the bitmap with 17 blocks in use
abbrev marks : Block
marks i = if i == 0 then 255 else if i == 1 then 255 else if i == 2 then 1 else 0

no_bits : (j : ℕ) → j < 8 → is_clear 0 j ≡ true
unfolding find_first
no_bits j lt = true_between (is_clear 0) 8 0 refl j (omega arith) (omega arith)

marks-used : (x : ℕ) → x < 17 → is_free marks x ≡ false
unfolding find_first
marks-used = false_below (is_free marks) 17 refl

marks-free : (x : ℕ) → 17 ≤ x → is_free marks x ≡ true
unfolding find_first
marks-free x lo = elim (Bool-cases (ltb x 24)) [
  | inl near ↦ true_between (is_free marks) 7 17 refl x lo (ltb→lt x 24 near)
  | inr far ↦
      let late : 24 ≤ x = ground arith in
      let zero_byte : marks (x / 8) ≡ 0 =
        rw
          (
            ==-false (x / 8) 0 (λ e. omega (arith, e, late)),
            ==-false (x / 8) 1 (λ e. omega (arith, e, late)),
            ==-false (x / 8) 2 (λ e. omega (arith, e, late)),
          )
          refl in
      rw zero_byte (no_bits (x % 8) (omega arith))
]

free_by_bytes : (b : Block) (x : ℕ) → b (x / 8) ≡ marks (x / 8) → is_free b x ≡ is_free marks x
free_by_bytes b x e = ap (λ m. is_clear m (x % 8)) e

-- The same, with the bytes of the bitmap.
record Written (total free : ℕ) (super inodes bitmap root : Block) : Type 0 where
  superblock : read_superblock super ≡ layout total free
  root_dinode :
      (old : Inode) → SameDinode (load_dinode inodes (dinode_at rootino) old) (root_inode old)
  bytes : (i : ℕ) → i < bsize → bitmap i ≡ marks i
  entries : (i : ℕ) → i < bsize → root i ≡ entry_bytes i

Written-Formatted :
    (total free : ℕ) (b1 b2 b3 b4 : Block)
    → Written total free b1 b2 b3 b4
    → Formatted total free b1 b2 b3 b4
Written-Formatted total free b1 b2 b3 b4 w = record {
  superblock = w.superblock;
  root_dinode = w.root_dinode;
  in_use = λ x lt. free_by_bytes b3 x (w.bytes (x / 8) (omega arith)) ∙ marks-used x lt;
  free_data = λ x lo hi. free_by_bytes b3 x (w.bytes (x / 8) (omega arith)) ∙ marks-free x lo;
  entries = w.entries;
}

pub fill_image-Written :
    (total free : ℕ)
    → total < 2 ^ 32
    → free < 2 ^ 32
    → Returns
        (λ _ t.
          Formatted total free (t.file.block 1) (t.file.block 2) (t.file.block 15) (t.file.block 16)
          × (17 ≡ t.file.blocks))
        (fill_image ⦃image = paper⦄ total (layout total free) 16 (blank 17))
unfolding find_first load_dinode load16 load32 store16 store32 store byte_of memmove memset wsect
    rsect balloc_mark next_block winode rinode ialloc own_addr slot_of indirect_addr file_block
    put_chunk iappend_loop iappend mark_blocks write_layout write_entries write_root report
    fill_image
fill_image-Written total free ht hf = returns (
  Written-Formatted total free _ _ _ _ (record {
    superblock = store_superblock-read total free ht hf;
    root_dinode = λ old. record {
      kind = refl;
      major = refl;
      minor = refl;
      nlink = refl;
      size = refl;
      addrs = agree_below _ _ 13 refl;
    };
    bytes = agree_below _ _ 1024 refl;
    entries = agree_below _ _ 1024 refl;
  }),
  refl,
)
