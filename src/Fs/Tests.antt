-- ===== src/Fs/Tests.antt =====
-- The properties of fs/ at small inputs, with a disk driver that moves whole blocks.
use riscv_os_lab.Prelude.{
  ℕ, ◌+◌, ◌-◌, ◌*◌, ◌%◌, ◌^◌, ◌<◌, ◌≡◌, refl, ◌≢◌, Bool, true, false, none, some, List, [], ◌∷◌,
  arith, ltb, if◌then◌else◌, ==_refl, ==-false, update, find_first, find_first-none,
}
use riscv_os_lab.Prelude.Runs.{ok, Cmd, Returns}
use riscv_os_lab.Prelude.Words.{Bytes}
use riscv_os_lab.Fs.Bio.{Block, bsize, BlockDriver, Buf, Nodes, head, Bcache, bget, brelse}
use riscv_os_lab.Fs.Bio.Ring.{Ring}
use riscv_os_lab.Fs.Bio.Lru.{acquire, bget_lem}
use riscv_os_lab.Fs.Bio.Release.{Released, brelse_lem}
use riscv_os_lab.Fs.State.{Inode, Fs}
use riscv_os_lab.Fs.Inode.{iget, iput}
use riscv_os_lab.Fs.Bitmap.{scan_bytes}
use riscv_os_lab.Fs.Bitmap.Scan.{is_free, scan_bytes-past_size}
use riscv_os_lab.Fs.Inode.Dinode.{Fits}
use riscv_os_lab.Fs.Inode.Slots.{OneSlot, IgetEnds, iget_lem, iput_lem}
use riscv_os_lab.Fs.Dir.{names_match}
use riscv_os_lab.Fs.Dir.Names.{text, names_match_lem}
use riscv_os_lab.Fs.Path.{slash}

-- a disk of blocks
abbrev pub move_block : Bool → ℕ → Block → Cmd (ℕ → Block) Block
move_block true n x d = ok x (update d n x)
move_block false n x d = ok (d n) d

abbrev pub ram_disk : BlockDriver
ram_disk = record {
  Disk = ℕ → Block;
  IsReady = λ _. Unit {0};
  block = λ d n. d n;
  virtio_disk_rw = move_block;
  read_lem = λ d n old r. (d, refl, r, λ m. refl);
  write_lem =
      λ d n x r. (update d n x, refl, r, rw (==_refl n) refl, λ m ne. rw (==-false m n ne) refl);
}

abbrev pub empty_buf : Buf
empty_buf = record {
  valid = false;
  dev = 0;
  blockno = 0;
  refcnt = 0;
  prev = 0;
  next = 0;
  data_of = λ _. 0;
}

-- the nodes 5 and 7 in the list, of which 5 is in use twice
abbrev pub two_nodes : Nodes
two_nodes =
    update
      (update (update (λ _. empty_buf) head (record empty_buf { next = 5; prev = 7 })) 5
        (record empty_buf { next = 7; prev = head; refcnt = 2; dev = 1; blockno = 9 }))
      7 (record empty_buf { next = head; prev = 5 })

abbrev pub small_cache : Bcache (ℕ → Block)
small_cache = record { nodes = two_nodes; disk = λ n _. n % 256 }

pub two_nodes-Ring : Ring two_nodes (5 ∷ 7 ∷ [])
two_nodes-Ring = record {
  links = (refl, refl, (refl, refl, (refl, refl)));
  distinct = (((λ e. omega (arith, e)), tt), (tt, tt));
  no_head = ((λ e. omega (arith, e)), ((λ e. omega (arith, e)), tt));
}

bget_lem_example : bget 1 9 small_cache ≡ acquire 1 9 (5 ∷ 7 ∷ []) small_cache
bget_lem_example = bget_lem 1 9 (5 ∷ 7 ∷ []) small_cache two_nodes-Ring (omega arith)

brelse_lem_example : Returns (λ _. Released 5 1 (5 ∷ 7 ∷ []) small_cache) (brelse 5 small_cache)
brelse_lem_example = brelse_lem 5 1 (5 ∷ 7 ∷ []) small_cache two_nodes-Ring refl refl (omega arith)

-- "ab", with bytes after the NUL that differ
abbrev name_ab : Bytes
name_ab = update (update (update (λ _. 7) 0 b'a') 1 b'b') 2 0

abbrev name_ab' : Bytes
name_ab' = update (update (λ _. 0) 0 b'a') 1 b'b'

names_match_lem_example :
    (names_match name_ab name_ab' ≡ true → text name_ab ≡ text name_ab')
    × (text name_ab ≡ text name_ab' → names_match name_ab name_ab' ≡ true)
names_match_lem_example = names_match_lem name_ab name_ab'

-- "/a//b"
abbrev path_ab : List ℕ
path_ab = slash ∷ b'a' ∷ slash ∷ slash ∷ b'b' ∷ []

abbrev pub free_inode : Inode
free_inode = record {
  dev = 0;
  inum = 0;
  ref = 0;
  valid = false;
  kind = 0;
  major = 0;
  minor = 0;
  nlink = 0;
  size = 0;
  addrs = λ _. 0;
}

-- the root inode in slot 0, in use twice
abbrev pub root_only : Fs (ℕ → Block)
root_only = record {
  cache = small_cache;
  sb = record {
    magic = 0;
    size = 0;
    nblocks = 0;
    ninodes = 0;
    nlog = 0;
    logstart = 0;
    inodestart = 0;
    bmapstart = 0;
  };
  inode = update (λ _. free_inode) 0 (record free_inode { dev = 1; inum = 1; ref = 2 });
  file = λ _. record {
    opened = false;
    ref = 0;
    readable = false;
    writable = false;
    ip = none;
    off = 0;
  };
}

root_only-OneSlot : OneSlot root_only.inode
root_only-OneSlot i j li lj pi pj ed ei = ground arith

iget_lem_example : IgetEnds 1 1 root_only (iget 1 1 root_only)
iget_lem_example = iget_lem 1 1 root_only root_only-OneSlot (λ j lt. ground arith)

iput_lem_example :
    Returns
      (λ _ s'.
        OneSlot s'.inode
        × ((s'.inode 0).ref + 1 ≡ 2)
        × ((j : ℕ) → j ≢ 0 → s'.inode j ≡ root_only.inode j))
      (iput 0 root_only)
iput_lem_example = iput_lem 0 root_only root_only-OneSlot refl

-- an inode of two blocks, and one with other contents
abbrev pub small_inode : Inode
small_inode = record {
  dev = 1;
  inum = 3;
  ref = 1;
  valid = true;
  kind = 2;
  major = 0;
  minor = 0;
  nlink = 1;
  size = 2000;
  addrs = λ i. 46 + i % 2;
}

abbrev old_inode : Inode
old_inode = record small_inode { kind = 7; size = 9; addrs = λ _. 5 }

small_inode-Fits : Fits small_inode
small_inode-Fits = record {
  kind = omega arith;
  major = omega arith;
  minor = omega arith;
  nlink = omega arith;
  size = omega arith;
  addrs = λ i. omega arith;
}

-- a bitmap block with the first `n` blocks in use
abbrev used_below : ℕ → Block
used_below n i = if ltb (i * 8 + 7) n then 255 else if ltb (i * 8) n then 2 ^ (n % 8) - 1 else 0

nine_used : (x : ℕ) → x < 9 → is_free (used_below 9) x ≡ false
unfolding find_first
nine_used x lt =
    find_first-none (λ x. is_free (used_below 9) x) 9 0 refl x (omega arith) (omega arith)

scan_bytes-past_size_example :
    (scan_bytes bsize 0 9 0 (used_below 9) ≡ some (1, 1)) × (1 * 8 + 1 ≡ 9)
scan_bytes-past_size_example =
    scan_bytes-past_size 9 (used_below 9) (omega arith) (λ e. omega (arith, e)) nine_used refl
