-- ===== src/Fs/State.antt =====
-- The state of fs/fs.c and fs/file.c: the cache below it, the superblock, the inode and file tables,
-- and memory. A pointer to an inode or a file is its index, `none` where it may be null.
use riscv_os_lab.Prelude.{ℕ, ◌^◌, Bool, ◌&&◌, Option, ltb, ◌!=◌, update}
use riscv_os_lab.Prelude.Words.{load32}
use riscv_os_lab.Prelude.Runs.{Cmd, in_part}
use riscv_os_lab.Fs.Bio
use riscv_os_lab.Fs.Bio.{Block, Bcache, BlockDriver, Cache, set_buf, bsize}

abbrev pub ndirect : ℕ
ndirect = 12

-- BSIZE / sizeof(uint)
abbrev pub nindirect : ℕ
nindirect = 256

abbrev pub dirsiz : ℕ
dirsiz = 14

abbrev pub fsmagic : ℕ
fsmagic = 0x1020_3040

abbrev pub rootino : ℕ
rootino = 1

abbrev pub rootdev : ℕ
rootdev = 1

abbrev pub t_file : ℕ
t_file = 1

abbrev pub t_dir : ℕ
t_dir = 2

abbrev pub t_device : ℕ
t_device = 3

abbrev pub ninode : ℕ
ninode = 50

abbrev pub nfile : ℕ
nfile = 100

pub record Superblock : Type 0 where
  pub magic : ℕ
  pub size : ℕ
  pub nblocks : ℕ
  pub ninodes : ℕ
  pub nlog : ℕ
  pub logstart : ℕ
  pub inodestart : ℕ
  pub bmapstart : ℕ

-- memmove(&sb, bp->data, sizeof(sb))
abbrev pub read_superblock : Block → Superblock
read_superblock d = record {
  magic = load32 d 0;
  size = load32 d 4;
  nblocks = load32 d 8;
  ninodes = load32 d 12;
  nlog = load32 d 16;
  logstart = load32 d 20;
  inodestart = load32 d 24;
  bmapstart = load32 d 28;
}

-- struct inode
pub record Inode : Type 0 where
  pub dev : ℕ
  pub inum : ℕ
  pub ref : ℕ
  pub valid : Bool
  pub kind : ℕ
  pub major : ℕ
  pub minor : ℕ
  pub nlink : ℕ
  pub size : ℕ
  pub addrs : ℕ → ℕ

-- struct file: `opened` is type == FD_INODE
pub record File : Type 0 where
  pub opened : Bool
  pub ref : ℕ
  pub readable : Bool
  pub writable : Bool
  pub ip : Option ℕ
  pub off : ℕ

-- ref > 0, of an `int`
abbrev pub is_pos : ℕ → Bool
is_pos r = (r != 0) && ltb r (2 ^ 31)

pub record Fs (D : Type 0) : Type 0 where
  pub cache : Bcache D
  pub sb : Superblock
  pub inode : ℕ → Inode
  pub file : ℕ → File

module _ {D : Type 0} where
  abbrev pub set_inode : ℕ → (Inode → Inode) → Fs D → Fs D
  set_inode i f s = record s { inode = update s.inode i (f (s.inode i)) }

  abbrev pub set_file : ℕ → (File → File) → Fs D → Fs D
  set_file i f s = record s { file = update s.file i (f (s.file i)) }

  -- code of fs/bio.c, run on the cache
  abbrev pub on_cache : {A : Type 0} → Cmd (Bcache D) A → Cmd (Fs D) A
  on_cache = in_part (λ s. s.cache) (λ c s. record s { cache = c })

  -- bp->data, and a change of it
  abbrev pub data_at : ℕ → Fs D → Block
  data_at b s = (s.cache.nodes b).data_of

  abbrev pub set_data : ℕ → (Block → Block) → Fs D → Fs D
  set_data b f s = record s { cache = set_buf b (λ x. record x { data_of = f x.data_of }) s.cache }

  unfoldable pub brelse : ℕ → Cmd (Fs D) (Unit {0})
  brelse b = on_cache (Bio.brelse b)

module _ ⦃driver : BlockDriver⦄ where
  abbrev pub FileSystem : Type 0
  FileSystem = Fs driver.Disk

  unfoldable pub bread : ℕ → ℕ → Cmd FileSystem ℕ
  bread dev blockno = on_cache (Bio.bread dev blockno)

  unfoldable pub bwrite : ℕ → Cmd FileSystem (Unit {0})
  bwrite b = on_cache (Bio.bwrite b)
