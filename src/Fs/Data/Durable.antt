-- ===== src/Fs/Data/Durable.antt =====
-- What `writei` of fs/fs.c has put on the disk when a file grows, as another entry of the inode table
-- reads it from there.
use riscv_os_lab.Prelude.{
  ℕ, ◌+◌, ◌*◌, ◌/◌, ◌%◌, ◌^◌, ◌≤◌, ◌<◌, ◌≡◌, refl, sym, ap, ◌∙◌, subst, ◌≢◌, true, false, some,
  arith, ==_refl, ==-false, update,
}
use riscv_os_lab.Prelude.Words.{Bytes, memmove}
use riscv_os_lab.Prelude.Runs
use riscv_os_lab.Prelude.Runs.{Run, ok, Cmd, and_then, ◌>>=◌, ◌>>◌, Returns, returns}
use riscv_os_lab.Fs.Bio.{Block, BlockDriver, Cache, bsize}
use riscv_os_lab.Fs.State.{ndirect, Inode, is_pos, FileSystem, set_inode}
use riscv_os_lab.Fs.Access.{OnDisk, Settled, with_cache}
use riscv_os_lab.Fs.Inode.{ilock, load_dinode}
use riscv_os_lab.Fs.Inode.Dinode.{Fits, SameDinode}
use riscv_os_lab.Fs.Inode.Stored.{disk_inode, store_inode, store_inode_lem, locked, ilock-fresh}
use riscv_os_lab.Fs.Data.{writei, readi}
use riscv_os_lab.Fs.Data.Contents.{file_bytes}
use riscv_os_lab.Fs.Data.Size.{grows, resize, with_size, Reaches, reads_copied}
use riscv_os_lab.Fs.Data.View.{WellKept}
use riscv_os_lab.Fs.Data.Mapped.{st}
use riscv_os_lab.Fs.Data.Append.{writei-Appended, appended_bytes}

module _ ⦃driver : BlockDriver⦄ (i j : ℕ) (s : FileSystem) (ne : j ≢ i) where
  -- the entry `j` is for the same inode, has a reference and is not read yet
  pub record Unread : Type 0 where
    pub dev : (s.inode j).dev ≡ (s.inode i).dev
    pub inum : (s.inode j).inum ≡ (s.inode i).inum
    pub held : is_pos (s.inode j).ref ≡ true
    pub fresh : (s.inode j).valid ≡ false

  module _ (off n : ℕ) (a : ℕ → ℕ) (dk' : ℕ → Block) (c c' : Cache)
      (longer : grows (s.inode i) off n ≡ true) (entry : Unread) where
    -- the inode and the blocks of the disk at the end of `writei`
    abbrev written : Inode
    written = record (s.inode i) { addrs = a; size = off + n }

    written-Fits : Fits (s.inode i) → off + n < 2 ^ 32 → ((k : ℕ) → a k < 2 ^ 32) → Fits written
    written-Fits fits size_fits small = record {
      kind = fits.kind;
      major = fits.major;
      minor = fits.minor;
      nlink = fits.nlink;
      size = size_fits;
      addrs = small;
    }

    abbrev final : ℕ → Block
    final = store_inode s.sb written dk'

    with_size-final : with_size i off n (st i s a c) dk' ≡ final
    with_size-final = rw (==_refl i, longer) refl

    -- the state at the end of `writei`
    abbrev after : FileSystem
    after = record s { inode = update (st i s a c).inode i written; cache = c' }

    after-resize : with_cache (resize i off n (st i s a c)) c' ≡ after
    after-resize = rw (==_refl i, longer) refl

    entry_kept : after.inode j ≡ s.inode j
    entry_kept = rw (==-false j i ne) refl

    stored :
        Fits written
        → SameDinode (disk_inode s.sb final (after.inode j).inum (after.inode j)) written
    stored fits =
        subst (λ (v : Inode). SameDinode (disk_inode s.sb final v.inum v) written) (sym entry_kept)
          (subst (λ (m : ℕ). SameDinode (disk_inode s.sb final m (s.inode j)) written)
            (sym entry.inum) ((store_inode_lem s.sb written (s.inode j) dk' fits).0))

    module _ (mem : Bytes) (src : ℕ) (fits : Fits written) (has_type : (s.inode i).kind ≢ 0)
        (end_fits : off + n ≤ ndirect * bsize)
        (has : (o : ℕ) → off ≤ o → o < off + n → a (o / bsize) ≢ 0)
        (bytes : (k : ℕ) → k < n → file_bytes final written (off + k) ≡ mem (src + k)) where
      abbrev entry_locked : Inode
      entry_locked = locked after final j

      addr_read : (k : ℕ) → k < ndirect → entry_locked.addrs k ≡ a k
      addr_read k lk = (stored fits).addrs k (omega arith)

      entry_dev : entry_locked.dev ≡ (after.inode j).dev
      entry_dev = unfold load_dinode in refl

      read_entry :
          (mem2 : Bytes) (dst : ℕ) (s2 : FileSystem)
          → OnDisk (after.inode j).dev final (set_inode j (λ _. entry_locked) after) s2
          → Returns (λ r _. r ≡ (n, memmove mem2 dst mem src n)) (readi j mem2 dst off n s2)
      read_entry mem2 dst s2 d =
          reads_copied j entry_locked mem src off n mem2 dst final s2 (omega arith)
            (λ o lo hi.
              let lb : o / bsize < ndirect = omega arith in
              (lb, λ e. has o lo hi (sym (addr_read (o / bsize) lb) ∙ e)))
            (subst (Reaches j entry_locked off n final) (sym d.cache_only) (record {
              addrs = rw (==_refl j) refl;
              reach =
                  rw (==_refl j)
                    (subst (λ (v : ℕ). off + n ≤ v) (sym ((stored fits).size)) (omega arith));
              settled =
                  rw (==_refl j)
                    (subst (λ (v : ℕ). Settled v final s2.cache) (sym entry_dev) d.settled);
            }))
            (λ k lt.
              let lb : (off + k) / bsize < ndirect = omega arith in
              ap (λ (b : ℕ). final b ((off + k) % bsize)) (addr_read ((off + k) / bsize) lb)
              ∙ bytes k lt)

      lock_and_read :
          (mem2 : Bytes) (dst : ℕ)
          → Settled (s.inode i).dev final c'
          → Returns
              (λ r _. r ≡ (n, memmove mem2 dst mem src n))
              ((ilock (some j) >> readi j mem2 dst off n) after)
      lock_and_read mem2 dst h =
          let settled =
            subst (λ (v : Inode). Settled v.dev final c') (sym entry_kept)
              (subst (λ (v : ℕ). Settled v final c') (sym entry.dev) h) in
          Runs.bind
            (ilock-fresh j final after settled (λ e. has_type (sym (stored fits).kind ∙ e))
              (subst (λ (v : Inode). is_pos v.ref ≡ true) (sym entry_kept) entry.held)
              (subst (λ (v : Inode). v.valid ≡ false) (sym entry_kept) entry.fresh))
            λ _ s2 d. read_entry mem2 dst s2 d

  st_addrs : (a : ℕ → ℕ) (c : Cache) (b : ℕ) → ((st i s a c).inode i).addrs b ≡ a b
  st_addrs a c b = rw (==_refl i) refl

  st_dev : (a : ℕ → ℕ) (c : Cache) → ((st i s a c).inode i).dev ≡ (s.inode i).dev
  st_dev a c = rw (==_refl i) refl

  -- `writei` that makes a file longer, then `ilock` of another entry `j` of the inode table for the
  -- same inode, which has a reference and is not valid, then `readi` of the range at `j`: `readi`
  -- returns the number of bytes and moves to its destination the bytes that `writei` was given. The
  -- range begins within the file and ends within its direct blocks, which the file may lack. The
  -- cache is coherent with the disk and the file system is kept well: the blocks of the file are in
  -- use and each at one place, free blocks are neither block 0 nor of the bitmap, and there are as
  -- many as the file lacks direct blocks; the inode has a type, its fields fit their C types, and
  -- the number of blocks fits 32 bits.
  pub writei-durable :
      (mem : Bytes) (src off n : ℕ) (mem2 : Bytes) (dst : ℕ) (dk : ℕ → Block)
      → ((k : ℕ) → mem k < 256)
      → off ≤ (s.inode i).size
      → off + n ≤ ndirect * bsize
      → Settled (s.inode i).dev dk s.cache
      → WellKept s.sb (s.inode i) dk
      → Unread
      → Fits (s.inode i)
      → s.sb.size ≤ 2 ^ 32
      → (s.inode i).kind ≢ 0
      → grows (s.inode i) off n ≡ true
      → Returns
          (λ r s'. r ≡ (n, memmove mem2 dst mem src n))
          ((writei i mem src off n >>= λ _. ilock (some j) >> readi j mem2 dst off n) s)
  writei-durable mem src off n mem2 dst dk bytes no_gap end_fits h w entry fits small has_type
        longer =
      Runs.bind (writei-Appended i s mem src off n dk bytes no_gap end_fits h w) λ r s' p.
        let f = p.filled in
        let same = with_size-final off n f.a' f.dk' f.c' s'.cache longer entry in
        subst
          (λ (t : FileSystem).
            Returns (λ r _. r ≡ (n, memmove mem2 dst mem src n))
              ((ilock (some j) >> readi j mem2 dst off n) t))
          (sym (p.on_disk.cache_only ∙ after-resize off n f.a' f.dk' f.c' s'.cache longer entry))
          (lock_and_read off n f.a' f.dk' f.c' s'.cache longer entry mem src
            (written-Fits off n f.a' f.dk' f.c' s'.cache longer entry fits (omega arith)
              (λ k. f.small (λ big m. fits.addrs m) small k))
            has_type end_fits f.has
            (λ k lt.
              ap
                (λ (b : ℕ). final off n f.a' f.dk' f.c' s'.cache longer entry b ((off + k) % bsize))
                (sym (st_addrs f.a' f.c' ((off + k) / bsize)))
              ∙ subst
                  (λ (d : ℕ → Block).
                    file_bytes d ((st i s f.a' f.c').inode i) (off + k) ≡ mem (src + k))
                  same (appended_bytes i s dk mem src off n p.end p.t f end_fits k lt))
            mem2 dst
            (subst (λ (d : ℕ → Block). Settled (s.inode i).dev d s'.cache) same
              (subst (λ (v : ℕ). Settled v (with_size i off n (st i s f.a' f.c') f.dk') s'.cache)
                (st_dev f.a' f.c') p.on_disk.settled)))
