-- ===== src/Fs/Data/Write.antt =====
-- `writei` of fs/fs.c on a file that has its blocks, the change of its size included, and what `readi`
-- reads of it afterwards.
use riscv_os_lab.Prelude.{
  ℕ, ◌+◌, ◌/◌, ◌%◌, ◌^◌, ◌≤◌, ◌<◌, ◌≡◌, sym, ap, ◌∙◌, subst, ◌≢◌, false, Option, some, arith, ltb,
}
use riscv_os_lab.Prelude.Words.{Bytes, memmove}
use riscv_os_lab.Prelude.Runs
use riscv_os_lab.Prelude.Runs.{Run, ok, Cmd, and_then, ◌>>=◌, ◌>>◌, pure, modify, Returns, returns}
use riscv_os_lab.Fs.Bio.{Block, BlockDriver, bsize}
use riscv_os_lab.Fs.State.{ndirect, Inode, FileSystem}
use riscv_os_lab.Fs.Access.{OnDisk, Settled}
use riscv_os_lab.Fs.Inode.Stored.{dinode_block}
use riscv_os_lab.Fs.Data.{max_file, writei, readi}
use riscv_os_lab.Fs.Data.Contents.{file_bytes, HasBlocks}
use riscv_os_lab.Fs.Data.Size.{
  resize, with_size, size_step, size_step-OnDisk, Reaches, after_resize, with_size-file,
  reads_copied,
}
use riscv_os_lab.Fs.Data.Overwrite.{OneBlockEach, Written, writei_loop_lem}

-- what `writei` accepts
pub record WriteRange (ip : Inode) (off n : ℕ) : Type 0 where
  pub no_gap : off ≤ ip.size
  pub no_overflow : off + n < 2 ^ 32
  pub not_too_long : off + n ≤ max_file
  pub blocks : HasBlocks ip off n
  pub one : OneBlockEach ip

copied_back :
    (ip : Inode) (mem : Bytes) (src off n : ℕ) (dk dk1 dk' : ℕ → Block)
    → WriteRange ip off n
    → Written ip mem src off n dk dk1
    → ((k : ℕ) → k < ndirect → dk' (ip.addrs k) ≡ dk1 (ip.addrs k))
    → (k : ℕ) → k < n
    → file_bytes dk' ip (off + k) ≡ mem (src + k)
unfolding memmove
copied_back ip mem src off n dk dk1 dk' range w same k lt =
    let o = off + k in
    let (direct, there) = range.blocks o (omega arith) (omega arith) in
    let inside = w.inside o direct there in
    ap (λ (d : Block). d (o % bsize)) (same (o / bsize) direct) ∙ inside ∙ ground arith

module _ ⦃driver : BlockDriver⦄ where
  abbrev pub Wrote :
      ℕ → Bytes → (src off n : ℕ) → (ℕ → Block) → FileSystem → Option ℕ → FileSystem → Type 0
  Wrote i mem src off n dk s r s' =
      (r ≡ some n)
      × ((dk1 : ℕ → Block) × Written (s.inode i) mem src off n dk dk1
          × OnDisk (s.inode i).dev (with_size i off n s dk1) (resize i off n s) s')

  pub writei_lem :
      (i : ℕ) (mem : Bytes) (src off n : ℕ) (dk : ℕ → Block) (s : FileSystem)
      → Settled (s.inode i).dev dk s.cache
      → WriteRange (s.inode i) off n
      → Returns (Wrote i mem src off n dk s) (writei i mem src off n s)
  unfolding writei
  writei_lem i mem src off n dk s h range =
      let no_gap : ltb (s.inode i).size off ≡ false = ground (arith, range.no_gap) in
      let end_at : (off + n) % 2 ^ 32 ≡ off + n = omega (arith, range.no_overflow) in
      let forwards : ltb (off + n) off ≡ false = ground arith in
      let short : ltb max_file (off + n) ≡ false = ground (arith, range.not_too_long) in
      rw (no_gap, end_at, forwards, short)
        (Runs.bind (writei_loop_lem n i mem src off n dk s (omega arith) h range.blocks range.one)
          λ end s' p.
            let (dk1, w, d) = p.1 in
            subst (λ (e : ℕ). Returns (Wrote i mem src off n dk s) (size_step i n e s')) (sym p.0)
              (subst
                (λ (t : FileSystem).
                  Returns (Wrote i mem src off n dk s) (size_step i n (off + n) t))
                (sym d.cache_only)
                (Runs.mono (size_step-OnDisk i off n dk1 s s'.cache d.settled)
                  λ r t q. (q.0, (dk1, w, q.1)))))

  -- What `readi` reads where `writei` has just written is what was written.
  pub writei-readi :
      (i : ℕ) (mem : Bytes) (src off n : ℕ) (mem2 : Bytes) (dst : ℕ) (dk : ℕ → Block)
      (s : FileSystem)
      → Settled (s.inode i).dev dk s.cache
      → WriteRange (s.inode i) off n
      → ((k : ℕ) → k < ndirect → (s.inode i).addrs k ≢ dinode_block s.sb (s.inode i).inum)
      → Returns
          (λ r s'. r ≡ (n, memmove mem2 dst mem src n))
          ((writei i mem src off n >>= λ _. readi i mem2 dst off n) s)
  writei-readi i mem src off n mem2 dst dk s h range apart =
      Runs.bind (writei_lem i mem src off n dk s h range) λ r s' p.
        let (dk1, w, d) = p.1 in
        reads_copied i (s.inode i) mem src off n mem2 dst (with_size i off n s dk1) s'
          range.no_overflow range.blocks
          (subst (Reaches i (s.inode i) off n (with_size i off n s dk1)) (sym d.cache_only)
            (after_resize i off n _ s s'.cache range.no_gap d.settled))
          (copied_back (s.inode i) mem src off n dk dk1 (with_size i off n s dk1) range w
            (λ k lt. with_size-file i off n s dk1 ((s.inode i).addrs k) (apart k lt)))
