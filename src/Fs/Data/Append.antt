-- ===== src/Fs/Data/Append.antt =====
-- `writei` of fs/fs.c and then `readi`, when `writei` allocates the direct blocks that the file lacks.
use riscv_os_lab.Prelude.{
  ℕ, ◌+◌, ◌*◌, ◌/◌, ◌%◌, ◌^◌, ◌≤◌, ◌<◌, ◌≡◌, refl, sym, ap, ◌∙◌, subst, fun_ext, inl, inr, false,
  Option, some, arith, ltb, ==_refl, ==-false, ℕ-cases, update_ne,
}
use riscv_os_lab.Prelude.Words.{Bytes, memmove}
use riscv_os_lab.Prelude.Runs
use riscv_os_lab.Prelude.Runs.{Run, ok, Cmd, and_then, ◌>>=◌, ◌>>◌, Returns, returns}
use riscv_os_lab.Fs.Bio.{Block, BlockDriver, bsize}
use riscv_os_lab.Fs.State.{ndirect, Inode, FileSystem}
use riscv_os_lab.Fs.Access.{OnDisk, Settled}
use riscv_os_lab.Fs.Data.{max_file, writei_loop, writei, readi}
use riscv_os_lab.Fs.Data.Contents.{file_bytes}
use riscv_os_lab.Fs.Data.Size.{
  resize, with_size, size_step, size_step-OnDisk, Reaches, after_resize, with_size-file,
  reads_copied,
}
use riscv_os_lab.Fs.Data.View.{file_view, WellKept}
use riscv_os_lab.Fs.Data.Mapped.{file, st}
use riscv_os_lab.Fs.Data.Grow.{Filled, writei_loop-Filled}

memmove_at :
    (d : Bytes) (off : ℕ) (mem : Bytes) (src n k : ℕ)
    → k < n
    → memmove d off mem src n (off + k) ≡ mem (src + k)
unfolding memmove
memmove_at d off mem src n k lt = ground arith

module _ ⦃driver : BlockDriver⦄ (i : ℕ) (s : FileSystem) where
  -- what `writei` leaves: the rounds `f`, and the end that may store a new size
  pub record Appended (dk : ℕ → Block) (mem : Bytes) (src off n : ℕ) (r : Option ℕ)
      (s' : FileSystem) : Type 0 where
    pub result : r ≡ some n
    pub end : ℕ
    pub t : FileSystem
    pub filled : Filled i s (s.inode i).addrs dk mem src off n end t
    pub on_disk :
        OnDisk
          ((st i s filled.a' filled.c').inode i).dev
          (with_size i off n (st i s filled.a' filled.c') filled.dk')
          (resize i off n (st i s filled.a' filled.c'))
          s'

  same_state : st i s (s.inode i).addrs s.cache ≡ s
  same_state =
      ap (λ (t : ℕ → Inode). record s { inode = t })
        (fun_ext (λ j. elim (ℕ-cases j i) [
          | inl e ↦ rw (e, ==_refl i) refl
          | inr ne ↦ update_ne s.inode i (file i s (s.inode i).addrs) ne
        ]))

  pub writei-Appended :
      (mem : Bytes) (src off n : ℕ) (dk : ℕ → Block)
      → ((j : ℕ) → mem j < 256)
      → off ≤ (s.inode i).size
      → off + n ≤ ndirect * bsize
      → Settled (s.inode i).dev dk s.cache
      → WellKept s.sb (s.inode i) dk
      → Returns (Appended dk mem src off n) (writei i mem src off n s)
  unfolding writei
  writei-Appended mem src off n dk small no_gap fits h w =
      let inside : ltb (s.inode i).size off ≡ false = ground arith in
      let end_at : (off + n) % 2 ^ 32 ≡ off + n = omega arith in
      let forwards : ltb (off + n) off ≡ false = ground arith in
      let short : ltb max_file (off + n) ≡ false = ground arith in
      rw (inside, end_at, forwards, short)
        (Runs.bind
          (subst
            (λ (t : FileSystem).
              Returns (Filled i s (s.inode i).addrs dk mem src off n)
                (writei_loop n i mem src off n t))
            same_state
            (writei_loop-Filled i s n mem src off n (s.inode i).addrs dk s.cache small (omega arith)
              fits (record { settled = h; well = w })))
          λ end t f.
            subst (λ (e : ℕ). Returns (Appended dk mem src off n) (size_step i n e t))
              (sym f.end_at)
              (subst
                (λ (v : FileSystem).
                  Returns (Appended dk mem src off n) (size_step i n (off + n) v))
                (sym f.state)
                (Runs.mono
                  (size_step-OnDisk i off n f.dk' (st i s f.a' f.c') f.c'
                    (rw (==_refl i) f.kept.settled))
                  λ r s' p. record { result = p.0; end = end; t = t; filled = f; on_disk = p.1 })))

  pub appended_bytes :
      (dk : ℕ → Block) (mem : Bytes) (src off n end : ℕ) (t : FileSystem)
      (f : Filled i s (s.inode i).addrs dk mem src off n end t)
      → off + n ≤ ndirect * bsize
      → (k : ℕ) → k < n
      → file_bytes
          (with_size i off n (st i s f.a' f.c') f.dk')
          ((st i s f.a' f.c').inode i)
          (off + k)
        ≡ mem (src + k)
  appended_bytes dk mem src off n end t f fits k lt =
      let o = off + k in
      let there = f.has o (omega arith) (omega arith) in
      let apart = f.kept.well.home_apart (o / bsize) (omega arith) there in
      let stored =
        with_size-file i off n (st i s f.a' f.c') f.dk' (f.a' (o / bsize)) (rw (==_refl i) apart) in
      let seen = f.seen o (omega arith) in
      let here : ((st i s f.a' f.c').inode i).addrs (o / bsize) ≡ f.a' (o / bsize) =
        rw (==_refl i) refl in
      let shown : file_bytes f.dk' (file i s f.a') o
          ≡ memmove (file_view dk (file i s (s.inode i).addrs)) off mem src n o =
        rw (==-false (f.a' (o / bsize)) 0 there) at seen in
      ap (λ (b : ℕ). with_size i off n (st i s f.a' f.c') f.dk' b (o % bsize)) here
      ∙ ap (λ (d : Block). d (o % bsize)) stored
      ∙ shown
      ∙ memmove_at (file_view dk (file i s (s.inode i).addrs)) off mem src n k lt

  -- `writei` of bytes to a range that begins within the file and ends within its direct blocks,
  -- some or all of which the file may lack, and then `readi` of the range: `readi` returns the
  -- number of bytes and moves to its destination the bytes that `writei` was given. The cache is
  -- coherent with the disk and the file system is kept well: the blocks of the file are in use
  -- and each at one place, free blocks are neither block 0 nor of the bitmap, and there are as
  -- many as the file lacks direct blocks.
  pub writei-readi_fresh :
      (mem : Bytes) (src off n : ℕ) (mem2 : Bytes) (dst : ℕ) (dk : ℕ → Block)
      → ((j : ℕ) → mem j < 256)
      → off ≤ (s.inode i).size
      → off + n ≤ ndirect * bsize
      → Settled (s.inode i).dev dk s.cache
      → WellKept s.sb (s.inode i) dk
      → Returns
          (λ r s'. r ≡ (n, memmove mem2 dst mem src n))
          ((writei i mem src off n >>= λ _. readi i mem2 dst off n) s)
  writei-readi_fresh mem src off n mem2 dst dk small no_gap fits h w =
      Runs.bind (writei-Appended mem src off n dk small no_gap fits h w) λ r s' p.
        let f = p.filled in
        let after = st i s f.a' f.c' in
        reads_copied i (after.inode i) mem src off n mem2 dst (with_size i off n after f.dk') s'
          (omega arith) (rw (==_refl i) (λ o lo hi. (omega arith, f.has o lo hi)))
          (subst (Reaches i (after.inode i) off n (with_size i off n after f.dk'))
            (sym p.on_disk.cache_only)
            (after_resize i off n (with_size i off n after f.dk') after s'.cache
              (rw (==_refl i) no_gap) p.on_disk.settled))
          (appended_bytes dk mem src off n p.end p.t f fits)
