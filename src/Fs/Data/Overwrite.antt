-- ===== src/Fs/Data/Overwrite.antt =====
-- `writei` of fs/fs.c on a file that has its blocks: what the blocks of the disk hold afterwards.
use riscv_os_lab.Prelude.{
  ℕ, zero, suc, ◌+◌, ◌-◌, ◌/◌, ◌%◌, ◌≤◌, ◌<◌, ◌≡◌, refl, sym, ap, ◌∙◌, ◌≢◌, inl, inr, arith, ◌==◌,
  ==_refl, ==-false, Bool-cases, ℕ-cases, update, update_self, update_ne,
}
use riscv_os_lab.Prelude.Words.{Bytes, memmove}
use riscv_os_lab.Prelude.Runs
use riscv_os_lab.Prelude.Runs.{Run, ok, Cmd, and_then, ◌>>=◌, Returns, returns}
use riscv_os_lab.Fs.Bio.{Cache, Block, BlockDriver, bsize}
use riscv_os_lab.Fs.State.{ndirect, Inode, FileSystem, set_data}
use riscv_os_lab.Fs.Access.{
  OnDisk, Settled, with_cache, with_bread, with_bwrite, Holds-set, with_brelse,
}
use riscv_os_lab.Fs.Data.Contents.{file_bytes, HasBlocks, chunk-bounds, memmove_none, bmap-direct}
use riscv_os_lab.Fs.Data.{writei_loop, chunk}

-- no block is the file's at two places
abbrev pub OneBlockEach : Inode → Type 0
OneBlockEach ip =
    (j k : ℕ) → j < ndirect → k < ndirect → ip.addrs j ≢ 0 → ip.addrs j ≡ ip.addrs k → j ≡ k

-- The blocks `dk'` are `dk` with `n` bytes of `mem` from `src` at the offset `off` of the file, and differ
-- from `dk` in blocks of the file only.
pub record Written (ip : Inode) (mem : Bytes) (src off n : ℕ) (dk dk' : ℕ → Block) : Type 0 where
  pub inside :
      (o : ℕ)
      → o / bsize < ndirect
      → ip.addrs (o / bsize) ≢ 0
      → file_bytes dk' ip o ≡ memmove (file_bytes dk ip) off mem src n o
  pub outside : (b : ℕ) → ((k : ℕ) → k < ndirect → ip.addrs k ≢ b) → dk' b ≡ dk b

-- A chunk moved into its block is moved into the file.
pub chunk-Written :
    (ip : Inode) (mem : Bytes) (src off m : ℕ) (dk : ℕ → Block)
    → OneBlockEach ip
    → off / bsize < ndirect
    → ip.addrs (off / bsize) ≢ 0
    → m + off % bsize ≤ bsize
    → Written ip mem src off m dk (
        update dk
          (ip.addrs (off / bsize))
          (memmove (dk (ip.addrs (off / bsize))) (off % bsize) mem src m))
chunk-Written ip mem src off m dk one direct there fits = record {
  inside = λ o o_direct o_there. elim (ℕ-cases (o / bsize) (off / bsize)) [
    | inl same ↦
        unfold memmove in
        rw (same, ==_refl (ip.addrs (off / bsize)))
          (ground (arith, ap (λ (t : ℕ). dk (ip.addrs t) (o % bsize)) same))
    | inr other ↦
        let apart =
          ==-false (ip.addrs (o / bsize)) (ip.addrs (off / bsize))
            (λ e. other (one (o / bsize) (off / bsize) o_direct direct o_there e)) in
        unfold memmove in rw apart (ground arith)
  ];
  outside = λ b others.
      update_ne dk (ip.addrs (off / bsize)) _ (λ e. others (off / bsize) direct (sym e));
}

Written-then :
    (ip : Inode) (mem : Bytes) (src off m left : ℕ) (dk dk1 dk2 : ℕ → Block)
    → m ≤ left
    → Written ip mem src off m dk dk1
    → Written ip mem (src + m) (off + m) (left - m) dk1 dk2
    → Written ip mem src off left dk dk2
Written-then ip mem src off m left dk dk1 dk2 le first_part rest = record {
  inside = λ o direct there.
      unfold memmove in
      (rest.inside o direct there ∙ ground (arith, first_part.inside o direct there));
  outside = λ b others. rest.outside b others ∙ first_part.outside b others;
}

module _ ⦃driver : BlockDriver⦄ where
  -- the bytes that the loop of `writei` has still to write, from `s` to `s'`
  abbrev pub LoopWrites :
      (dev : ℕ)
      → Inode
      → Bytes
      → (src off left : ℕ) → (dk : ℕ → Block) → (s : FileSystem) → ℕ
      → FileSystem
      → Type 0
  LoopWrites dev ip mem src off left dk s end s' =
      (end ≡ off + left)
      × ((dk' : ℕ → Block) × Written ip mem src off left dk dk' × OnDisk dev dk' s s')

  none_left :
      (i : ℕ) (mem : Bytes) (src off : ℕ) (dk : ℕ → Block) (s : FileSystem)
      → Settled (s.inode i).dev dk s.cache
      → ((dk' : ℕ → Block) × Written (s.inode i) mem src off 0 dk dk'
          × OnDisk (s.inode i).dev dk' s s)
  none_left i mem src off dk s h = (
    dk,
    record {
      inside = λ o direct there.
          sym (ap (λ (f : Bytes). f o) (memmove_none (file_bytes dk (s.inode i)) off mem src));
      outside = λ b others. refl;
    },
    record { cache_only = refl; settled = h },
  )

  LoopWrites-then :
      (dev : ℕ) (ip : Inode) (mem : Bytes) (src off m left : ℕ) (dk dk1 : ℕ → Block)
      (s s1 : FileSystem) (c : Cache) (end : ℕ) (s' : FileSystem)
      → m ≤ left
      → s1 ≡ with_cache s c
      → Written ip mem src off m dk dk1
      → LoopWrites dev ip mem (src + m) (off + m) (left - m) dk1 s1 end s'
      → LoopWrites dev ip mem src off left dk s end s'
  LoopWrites-then dev ip mem src off m left dk dk1 s s1 c end s' le from w1 (e, (dk2, w2, d)) = (
    omega arith,
    (
      dk2,
      Written-then ip mem src off m left dk dk1 dk2 le w1 w2,
      record {
        cache_only = d.cache_only ∙ ap (λ (t : FileSystem). with_cache t s'.cache) from;
        settled = d.settled;
      },
    ),
  )

  pub writei_loop_lem :
      (fuel i : ℕ) (mem : Bytes) (src off left : ℕ) (dk : ℕ → Block) (s : FileSystem)
      → left ≤ fuel
      → Settled (s.inode i).dev dk s.cache
      → HasBlocks (s.inode i) off left
      → OneBlockEach (s.inode i)
      → Returns
          (LoopWrites (s.inode i).dev (s.inode i) mem src off left dk s)
          (writei_loop fuel i mem src off left s)
  unfolding writei_loop
  writei_loop_lem zero i mem src off left dk s le h blocks one =
      let e : left ≡ 0 = ground arith in
      rw e (returns (omega arith, none_left i mem src off dk s h))
  writei_loop_lem (suc fuel) i mem src off left dk s le h blocks one =
      elim (Bool-cases (left == 0)) [
        | inl y ↦
            let e : left ≡ 0 = ground arith in
            rw e (returns (omega arith, none_left i mem src off dk s h))
        | inr some_left ↦
            let n = (s.inode i).addrs (off / bsize) in
            let m = chunk off left in
            let x = memmove (dk n) (off % bsize) mem src m in
            let left_some : left ≢ 0 = ground arith in
            let (m_some, m_le, m_fits) = chunk-bounds off left left_some in
            let (direct, there) = blocks off (omega arith) (omega arith) in
            rw (some_left, bmap-direct i (off / bsize) s direct there)
              (with_bread (s.inode i).dev n dk s _ h λ b c u.
                let put =
                  Holds-set (s.inode i).dev n b dk (dk n) (λ d. memmove d (off % bsize) mem src m)
                    (with_cache s c) u in
                with_bwrite (s.inode i).dev n dk
                  (set_data b (λ d. memmove d (off % bsize) mem src m) (with_cache s c)) b x _ put
                  λ c1 u1.
                    with_brelse (s.inode i).dev n (update dk n x) (with_cache s c1) b x _ u1
                      (sym (update_self dk n x))
                      λ c2 h2.
                        Runs.mono
                          (writei_loop_lem fuel i mem (src + m) (off + m) (left - m) (update dk n x)
                            (with_cache s c2) (omega arith) h2
                            (λ o from to. blocks o (omega arith) (omega arith)) one)
                          λ end s' p.
                            LoopWrites-then (s.inode i).dev (s.inode i) mem src off m left dk
                              (update dk n x) s (with_cache s c2) c2 end s' m_le refl
                              (chunk-Written (s.inode i) mem src off m dk one direct there m_fits)
                              p)
      ]
