-- ===== src/Fs/Data/Contents.antt =====
-- The bytes of a file of fs/fs.c on the disk, and what `readi` makes of them.
use riscv_os_lab.Prelude.{
  ℕ, zero, suc, ◌+◌, ◌-◌, ◌/◌, ◌%◌, ◌≤◌, ◌<◌, ◌≡◌, refl, sym, ap, ◌∙◌, fun_ext, ◌≢◌, inl, inr,
  arith, ◌==◌, ==-false, lt→ltb, Bool-cases,
}
use riscv_os_lab.Prelude.Words.{Bytes, memmove}
use riscv_os_lab.Prelude.Runs
use riscv_os_lab.Prelude.Runs.{Run, ok, Cmd, and_then, ◌>>=◌, Returns, returns}
use riscv_os_lab.Fs.Bio.{Block, BlockDriver, bsize}
use riscv_os_lab.Fs.State.{ndirect, Inode, FileSystem}
use riscv_os_lab.Fs.Access.{OnDisk, Settled, with_cache, with_bread, with_brelse}
use riscv_os_lab.Fs.Data.{chunk, own_addr, bmap, readi_loop, read_count, readi}

-- byte `o` of the file, in its direct blocks
abbrev pub file_bytes : (ℕ → Block) → Inode → Bytes
file_bytes dk ip o = dk (ip.addrs (o / bsize)) (o % bsize)

-- The file has a direct block for each of the bytes [off, off + n).
abbrev pub HasBlocks : Inode → (off n : ℕ) → Type 0
HasBlocks ip off n =
    (o : ℕ) → off ≤ o → o < off + n → (o / bsize < ndirect) × (ip.addrs (o / bsize) ≢ 0)

pub chunk-bounds :
    (off left : ℕ)
    → left ≢ 0
    → (0 < chunk off left) × (chunk off left ≤ left) × (chunk off left + off % bsize ≤ bsize)
chunk-bounds off left some_left = ground arith

pub memmove_none : (mem : Bytes) (d : ℕ) (src : Bytes) (o : ℕ) → memmove mem d src o 0 ≡ mem
unfolding memmove
memmove_none mem d src o = fun_ext (λ x. ground arith)

-- Moving one chunk out of its block and then the rest is moving the bytes of the file.
move_chunk :
    (dk : ℕ → Block) (ip : Inode) (mem : Bytes) (dst off m left : ℕ)
    → m ≤ left
    → m + off % bsize ≤ bsize
    → memmove
        (memmove mem dst (dk (ip.addrs (off / bsize))) (off % bsize) m)
        (dst + m)
        (file_bytes dk ip)
        (off + m)
        (left - m)
      ≡ memmove mem dst (file_bytes dk ip) off left
unfolding memmove
move_chunk dk ip mem dst off m left le fits = fun_ext (λ x. ground arith)

module _ ⦃driver : BlockDriver⦄ where
  pub bmap-direct :
      (i bn : ℕ) (s : FileSystem)
      → bn < ndirect
      → (s.inode i).addrs bn ≢ 0
      → bmap i bn s ≡ ok ((s.inode i).addrs bn) s
  unfolding bmap own_addr
  bmap-direct i bn s direct there =
      rw (lt→ltb bn ndirect direct, ==-false ((s.inode i).addrs bn) 0 there) refl

  readi_loop_lem :
      (fuel i : ℕ) (mem : Bytes) (dst off left : ℕ) (dk : ℕ → Block) (s : FileSystem)
      → left ≤ fuel
      → Settled (s.inode i).dev dk s.cache
      → HasBlocks (s.inode i) off left
      → Returns
          (λ mem' s'.
            (mem' ≡ memmove mem dst (file_bytes dk (s.inode i)) off left)
            × OnDisk (s.inode i).dev dk s s')
          (readi_loop fuel i mem dst off left s)
  unfolding readi_loop
  readi_loop_lem zero i mem dst off left dk s le h blocks =
      let e : left ≡ 0 = omega arith in
      rw e (
        returns (
          sym (memmove_none mem dst (file_bytes dk (s.inode i)) off),
          record { cache_only = refl; settled = h },
        ))
  readi_loop_lem (suc fuel) i mem dst off left dk s le h blocks = elim (Bool-cases (left == 0)) [
    | inl none_left ↦
        let e : left ≡ 0 = ground arith in
        rw e (
          returns (
            sym (memmove_none mem dst (file_bytes dk (s.inode i)) off),
            record { cache_only = refl; settled = h },
          ))
    | inr some_left ↦
        let n = (s.inode i).addrs (off / bsize) in
        let m = chunk off left in
        let left_some : left ≢ 0 = ground arith in
        let (m_some, m_le, m_fits) = chunk-bounds off left left_some in
        let (direct, there) = blocks off (omega arith) (omega arith) in
        rw (some_left, bmap-direct i (off / bsize) s direct there)
          (with_bread (s.inode i).dev n dk s _ h λ b c u.
            with_brelse (s.inode i).dev n dk (with_cache s c) b (dk n) _ u refl λ c1 h1.
              Runs.mono
                (readi_loop_lem fuel i _ (dst + m) (off + m) (left - m) dk (with_cache s c1)
                  (omega arith) h1 (λ o from to. blocks o (omega arith) (omega arith)))
                λ mem' s' p. (
                  p.0 ∙ rw (u.1.holds) (move_chunk dk (s.inode i) mem dst off m left m_le m_fits),
                  record { cache_only = p.1.cache_only; settled = p.1.settled },
                ))
  ]

  -- On a coherent cache, when the file has direct blocks for the bytes of the range that lie
  -- within its size, `readi` returns the number of these bytes and moves just these from the
  -- blocks of the file to memory; the disk and the state but for the cache are unchanged, and the
  -- cache stays coherent.
  pub readi_lem :
      (i : ℕ) (mem : Bytes) (dst off n : ℕ) (dk : ℕ → Block) (s : FileSystem)
      → Settled (s.inode i).dev dk s.cache
      → HasBlocks (s.inode i) off (read_count (s.inode i).size off n)
      → Returns
          (λ r s'.
            (r ≡ (
              read_count (s.inode i).size off n,
              memmove mem dst (file_bytes dk (s.inode i)) off (read_count (s.inode i).size off n),
            ))
            × OnDisk (s.inode i).dev dk s s')
          (readi i mem dst off n s)
  unfolding readi
  readi_lem i mem dst off n dk s h blocks =
      let count = read_count (s.inode i).size off n in
      Runs.bind (readi_loop_lem count i mem dst off count dk s (omega arith) h blocks)
        λ mem' s' p. returns (ap (λ (t : Bytes). (count, t)) p.0, p.1)
