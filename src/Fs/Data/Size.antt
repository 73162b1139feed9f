-- ===== src/Fs/Data/Size.antt =====
-- The end of `writei` of fs/fs.c, which stores a new size of the file, and `readi` after it.
use riscv_os_lab.Prelude.{
  ℕ, ◌+◌, ◌-◌, ◌%◌, ◌^◌, ◌≤◌, ◌<◌, ◌≡◌, refl, ap, ◌∙◌, fun_ext, ◌≢◌, inl, inr, Bool, ◌&&◌, Option,
  some, arith, ltb, leb, ◌!=◌, if◌then◌else◌, ==_refl, Bool-cases, update_self, update_ne,
}
use riscv_os_lab.Prelude.Words.{Bytes, memmove}
use riscv_os_lab.Prelude.Runs
use riscv_os_lab.Prelude.Runs.{Run, ok, Cmd, and_then, ◌>>=◌, ◌>>◌, pure, modify, Returns, returns}
use riscv_os_lab.Fs.Bio.{Block, BlockDriver, Cache}
use riscv_os_lab.Fs.State.{Inode, FileSystem, set_inode}
use riscv_os_lab.Fs.Access.{OnDisk, Settled, with_cache}
use riscv_os_lab.Fs.Inode.{iupdate}
use riscv_os_lab.Fs.Inode.Stored.{dinode_block, store_inode, iupdate-as}
use riscv_os_lab.Fs.Data.{readi, read_count}
use riscv_os_lab.Fs.Data.Contents.{file_bytes, HasBlocks, readi_lem}

-- Writing `n` bytes at `off` makes the file longer.
abbrev pub grows : Inode → (off n : ℕ) → Bool
grows ip off n = (n != 0) && ltb ip.size (off + n)

pub moved :
    (m : Bytes) (d : ℕ) (f g : Bytes) (o p n : ℕ)
    → ((k : ℕ) → k < n → f (o + k) ≡ g (p + k))
    → memmove m d f o n ≡ memmove m d g p n
unfolding memmove
moved m d f g o p n same = fun_ext (λ x. elim (Bool-cases (leb d x && ltb x (d + n))) [
  | inl is ↦ rw is (same (x - d) (ground arith))
  | inr isnt ↦ rw isnt refl
])

module _ ⦃driver : BlockDriver⦄ where
  abbrev pub resize : ℕ → (off n : ℕ) → FileSystem → FileSystem
  resize i off n s =
      if grows (s.inode i) off n then set_inode i (λ ip. record ip { size = off + n }) s else s

  -- the blocks after `writei`: `dk1`, and the inode in its place if the file is longer
  abbrev pub with_size : ℕ → (off n : ℕ) → FileSystem → (ℕ → Block) → ℕ → Block
  with_size i off n s dk1 =
      if grows (s.inode i) off n
      then store_inode s.sb (record (s.inode i) { size = off + n }) dk1
      else dk1

  -- the end of `writei`
  abbrev pub size_step : ℕ → ℕ → ℕ → Cmd FileSystem (Option ℕ)
  size_step i n end s =
      (if (n != 0) && ltb (s.inode i).size end
          then (modify (set_inode i (λ ip. record ip { size = end }))
              >> (iupdate i >> pure (some n)))
          else pure (some n))
        s

  pub size_step-OnDisk :
      (i off n : ℕ) (dk1 : ℕ → Block) (s : FileSystem) (c : Cache)
      → Settled (s.inode i).dev dk1 c
      → Returns
          (λ r s'.
            (r ≡ some n) × OnDisk (s.inode i).dev (with_size i off n s dk1) (resize i off n s) s')
          (size_step i n (off + n) (with_cache s c))
  size_step-OnDisk i off n dk1 s c h = elim (Bool-cases (grows (s.inode i) off n)) [
    | inr same ↦ rw same (returns (refl, record { cache_only = refl; settled = h }))
    | inl longer ↦
        let ip = record (s.inode i) { size = off + n } in
        let s1 = set_inode i (λ _. ip) (with_cache s c) in
        rw longer (
          Runs.bind (iupdate-as i ip dk1 s1 (update_self s.inode i ip) h)
            λ _ s' p. returns (refl, record { cache_only = p.cache_only; settled = p.settled }))
  ]

  -- In the state `t` the inode `i` has the blocks of `ip` and reaches to `off + n`, and the disk holds `dk`.
  pub record Reaches (i : ℕ) (ip : Inode) (off n : ℕ) (dk : ℕ → Block) (t : FileSystem)
      : Type 0 where
    pub addrs : (t.inode i).addrs ≡ ip.addrs
    pub reach : off + n ≤ (t.inode i).size
    pub settled : Settled (t.inode i).dev dk t.cache

  pub after_resize :
      (i off n : ℕ) (dk : ℕ → Block) (s : FileSystem) (c : Cache)
      → off ≤ (s.inode i).size
      → Settled (s.inode i).dev dk c
      → Reaches i (s.inode i) off n dk (with_cache (resize i off n s) c)
  after_resize i off n dk s c no_gap h = elim (Bool-cases (grows (s.inode i) off n)) [
    | inr same ↦ rw same record { addrs = refl; reach = ground arith; settled = h }
    | inl longer ↦ rw longer record {
      addrs = rw (==_refl i) refl;
      reach = rw (==_refl i) (omega arith);
      settled = rw (==_refl i) h;
    }
  ]

  -- Adding the inode to the blocks changes no block of the file.
  pub with_size-file :
      (i off n : ℕ) (s : FileSystem) (dk1 : ℕ → Block) (b : ℕ)
      → b ≢ dinode_block s.sb (s.inode i).inum
      → with_size i off n s dk1 b ≡ dk1 b
  with_size-file i off n s dk1 b off_dinode = elim (Bool-cases (grows (s.inode i) off n)) [
    | inr same ↦ rw same refl
    | inl longer ↦ rw longer (update_ne dk1 (dinode_block s.sb (s.inode i).inum) _ off_dinode)
  ]

  -- `readi` of a range whose bytes are those of `mem` at `src`.
  pub reads_copied :
      (i : ℕ) (ip : Inode) (mem : Bytes) (src off n : ℕ) (mem2 : Bytes) (dst : ℕ) (dk : ℕ → Block)
      (t : FileSystem)
      → off + n < 2 ^ 32
      → HasBlocks ip off n
      → Reaches i ip off n dk t
      → ((k : ℕ) → k < n → file_bytes dk ip (off + k) ≡ mem (src + k))
      → Returns (λ r _. r ≡ (n, memmove mem2 dst mem src n)) (readi i mem2 dst off n t)
  reads_copied i ip mem src off n mem2 dst dk t no_overflow has at same =
      let whole : read_count (t.inode i).size off n ≡ n =
        let e : (off + n) % 2 ^ 32 ≡ off + n = omega arith in rw e (ground (arith, at.reach)) in
      let blocks : HasBlocks (t.inode i) off n = rw (at.addrs) has in
      let copied : memmove mem2 dst (file_bytes dk (t.inode i)) off n ≡ memmove mem2 dst mem src n =
        rw (at.addrs) (moved mem2 dst (file_bytes dk ip) mem off src n same) in
      Runs.mono (readi_lem i mem2 dst off n dk t at.settled (rw whole blocks))
        λ r s' p. p.0 ∙ rw whole (ap (λ (m : Bytes). (n, m)) copied)
