-- ===== src/Fs/Transparent.antt =====
-- The cache of fs/bio.c to its clients: any sequence of reads and writes of whole blocks, in the way
-- fs/fs.c makes them, is one on the disk alone.
use riscv_os_lab.Prelude.{ℕ, ◌≡◌, refl, sym, ap, ◌∙◌, List, [], ◌∷◌, update, update_self}
use riscv_os_lab.Prelude.Runs
use riscv_os_lab.Prelude.Runs.{
  Run, ok, Cmd, and_then, ◌>>=◌, ◌>>◌, get, modify, pure, Returns, returns,
}
use riscv_os_lab.Fs.Bio.{Block, BlockDriver}
use riscv_os_lab.Fs.State.{FileSystem, data_at, set_data, bread, bwrite, brelse}
use riscv_os_lab.Fs.Access.{
  Settled, OnDisk, OnDisk-then, with_cache, with_bread, with_bwrite, with_brelse, Holds-set,
}

-- what a client does with a block
pub data Access : Type 0 where
  read : ℕ → Access
  write : ℕ → Block → Access

-- the accesses on the blocks of a disk: what the reads give, and the blocks afterwards
abbrev pub on_blocks : List Access → (ℕ → Block) → List Block × (ℕ → Block)
on_blocks [] dk = ([], dk)
on_blocks (read n ∷ ops) dk = let (xs, dk') = on_blocks ops dk in (dk n ∷ xs, dk')
on_blocks (write n x ∷ ops) dk = on_blocks ops (update dk n x)

module _ ⦃driver : BlockDriver⦄ where
  unfoldable pub read_block : (dev n : ℕ) → Cmd FileSystem Block
  read_block dev n = do bp ← bread dev n; s ← get; brelse bp; pure (data_at bp s)

  unfoldable pub write_block : (dev n : ℕ) → Block → Cmd FileSystem (Unit {0})
  write_block dev n x = do
    bp ← bread dev n
    modify (set_data bp (λ _. x))
    bwrite bp
    brelse bp
    pure tt

  -- the accesses through the cache
  unfoldable pub through_cache : ℕ → List Access → Cmd FileSystem (List Block)
  through_cache dev [] = pure []
  through_cache dev (read n ∷ ops) = do
    x ← read_block dev n
    xs ← through_cache dev ops
    pure (x ∷ xs)
  through_cache dev (write n x ∷ ops) = do write_block dev n x; through_cache dev ops

  read_block_lem :
      (dev n : ℕ) (dk : ℕ → Block) (s : FileSystem)
      → Settled dev dk s.cache
      → Returns (λ x s'. (x ≡ dk n) × OnDisk dev dk s s') (read_block dev n s)
  unfolding read_block
  read_block_lem dev n dk s h = with_bread dev n dk s _ h λ b c u.
      with_brelse dev n dk (with_cache s c) b (dk n) _ u refl
        λ c1 h1. returns (u.1.holds, record { cache_only = refl; settled = h1 })

  write_block_lem :
      (dev n : ℕ) (x : Block) (dk : ℕ → Block) (s : FileSystem)
      → Settled dev dk s.cache
      → Returns (λ _ s'. OnDisk dev (update dk n x) s s') (write_block dev n x s)
  unfolding write_block
  write_block_lem dev n x dk s h = with_bread dev n dk s _ h λ b c u.
      with_bwrite dev n dk (set_data b (λ _. x) (with_cache s c)) b x _
        (Holds-set dev n b dk (dk n) (λ _. x) (with_cache s c) u)
        λ c1 u1.
          with_brelse dev n (update dk n x) (with_cache s c1) b x _ u1 (sym (update_self dk n x))
            λ c2 h2. returns record { cache_only = refl; settled = h2 }

  -- From a cache that is coherent with the disk and has no buffer in use, every sequence of reads and writes
  -- through the cache ends; the reads give what they would on the disk alone, and the disk and a coherent
  -- cache are left as the sequence on the disk alone leaves them.
  pub through_cache-on_blocks :
      (dev : ℕ) (ops : List Access) (dk : ℕ → Block) (s : FileSystem)
      → Settled dev dk s.cache
      → Returns
          (λ xs s'. (xs ≡ (on_blocks ops dk).0) × OnDisk dev (on_blocks ops dk).1 s s')
          (through_cache dev ops s)
  unfolding through_cache
  through_cache-on_blocks dev [] dk s h = returns (refl, record { cache_only = refl; settled = h })
  through_cache-on_blocks dev (read n ∷ ops) dk s h =
      Runs.bind (read_block_lem dev n dk s h) λ x s1 p.
        Runs.bind (through_cache-on_blocks dev ops dk s1 p.1.settled) λ xs s2 q. returns (
          ap (λ (y : Block). y ∷ xs) p.0 ∙ ap (λ (ys : List Block). dk n ∷ ys) q.0,
          OnDisk-then dev dk (on_blocks ops dk).1 s s1 s2 p.1 q.1,
        )
  through_cache-on_blocks dev (write n x ∷ ops) dk s h =
      Runs.bind (write_block_lem dev n x dk s h) λ _ s1 p.
        Runs.mono (through_cache-on_blocks dev ops (update dk n x) s1 p.settled) λ xs s2 q.
          (q.0, OnDisk-then dev (update dk n x) (on_blocks ops (update dk n x)).1 s s1 s2 p q.1)
