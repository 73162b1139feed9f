-- ===== src/Fs/Access.antt =====
-- Reading and writing a block through the cache, as the functions of fs/fs.c do it: `bread`, a change of
-- the buffer, `bwrite` and `brelse`, each followed by the rest of the function.
use riscv_os_lab.Prelude.{ℕ, ◌≡◌, ap, ◌∙◌, List, update}
use riscv_os_lab.Prelude.Runs.{Run, Cmd, and_then, put_back, Returns, returns}
use riscv_os_lab.Fs.Bio
use riscv_os_lab.Fs.Bio.{Block, BlockDriver, Cache, set_buf}
use riscv_os_lab.Fs.Bio.Coherence.{Steady, InUse, InUse-set, bwrite-InUse}
use riscv_os_lab.Fs.Bio.Fetch.{bread-Steady}
use riscv_os_lab.Fs.Bio.Settle.{brelse-Steady}
use riscv_os_lab.Fs.State.{FileSystem, bread, bwrite, brelse, set_data}

module _ ⦃driver : BlockDriver⦄ where
  -- No buffer is in use, and the cache agrees with the blocks `dk` of the disk.
  abbrev pub Settled : ℕ → (ℕ → Block) → Cache → Type 0
  Settled dev dk c = (xs : List ℕ) × Steady dev dk xs c

  -- The buffer `b` is in use for block `n` and holds `x`.
  abbrev pub Holds : ℕ → (ℕ → Block) → ℕ → Block → ℕ → Cache → Type 0
  Holds dev dk n x b c = (xs : List ℕ) × InUse dev dk xs n x b c

  abbrev pub with_cache : FileSystem → Cache → FileSystem
  with_cache s c = record s { cache = c }

  -- The state `s'` is `s` with another cache, which agrees with the blocks `dk` of the disk.
  pub record OnDisk (dev : ℕ) (dk : ℕ → Block) (s s' : FileSystem) : Type 0 where
    pub cache_only : s' ≡ with_cache s s'.cache
    pub settled : Settled dev dk s'.cache

  pub OnDisk-cache :
      (dev : ℕ) (dk : ℕ → Block) (s : FileSystem) (c : Cache) (s' : FileSystem)
      → OnDisk dev dk (with_cache s c) s'
      → OnDisk dev dk s s'
  OnDisk-cache dev dk s c s' d = record { cache_only = d.cache_only; settled = d.settled }

  pub OnDisk-then :
      (dev : ℕ) (dk1 dk2 : ℕ → Block) (s s1 s2 : FileSystem)
      → OnDisk dev dk1 s s1
      → OnDisk dev dk2 s1 s2
      → OnDisk dev dk2 s s2
  OnDisk-then dev dk1 dk2 s s1 s2 d e = record {
    cache_only = e.cache_only ∙ ap (λ (t : FileSystem). with_cache t s2.cache) d.cache_only;
    settled = e.settled;
  }

  module _ {A B : Type 0} {Q : B → FileSystem → Type 0} {P : A → Cache → Type 0} (s : FileSystem)
      (k : A → Cmd FileSystem B) where
    on_cache_then :
        (r : Run Cache A)
        → Returns P r
        → ((a : A) (c : Cache) → P a c → Returns Q (k a (with_cache s c)))
        → Returns Q (and_then (put_back (λ c s. record s { cache = c }) s r) k)
    on_cache_then r (returns p) next = next _ _ p

  on_cache_last :
      {A : Type 0} {Q : A → FileSystem → Type 0} {P : A → Cache → Type 0} (s : FileSystem)
      (r : Run Cache A)
      → Returns P r
      → ((a : A) (c : Cache) → P a c → Q a (with_cache s c))
      → Returns Q (put_back (λ c s. record s { cache = c }) s r)
  on_cache_last s r (returns p) next = returns (next _ _ p)

  module _ {B : Type 0} {Q : B → FileSystem → Type 0} (dev n : ℕ) (dk : ℕ → Block)
      (s : FileSystem) where
    pub with_bread :
        (k : ℕ → Cmd FileSystem B)
        → Settled dev dk s.cache
        → ((b : ℕ) (c : Cache) → Holds dev dk n (dk n) b c → Returns Q (k b (with_cache s c)))
        → Returns Q (and_then (bread dev n s) k)
    unfolding bread
    with_bread k (xs, h) next =
        on_cache_then s k (Bio.bread dev n s.cache) (bread-Steady dev n dk xs s.cache h)
          (λ b c u. next b c (xs, u))

    module _ (b : ℕ) (x : Block) (k : Unit {0} → Cmd FileSystem B)
        (h : Holds dev dk n x b s.cache) where
      pub with_bwrite :
          ((c : Cache) → Holds dev (update dk n x) n x b c → Returns Q (k tt (with_cache s c)))
          → Returns Q (and_then (bwrite b s) k)
      unfolding bwrite
      with_bwrite next =
          on_cache_then s k (Bio.bwrite b s.cache) (bwrite-InUse dev n b dk h.0 x s.cache h.1)
            (λ u c v. next c (h.0, v))

      pub with_brelse :
          x ≡ dk n
          → ((c : Cache) → Settled dev dk c → Returns Q (k tt (with_cache s c)))
          → Returns Q (and_then (brelse b s) k)
      unfolding brelse
      with_brelse e next =
          on_cache_then s k (Bio.brelse b s.cache) (brelse-Steady dev n b dk h.0 x s.cache h.1 e)
            (λ u c v. next c (_, v))

  -- `brelse` at the end of a function
  pub last_brelse :
      {Q : Unit {0} → FileSystem → Type 0} (dev n : ℕ) (dk : ℕ → Block) (s : FileSystem) (b : ℕ)
      (x : Block)
      → Holds dev dk n x b s.cache
      → x ≡ dk n
      → ((c : Cache) → Settled dev dk c → Q tt (with_cache s c))
      → Returns Q (brelse b s)
  unfolding brelse
  last_brelse {Q} dev n dk s b x h e next =
      on_cache_last s (Bio.brelse b s.cache) (brelse-Steady dev n b dk h.0 x s.cache h.1 e)
        (λ u c v. next c (_, v))

  pub Holds-set :
      (dev n b : ℕ) (dk : ℕ → Block) (x : Block) (f : Block → Block) (s : FileSystem)
      → Holds dev dk n x b s.cache
      → Holds dev dk n (f x) b (set_data b f s).cache
  Holds-set dev n b dk x f s (xs, u) = (xs, InUse-set dev n b dk xs x f s.cache u)
