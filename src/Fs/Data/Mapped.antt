-- ===== src/Fs/Data/Mapped.antt =====
-- What `bmap` of fs/fs.c leaves for a direct block that the file may lack: the block is allocated.
use riscv_os_lab.Prelude.{
  ◌^◌, ℕ, ◌/◌, ◌≤◌, ◌<◌, ◌≡◌, refl, sym, ap, ◌∙◌, fun_ext, ◌≢◌, inl, inr, arith, ◌==◌, ==_refl,
  lt→ltb, Bool-cases, update, update_self, update_ne,
}
use riscv_os_lab.Prelude.Runs
use riscv_os_lab.Prelude.Runs.{Run, ok, Cmd, and_then, ◌>>=◌, ◌>>◌, get, modify, Returns, returns}
use riscv_os_lab.Fs.Bio.{Block, BlockDriver, Cache, bsize}
use riscv_os_lab.Fs.State.{ndirect, Inode, FileSystem, set_inode}
use riscv_os_lab.Fs.Access.{Settled}
use riscv_os_lab.Fs.Bitmap.{balloc}
use riscv_os_lab.Fs.Bitmap.Count.{count-first, count-some}
use riscv_os_lab.Fs.Bitmap.Marks.{disk_free, FirstFree}
use riscv_os_lab.Fs.Bitmap.Alloc.{balloc_lem}
use riscv_os_lab.Fs.Data.{set_addr, own_addr, bmap}
use riscv_os_lab.Fs.Data.View.{file_view, WellKept, taken-WellKept, taken-view}

update_over :
    {A : Type 0} (t : ℕ → A) (i : ℕ) (f : A → A) (x : A)
    → update (update t i x) i (f (update t i x i)) ≡ update t i (f x)
update_over t i f x =
    fun_ext (λ j. elim (Bool-cases (j == i)) [ inl y ↦ rw (y, ==_refl i) refl | inr z ↦ rw z refl ])

module _ ⦃driver : BlockDriver⦄ (i : ℕ) (s0 : FileSystem) where
  -- the inode with the block addresses `a`, and the state with this inode and the cache `c`
  abbrev pub file : (ℕ → ℕ) → Inode
  file a = record (s0.inode i) { addrs = a }

  abbrev pub st : (ℕ → ℕ) → Cache → FileSystem
  st a c = record s0 { inode = update s0.inode i (file a); cache = c }

  set_st :
      (f : Inode → Inode) (a : ℕ → ℕ) (c : Cache)
      → set_inode i f (st a c) ≡ record s0 { inode = update s0.inode i (f (file a)); cache = c }
  set_st f a c =
      ap (λ (t : ℕ → Inode). record s0 { inode = t; cache = c }) (update_over s0.inode i f (file a))

  -- The addresses fit 32 bits, if the number of blocks does.
  abbrev pub InWord : (ℕ → ℕ) → Type 0
  InWord a = s0.sb.size ≤ 2 ^ 32 → (k : ℕ) → a k < 2 ^ 32

  -- With the addresses `a` and the blocks `dk` the state is kept well.
  pub record Kept (a : ℕ → ℕ) (dk : ℕ → Block) (c : Cache) : Type 0 where
    pub settled : Settled (s0.inode i).dev dk c
    pub well : WellKept s0.sb (file a) dk

  -- what `bmap` leaves for the direct block `bn`
  pub record Mapped (a : ℕ → ℕ) (dk : ℕ → Block) (bn r : ℕ) (s' : FileSystem) : Type 0 where
    pub a' : ℕ → ℕ
    pub dk' : ℕ → Block
    pub c' : Cache
    pub result : r ≡ a' bn
    pub state : s' ≡ st a' c'
    pub kept : Kept a' dk' c'
    pub there : a' bn ≢ 0
    pub stays : (k : ℕ) → k < ndirect → a k ≢ 0 → a' k ≡ a k
    pub small : InWord a → InWord a'
    pub seen : (o : ℕ) → o / bsize < ndirect → file_view dk' (file a') o ≡ file_view dk (file a) o

  first_free :
      (a : ℕ → ℕ) (dk : ℕ → Block) (bn : ℕ)
      → bn < ndirect
      → a bn ≡ 0
      → WellKept s0.sb (file a) dk
      → (x : ℕ) × FirstFree s0.sb dk 0 x
  first_free a dk bn direct lacks w =
      let lacking = count-some ndirect bn (λ k. a k == 0) direct (rw lacks refl) in
      let (x, lt, is, before) =
        count-first s0.sb.size (disk_free s0.sb dk) (omega (arith, w.enough, lacking)) in
      (x, record { from = omega arith; in_size = lt; free = is; first = λ y lo hi. before y hi })

  allocate :
      (a : ℕ → ℕ) (dk : ℕ → Block) (c : Cache) (bn : ℕ)
      → bn < ndirect
      → a bn ≡ 0
      → Kept a dk c
      → Returns (Mapped a dk bn) (
          (balloc (s0.inode i).dev >>= λ fresh.
          (λ s. ok tt (set_inode i (set_addr bn fresh) s)) >> (λ s. ok fresh s))
            (st a c))
  allocate a dk c bn direct lacks k =
      let (x, free) = first_free a dk bn direct lacks k.well in
      let (some_block, no_bitmap) = k.well.reserved x free.in_size free.free in
      Runs.bind (balloc_lem (s0.inode i).dev x dk (st a c) k.settled k.well.bytes free no_bitmap)
        λ r s1 p.
          let (dk', al, d) = p.1 in
          returns record {
            a' = update a bn x;
            dk' = dk';
            c' = s1.cache;
            result = p.0 ∙ sym (update_self a bn x);
            state =
                ap (λ (v : ℕ). set_inode i (set_addr bn v) s1) p.0
                ∙ ap (set_inode i (set_addr bn x)) d.cache_only
                ∙ set_st (set_addr bn x) a s1.cache;
            kept = record {
              settled = d.settled;
              well =
                  taken-WellKept s0.sb (file a) dk dk' bn x k.well al direct lacks free.in_size
                    free.free;
            };
            small = λ h big k. elim (Bool-cases (k == bn)) [
              | inl y ↦ rw y (omega (arith, free.in_size))
              | inr z ↦ rw z (h big k)
            ];
            stays = λ k lk h. update_ne a bn x (λ e. h (ap a e ∙ lacks));
            there = λ e. some_block (sym (update_self a bn x) ∙ e);
            seen =
                taken-view s0.sb (file a) dk dk' bn x k.well al direct lacks free.in_size free.free;
          }

  pub bmap_lem :
      (a : ℕ → ℕ) (dk : ℕ → Block) (c : Cache) (bn : ℕ)
      → bn < ndirect
      → Kept a dk c
      → Returns (Mapped a dk bn) (bmap i bn (st a c))
  unfolding bmap own_addr
  bmap_lem a dk c bn direct k =
      rw (lt→ltb bn ndirect direct, ==_refl i)
        (elim (Bool-cases (a bn == 0)) [
          | inl y ↦ rw y (allocate a dk c bn direct (ground arith) k)
          | inr z ↦ rw z (
              returns record {
                a' = a;
                dk' = dk;
                c' = c;
                result = refl;
                state = refl;
                kept = k;
                there = ground arith;
                stays = λ k lk h. refl;
                small = λ h. h;
                seen = λ o lt. refl;
              })
        ])
