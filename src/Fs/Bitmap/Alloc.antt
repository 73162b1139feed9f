-- ===== src/Fs/Bitmap/Alloc.antt =====
-- `balloc`, `bfree` and `bzero` of fs/fs.c against the blocks of the disk.
use riscv_os_lab.Prelude.{
  ℕ, zero, suc, ◌+◌, ◌-◌, ◌*◌, ◌/◌, ◌%◌, ◌^◌, ◌≤◌, ◌<◌, ◌≡◌, refl, sym, ◌∙◌, subst, inl, inr, true,
  false, Option, none, some, arith, ltb, ltb→lt, lt→ltb, Bool-cases, ℕ-cases, update, update_self,
}
use Prim.Native.Nat.{bit_and, bit_or}
use riscv_os_lab.Prelude.Words.{memset}
use riscv_os_lab.Prelude.Runs
use riscv_os_lab.Prelude.Runs.{Run, ok, Cmd, and_then, ◌>>=◌, ◌>>◌, Returns, returns}
use riscv_os_lab.Fs.Bio.{Block, BlockDriver, Cache, bsize}
use riscv_os_lab.Fs.State.{Superblock, FileSystem, set_data, brelse}
use riscv_os_lab.Fs.Bitmap.{bpb, scan_bytes, bzero, balloc_take, balloc_loop, balloc, bfree}
use riscv_os_lab.Fs.Bitmap.Scan.{is_clear, ScanHit, NoneFree, ScanEnds, scan_bytes_lem}
use riscv_os_lab.Fs.Access.{
  OnDisk-cache, Settled, Holds, OnDisk, with_cache, with_bread, with_bwrite, with_brelse,
  last_brelse, Holds-set,
}
use riscv_os_lab.Fs.Bitmap.Marks.{
  bitmap_block, disk_free, mark_used, mark_free, zeroed, FirstFree, OfBytes, NotBitmap, Allocated,
  Freed, freed, allocated,
}

module _ (sb : Superblock) (dk : ℕ → Block) (n q : ℕ) where
  at_bit :
      (x : ℕ)
      → n ≡ sb.bmapstart + q
      → q * bpb ≤ x
      → x < (q + 1) * bpb
      → disk_free sb dk x ≡ is_clear (dk n (x % bpb / 8)) (x % 8)
  at_bit x at lo hi = let block : sb.bmapstart + x / bpb ≡ n = omega arith in rw block refl

  -- The first clear bit of the bitmap block is that of the first free block.
  hit_is_first :
      (k j x : ℕ)
      → n ≡ sb.bmapstart + q
      → ScanHit 0 bsize sb.size (q * bpb) (dk n) k j
      → FirstFree sb dk (q * bpb) x
      → q * bpb + k * 8 + j ≡ x
  hit_is_first k j x at hit free =
      let y = q * bpb + k * 8 + j in
      let lk : k < bsize = omega (arith, hit.below) in
      let lj : j < 8 = hit.bit in
      let is : disk_free sb dk y ≡ true =
        (let byte : y % bpb / 8 ≡ k = omega arith in
          let bit : y % 8 ≡ j = omega arith in
          at_bit y at (omega arith) (omega arith) ∙ rw (byte, bit) hit.clear) in
      let not_before : ¬ (y < x) = λ lt. let no_bit = free.first y (omega arith) lt in cc in
      let not_after : ¬ (x < y) = λ lt.
        let here = at_bit x at free.from (omega arith) in
        let open_bit = free.free in
        elim (ℕ-cases (x % bpb / 8) k) [
          | inl same_byte ↦
              let no_bit : is_clear (dk n (x % bpb / 8)) (x % 8) ≡ false =
                rw same_byte (hit.first_bit (x % 8) (omega (arith, free.from))) in
              cc
          | inr earlier ↦
              let no_bit : is_clear (dk n (x % bpb / 8)) (x % 8) ≡ false =
                hit.first_byte (x % bpb / 8) (omega arith) (omega (arith, free.from)) (x % 8)
                  (omega arith) in
              cc
        ] in
      omega (arith, not_before, not_after)

  none_is_here :
      (x : ℕ)
      → n ≡ sb.bmapstart + q
      → NoneFree 0 bsize sb.size (q * bpb) (dk n)
      → FirstFree sb dk (q * bpb) x
      → (q + 1) * bpb ≤ x
  none_is_here x at full free = elim (Bool-cases (ltb x ((q + 1) * bpb))) [
    | inr off ↦ ground arith
    | inl here ↦
        let lt = ltb→lt x ((q + 1) * bpb) here in
        let bit = at_bit x at free.from lt in
        let no_bit : is_clear (dk n (x % bpb / 8)) (x % 8) ≡ false =
          full (x % bpb / 8) (omega arith) (omega arith) (omega (arith, free.from, free.in_size))
            (x % 8) (omega arith) in
        let is = free.free in absurd cc
  ]

module _ ⦃driver : BlockDriver⦄ where
  pub bzero_lem :
      (dev n : ℕ) (dk : ℕ → Block) (s : FileSystem)
      → Settled dev dk s.cache
      → Returns (λ _ s'. OnDisk dev (zeroed n dk) s s') (bzero dev n s)
  unfolding bzero
  bzero_lem dev n dk s h =
      let f = λ (d : Block). memset d 0 0 bsize in
      with_bread dev n dk s _ h λ b c u.
        with_bwrite dev n dk (set_data b f (with_cache s c)) b (f (dk n)) _
          (Holds-set dev n b dk (dk n) f (with_cache s c) u)
          λ c1 u1.
            last_brelse dev n (update dk n (f (dk n))) (with_cache s c1) b (f (dk n)) u1
              (sym (update_self dk n (f (dk n))))
              λ c2 h2. record { cache_only = refl; settled = h2 }

  mark_used_at :
      (q k j : ℕ) (dk : ℕ → Block) (sb : Superblock) (n : ℕ)
      → k < bsize
      → j < 8
      → n ≡ sb.bmapstart + q
      → update dk n (update (dk n) k (bit_or (dk n k) (2 ^ j)))
        ≡ mark_used sb (q * bpb + k * 8 + j) dk
  mark_used_at q k j dk sb n lk lj at =
      let block : (q * bpb + k * 8 + j) / bpb ≡ q = omega arith in
      let byte : (q * bpb + k * 8 + j) % bpb / 8 ≡ k = omega arith in
      let bit : (q * bpb + k * 8 + j) % 8 ≡ j = omega arith in rw (at, block, byte, bit) refl

  balloc_take_lem :
      (dev n bp q k j : ℕ) (dk : ℕ → Block) (s : FileSystem)
      → k < bsize
      → j < 8
      → n ≡ s.sb.bmapstart + q
      → Holds dev dk n (dk n) bp s.cache
      → Returns
          (λ x s'. (x ≡ q * bpb + k * 8 + j) × OnDisk dev (zeroed x (mark_used s.sb x dk)) s s')
          (balloc_take dev bp (q * bpb) (k, j) s)
  unfolding balloc_take
  balloc_take_lem dev n bp q k j dk s lk lj at u =
      let x = q * bpb + k * 8 + j in
      let f = λ (d : Block). update d k (bit_or (d k) (2 ^ j)) in
      let same : update dk n (f (dk n)) ≡ mark_used s.sb x dk =
        mark_used_at q k j dk s.sb n lk lj at in
      with_bwrite dev n dk (set_data bp f s) bp (f (dk n)) _ (Holds-set dev n bp dk (dk n) f s u)
        λ c1 u1.
          with_brelse dev n (update dk n (f (dk n))) (with_cache s c1) bp (f (dk n)) _ u1
            (sym (update_self dk n (f (dk n))))
            λ c2 h2.
              Runs.bind
                (bzero_lem dev x (mark_used s.sb x dk) (with_cache s c2)
                  (subst (λ (t : ℕ → Block). Settled dev t c2) same h2))
                λ _ s' p. returns (refl, record { cache_only = p.cache_only; settled = p.settled })

  -- what `balloc` does with the end of a scan
  abbrev after_scan : ℕ → (dev bp b : ℕ) → Option (ℕ × ℕ) → Cmd FileSystem ℕ
  after_scan fuel dev bp b r = elim r [
    | some hit ↦ balloc_take dev bp b hit
    | none ↦ do brelse bp; balloc_loop fuel dev (b + bpb)
  ]

  abbrev Takes : ℕ → ℕ → (ℕ → Block) → FileSystem → ℕ → FileSystem → Type 0
  Takes dev x dk s r s' = (r ≡ x) × OnDisk dev (zeroed x (mark_used s.sb x dk)) s s'

  module _ (fuel dev n bp q x : ℕ) (dk : ℕ → Block) (s : FileSystem) (at : n ≡ s.sb.bmapstart + q)
      (free : FirstFree s.sb dk (q * bpb) x) where
    after_scan_lem :
        (r : Option (ℕ × ℕ))
        → ScanEnds 0 bsize s.sb.size (q * bpb) (dk n) r
        → Holds dev dk n (dk n) bp s.cache
        → ((c : Cache)
            → Settled dev dk c
            → (q + 1) * bpb ≤ x
            → Returns (Takes dev x dk s) (balloc_loop fuel dev (q * bpb + bpb) (with_cache s c)))
        → Returns (Takes dev x dk s) (after_scan fuel dev bp (q * bpb) r s)
    after_scan_lem (some (k, j)) hit u rest =
        let found : q * bpb + k * 8 + j ≡ x = hit_is_first s.sb dk n q k j x at hit free in
        subst (λ (y : ℕ). Returns (Takes dev y dk s) (balloc_take dev bp (q * bpb) (k, j) s)) found
          (Runs.mono (balloc_take_lem dev n bp q k j dk s (omega (arith, hit.below)) hit.bit at u)
            λ r s' p.
              (p.0, subst (λ (y : ℕ). OnDisk dev (zeroed y (mark_used s.sb y dk)) s s') p.0 p.1))
    after_scan_lem none ends u rest =
        with_brelse dev n dk s bp (dk n) _ u refl
          λ c h. rest c h (none_is_here s.sb dk n q x at ends free)

  balloc_loop_lem :
      (fuel dev q x : ℕ) (dk : ℕ → Block) (s : FileSystem)
      → Settled dev dk s.cache
      → x < (q + fuel) * bpb
      → FirstFree s.sb dk (q * bpb) x
      → Returns (Takes dev x dk s) (balloc_loop fuel dev (q * bpb) s)
  unfolding balloc_loop
  balloc_loop_lem zero dev q x dk s h enough free = absurd (omega (arith, free.from))
  balloc_loop_lem (suc fuel) dev q x dk s h enough free =
      let n = s.sb.bmapstart + q * bpb / bpb in
      let at : n ≡ s.sb.bmapstart + q = omega arith in
      rw (lt→ltb (q * bpb) s.sb.size (omega (arith, free.from, free.in_size))) (
        with_bread dev n dk s _ h λ b c u.
          Runs.mono
            (after_scan_lem fuel dev n b q x dk (with_cache s c) at free
              (scan_bytes bsize 0 s.sb.size (q * bpb) (c.nodes b).data_of)
              (subst
                (λ (d : Block).
                  ScanEnds 0 bsize s.sb.size (q * bpb) (dk n)
                    (scan_bytes bsize 0 s.sb.size (q * bpb) d))
                (sym (u.1.holds)) (scan_bytes_lem bsize 0 s.sb.size (q * bpb) (dk n)))
              u
              λ c1 h1 beyond.
                subst
                  (λ (b : ℕ).
                    Returns (Takes dev x dk (with_cache s c))
                      (balloc_loop fuel dev b (with_cache s c1)))
                  (omega arith)
                  (Runs.mono
                    (balloc_loop_lem fuel dev (q + 1) x dk (with_cache s c1) h1 (omega arith)
                      record {
                        from = beyond;
                        in_size = free.in_size;
                        free = free.free;
                        first = λ y lo hi. free.first y (omega arith) hi;
                      })
                    λ r s' p. (p.0, record { cache_only = p.1.cache_only; settled = p.1.settled })))
            λ r s' p. (p.0, OnDisk-cache dev (zeroed x (mark_used s.sb x dk)) s c s' p.1))

  balloc_blocks :
      (dev x : ℕ) (dk : ℕ → Block) (s : FileSystem)
      → Settled dev dk s.cache
      → FirstFree s.sb dk 0 x
      → Returns (Takes dev x dk s) (balloc dev s)
  unfolding balloc
  balloc_blocks dev x dk s h free =
      balloc_loop_lem (s.sb.size / bpb + 2) dev 0 x dk s h (omega (arith, free.in_size)) free

  -- With at least one free block, of which the first is no block of the bitmap, a disk of bytes
  -- and a coherent cache, `balloc` returns the first free block of the file system; on the disk
  -- its bit is set, it holds zeros, and no other bit and no block but this one and that of its
  -- bit has changed.
  pub balloc_lem :
      (dev x : ℕ) (dk : ℕ → Block) (s : FileSystem)
      → Settled dev dk s.cache
      → OfBytes dk
      → FirstFree s.sb dk 0 x
      → NotBitmap s.sb x
      → Returns
          (λ r s'. (r ≡ x) × ((dk' : ℕ → Block) × Allocated s.sb x dk dk' × OnDisk dev dk' s s'))
          (balloc dev s)
  balloc_lem dev x dk s h bytes free apart = Runs.mono (balloc_blocks dev x dk s h free) λ r s' p.
      (p.0, (zeroed x (mark_used s.sb x dk), allocated s.sb x dk bytes free.in_size apart, p.1))

  -- With a disk of bytes and a coherent cache, `bfree` of a block that is in use returns and
  -- leaves a disk on which its bit is clear, every other bit is as before, and no block but that
  -- of its bit has changed.
  pub bfree_lem :
      (dev x : ℕ) (dk : ℕ → Block) (s : FileSystem)
      → Settled dev dk s.cache
      → OfBytes dk
      → disk_free s.sb dk x ≡ false
      → Returns
          (λ _ s'. (dk' : ℕ → Block) × Freed s.sb x dk dk' × OnDisk dev dk' s s')
          (bfree dev x s)
  unfolding bfree
  bfree_lem dev x dk s h bytes used =
      let n = bitmap_block s.sb x in
      let i = x % bpb / 8 in
      let f = λ (d : Block). update d i (bit_and (d i) (255 - 2 ^ (x % 8))) in
      with_bread dev n dk s _ h λ b c u.
        rw (u.1.holds, used)
          (with_bwrite dev n dk (set_data b f (with_cache s c)) b (f (dk n)) _
            (Holds-set dev n b dk (dk n) f (with_cache s c) u)
            λ c1 u1.
              last_brelse dev n (update dk n (f (dk n))) (with_cache s c1) b (f (dk n)) u1
                (sym (update_self dk n (f (dk n))))
                λ c2 h2. (
                  mark_free s.sb x dk,
                  freed s.sb x dk bytes,
                  record { cache_only = refl; settled = h2 },
                ))
