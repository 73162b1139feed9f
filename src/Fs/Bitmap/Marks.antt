-- ===== src/Fs/Bitmap/Marks.antt =====
-- The bitmap of fs/fs.c on the disk: which blocks are free, and what the change of one bit does.
use riscv_os_lab.Prelude.{
  ==-false, ==_refl, Bool, Bool-cases, ap, arith, false, if◌then◌else◌, inl, inr, leb, ltb, refl,
  true, update, update_ne, update_self, ℕ, ℕ-cases, ◌%◌, ◌&&◌, ◌+◌, ◌-◌, ◌/◌, ◌<◌, ◌==◌, ◌^◌, ◌∙◌,
  ◌≡◌, ◌≢◌, ◌≤◌,
}
use Prim.Native.Nat.{bit_and, bit_or}
use riscv_os_lab.Prelude.Words.{memset}
use riscv_os_lab.Fs.Bio.{Block, bsize}
use riscv_os_lab.Fs.State.{Superblock}
use riscv_os_lab.Fs.Bitmap.{bpb}
use riscv_os_lab.Fs.Bitmap.Scan.{is_clear}
use riscv_os_lab.Fs.Bitmap.Bits.{set_bit-is_clear, set_bit-lt, clear_bit-is_clear}

-- the block of the bitmap with the bit of block `x`
abbrev pub bitmap_block : Superblock → ℕ → ℕ
bitmap_block sb x = sb.bmapstart + x / bpb

-- the bitmap on the disk says that block `x` is free
abbrev pub disk_free : Superblock → (ℕ → Block) → ℕ → Bool
disk_free sb dk x = is_clear (dk (bitmap_block sb x) (x % bpb / 8)) (x % 8)

-- the blocks with the bit of `x` set, or cleared
abbrev pub mark_used : Superblock → ℕ → (ℕ → Block) → ℕ → Block
mark_used sb x dk =
    let n = bitmap_block sb x in
    let i = x % bpb / 8 in update dk n (update (dk n) i (bit_or (dk n i) (2 ^ (x % 8))))

abbrev pub mark_free : Superblock → ℕ → (ℕ → Block) → ℕ → Block
mark_free sb x dk =
    let n = bitmap_block sb x in
    let i = x % bpb / 8 in update dk n (update (dk n) i (bit_and (dk n i) (255 - 2 ^ (x % 8))))

abbrev pub zeroed : ℕ → (ℕ → Block) → ℕ → Block
zeroed x dk = update dk x (memset (dk x) 0 0 bsize)

-- `x` is the first free block from `b` on, and one of the file system.
pub record FirstFree (sb : Superblock) (dk : ℕ → Block) (b x : ℕ) : Type 0 where
  pub from : b ≤ x
  pub in_size : x < sb.size
  pub free : disk_free sb dk x ≡ true
  pub first : (y : ℕ) → b ≤ y → y < x → disk_free sb dk y ≡ false

-- every byte of the disk fits a byte
abbrev pub OfBytes : (ℕ → Block) → Type 0
OfBytes dk = (m i : ℕ) → dk m i < 256

-- `x` is not one of the blocks of the bitmap
abbrev pub NotBitmap : Superblock → ℕ → Type 0
NotBitmap sb x = (y : ℕ) → y < sb.size → bitmap_block sb y ≢ x

-- From the blocks `dk` to `dk'`, block `x` is taken into use: only its bit and its contents change.
pub record Allocated (sb : Superblock) (x : ℕ) (dk dk' : ℕ → Block) : Type 0 where
  pub used : disk_free sb dk' x ≡ false
  pub others : (y : ℕ) → y < sb.size → y ≢ x → disk_free sb dk' y ≡ disk_free sb dk y
  pub cleared : (i : ℕ) → i < bsize → dk' x i ≡ 0
  pub rest : (m : ℕ) → m ≢ x → m ≢ bitmap_block sb x → dk' m ≡ dk m
  pub of_bytes : OfBytes dk'

-- From the blocks `dk` to `dk'`, block `x` is freed: only its bit changes.
pub record Freed (sb : Superblock) (x : ℕ) (dk dk' : ℕ → Block) : Type 0 where
  pub free : disk_free sb dk' x ≡ true
  pub others : (y : ℕ) → y ≢ x → disk_free sb dk' y ≡ disk_free sb dk y
  pub rest : (m : ℕ) → m ≢ bitmap_block sb x → dk' m ≡ dk m

abbrev bit_set : ℕ → ℕ → ℕ
bit_set m j = bit_or m (2 ^ j)

abbrev bit_cleared : ℕ → ℕ → ℕ
bit_cleared m j = bit_and m (255 - 2 ^ j)

-- A change of bit `x % 8` in its byte is a change of the bit of block `x` only.
module _ (sb : Superblock) (x : ℕ) (dk : ℕ → Block) (bytes : OfBytes dk) (g : ℕ → ℕ → ℕ)
    (v : Bool) where
  marked :
      ((m j i : ℕ)
        → m < 256
        → j < 8
        → i < 8
        → is_clear (g m j) i ≡ (if i == j then v else is_clear m i))
      → (y : ℕ)
      → disk_free sb
          (update dk (bitmap_block sb x) (
            update
              (dk (bitmap_block sb x))
              (x % bpb / 8)
              (g (dk (bitmap_block sb x) (x % bpb / 8)) (x % 8))))
          y
        ≡ (if y == x then v else disk_free sb dk y)
  marked law y =
      let n = bitmap_block sb x in
      let i = x % bpb / 8 in
      let d = update (dk n) i (g (dk n i) (x % 8)) in
      elim (ℕ-cases (bitmap_block sb y) n) [
        | inr off ↦
            let other : y ≢ x = λ e. off (ap (bitmap_block sb) e) in
            rw (update_ne dk n d off, ==-false y x other) refl
        | inl same ↦ elim (ℕ-cases (y % bpb / 8) i) [
          | inr off ↦
              let other : y ≢ x = λ e. off (ap (λ (t : ℕ). t % bpb / 8) e) in
              rw
                (
                  same,
                  update_self dk n d,
                  update_ne (dk n) i (g (dk n i) (x % 8)) off,
                  ==-false y x other,
                )
                refl
          | inl byte ↦
              let bits : (y % 8 == x % 8) ≡ (y == x) = ground arith in
              let e = law (dk n i) (x % 8) (y % 8) (bytes n i) (omega arith) (omega arith) in
              rw (same, update_self dk n d, byte, update_self (dk n) i (g (dk n i) (x % 8)))
                (e ∙ rw bits refl)
        ]
      ]

module _ (sb : Superblock) (x : ℕ) (dk : ℕ → Block) (bytes : OfBytes dk) where
  used_bit :
      (y : ℕ) → disk_free sb (mark_used sb x dk) y ≡ (if y == x then false else disk_free sb dk y)
  used_bit y =
      marked sb x dk bytes bit_set false (λ m j i lm lj li. set_bit-is_clear m j lm lj i li) y

  free_bit :
      (y : ℕ) → disk_free sb (mark_free sb x dk) y ≡ (if y == x then true else disk_free sb dk y)
  free_bit y =
      marked sb x dk bytes bit_cleared true (λ m j i lm lj li. clear_bit-is_clear m j lm lj i li) y

  pub freed : Freed sb x dk (mark_free sb x dk)
  freed = record {
    free = free_bit x ∙ rw (==_refl x) refl;
    others = λ y off. free_bit y ∙ rw (==-false y x off) refl;
    rest = λ m off. update_ne dk (bitmap_block sb x) _ off;
  }

  used_bytes : OfBytes (mark_used sb x dk)
  used_bytes m i =
      let n = bitmap_block sb x in
      let k = x % bpb / 8 in
      elim (ℕ-cases m n) [
        | inr off ↦ rw (update_ne dk n (update (dk n) k (bit_set (dk n k) (x % 8))) off) (bytes m i)
        | inl same ↦ elim (ℕ-cases i k) [
          | inr off ↦
              rw
                (
                  same,
                  update_self dk n (update (dk n) k (bit_set (dk n k) (x % 8))),
                  update_ne (dk n) k (bit_set (dk n k) (x % 8)) off,
                )
                (bytes n i)
          | inl at ↦
              rw
                (
                  same,
                  update_self dk n (update (dk n) k (bit_set (dk n k) (x % 8))),
                  at,
                  update_self (dk n) k (bit_set (dk n k) (x % 8)),
                )
                (set_bit-lt (dk n k) (x % 8) (bytes n k) (omega arith))
        ]
      ]

  zeroed_bytes : OfBytes (zeroed x (mark_used sb x dk))
  unfolding memset
  zeroed_bytes m i =
      let b = used_bytes x i in
      elim (ℕ-cases m x) [
        | inr off ↦
            rw (update_ne (mark_used sb x dk) x (memset (mark_used sb x dk x) 0 0 bsize) off)
              (used_bytes m i)
        | inl same ↦
            rw (same, update_self (mark_used sb x dk) x (memset (mark_used sb x dk x) 0 0 bsize))
              (elim (Bool-cases (leb 0 i && ltb i bsize)) [
                | inl is ↦ rw is (omega arith)
                | inr isnt ↦ rw isnt b
              ])
      ]

  pub allocated : x < sb.size → NotBitmap sb x → Allocated sb x dk (zeroed x (mark_used sb x dk))
  allocated lt apart =
      let elsewhere : (y : ℕ)
          → y < sb.size
          → zeroed x (mark_used sb x dk) (bitmap_block sb y)
            ≡ mark_used sb x dk (bitmap_block sb y) =
        (λ y lt. update_ne (mark_used sb x dk) x _ (apart y lt)) in
      record {
        used =
            ap (λ (d : Block). is_clear (d (x % bpb / 8)) (x % 8)) (elsewhere x lt)
            ∙ used_bit x
            ∙ rw (==_refl x) refl;
        others = λ y lt off.
            ap (λ (d : Block). is_clear (d (y % bpb / 8)) (y % 8)) (elsewhere y lt)
            ∙ used_bit y
            ∙ rw (==-false y x off) refl;
        cleared = λ i lt. unfold memset in rw (==_refl x) (ground arith);
        rest = λ m off no_bitmap.
            update_ne (mark_used sb x dk) x _ off ∙ update_ne dk (bitmap_block sb x) _ no_bitmap;
        of_bytes = zeroed_bytes;
      }
