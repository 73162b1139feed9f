-- ===== src/Fs/Bitmap/Bits.antt =====
-- The bits of a byte of the bitmap of fs/fs.c, as `balloc` sets them and `bfree` clears them.
use riscv_os_lab.Prelude.{
  ℕ, zero, suc, ◌-◌, ◌^◌, ◌<◌, ◌≡◌, ltb→lt, refl, inl, inr, Bool, true, false, ◌&&◌, not, arith,
  ltb, ◌==◌, if◌then◌else◌, ℕ-cases,
}
use Prim.Native.Nat.{bit_and, bit_or}
use riscv_os_lab.Fs.Bitmap.Scan.{is_clear}

-- `f` holds of the numbers below `n`
all_below : ℕ → (ℕ → Bool) → Bool
all_below zero f = true
all_below (suc n) f = f n && all_below n f

all_below_lem : (n : ℕ) (f : ℕ → Bool) → all_below n f ≡ true → (i : ℕ) → i < n → f i ≡ true
unfolding all_below
all_below_lem zero f e i lt = absurd (omega arith)
all_below_lem (suc n) f e i lt = elim (ℕ-cases i n) [
  | inl at ↦ rw at (ground arith)
  | inr off ↦ all_below_lem n f (ground arith) i (omega arith)
]

same : Bool → Bool → Bool
same true b = b
same false b = not b

same→eq : (a b : Bool) → same a b ≡ true → a ≡ b
unfolding same
same→eq true true e = refl
same→eq true false e = cc
same→eq false true e = cc
same→eq false false e = refl

-- setting and clearing bit `j` of the byte `m`, read at bit `i`
set_right : ℕ → ℕ → ℕ → Bool
set_right m j i =
    ltb (bit_or m (2 ^ j)) 256
    && same (is_clear (bit_or m (2 ^ j)) i) (if i == j then false else is_clear m i)

clear_right : ℕ → ℕ → ℕ → Bool
clear_right m j i =
    ltb (bit_and m (255 - 2 ^ j)) 256
    && same (is_clear (bit_and m (255 - 2 ^ j)) i) (if i == j then true else is_clear m i)

all_bits : (ℕ → ℕ → ℕ → Bool) → Bool
all_bits f = all_below 256 (λ m. all_below 8 (λ j. all_below 8 (λ i. f m j i)))

all_bits_lem :
    (f : ℕ → ℕ → ℕ → Bool)
    → all_bits f ≡ true
    → (m j i : ℕ) → m < 256
    → j < 8
    → i < 8
    → f m j i ≡ true
unfolding all_bits
all_bits_lem f e m j i lm lj li =
    all_below_lem 8 (λ i. f m j i)
      (all_below_lem 8 (λ j. all_below 8 (λ i. f m j i))
        (all_below_lem 256 (λ m. all_below 8 (λ j. all_below 8 (λ i. f m j i))) e m lm) j lj)
      i li

set_right_all : all_bits set_right ≡ true
unfolding all_bits all_below set_right same
set_right_all = refl

clear_right_all : all_bits clear_right ≡ true
unfolding all_bits all_below clear_right same
clear_right_all = refl

module _ (m j : ℕ) (byte : m < 256) (bit : j < 8) where
  pub set_bit-is_clear :
      (i : ℕ) → i < 8 → is_clear (bit_or m (2 ^ j)) i ≡ (if i == j then false else is_clear m i)
  unfolding set_right
  set_bit-is_clear i lt =
      let e = all_bits_lem set_right set_right_all m j i byte bit lt in same→eq _ _ (ground arith)

  pub set_bit-lt : bit_or m (2 ^ j) < 256
  unfolding set_right
  set_bit-lt =
      let e = all_bits_lem set_right set_right_all m j 0 byte bit (omega arith) in
      ltb→lt (bit_or m (2 ^ j)) 256 (ground arith)

  pub clear_bit-is_clear :
      (i : ℕ)
      → i < 8
      → is_clear (bit_and m (255 - 2 ^ j)) i ≡ (if i == j then true else is_clear m i)
  unfolding clear_right
  clear_bit-is_clear i lt =
      let e = all_bits_lem clear_right clear_right_all m j i byte bit lt in
      same→eq _ _ (ground arith)
