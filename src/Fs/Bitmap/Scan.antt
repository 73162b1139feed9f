-- ===== src/Fs/Bitmap/Scan.antt =====
-- The search of `balloc` (fs/fs.c) for a clear bit in a bitmap block.
use riscv_os_lab.Prelude.{
  ℕ, zero, suc, ◌+◌, ◌*◌, ◌/◌, ◌%◌, ◌^◌, ◌≤◌, ◌<◌, ◌≡◌, refl, ◌≢◌, ◌⊎◌, inl, inr, Bool, true, false,
  Option, none, some, arith, ltb, ◌==◌, ◌!=◌, ltb→lt, lt→ltb, Bool-cases, Option-cases, ℕ-cases,
  find_first, find_first-some, find_first-none,
}
use Prim.Native.Nat.{bit_and}
use riscv_os_lab.Fs.Bio.{Block, bsize}
use riscv_os_lab.Fs.Bitmap.{clear_bit, scan_bytes}

-- bit `j` of `m` is clear
abbrev pub is_clear : ℕ → ℕ → Bool
is_clear m j = bit_and m (2 ^ j) == 0

-- none of the 8 blocks of the byte is free
abbrev pub IsFull : ℕ → Type 0
IsFull m = (j : ℕ) → j < 8 → is_clear m j ≡ false

-- Byte `k` is the first of those from `bi` on that has a clear bit, and `j` its first.
pub record ScanHit (bi n size b : ℕ) (bits : Block) (k j : ℕ) : Type 0 where
  pub from : bi ≤ k
  pub below : k < bi + n
  pub in_size : b + k * 8 < size
  pub bit : j < 8
  pub clear : is_clear (bits k) j ≡ true
  pub first_bit : (i : ℕ) → i < j → is_clear (bits k) i ≡ false
  pub first_byte : (i : ℕ) → bi ≤ i → i < k → IsFull (bits i)

-- Nothing is free below the end of the file system.
abbrev pub NoneFree : (bi n size b : ℕ) → Block → Type 0
NoneFree bi n size b bits = (i : ℕ) → bi ≤ i → i < bi + n → b + i * 8 < size → IsFull (bits i)

abbrev pub ScanEnds : (bi n size b : ℕ) → Block → Option (ℕ × ℕ) → Type 0
ScanEnds bi n size b bits none = NoneFree bi n size b bits
ScanEnds bi n size b bits (some (k, j)) = ScanHit bi n size b bits k j

ones-IsFull : IsFull 0xff
unfolding find_first
ones-IsFull j lt = find_first-none (λ j. is_clear 0xff j) 8 0 refl j (omega arith) (omega arith)

-- What one byte gives: the search goes on, or it ends with the first clear bit.
byte_cases :
    (m : ℕ)
    → (IsFull m × (m != 0xff ≡ false))
      ⊎ (IsFull m × (m != 0xff ≡ true) × (clear_bit m ≡ none))
      ⊎ ((j : ℕ) × (m != 0xff ≡ true) × (clear_bit m ≡ some j))
unfolding clear_bit
byte_cases m = elim (Bool-cases (m != 0xff)) [
  | inr is ↦ let all : m ≡ 0xff = ground arith in inl (λ j lt. rw all (ones-IsFull j lt), is)
  | inl isnt ↦ elim (Option-cases (clear_bit m)) [
    | inl e ↦ inr (
        inl (
          λ j lt. find_first-none (λ j. is_clear m j) 8 0 e j (omega arith) (omega arith),
          isnt,
          e,
        ))
    | inr (j, e) ↦ inr (inr (j, isnt, e))
  ]
]

module _ (n bi size b : ℕ) (bits : Block) where
  -- A full byte is passed.
  pass :
      (r : Option (ℕ × ℕ))
      → IsFull (bits bi)
      → ScanEnds (bi + 1) n size b bits r
      → ScanEnds bi (suc n) size b bits r
  pass none full rest = λ i lo hi lt. elim (ℕ-cases i bi) [
    | inl at ↦ rw at full
    | inr off ↦ rest i (omega arith) (omega arith) lt
  ]
  pass (some (k, j)) full rest = record {
    from = omega (arith, rest.from);
    below = omega (arith, rest.below);
    in_size = rest.in_size;
    bit = rest.bit;
    clear = rest.clear;
    first_bit = rest.first_bit;
    first_byte = λ i lo hi. elim (ℕ-cases i bi) [
      | inl at ↦ rw at full
      | inr off ↦ rest.first_byte i (omega arith) hi
    ];
  }

  stop :
      (j : ℕ)
      → b + bi * 8 < size
      → clear_bit (bits bi) ≡ some j
      → ScanHit bi (suc n) size b bits bi j
  unfolding clear_bit
  stop j within hit =
      let (lo, hi, clear, before) = find_first-some (λ j. is_clear (bits bi) j) 8 0 hit in
      record {
        from = omega arith;
        below = omega arith;
        in_size = within;
        bit = omega arith;
        clear = clear;
        first_bit = λ i lt. before i (omega arith) lt;
        first_byte = λ i lo hi. absurd (omega arith);
      }

past : (bi size b i : ℕ) → bi ≤ i → b + i * 8 < size → ltb (b + bi * 8) size ≢ false
past bi size b i lo lt e = let now : ltb (b + bi * 8) size ≡ true = lt→ltb _ _ (omega arith) in cc

-- The scan of `balloc` over `n` bytes either ends with the first clear bit of the first byte that has
-- one, and the byte begins below the size of the file system; or no byte that begins below the size
-- has a clear bit.
pub scan_bytes_lem :
    (n bi size b : ℕ) (bits : Block) → ScanEnds bi n size b bits (scan_bytes n bi size b bits)
unfolding scan_bytes
scan_bytes_lem zero bi size b bits = λ i lo hi lt. absurd (omega arith)
scan_bytes_lem (suc n) bi size b bits = elim (Bool-cases (ltb (b + bi * 8) size)) [
  | inr over ↦ rw over (λ i lo hi lt. absurd (past bi size b i lo lt over))
  | inl within ↦ elim (byte_cases (bits bi)) [
    | inl (full, is) ↦
        rw (within, is) (pass n bi size b bits _ full (scan_bytes_lem n (bi + 1) size b bits))
    | inr (inl (full, isnt, none_clear)) ↦
        rw (within, isnt, none_clear)
          (pass n bi size b bits _ full (scan_bytes_lem n (bi + 1) size b bits))
    | inr (inr (j, isnt, hit)) ↦
        rw (within, isnt, hit) (stop n bi size b bits j (ltb→lt _ _ within) hit)
  ]
]

-- the bitmap says that block `x` is free
abbrev pub is_free : Block → ℕ → Bool
is_free bits x = is_clear (bits (x / 8)) (x % 8)

-- In a file system of at most one bitmap block whose size is not a multiple of 8, with every block in
-- use and the bit behind the last one clear, the scan of `balloc` does not fail: it takes that bit, of
-- the block whose number is the size, which the file system does not have.
pub scan_bytes-past_size :
    (size : ℕ) (bits : Block)
    → size < bsize * 8
    → size % 8 ≢ 0
    → ((x : ℕ) → x < size → is_free bits x ≡ false)
    → is_free bits size ≡ true
    → (scan_bytes bsize 0 size 0 bits ≡ some (size / 8, size % 8))
      × (size / 8 * 8 + size % 8 ≡ size)
scan_bytes-past_size size bits small odd used clear =
    (ends (scan_bytes bsize 0 size 0 bits) (scan_bytes_lem bsize 0 size 0 bits), omega arith)
  where
    below_size : (k j : ℕ) → j < 8 → is_clear (bits k) j ≡ true → size ≤ k * 8 + j
    below_size k j lt free = elim (Bool-cases (ltb (k * 8 + j) size)) [
      | inr past ↦ ground arith
      | inl within ↦
          let byte : (k * 8 + j) / 8 ≡ k = omega arith in
          let bit : (k * 8 + j) % 8 ≡ j = omega arith in
          let taken : is_clear (bits k) j ≡ false =
            rw (byte, bit) at (used (k * 8 + j) (ltb→lt _ _ within)) in
          absurd cc
    ]

    ends : (r : Option (ℕ × ℕ)) → ScanEnds 0 bsize size 0 bits r → r ≡ some (size / 8, size % 8)
    ends none full =
        let is : is_clear (bits (size / 8)) (size % 8) ≡ false =
          full (size / 8) (omega arith) (omega arith) (omega arith) (size % 8) (omega arith) in
        cc
    ends (some (k, j)) hit =
        let past : size ≤ k * 8 + j = below_size k j hit.bit hit.clear in
        let byte : k ≡ size / 8 = omega (arith, hit.in_size, hit.bit) in
        elim (Bool-cases (ltb (size % 8) j)) [
          | inl before ↦
              let taken : is_clear (bits (size / 8)) (size % 8) ≡ false =
                rw byte at (hit.first_bit (size % 8) (ltb→lt _ _ before)) in
              absurd cc
          | inr after ↦ let bit : j ≡ size % 8 = ground arith in rw (byte, bit) refl
        ]
