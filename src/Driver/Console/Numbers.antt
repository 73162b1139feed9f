-- ===== src/Driver/Console/Numbers.antt =====
-- The numbers that `printint` and `printlong` of driver/console.c print.
use riscv_os_lab.Prelude.{
  ℕ, zero, suc, ◌+◌, ◌-◌, ◌*◌, ◌/◌, ◌%◌, ◌^◌, ◌≤◌, ◌<◌, ◌≡◌, refl, ap, ◌∙◌, ◌≢◌, ◌⊎◌, inl, inr,
  Bool, true, false, ◌&&◌, some, List, [], ◌∷◌, arith, ltb, ◌==◌, if◌then◌else◌, length, lt→ltb,
  Bool-cases,
}
use native.Mathlib.Numerals.{unary_clauses}
use riscv_os_lab.Driver.Console.{
  digit, convert, put_sign, is_negative, magnitude, printint, printlong,
}

-- what a digit stands for, and a string of digits read in base `base` after the number `acc`
abbrev pub digit_value : ℕ → ℕ
digit_value c = if ltb c b'a' then c - b'0' else c - b'a' + 10

abbrev pub read_from : ℕ → ℕ → List ℕ → ℕ
read_from base acc [] = acc
read_from base acc (c ∷ s) = read_from base (acc * base + digit_value c) s

digit_value-digit : (d : ℕ) → d < 16 → digit_value (digit d) ≡ d
unfolding digit
digit_value-digit d lt = ground arith

-- the two bases in use
abbrev pub IsBase : ℕ → Type 0
IsBase base = (base ≡ 10) ⊎ (base ≡ 16)

last_digit : (base x : ℕ) → IsBase base → x / base * base + digit_value (digit (x % base)) ≡ x
last_digit base x (inl e) = rw (e, digit_value-digit (x % 10) (omega arith)) (omega arith)
last_digit base x (inr e) = rw (e, digit_value-digit (x % 16) (omega arith)) (omega arith)

-- The digits read back as the number.
convert-value :
    (room base x : ℕ) (buf s : List ℕ)
    → IsBase base
    → convert room base x buf ≡ some s
    → read_from base 0 s ≡ read_from base x buf
unfolding convert
convert-value zero base x buf s b e = cc
convert-value (suc room) base x buf s b e = elim (Bool-cases (x / base == 0)) [
  | inl y ↦
      let q : x / base ≡ 0 = ground arith in
      let whole : 0 * base + digit_value (digit (x % base)) ≡ x = (rw q at (last_digit base x b)) in
      let e' : some (digit (x % base) ∷ buf) ≡ some s = rw y at e in
      let same : digit (x % base) ∷ buf ≡ s = ground (arith) in rw⁻¹ same (rw whole refl)
  | inr z ↦
      convert-value room base (x / base) (digit (x % base) ∷ buf) s b (rw z at e)
      ∙ ap (λ v. read_from base v buf) (last_digit base x b)
]

quotient-lt : (base n x : ℕ) → IsBase base → x < base ^ suc n → x / base < base ^ n
quotient-lt base n x (inl e) lt =
    let lt' : x < 10 ^ suc n = rw e at lt in
    let p : 10 ^ suc n ≡ 10 ^ n * 10 = simp unary_clauses refl in rw e (omega arith)
quotient-lt base n x (inr e) lt =
    let lt' : x < 16 ^ suc n = rw e at lt in
    let p : 16 ^ suc n ≡ 16 ^ n * 16 = simp unary_clauses refl in rw e (omega arith)

positive : (base n q : ℕ) → IsBase base → q < base ^ n → q ≢ 0 → 0 < n
positive base zero q b lt ne =
    let p : base ^ 0 ≡ 1 = simp unary_clauses refl in absurd (ne (omega arith))
positive base (suc n) q b lt ne = omega arith

-- A number below base ^ n has at most `n` digits, and at least one.
convert-fits :
    (room n base x : ℕ) (buf : List ℕ)
    → IsBase base
    → n ≤ room
    → 0 < n
    → x < base ^ n
    → (s : List ℕ) × (convert room base x buf ≡ some s)
      × (length s ≤ n + length buf)
      × (length buf < length s)
unfolding convert
convert-fits room zero base x buf b le pos lt = absurd (omega arith)
convert-fits zero (suc n) base x buf b le pos lt = absurd (omega arith)
convert-fits (suc room) (suc n) base x buf b le pos lt = elim (Bool-cases (x / base == 0)) [
  | inl y ↦ rw y (digit (x % base) ∷ buf, refl, omega arith, omega arith)
  | inr z ↦
      let q : x / base < base ^ n = quotient-lt base n x b lt in
      let some_left : 0 < n = positive base n (x / base) b q (λ e. ground arith) in
      let (s, e, most, least) =
        convert-fits room n base (x / base) (digit (x % base) ∷ buf) b (omega arith) some_left q in
      rw z (s, e, omega arith, omega arith)
]

-- What is sent for the number `xx` of `w` bits: a minus sign if it is negative and signed, and then
-- digits that read back as its magnitude, at least one.
pub record Prints (w xx base : ℕ) (sign : Bool) (out : List ℕ) : Type 0 where
  pub digits : List ℕ
  pub written : out ≡ (if sign && is_negative w xx then b'-' ∷ digits else digits)
  pub value : read_from base 0 digits ≡ magnitude w xx sign
  pub nonempty : 0 < length digits

-- the digits of `m`, and room for the sign
abbrev Digits : ℕ → ℕ → ℕ → Bool → Type 0
Digits size base m negative =
    (out digits : List ℕ) × (put_sign size negative (convert size base m []) ≡ some out)
    × (length out ≤ size)
    × (out ≡ (if negative then b'-' ∷ digits else digits))
    × (read_from base 0 digits ≡ m)
    × (0 < length digits)

with_sign :
    (size n base m : ℕ) (negative : Bool)
    → IsBase base
    → n ≤ size
    → 0 < n
    → (negative ≡ true → n < size)
    → m < base ^ n
    → Digits size base m negative
with_sign size n base m true b le pos room lt =
    let (s, e, most, least) = convert-fits size n base m [] b le pos lt in
    let small : n < size = room refl in
    let fits : ltb (length s) size ≡ true = lt→ltb (length s) size (omega arith) in
    (
      b'-' ∷ s,
      s,
      rw (e, fits) refl,
      omega arith,
      refl,
      convert-value size base m [] s b e,
      omega arith,
    )
with_sign size n base m false b le pos room lt =
    let (s, e, most, least) = convert-fits size n base m [] b le pos lt in
    (s, s, rw e refl, omega arith, refl, convert-value size base m [] s b e, omega arith)

print-Prints :
    (size n w xx base : ℕ) (sign : Bool)
    → IsBase base
    → n ≤ size
    → 0 < n
    → ((sign && is_negative w xx) ≡ true → n < size)
    → magnitude w xx sign < base ^ n
    → (out : List ℕ) × (put_sign size
          (sign && is_negative w xx)
          (convert size base (magnitude w xx sign) [])
        ≡ some out)
      × (length out ≤ size)
      × Prints w xx base sign out
print-Prints size n w xx base sign b le pos room lt =
    let (out, digits, e, len, written, value, least) =
      with_sign size n base (magnitude w xx sign) (sign && is_negative w xx) b le pos room lt in
    (out, e, len, record { digits = digits; written = written; value = value; nonempty = least })

magnitude-lt : (xx : ℕ) (sign : Bool) → xx < 2 ^ 32 → magnitude 32 xx sign < 10 ^ 10
magnitude-lt xx sign lt = ground arith

-- `printint` of any `int` in base 10 or 16 stays inside its buffer of 16 bytes and sends the number.
pub printint_lem :
    (xx base : ℕ) (sign : Bool)
    → IsBase base
    → xx < 2 ^ 32
    → (out : List ℕ) × (printint xx base sign ≡ some out)
      × (length out ≤ 16)
      × Prints 32 xx base sign out
unfolding printint
printint_lem xx base sign b lt =
    print-Prints 16 10 32 xx base sign b (omega arith) (omega arith) (λ h. omega arith)
      (fits base b)
  where
    fits : (base : ℕ) → IsBase base → magnitude 32 xx sign < base ^ 10
    fits base (inl e) = rw e (magnitude-lt xx sign lt)
    fits base (inr e) = let m = magnitude-lt xx sign lt in rw e (omega arith)

-- `printlong` of any `long` in base 10 or 16 stays inside its buffer of 20 bytes, which the most
-- negative number and the largest unsigned one fill, and sends the number.
pub printlong_lem :
    (xx base : ℕ) (sign : Bool)
    → IsBase base
    → xx < 2 ^ 64
    → (out : List ℕ) × (printlong xx base sign ≡ some out)
      × (length out ≤ 20)
      × Prints 64 xx base sign out
unfolding printlong
printlong_lem xx base sign b lt = elim (Bool-cases (sign && is_negative 64 xx)) [
  | inl y ↦
      print-Prints 20 19 64 xx base sign b (omega arith) (omega arith) (λ h. omega arith)
        (signed base b y)
  | inr z ↦
      print-Prints 20 20 64 xx base sign b (omega arith) (omega arith) (λ h. cc) (unsigned base b)
]
  where
    signed :
        (base : ℕ)
        → IsBase base
        → (sign && is_negative 64 xx) ≡ true
        → magnitude 64 xx sign < base ^ 19
    signed base (inl e) y = rw (e, y) (ground arith)
    signed base (inr e) y = rw (e, y) (ground arith)

    unsigned : (base : ℕ) → IsBase base → magnitude 64 xx sign < base ^ 20
    unsigned base (inl e) = rw e (ground arith)
    unsigned base (inr e) = rw e (ground arith)
