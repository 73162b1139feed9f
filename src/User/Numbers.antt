-- ===== src/User/Numbers.antt =====
-- What `printnum` of user/proczero.c prints, against the kernel's `printint`.
use riscv_os_lab.Prelude.{
  ℕ, zero, suc, ◌+◌, ◌-◌, ◌/◌, ◌%◌, ◌^◌, ◌<◌, ◌≡◌, refl, sym, ap, ◌∙◌, subst, ◌≢◌, inl, inr, true,
  none, some, List, [], ◌∷◌, ◌++◌, arith, ltb, ◌==◌, length, ==-false, Bool-cases, Option-cases,
  ℕ-cases,
}
use mathlib.Core.List.{append-nil, append_assoc}
use riscv_os_lab.Prelude.Runs
use riscv_os_lab.Prelude.Runs.{Run, ok, Cmd, and_then, Returns, returns}
use riscv_os_lab.Driver.Console.{digit, convert, put_sign, is_negative, printint}
use riscv_os_lab.Driver.Console.Numbers.{printint_lem}
use riscv_os_lab.User.{Kernel, put_digits, absolute, printchar, print_each, print_digits, printnum}

digit-decimal : (x : ℕ) → b'0' + x % 10 ≡ digit (x % 10)
unfolding digit
digit-decimal x = ground arith

convert_zero : convert 16 10 0 [] ≡ some (b'0' ∷ [])
unfolding convert digit
convert_zero = refl

put_digits_end : (room : ℕ) (buf : List ℕ) → put_digits room 0 buf ≡ some buf
unfolding put_digits
put_digits_end zero buf = refl
put_digits_end (suc room) buf = refl

-- The loop of `printnum` on a number that is not 0 is the loop of `printint` in base 10.
put_digits-convert :
    (room x : ℕ) (buf : List ℕ) → x ≢ 0 → put_digits room x buf ≡ convert room 10 x buf
unfolding put_digits convert
put_digits-convert zero x buf some_left = ground arith
put_digits-convert (suc room) x buf some_left = elim (Bool-cases (x / 10 == 0)) [
  | inl last ↦
      let none_left : x / 10 ≡ 0 = ground arith in
      rw (==-false x 0 some_left, last, none_left, put_digits_end room ((b'0' + x % 10) ∷ buf))
        (ap (λ (c : ℕ). some (c ∷ buf)) (digit-decimal x))
  | inr more ↦
      rw (==-false x 0 some_left, more)
        (put_digits-convert room (x / 10) _ (ground arith)
          ∙ ap (λ (c : ℕ). convert room 10 (x / 10) (c ∷ buf)) (digit-decimal x))
]

module _ ⦃kernel : Kernel⦄ where
  -- The bytes `out` have been printed after `w`.
  abbrev pub PrintsAfter : kernel.World → List ℕ → Unit {0} → kernel.World → Type 0
  PrintsAfter w out _ w' = kernel.printed w' ≡ kernel.printed w ++ out

  printchar_lem : (c : ℕ) (w : kernel.World) → Returns (PrintsAfter w (c ∷ [])) (printchar c w)
  unfolding printchar
  printchar_lem c w = Runs.bind (kernel.write_lem (c ∷ []) w) λ r w' p. returns p

  print_each_lem :
      (buf : List ℕ) (w : kernel.World) → Returns (PrintsAfter w buf) (print_each buf w)
  unfolding print_each
  print_each_lem [] w = returns (sym (append-nil (kernel.printed w)))
  print_each_lem (c ∷ buf) w = Runs.bind (printchar_lem c w) λ _ w1 p.
      Runs.mono (print_each_lem buf w1)
        λ _ w2 q. q ∙ ap (λ (t : List ℕ). t ++ buf) p ∙ append_assoc (kernel.printed w) (c ∷ []) buf

  print_digits_lem :
      (m : ℕ) (digits : List ℕ) (w : kernel.World)
      → convert 16 10 m [] ≡ some digits
      → Returns (PrintsAfter w digits) (print_digits m w)
  unfolding print_digits
  print_digits_lem m digits w e = elim (ℕ-cases m 0) [
    | inl none_left ↦
        let e' : convert 16 10 0 [] ≡ some digits =
          subst (λ (x : ℕ). convert 16 10 x [] ≡ some digits) none_left e in
        let same : (b'0' ∷ []) ≡ digits =
          (let e'' : some (b'0' ∷ []) ≡ some digits = sym convert_zero ∙ e' in cc) in
        rw none_left (
          subst (λ (out : List ℕ). Returns (PrintsAfter w out) (printchar b'0' w)) same
            (printchar_lem b'0' w))
    | inr some_left ↦
        rw (==-false m 0 some_left, put_digits-convert 16 m [] some_left, e)
          (print_each_lem digits w)
  ]

  -- The sign is put first, and printed first.
  signed :
      (n : ℕ) (digits out : List ℕ) (w : kernel.World)
      → convert 16 10 (absolute n) [] ≡ some digits
      → put_sign 16 (is_negative 32 n) (some digits) ≡ some out
      → Returns (PrintsAfter w out) (printnum n w)
  unfolding printnum
  signed n digits out w e put = elim (Bool-cases (is_negative 32 n)) [
    | inr positive ↦
        let same : digits ≡ out = (let e' : some digits ≡ some out = rw positive at put in cc) in
        let whole = print_digits_lem (absolute n) digits w e in
        rw positive (
          subst (λ (t : List ℕ). Returns (PrintsAfter w t) (print_digits n w)) same
            (rw positive at whole))
    | inl negative ↦ elim (Bool-cases (ltb (length digits) 16)) [
      | inr full ↦ let e' : none ≡ some out = rw (negative, full) at put in absurd cc
      | inl room ↦
          let same : (b'-' ∷ digits) ≡ out =
            (let e' : some (b'-' ∷ digits) ≡ some out = rw (negative, room) at put in cc) in
          rw negative (
            subst
              (λ (t : List ℕ).
                Returns (PrintsAfter w t)
                  (and_then (printchar b'-' w) (λ _. print_digits ((2 ^ 32 - n) % 2 ^ 32))))
              same
              (Runs.bind (printchar_lem b'-' w) λ _ w1 p.
                Runs.mono (rw negative at (print_digits_lem (absolute n) digits w1 e)) λ _ w2 q.
                  q
                  ∙ ap (λ (t : List ℕ). t ++ digits) p
                  ∙ append_assoc (kernel.printed w) (b'-' ∷ []) digits))
    ]
  ]

  -- `printnum` of any `int` stays inside its buffer of 16 bytes, returns, and prints what the kernel's
  -- `printint` would send in base 10: the sign of a negative number and the digits.
  pub printnum-printint :
      (n : ℕ) (w : kernel.World)
      → n < 2 ^ 32
      → (out : List ℕ) × (printint n 10 true ≡ some out)
        × Returns (PrintsAfter w out) (printnum n w)
  unfolding printint
  printnum-printint n w lt =
      let (out, e, len, p) = printint_lem n 10 true (inl refl) lt in
      elim (Option-cases (convert 16 10 (absolute n) [])) [
        | inl none_fit ↦ let e' : none ≡ some out = rw none_fit at e in absurd cc
        | inr (digits, fit) ↦ (out, e, signed n digits out w fit (rw fit at e))
      ]
