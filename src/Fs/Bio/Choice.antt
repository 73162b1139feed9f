-- ===== src/Fs/Bio/Choice.antt =====
-- The buffers that the two walks of `bget` (fs/bio.c) end at.
use riscv_os_lab.Prelude.{
  ℕ, ◌≡◌, refl, inl, inr, Bool, true, false, none, some, List, [], ◌∷◌, arith, ==_refl, Bool-cases,
  Option-cases, ℕ-cases,
}
use riscv_os_lab.Prelude.Lists.{has, first}
use riscv_os_lab.Fs.Bio.Lru.{last_match}

pub first-some :
    (test : ℕ → Bool) (b : ℕ) (xs : List ℕ)
    → first test xs ≡ some b
    → (test b ≡ true) × (has b xs ≡ true)
first-some test b [] e = cc
first-some test b (x ∷ xs) e = elim (Bool-cases (test x)) [
  | inl y ↦ let same : x ≡ b = ground arith in rw⁻¹ same (y, rw (==_refl x) refl)
  | inr z ↦ let (t, h) = first-some test b xs (rw z at e) in (t, ground arith)
]

pub first-none :
    (test : ℕ → Bool) (xs : List ℕ)
    → first test xs ≡ none
    → (j : ℕ) → has j xs ≡ true
    → test j ≡ false
first-none test [] e j h = cc
first-none test (x ∷ xs) e j h = elim (Bool-cases (test x)) [
  | inl y ↦ ground arith
  | inr z ↦ elim (ℕ-cases j x) [
    | inl at ↦ rw at z
    | inr off ↦ first-none test xs (rw z at e) j (ground arith)
  ]
]

pub last_match-some :
    (test : ℕ → Bool) (b : ℕ) (xs : List ℕ) → last_match test xs ≡ some b → has b xs ≡ true
last_match-some test b [] e = cc
last_match-some test b (x ∷ xs) e = elim (Option-cases (last_match test xs)) [
  | inr (y, later) ↦
      let same : y ≡ b = (let e' : some y ≡ some b = rw later at e in cc) in
      let h : has y xs ≡ true = last_match-some test y xs later in rw⁻¹ same (ground arith)
  | inl none_later ↦ elim (Bool-cases (test x)) [
    | inl y ↦
        let same : x ≡ b = (let e' : some x ≡ some b = rw (none_later, y) at e in cc) in
        rw⁻¹ same (rw (==_refl x) refl)
    | inr z ↦ let e' : none ≡ some b = rw (none_later, z) at e in absurd cc
  ]
]

pub last_match-finds :
    (test : ℕ → Bool) (b : ℕ) (xs : List ℕ)
    → has b xs ≡ true
    → test b ≡ true
    → (y : ℕ) × (last_match test xs ≡ some y)
last_match-finds test b [] h t = absurd cc
last_match-finds test b (x ∷ xs) h t = elim (Option-cases (last_match test xs)) [
  | inr (y, later) ↦ (y, rw later)
  | inl none_later ↦ elim (ℕ-cases b x) [
    | inl at ↦ (x, rw (none_later, rw at at t))
    | inr off ↦ let (y, e) = last_match-finds test b xs (ground arith) t in absurd cc
  ]
]
