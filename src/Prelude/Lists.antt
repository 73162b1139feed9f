-- ===== src/Prelude/Lists.antt =====
-- Membership in lists of numbers, as a test and as a predicate.
use riscv_os_lab.Prelude.{
  ℕ, ◌≡◌, ◌≢◌, Bool, true, false, ◌||◌, Option, none, some, List, [], ◌∷◌, arith, ◌==◌,
  if◌then◌else◌, refl, ℕ-cases, inl, inr, ==_refl, ==-false, sym,
}

abbrev pub has : ℕ → List ℕ → Bool
has p [] = false
has p (x ∷ xs) = (p == x) || has p xs

abbrev pub NotIn : ℕ → List ℕ → Type 0
NotIn a [] = Unit
NotIn a (x ∷ xs) = (a ≢ x) × NotIn a xs

abbrev pub IsDistinct : List ℕ → Type 0
IsDistinct [] = Unit
IsDistinct (x ∷ xs) = NotIn x xs × IsDistinct xs

-- the list without the first `a`
abbrev pub remove : ℕ → List ℕ → List ℕ
remove a [] = []
remove a (x ∷ xs) = if x == a then xs else x ∷ remove a xs

-- the first number that passes
abbrev pub first : (ℕ → Bool) → List ℕ → Option ℕ
first test [] = none
first test (x ∷ xs) = if test x then some x else first test xs

pub NotIn-of_has : (p : ℕ) (xs : List ℕ) → has p xs ≡ false → NotIn p xs
NotIn-of_has p [] h = tt
NotIn-of_has p (x ∷ xs) h = (ground arith, NotIn-of_has p xs (ground arith))

pub has-of_NotIn : (p : ℕ) (xs : List ℕ) → NotIn p xs → has p xs ≡ false
has-of_NotIn p [] h = refl
has-of_NotIn p (x ∷ xs) h = ground (arith, has-of_NotIn p xs h.1)

pub ne-of_NotIn : (p q : ℕ) (xs : List ℕ) → NotIn p xs → has q xs ≡ true → p ≢ q
ne-of_NotIn p q [] h m = λ e. cc
ne-of_NotIn p q (x ∷ xs) h m = ground (arith, ne-of_NotIn p q xs h.1)

pub has-remove : (a b : ℕ) (xs : List ℕ) → b ≢ a → has b (remove a xs) ≡ has b xs
has-remove a b [] ne = refl
has-remove a b (x ∷ xs) ne = ground (arith, has-remove a b xs ne)

pub NotIn-remove : (a b : ℕ) (xs : List ℕ) → NotIn b xs → NotIn b (remove a xs)
NotIn-remove a b [] h = tt
NotIn-remove a b (x ∷ xs) h = ground (arith, NotIn-remove a b xs h.1)

pub NotIn-remove_self : (a : ℕ) (xs : List ℕ) → IsDistinct xs → NotIn a (remove a xs)
NotIn-remove_self a [] h = tt
NotIn-remove_self a (x ∷ xs) h = elim (ℕ-cases x a) [
  | inl e ↦ rw (e, ==_refl a) (rw e at h.0)
  | inr ne ↦ rw (==-false x a ne) ((λ e. ne (sym e)), NotIn-remove_self a xs h.1)
]

pub IsDistinct-remove : (a : ℕ) (xs : List ℕ) → IsDistinct xs → IsDistinct (remove a xs)
IsDistinct-remove a [] h = tt
IsDistinct-remove a (x ∷ xs) h = elim (ℕ-cases x a) [
  | inl e ↦ rw (e, ==_refl a) h.1
  | inr ne ↦ rw (==-false x a ne) (NotIn-remove a x xs h.0, IsDistinct-remove a xs h.1)
]
