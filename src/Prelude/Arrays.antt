-- ===== src/Prelude/Arrays.antt =====
-- Arrays as functions of the index, and the loops that scan one.
use Prim.Native.Nat.{ℕ, zero, suc, ◌+◌, ◌≤◌, ◌<◌}
use mathlib.Core.Path.{◌≡◌, ◌∙◌, fun_ext}
use mathlib.Core.Logic.{◌≢◌, inl, inr}
use mathlib.Core.Bool.{Bool, true, false, ◌&&◌}
use mathlib.Core.Option.{Option, none, some}
use native.Mathlib.Omega.{arith}
use riscv_os_lab.Prelude.Tests.{
  ◌==◌, leb, ltb, if◌then◌else◌, Bool-cases, ==_refl, ==-false, ℕ-cases,
}

-- a[i] = v
abbrev pub update {ℓ} : {A : Type ℓ} → (ℕ → A) → ℕ → A → ℕ → A
update a i v j = if j == i then v else a j

-- for (j = i; j < i + n; j++) if (test(j)) return j;
unfoldable pub find_first : (ℕ → Bool) → ℕ → ℕ → Option ℕ
find_first test zero i = none
find_first test (suc n) i = let rest = find_first test n (i + 1) in if test i then some i else rest

module _ (test : ℕ → Bool) where
  -- A scan that finds an index finds the first one that passes.
  pub find_first-some :
      (n i : ℕ) {j : ℕ}
      → find_first test n i ≡ some j
      → (i ≤ j) × (j < i + n) × (test j ≡ true) × ((k : ℕ) → i ≤ k → k < j → test k ≡ false)
  unfolding find_first
  find_first-some zero i e = cc
  find_first-some (suc n) i {j} e = elim (Bool-cases (test i)) [
    | inl hit ↦
        let same : i ≡ j = ground arith in
        (omega arith, omega arith, rw (← same) hit, λ k lo hi. absurd (omega arith))
    | inr miss ↦
        let e' : find_first test n (i + 1) ≡ some j = rw miss at e in
        let (lo, hi, hit, before) = find_first-some n (i + 1) e' in
        (omega arith, omega arith, hit, λ k a b. skip miss before k a b)
  ]
    where
      skip :
          {j : ℕ}
          → test i ≡ false
          → ((k : ℕ) → i + 1 ≤ k → k < j → test k ≡ false)
          → (k : ℕ) → i ≤ k
          → k < j
          → test k ≡ false
      skip miss before k a b = elim (ℕ-cases k i) [
        | inl at ↦ rw at miss
        | inr off ↦ before k (omega arith) b
      ]

  pub find_first-none :
      (n i : ℕ) → find_first test n i ≡ none → (k : ℕ) → i ≤ k → k < i + n → test k ≡ false
  unfolding find_first
  find_first-none zero i e k a b = absurd (omega arith)
  find_first-none (suc n) i e k a b = elim (Bool-cases (test i)) [
    | inl hit ↦ ground arith
    | inr miss ↦ elim (ℕ-cases k i) [
      | inl here ↦ rw here miss
      | inr off ↦ find_first-none n (i + 1) (rw miss at e) k (omega arith) (omega arith)
    ]
  ]

module _ {ℓ} {A : Type ℓ} (a : ℕ → A) (i : ℕ) (v : A) where
  pub update_self : update a i v i ≡ v
  update_self = rw (==_refl i)

  pub update_ne : {j : ℕ} → j ≢ i → update a i v j ≡ a j
  update_ne {j} h = rw (==-false j i h)

-- for (j = i; j < i + n; j++) a[j] = f(j, a[j]);
unfoldable pub for_each {ℓ} : {A : Type ℓ} → ℕ → ℕ → (ℕ → A → A) → (ℕ → A) → ℕ → A
for_each zero i f a = a
for_each (suc n) i f a = for_each n (i + 1) f (update a i (f i (a i)))

-- Such a loop changes each element of its range once.
pub for_each_lem {ℓ} :
    {A : Type ℓ} (n i : ℕ) (f : ℕ → A → A) (a : ℕ → A) (j : ℕ)
    → for_each n i f a j ≡ (if leb i j && ltb j (i + n) then f j (a j) else a j)
unfolding for_each
for_each_lem zero i f a j = ground arith
for_each_lem (suc n) i f a j = elim (ℕ-cases j i) [
  | inl e ↦ ground (arith, for_each_lem n (i + 1) f (update a i (f i (a i))) j)
  | inr ne ↦ ground (arith, for_each_lem n (i + 1) f (update a i (f i (a i))) j)
]

pub for_each-eq {ℓ} :
    {A : Type ℓ} (n : ℕ) (f : ℕ → A → A) (a : ℕ → A)
    → for_each n 0 f a ≡ (λ j. if ltb j n then f j (a j) else a j)
for_each-eq n f a = fun_ext (λ j. for_each_lem n 0 f a j ∙ ground arith)
