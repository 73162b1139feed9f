-- ===== src/Fs/Bitmap/Count.antt =====
-- How many of the first numbers pass a test, for the free blocks of a disk and the blocks that a file
-- does not have.
use riscv_os_lab.Prelude.{
  ℕ, zero, suc, ◌+◌, ◌<◌, ◌≡◌, refl, subst, ◌≢◌, inl, inr, Bool, true, false, arith, if◌then◌else◌,
  Option-cases, ℕ-cases, find_first, find_first-some, find_first-none,
}

unfoldable pub count : ℕ → (ℕ → Bool) → ℕ
count zero f = 0
count (suc n) f = (if f n then 1 else 0) + count n f

pub count-same : (n : ℕ) (f g : ℕ → Bool) → ((y : ℕ) → y < n → g y ≡ f y) → count n g ≡ count n f
unfolding count
count-same zero f g same = refl
count-same (suc n) f g same =
    rw (same n (omega arith), count-same n f g (λ y lt. same y (omega arith))) refl

-- One that passed does not any more.
pub count-less :
    (n x : ℕ) (f g : ℕ → Bool)
    → x < n
    → f x ≡ true
    → g x ≡ false
    → ((y : ℕ) → y < n → y ≢ x → g y ≡ f y)
    → count n g + 1 ≡ count n f
unfolding count
count-less zero x f g lt was is same = absurd (omega arith)
count-less (suc n) x f g lt was is same = elim (ℕ-cases n x) [
  | inl at ↦
      let rest = count-same n f g (λ y l. same y (omega arith) (λ e. omega arith)) in
      rw (at, was, is)
        (let rest' : count x g ≡ count x f = subst (λ (m : ℕ). count m g ≡ count m f) at rest in
          omega arith)
  | inr off ↦
      let rest = count-less n x f g (omega arith) was is (λ y l ne. same y (omega arith) ne) in
      rw (same n (omega arith) off) (omega arith)
]

count-none : (n : ℕ) (f : ℕ → Bool) → ((y : ℕ) → y < n → f y ≡ false) → count n f ≡ 0
unfolding count
count-none zero f h = refl
count-none (suc n) f h =
    let rest = count-none n f (λ y lt. h y (omega arith)) in rw (h n (omega arith)) (omega arith)

pub count-first :
    (n : ℕ) (f : ℕ → Bool)
    → 0 < count n f
    → (x : ℕ) × (x < n) × (f x ≡ true) × ((y : ℕ) → y < x → f y ≡ false)
count-first n f some_left = elim (Option-cases (find_first f n 0)) [
  | inl e ↦
      let zero_left =
        count-none n f (λ y lt. find_first-none f n 0 e y (omega arith) (omega arith)) in
      absurd (omega arith)
  | inr (x, e) ↦
      let (lo, hi, is, before) = find_first-some f n 0 e in
      (x, omega arith, is, λ y lt. before y (omega arith) lt)
]

pub count-some : (n x : ℕ) (f : ℕ → Bool) → x < n → f x ≡ true → 0 < count n f
unfolding count
count-some zero x f lt is = absurd (omega arith)
count-some (suc n) x f lt is = elim (ℕ-cases n x) [
  | inl at ↦ rw (at, is) (omega arith)
  | inr off ↦ let rest = count-some n x f (omega arith) is in omega arith
]
