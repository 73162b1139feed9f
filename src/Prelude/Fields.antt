-- ===== src/Prelude/Fields.antt =====
-- Loads and stores of 2 and 4 bytes: what a load finds after a store at the same place or elsewhere.
use native.Mathlib.Nat.{add-zero}
use riscv_os_lab.Prelude.{ℕ, ◌+◌, ◌^◌, ◌≤◌, ◌<◌, ◌≡◌, refl, ◌⊎◌, inl, inr, arith}
use riscv_os_lab.Prelude.Words.{
  Bytes, byte_of, store, store16, store32, load16, load32, store_at, store_off,
}

-- the byte range [a, a + n) of `g` is that of `m`
abbrev pub SameRange : ℕ → ℕ → Bytes → Bytes → Type 0
SameRange a n m g = (d : ℕ) → d < n → g (a + d) ≡ m (a + d)

-- Stores elsewhere keep a range.
pub store-SameRange :
    (m : Bytes) (a n v b k : ℕ) → (b + k ≤ a) ⊎ (a + n ≤ b) → SameRange b k m (store n m a v)
store-SameRange m a n v b k h d lt =
    store_off m a v n (b + d) (elim h [ inl l ↦ inl (omega arith) | inr r ↦ inr (omega arith) ])

pub load16-frame : (m g : Bytes) (a : ℕ) → SameRange a 2 m g → load16 g a ≡ load16 m a
unfolding load16
load16-frame m g a same =
    let first : g a ≡ m a = rw (← add-zero a) (same 0 (omega arith)) in
    omega (arith, first, same 1 (omega arith))

pub load32-frame : (m g : Bytes) (a : ℕ) → SameRange a 4 m g → load32 g a ≡ load32 m a
unfolding load32
load32-frame m g a same =
    let first : g a ≡ m a = rw (← add-zero a) (same 0 (omega arith)) in
    omega (arith, first, same 1 (omega arith), same 2 (omega arith), same 3 (omega arith))

pub load32-store32_self : (m : Bytes) (a v : ℕ) → v < 2 ^ 32 → load32 (store32 m a v) a ≡ v
unfolding load32 store32 byte_of
load32-store32_self m a v h = omega (
  arith,
  store_at m a v 4 0 a (omega arith) (omega arith),
  store_at m a v 4 1 (a + 1) refl (omega arith),
  store_at m a v 4 2 (a + 2) refl (omega arith),
  store_at m a v 4 3 (a + 3) refl (omega arith),
)

pub store16-SameRange :
    (m : Bytes) (a v b k : ℕ) → (b + k ≤ a) ⊎ (a + 2 ≤ b) → SameRange b k m (store16 m a v)
unfolding store16
store16-SameRange m a v b k h = store-SameRange m a 2 v b k h

pub store32-SameRange :
    (m : Bytes) (a v b k : ℕ) → (b + k ≤ a) ⊎ (a + 4 ≤ b) → SameRange b k m (store32 m a v)
unfolding store32
store32-SameRange m a v b k h = store-SameRange m a 4 v b k h
