-- ===== src/Prelude/Words.antt =====
-- Bytes in memory, and the words that a load and a store move, little-endian.
use native.Mathlib.Nat.{add-zero, zero-div}
use riscv_os_lab.Prelude.{
  ℕ, ◌+◌, ◌-◌, ◌*◌, ◌/◌, ◌%◌, ◌^◌, ◌≤◌, ◌<◌, ◌≡◌, refl, ◌∙◌, ◌⊎◌, inl, inr, ◌&&◌, true, arith, leb,
  ltb, if◌then◌else◌,
}

-- Memory: the byte at each address.
abbrev pub Bytes : Type 0
Bytes = ℕ → ℕ

-- *(uint64 *)a
unfoldable pub load64 : Bytes → ℕ → ℕ
load64 m a =
    m a
    + 2 ^ 8 * m (a + 1)
    + 2 ^ 16 * m (a + 2)
    + 2 ^ 24 * m (a + 3)
    + 2 ^ 32 * m (a + 4)
    + 2 ^ 40 * m (a + 5)
    + 2 ^ 48 * m (a + 6)
    + 2 ^ 56 * m (a + 7)

-- the byte of `v` at offset `d`
unfoldable pub byte_of : ℕ → ℕ → ℕ
byte_of v d = v / 2 ^ (8 * d) % 256

-- `n` bytes of `v` stored at `a`, the lowest first.
unfoldable pub store : ℕ → Bytes → ℕ → ℕ → Bytes
unfolding byte_of
store n m a v x = if leb a x && ltb x (a + n) then byte_of v (x - a) else m x

-- *(uint64 *)a = v
unfoldable pub store64 : Bytes → ℕ → ℕ → Bytes
store64 m a v = store 8 m a v

-- *(int *)a = v, of the bit pattern of `v`
unfoldable pub store32 : Bytes → ℕ → ℕ → Bytes
store32 m a v = store 4 m a v

module _ (m : Bytes) (a v : ℕ) where
  pub store_at : (n k x : ℕ) → x ≡ a + k → k < n → store n m a v x ≡ byte_of v k
  unfolding store
  store_at n k x e h =
      let off : x - a ≡ k = omega arith in
      let low : leb a x ≡ true = ground arith in
      let high : ltb x (a + n) ≡ true = ground arith in rw (low, high, off)

  pub store_off : (n x : ℕ) → (x < a) ⊎ (a + n ≤ x) → store n m a v x ≡ m x
  unfolding store
  store_off n x h = ground arith

  pub load64-store64_self : v < 2 ^ 64 → load64 (store64 m a v) a ≡ v
  unfolding load64 store64 byte_of
  load64-store64_self h = omega (
    arith,
    store_at 8 0 a (omega arith) (omega arith),
    store_at 8 1 (a + 1) refl (omega arith),
    store_at 8 2 (a + 2) refl (omega arith),
    store_at 8 3 (a + 3) refl (omega arith),
    store_at 8 4 (a + 4) refl (omega arith),
    store_at 8 5 (a + 5) refl (omega arith),
    store_at 8 6 (a + 6) refl (omega arith),
    store_at 8 7 (a + 7) refl (omega arith),
  )

  pub load64-store64_apart :
      (b : ℕ) → (b + 8 ≤ a) ⊎ (a + 8 ≤ b) → load64 (store64 m a v) b ≡ load64 m b
  unfolding load64 store64
  load64-store64_apart b h =
      let off : (k : ℕ) → k < 8 → store 8 m a v (b + k) ≡ m (b + k) = λ k s.
        store_off 8 (b + k) (elim h [ inl p ↦ inl (omega arith) | inr q ↦ inr (omega arith) ]) in
      let first : store 8 m a v b ≡ m b =
        store_off 8 b (elim h [ inl p ↦ inl (omega arith) | inr q ↦ inr (omega arith) ]) in
      omega (
        arith,
        first,
        off 1 (omega arith),
        off 2 (omega arith),
        off 3 (omega arith),
        off 4 (omega arith),
        off 5 (omega arith),
        off 6 (omega arith),
        off 7 (omega arith),
      )

  pub store64_off : (x : ℕ) → (x < a) ⊎ (a + 8 ≤ x) → store64 m a v x ≡ m x
  unfolding store64
  store64_off x h = store_off 8 x h

-- A load reads eight bytes.
pub load64-frame :
    (m g : Bytes) (a : ℕ) → ((d : ℕ) → d < 8 → g (a + d) ≡ m (a + d)) → load64 g a ≡ load64 m a
unfolding load64
load64-frame m g a same =
    let first : g a ≡ m a = rw (← add-zero a) (same 0 (omega arith)) in
    omega (
      arith,
      first,
      same 1 (omega arith),
      same 2 (omega arith),
      same 3 (omega arith),
      same 4 (omega arith),
      same 5 (omega arith),
      same 6 (omega arith),
      same 7 (omega arith),
    )

pub store64-zero : (m : Bytes) (a d : ℕ) → d < 8 → store64 m a 0 (a + d) ≡ 0
unfolding store64
store64-zero m a d h = store_at m a 0 8 d (a + d) refl h ∙ no_bits
  where
    no_bits : byte_of 0 d ≡ 0
    no_bits = unfold byte_of in omega (arith, zero-div (2 ^ (8 * d)))

-- Every address holds a byte.
abbrev pub IsBytes : Bytes → Type 0
IsBytes m = (a : ℕ) → m a < 256

pub store64-IsBytes : (m : Bytes) (a v : ℕ) → IsBytes m → IsBytes (store64 m a v)
unfolding store64 store
store64-IsBytes m a v h x = ground (arith, h x)

pub load64-lt : (m : Bytes) (a : ℕ) → IsBytes m → load64 m a < 2 ^ 64
unfolding load64
load64-lt m a h =
    omega (arith, h a, h (a + 1), h (a + 2), h (a + 3), h (a + 4), h (a + 5), h (a + 6), h (a + 7))

-- *(uint *)a and *(ushort *)a
unfoldable pub load32 : Bytes → ℕ → ℕ
load32 m a = m a + 2 ^ 8 * m (a + 1) + 2 ^ 16 * m (a + 2) + 2 ^ 24 * m (a + 3)

unfoldable pub load16 : Bytes → ℕ → ℕ
load16 m a = m a + 2 ^ 8 * m (a + 1)

-- *(short *)a = v
unfoldable pub store16 : Bytes → ℕ → ℕ → Bytes
store16 m a v = store 2 m a v

-- memmove(dst + d, src + s, n) between two buffers that do not overlap
unfoldable pub memmove : Bytes → ℕ → Bytes → ℕ → ℕ → Bytes
memmove dst d src s n x = if leb d x && ltb x (d + n) then src (s + (x - d)) else dst x

-- memset(dst + d, c, n)
unfoldable pub memset : Bytes → ℕ → ℕ → ℕ → Bytes
memset dst d c n x = if leb d x && ltb x (d + n) then c else dst x

pub load16-store16_self : (m : Bytes) (a v : ℕ) → v < 2 ^ 16 → load16 (store16 m a v) a ≡ v
unfolding load16 store16 byte_of
load16-store16_self m a v h = omega (
  arith,
  store_at m a v 2 0 a (omega arith) (omega arith),
  store_at m a v 2 1 (a + 1) refl (omega arith),
)

pub store16_off : (m : Bytes) (a v x : ℕ) → a + 2 ≤ x → store16 m a v x ≡ m x
unfolding store16
store16_off m a v x h = store_off m a v 2 x (inr h)

pub memset_in : (dst : Bytes) (d c n x : ℕ) → d ≤ x → x < d + n → memset dst d c n x ≡ c
unfolding memset
memset_in dst d c n x lo hi = ground arith
