-- ===== src/Fs/Path/Name.antt =====
-- The name that `skipelem` of fs/fs.c leaves in its buffer.
use riscv_os_lab.Prelude.{
  ℕ, zero, suc, ◌+◌, ◌-◌, ◌≤◌, ◌<◌, ◌≡◌, refl, sym, ap, ◌∙◌, subst, ◌≢◌, inl, inr, false, List, [],
  ◌∷◌, arith, leb, ◌==◌, length, ==_refl, ==-false, Bool-cases, update,
}
use riscv_os_lab.Prelude.Words.{Bytes}
use riscv_os_lab.Fs.State.{dirsiz}
use riscv_os_lab.Fs.Dir.Names.{c_string, text}
use riscv_os_lab.Fs.Path.{copy_bytes, copy_elem}

abbrev pub take : ℕ → List ℕ → List ℕ
take zero xs = []
take (suc n) [] = []
take (suc n) (x ∷ xs) = x ∷ take n xs

abbrev pub NoNul : List ℕ → Type 0
NoNul [] = Unit
NoNul (c ∷ xs) = (c ≢ 0) × NoNul xs

take-all : (n : ℕ) (xs : List ℕ) → length xs ≤ n → take n xs ≡ xs
take-all zero [] le = refl
take-all zero (x ∷ xs) le = absurd (omega arith)
take-all (suc n) [] le = refl
take-all (suc n) (x ∷ xs) le = ap (λ r. x ∷ r) (take-all n xs (omega arith))

copy_bytes-before :
    (n i j : ℕ) (elem : List ℕ) (name : Bytes) → j < i → copy_bytes n i elem name j ≡ name j
unfolding copy_bytes
copy_bytes-before zero i j elem name lt = refl
copy_bytes-before (suc n) i j [] name lt = refl
copy_bytes-before (suc n) i j (c ∷ elem) name lt =
    let off : (j == i) ≡ false = ==-false j i (λ e. omega (arith, e)) in
    copy_bytes-before n (i + 1) j elem (update name i c) (omega arith) ∙ rw off refl

long-text :
    (n i : ℕ) (elem : List ℕ) (name : Bytes)
    → NoNul elem
    → n ≤ length elem
    → c_string n i (copy_bytes n i elem name) ≡ take n elem
unfolding copy_bytes
long-text zero i elem name nn le = refl
long-text (suc n) i [] name nn le = absurd (omega arith)
long-text (suc n) i (c ∷ elem) name nn le =
    let first : copy_bytes n (i + 1) elem (update name i c) i ≡ c =
      copy_bytes-before n (i + 1) i elem (update name i c) (omega arith) ∙ rw (==_refl i) refl in
    rw (first, ==-false c 0 nn.0, long-text n (i + 1) elem (update name i c) nn.1 (omega arith))
      refl

-- the buffer of a short name, `m` bytes longer than the name and its NUL
short-text :
    (m i : ℕ) (elem : List ℕ) (name : Bytes)
    → NoNul elem
    → c_string
        (length elem + suc m)
        i
        (update (copy_bytes (length elem) i elem name) (i + length elem) 0)
      ≡ elem
unfolding copy_bytes
short-text m i [] name nn =
    let z : 0 + suc m ≡ suc m = omega arith in
    let z' : i + 0 ≡ i = omega arith in rw (z, z', ==_refl i) refl
short-text m i (c ∷ elem) name nn =
    let shift : suc (length elem) + suc m ≡ suc (length elem + suc m) = omega arith in
    let place : i + suc (length elem) ≡ i + 1 + length elem = omega arith in
    let off : (i == i + 1 + length elem) ≡ false =
      ==-false i (i + 1 + length elem) (λ e. omega (arith, e)) in
    let first : copy_bytes (length elem) (i + 1) elem (update name i c) i ≡ c =
      copy_bytes-before (length elem) (i + 1) i elem (update name i c) (omega arith)
      ∙ rw (==_refl i) refl in
    rw
      (
        shift,
        place,
        off,
        first,
        ==-false c 0 nn.0,
        short-text m (i + 1) elem (update name i c) nn.1,
      )
      refl

-- The name buffer holds the element, cut to DIRSIZ bytes, if no byte of the element is NUL.
pub copy_elem_lem :
    (elem : List ℕ) (name : Bytes) → NoNul elem → text (copy_elem elem name) ≡ take dirsiz elem
unfolding copy_elem
copy_elem_lem elem name nn = elim (Bool-cases (leb dirsiz (length elem))) [
  | inl long ↦
      let le : dirsiz ≤ length elem = ground arith in rw long (long-text dirsiz 0 elem name nn le)
  | inr short ↦
      let lt : length elem < dirsiz = ground arith in
      let e : length elem + suc (dirsiz - 1 - length elem) ≡ dirsiz = omega arith in
      let z : 0 + length elem ≡ length elem = omega arith in
      rw short (
        subst
          (λ n. c_string n 0 (update (copy_bytes (length elem) 0 elem name) (length elem) 0) ≡ elem)
          e (rw z at (short-text (dirsiz - 1 - length elem) 0 elem name nn))
        ∙ sym (take-all dirsiz elem (omega arith)))
]
