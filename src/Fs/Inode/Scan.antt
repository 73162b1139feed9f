-- ===== src/Fs/Inode/Scan.antt =====
-- What the walk of `iget` in fs/fs.c over the inode cache finds.
use riscv_os_lab.Prelude.{
  ℕ, zero, suc, ◌+◌, ◌≤◌, ◌<◌, ◌≡◌, refl, ◌≢◌, ◌⊎◌, inl, inr, true, false, Option, none, some,
  arith, ◌==◌, Bool-cases, ℕ-cases,
}
use riscv_os_lab.Fs.State.{Inode}
use riscv_os_lab.Fs.Inode.{is_inode, Lookup, hit, miss, first_empty, iget_scan}

-- What the scan of the `n` slots from `i` on has found, with `empty` from the slots before.
abbrev pub Found : (n i : ℕ) → Option ℕ → (dev inum : ℕ) → (ℕ → Inode) → Lookup → Type 0
Found n i empty dev inum t (hit j) = (j < i + n) × (is_inode dev inum (t j) ≡ true)
Found n i empty dev inum t (miss e) =
    ((j : ℕ) → i ≤ j → j < i + n → is_inode dev inum (t j) ≡ false)
    × ((j : ℕ) → e ≡ some j → (empty ≡ some j) ⊎ ((j < i + n) × ((t j).ref ≡ 0)))
    × (e ≡ none → (empty ≡ none) × ((j : ℕ) → i ≤ j → j < i + n → (t j).ref ≢ 0))

first_empty-cases :
    (empty : Option ℕ) (i j : ℕ) (ip : Inode)
    → first_empty empty i ip ≡ some j
    → (empty ≡ some j) ⊎ ((i ≡ j) × (ip.ref ≡ 0))
first_empty-cases (some e) i j ip h = inl h
first_empty-cases none i j ip h = ground arith

first_empty-left :
    (empty : Option ℕ) (i : ℕ) (ip : Inode) → ip.ref ≡ 0 → first_empty empty i ip ≢ none
first_empty-left (some e) i ip z = λ h. cc
first_empty-left none i ip z =
    let t : (ip.ref == 0) ≡ true = ground arith in λ h. let h' : some i ≡ none = rw t at h in cc

first_empty-none :
    (empty : Option ℕ) (i : ℕ) (ip : Inode) → first_empty empty i ip ≡ none → empty ≡ none
first_empty-none (some e) i ip h = cc
first_empty-none none i ip h = refl

pub iget_scan-Found :
    (n i : ℕ) (empty : Option ℕ) (dev inum : ℕ) (t : ℕ → Inode)
    → Found n i empty dev inum t (iget_scan n i empty dev inum t)
unfolding iget_scan
iget_scan-Found zero i empty dev inum t =
    ((λ j lo hi. absurd (omega arith)), (λ j e. inl e), (λ e. (e, λ j lo hi. absurd (omega arith))))
iget_scan-Found (suc n) i empty dev inum t = elim (Bool-cases (is_inode dev inum (t i))) [
  | inl y ↦ rw y (omega arith, y)
  | inr z ↦ rw z (
      later (iget_scan n (i + 1) (first_empty empty i (t i)) dev inum t) z
        (iget_scan-Found n (i + 1) (first_empty empty i (t i)) dev inum t))
]
  where
    later :
        (l : Lookup)
        → is_inode dev inum (t i) ≡ false
        → Found n (i + 1) (first_empty empty i (t i)) dev inum t l
        → Found (suc n) i empty dev inum t l
    later (hit j) z f = (omega (arith, f.0), f.1)
    later (miss e) z f = (
      (λ j lo hi. elim (ℕ-cases j i) [
        | inl same ↦ rw same z
        | inr off ↦ f.0 j (omega arith) (omega arith)
      ]),
      (λ j h. elim (f.1 j h) [
        | inl before ↦ elim (first_empty-cases empty i j (t i) before) [
          | inl q ↦ inl q
          | inr (at, zero_ref) ↦ inr (omega arith, rw⁻¹ at zero_ref)
        ]
        | inr (lt, zero_ref) ↦ inr (omega arith, zero_ref)
      ]),
      (λ none_left.
          let (kept_none, used) = f.2 none_left in
          (
            first_empty-none empty i (t i) kept_none,
            λ j lo hi. elim (ℕ-cases j i) [
              | inl same ↦ rw same (λ zero_ref. first_empty-left empty i (t i) zero_ref kept_none)
              | inr off ↦ used j (omega arith) (omega arith)
            ],
          )),
    )
