-- ===== src/Fs/Dir/Names.antt =====
-- Names in directory entries of fs/fs.c: what `dirlookup` compares and `dirlink` writes.
use riscv_os_lab.Prelude.{
  ℕ, zero, suc, ◌+◌, ◌^◌, ◌≤◌, ◌<◌, ◌≡◌, refl, ◌∙◌, inl, inr, true, false, List, [], ◌∷◌, arith,
  ◌==◌, if◌then◌else◌, ==_refl, ==-false, Bool-cases, update,
}
use riscv_os_lab.Prelude.Words.{
  Bytes, load16, store16, memset, load16-store16_self, store16_off, memset_in,
}
use riscv_os_lab.Fs.State.{dirsiz}
use riscv_os_lab.Fs.Dir.{name_of, match_from, names_match, copy_name, new_dirent}

-- the string in the `n` bytes from byte `i` on: up to the first NUL, or all of them
abbrev pub c_string : ℕ → ℕ → Bytes → List ℕ
c_string zero i f = []
c_string (suc n) i f = if f i == 0 then [] else f i ∷ c_string n (i + 1) f

-- the name in DIRSIZ bytes
abbrev pub text : Bytes → List ℕ
text = c_string dirsiz 0

match_from_sound :
    (n i : ℕ) (a b : Bytes) → match_from n i a b ≡ true → c_string n i a ≡ c_string n i b
unfolding match_from
match_from_sound zero i a b m = refl
match_from_sound (suc n) i a b m = ground (arith, match_from_sound n (i + 1) a b)

match_from_complete :
    (n i : ℕ) (a b : Bytes) → c_string n i a ≡ c_string n i b → match_from n i a b ≡ true
unfolding match_from
match_from_complete zero i a b e = refl
match_from_complete (suc n) i a b e = ground (arith, match_from_complete n (i + 1) a b)

-- The comparison of `dirlookup` passes exactly if both names are the same string, where a name of
-- DIRSIZ bytes has no NUL and bytes after the first NUL do not count.
pub names_match_lem :
    (stored name : Bytes)
    → (names_match stored name ≡ true → text stored ≡ text name)
      × (text stored ≡ text name → names_match stored name ≡ true)
names_match_lem stored name =
    (match_from_sound dirsiz 0 stored name, match_from_complete dirsiz 0 stored name)

c_string-ext :
    (n i : ℕ) (a b : Bytes)
    → ((j : ℕ) → i ≤ j → j < i + n → a j ≡ b j)
    → c_string n i a ≡ c_string n i b
c_string-ext zero i a b h = refl
c_string-ext (suc n) i a b h =
    let e : a i ≡ b i = h i (omega arith) (omega arith) in
    let r : c_string n (i + 1) a ≡ c_string n (i + 1) b =
      c_string-ext n (i + 1) a b (λ j lo hi. h j (omega arith) (omega arith)) in
    rw (e, r) refl

copy_name-before : (n i j : ℕ) (name de : Bytes) → j < 2 + i → copy_name n i name de j ≡ de j
unfolding copy_name
copy_name-before zero i j name de lt = refl
copy_name-before (suc n) i j name de lt = elim (Bool-cases (name i == 0)) [
  | inl y ↦ rw y refl
  | inr z ↦
      let off : (j == 2 + i) ≡ false = ==-false j (2 + i) (λ e. omega (arith, e)) in
      rw (z, copy_name-before n (i + 1) j name (update de (2 + i) (name i)) (omega arith), off) refl
]

copy_name-text :
    (n i : ℕ) (name de : Bytes)
    → ((j : ℕ) → i ≤ j → j < i + n → de (2 + j) ≡ 0)
    → c_string n i (name_of (copy_name n i name de)) ≡ c_string n i name
unfolding copy_name
copy_name-text zero i name de blank = refl
copy_name-text (suc n) i name de blank = elim (Bool-cases (name i == 0)) [
  | inl y ↦ rw (y, blank i (omega arith) (omega arith)) refl
  | inr z ↦
      let de' = update de (2 + i) (name i) in
      let first : copy_name n (i + 1) name de' (2 + i) ≡ name i =
        copy_name-before n (i + 1) (2 + i) name de' (omega arith) ∙ rw (==_refl (2 + i)) refl in
      let rest = copy_name-text n (i + 1) name de' (λ j lo hi.
        let off : (2 + j == 2 + i) ≡ false = ==-false (2 + j) (2 + i) (λ e. omega (arith, e)) in
        rw off (blank j (omega arith) (omega arith))) in
      rw (z, first, z, rest) refl
]

-- The entry that `dirlink` writes has the inode number and the name that it was given, cut to DIRSIZ
-- bytes, whatever the local entry held before; the comparison of `dirlookup` finds it by that name.
new_dirent_lem :
    (name de : Bytes) (inum : ℕ)
    → inum < 2 ^ 16
    → (load16 (new_dirent name inum de) 0 ≡ inum)
      × (text (name_of (new_dirent name inum de)) ≡ text name)
      × (names_match (name_of (new_dirent name inum de)) name ≡ true)
new_dirent_lem name de inum lt =
    (load16-store16_self body 0 inum lt, same, match_from_complete dirsiz 0 _ name same)
  where
    body : Bytes
    body = copy_name dirsiz 0 name (memset de 2 0 dirsiz)

    same : text (name_of (new_dirent name inum de)) ≡ text name
    same =
        c_string-ext dirsiz 0 (name_of (store16 body 0 inum)) (name_of body)
          (λ j lo hi. store16_off body 0 inum (2 + j) (omega arith))
        ∙ copy_name-text dirsiz 0 name (memset de 2 0 dirsiz)
            (λ j lo hi. memset_in de 2 0 dirsiz (2 + j) (omega arith) (omega arith))
