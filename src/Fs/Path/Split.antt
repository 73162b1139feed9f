-- ===== src/Fs/Path/Split.antt =====
-- What `skipelem` of fs/fs.c makes of a path.
use riscv_os_lab.Prelude.{ℕ, ◌<◌, ◌≡◌, refl, ◌≢◌, ◌⊎◌, List, [], ◌∷◌, ◌++◌, length}
use riscv_os_lab.Fs.Path.{slash, skip_slashes}

abbrev pub AllSlashes : List ℕ → Type 0
AllSlashes [] = Unit
AllSlashes (c ∷ xs) = (c ≡ slash) × AllSlashes xs

abbrev pub NoSlash : List ℕ → Type 0
NoSlash [] = Unit
NoSlash (c ∷ xs) = (c ≢ slash) × NoSlash xs

-- the path does not begin with a slash
abbrev pub Clean : List ℕ → Type 0
Clean [] = Unit
Clean (c ∷ xs) = c ≢ slash

-- The path is slashes, the element, slashes again unless the path ends there, and the rest.
pub record SplitAt (path elem rest : List ℕ) : Type 0 where
  pub before : List ℕ
  pub after : List ℕ
  pub whole : path ≡ before ++ (elem ++ (after ++ rest))
  pub before_slashes : AllSlashes before
  pub after_slashes : AllSlashes after
  pub elem_clean : NoSlash elem
  pub elem_nonempty : 0 < length elem
  pub rest_clean : Clean rest
  pub maximal : (0 < length after) ⊎ (rest ≡ [])

skip_slashes-moves : (r : List ℕ) → skip_slashes (slash ∷ r) ≡ skip_slashes r
unfolding skip_slashes
skip_slashes-moves r = refl
