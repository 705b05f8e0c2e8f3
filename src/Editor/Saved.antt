-- ===== src/Editor/Saved.antt =====
-- What the editor writes to files.
use study_eltex.Prelude.{
  ℕ, ◌+◌, ◌*◌, ◌<◌, ◌≡◌, ◌⊎◌, inl, inr, refl, ap, ◌∙◌, Option, none, some, List, [], ◌∷◌, ◌++◌,
  append_assoc, Bytes, length, Bool-cases, get_elem?, ◌==◌, ◌||◌,
}
use study_eltex.Editor.{
  Curses, Closed, saved, discarded, Files, Choice, edit_file, exit, not_a_command, name_size,
  newline, fgets_all,
}

-- Strings one after another.
abbrev pub joined : List Bytes → Bytes
joined [] = []
joined (s ∷ rest) = s ++ joined rest

-- The strings that fgets reads, one after another, are what the buffer had and then the whole file: every
-- byte of a file is printed, once and in order.
pub joined-fgets_all :
    (room : ℕ) (arr file : Bytes) → joined (fgets_all room arr file) ≡ arr ++ file
unfolding fgets_all
joined-fgets_all room [] [] = refl
joined-fgets_all room (a ∷ arr) [] = refl
joined-fgets_all room [] (c ∷ file) = elim (Bool-cases (c == newline || room == 1)) [
  | inl e ↦ rw e (ap (◌∷◌ c) (joined-fgets_all 71 [] file))
  | inr e ↦ rw e (joined-fgets_all _ (c ∷ []) file)
]
joined-fgets_all room (a ∷ arr) (c ∷ file) = elim (Bool-cases (c == newline || room == 1)) [
  | inl e ↦ rw e (rw (joined-fgets_all 71 [] file) (append_assoc (a ∷ arr) (c ∷ []) file))
  | inr e ↦
      rw e (joined-fgets_all _ (a ∷ arr ++ c ∷ []) file ∙ append_assoc (a ∷ arr) (c ∷ []) file)
]

module _ {Screen : Type 0} (c : Curses Screen) where
  -- 23 rows, each of the 75 characters that the screen has in its first columns and a newline, and no more.
  pub record IsPicture (w : Screen) (file : Bytes) : Type 0 where
    pub size : length file ≡ 1748
    pub cells : (l i : ℕ) → l < 23 → i < 75 → get_elem? file (l * 76 + i) ≡ some (c.cell w l i)
    pub newlines : (l : ℕ) → l < 23 → get_elem? file (l * 76 + 75) ≡ some newline

  -- A file as it was, or the picture of a screen.
  abbrev pub IsKept : Files → Files → Type 0
  IsKept fs fs' =
      (name : Bytes)
      → (fs' name ≡ fs name)
        ⊎ ((file : Bytes) × (fs' name ≡ some file) × ((w : Screen) × IsPicture w file))

  -- What the loop ends with: the picture of a screen, where it saves a file.
  abbrev IsSquare : Option Closed → Type 0
  IsSquare none = Unit
  IsSquare (some discarded) = Unit
  IsSquare (some (saved file)) = (w : Screen) × IsPicture w file

  -- Every path that is typed fits `string`.
  abbrev pub AllFit : List Choice → Type 0
  AllFit [] = Unit
  AllFit (edit_file path keys ∷ rest) = (length path < name_size) × AllFit rest
  AllFit (exit ∷ rest) = AllFit rest
  AllFit (not_a_command ∷ rest) = AllFit rest
