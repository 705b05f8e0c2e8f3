-- ===== src/Examples/Screens.antt =====
-- The editor on a small screen and the file manager in one directory.
use study_eltex.Prelude.{
  ℕ, Bool, true, none, some, List, [], ◌∷◌, ◌++◌, Bytes, codes, str_eq, if◌then◌else◌,
}
use study_eltex.Prelude.Int.{pos}
use study_eltex.Editor.{Curses, Page, Files, Choice, edit_file, exit, at_sign, default}

-- A screen that is the text printed to it.
abbrev paper : Curses Bytes
paper = record {
  lines = 24;
  columns = 80;
  blank = [];
  printw = λ w s. w ++ s;
  cell = λ w l i. 32;
  insch = λ w spot t. w ++ t ∷ [];
  delch = λ w spot. w;
}

abbrev disk : Files
disk path = if str_eq path (codes "f") then some (codes "text") else none

abbrev edits : List Choice
edits = edit_file (codes "f") (default 33 ∷ at_sign ∷ []) ∷ exit ∷ []

abbrev top : Page Bytes
top = record { row = 0; cols = pos 3; spot = (0, 3); screen = codes "text" }

-- Every path is a directory of three names.
abbrev is_dir : Bytes → Bool
is_dir path = true

abbrev scandir : Bytes → List Bytes
scandir path = codes "." ∷ codes ".." ∷ codes "src" ∷ []

abbrev empty : ℕ → Bytes
empty i = []
