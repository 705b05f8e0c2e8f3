-- ===== src/Editor.antt =====
-- The text editor of work_with_file/text_editor.c: the keys of its editing loop, the file it writes, and
-- the menu around it. The screen is the library's: curses is a parameter. `none` is undefined behaviour.
pub mod Saved
pub mod Moves
use study_eltex.Prelude.{
  ℕ, zero, suc, ◌+◌, ◌-◌, ◌<◌, Bool, true, false, ◌&&◌, ◌||◌, Option, none, some, List, [], ◌∷◌,
  ◌++◌, Bytes, length, ltb, str_eq, ◌==◌, if◌then◌else◌,
}
use study_eltex.Prelude.Int.{ℤ, pos, negsuc, ◌+ℤ◌, ◌-ℤ◌, ltb_ℤ}

-- NAME_SIZE, MAX_STRING_SIZE, and the rows and columns that `'@'` writes.
abbrev pub name_size : ℕ
name_size = 20

abbrev pub max_string_size : ℕ
max_string_size = 72

abbrev pub saved_rows : ℕ
saved_rows = 23

abbrev pub saved_columns : ℕ
saved_columns = 75

abbrev pub newline : ℕ
newline = 10

-- The keys of the switch; '\n' and the rest insert.
pub data Key : Type 0 where
  tilde : Key
  left : Key
  right : Key
  up : Key
  down : Key
  backspace : Key
  at_sign : Key
  enter : Key
  default : (t : ℕ) → Key

-- What curses is asked for: its screen, the text of a cell (with A_CHARTEXT), what printw, insch and delch
-- at a position leave, and LINES and COLS. `move` out of the window leaves the position as it was.
pub record Curses (Screen : Type 0) : Type 0 where
  pub lines : ℕ
  pub columns : ℕ
  pub blank : Screen
  pub printw : Screen → Bytes → Screen
  pub cell : Screen → ℕ → ℕ → ℕ
  pub insch : Screen → ℕ × ℕ → ℕ → Screen
  pub delch : Screen → ℕ × ℕ → Screen

-- `row`, `cols`, where the window's own position is, and the screen.
pub record Page (Screen : Type 0) : Type 0 where
  pub row : ℕ
  pub cols : ℤ
  pub spot : ℕ × ℕ
  pub screen : Screen

-- How the editing loop ends.
pub data Closed : Type 0 where
  discarded : Closed
  saved : (file : Bytes) → Closed

pub data Outcome (Screen : Type 0) : Type 0 where
  edit_on : Page Screen → Outcome Screen
  closed : Closed → Outcome Screen

-- `fgets(arr, MAX_STRING_SIZE, file)` to the end of the file, where `arr` is read so far and `room` bytes
-- are left for this call.
unfoldable pub fgets_all : (room : ℕ) (arr file : Bytes) → List Bytes
fgets_all room [] [] = []
fgets_all room (a ∷ arr) [] = (a ∷ arr) ∷ []
fgets_all room arr (c ∷ file) =
    let full = fgets_all (max_string_size - 1) [] file in
    let more = fgets_all (room - 1) (arr ++ c ∷ []) file in
    if c == newline || room == 1 then (arr ++ c ∷ []) ∷ full else more

-- The files by name.
abbrev pub Files : Type 0
Files = Bytes → Option Bytes

-- A choice of the menu: '1' with the path and the keys typed then, '2', or another character.
pub data Choice : Type 0 where
  edit_file : (path : Bytes) (keys : List Key) → Choice
  exit : Choice
  not_a_command : Choice

module _ {Screen : Type 0} (c : Curses Screen) where
  -- move(row, cols)
  unfoldable pub move : ℕ → ℤ → ℕ × ℕ → ℕ × ℕ
  move row (negsuc n) spot = spot
  move row (pos cols) spot = if ltb row c.lines && ltb cols c.columns then (row, cols) else spot

  -- `for (int i = 0; i < 75; i++)`
  unfoldable pub put_row : Screen → (l i rest : ℕ) → Bytes
  put_row w l i zero = newline ∷ []
  put_row w l i (suc rest) = c.cell w l i ∷ put_row w l (suc i) rest

  -- `for (int l = 0; l < 23; l++)`
  unfoldable pub put_rows : Screen → (l rest : ℕ) → Bytes
  unfolding put_row
  put_rows w l zero = []
  put_rows w l (suc rest) = put_row w l 0 saved_columns ++ put_rows w (suc l) rest

  -- The file that '@' writes.
  unfoldable pub save : Screen → Bytes
  unfolding put_rows
  save w = put_rows w 0 saved_rows

  -- The switch on a key, behind `move(row, cols)`.
  pub press : Key → Page Screen → Outcome Screen
  unfolding move save
  press tilde p = closed discarded
  press left p = edit_on (if ltb_ℤ (pos 0) p.cols then record p { cols = p.cols -ℤ pos 1 } else p)
  press right p =
      edit_on
        (if ltb_ℤ p.cols (pos c.columns -ℤ pos 1) then record p { cols = p.cols +ℤ pos 1 } else p)
  press up p = edit_on (if ltb 0 p.row then record p { row = p.row - 1 } else p)
  press down p = edit_on (if ltb (p.row + 1) c.lines then record p { row = p.row + 1 } else p)
  press backspace p =
      let cols = p.cols -ℤ pos 1 in
      let spot = move p.row cols p.spot in
      edit_on (record p { cols = cols; spot = spot; screen = c.delch p.screen spot })
  press at_sign p = closed (saved (save p.screen))
  press enter p =
      let spot = move (p.row + 1) (pos 0) p.spot in
      edit_on (record {
        row = p.row + 1;
        cols = pos 0;
        spot = spot;
        screen = c.insch p.screen spot newline;
      })
  press (default t) p =
      let spot = move p.row p.cols p.spot in
      edit_on (record p { cols = p.cols +ℤ pos 1; spot = spot; screen = c.insch p.screen spot t })

  -- `while (1)` over the keys; `none`: the loop waits for another.
  pub edit : Page Screen → List Key → Option Closed
  unfolding press move
  edit p [] = none
  edit p (k ∷ keys) = elim (press k (record p { spot = move p.row p.cols p.spot })) [
    | closed r ↦ some r
    | edit_on p' ↦ edit p' keys
  ]

  -- Every string that fgets reads is printed.
  unfoldable pub print_all : Screen → List Bytes → Screen
  print_all w [] = w
  print_all w (arr ∷ rest) = print_all (c.printw w arr) rest

  -- The page after a file is read, with the position behind the text.
  pub open_page : (behind : ℕ × ℕ) → (file : Bytes) → Page Screen
  unfolding fgets_all print_all
  open_page behind file = record {
    row = 0;
    cols = pos 0;
    spot = behind;
    screen = print_all c.blank (fgets_all (max_string_size - 1) [] file);
  }

  -- `remove(string)`, and the file of that name written anew.
  unfoldable pub rewrite_file : Files → (path file : Bytes) → Files
  rewrite_file fs path file name = if str_eq path name then some file else fs name

  unfoldable pub store : Files → (path : Bytes) → Option Closed → Files
  unfolding rewrite_file
  store fs path none = fs
  store fs path (some discarded) = fs
  store fs path (some (saved file)) = rewrite_file fs path file

  -- The editor on a path: no such file, or its keys.
  pub visit : (behind : ℕ × ℕ) → Files → (path : Bytes) → List Key → Files
  unfolding edit open_page store
  visit behind fs path keys = elim (fs path) [
    | none ↦ fs
    | some file ↦ store fs path (edit (open_page behind file) keys)
  ]

  -- The menu. `string` holds a name shorter than NAME_SIZE.
  pub menu : (behind : ℕ × ℕ) → Files → List Choice → Option Files
  unfolding visit
  menu behind fs [] = some fs
  menu behind fs (exit ∷ rest) = some fs
  menu behind fs (not_a_command ∷ rest) = menu behind fs rest
  menu behind fs (edit_file path keys ∷ rest) =
      let later = menu behind (visit behind fs path keys) rest in
      if ltb (length path) name_size then later else none
