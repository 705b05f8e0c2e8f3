-- ===== src/FileManager.antt =====
-- The two-panel file manager of file_manager/file_manage.c: what it keeps and what each key does. Subscripts
-- below 0, and names that overrun their row of `str` or the rows, are written out as `none`; names fit the
-- width of a window, which has 30 lines. opendir opens no path of PATH_MAX (4096) bytes or more, so `path`
-- never fills its MAX_PATH_LEN.
pub mod Browse
pub mod Rows
pub mod Keys
use study_eltex.Prelude.{
  ℕ, zero, suc, ◌+◌, ◌-◌, ◌*◌, ◌/◌, Bool, true, false, ◌&&◌, not, Option, none, some, List, [], ◌∷◌,
  ◌++◌, Bytes, codes, length, take, map, ltb, leb, ◌==◌, if◌then◌else◌,
}

-- A line of a window: a name, and whether it has the colour of a directory.
pub record Line : Type 0 where
  pub name : Bytes
  pub is_blue : Bool

-- `List`, and the window of the panel. `str` is read at any subscript; what is stored last stays.
pub record Panel : Type 0 where
  pub poz : ℕ
  pub local : ℕ
  pub str : ℕ → Bytes
  pub path : Bytes
  pub shown : List Line

-- The panel that has the cursor, and the row of the cursor.
pub record Cursor : Type 0 where
  pub row : ℕ
  pub panel : Panel

-- The loop's variables: `side` is 1 where `is_right`.
pub record View : Type 0 where
  pub cols : ℕ
  pub is_right : Bool
  pub here : Cursor
  pub other : Panel

pub data Key : Type 0 where
  btab : Key
  up : Key
  down : Key
  enter : Key
  tilde : Key
  unbound : Key

-- What a key leads to: the next `getch`, a program to run on a path, or the end.
pub data Outcome : Type 0 where
  go_on : View → Outcome
  launch : View → (file : Bytes) → (slen : ℕ) → Outcome
  leave : Outcome

-- NAME_SIZE and LEN, the bytes and the number of the rows of `str`.
abbrev pub name_size : ℕ
name_size = 70

abbrev pub len : ℕ
len = 30000

unfoldable pub all_short : List Bytes → Bool
all_short [] = true
all_short (name ∷ names) = ltb (length name) name_size && all_short names

-- A listing that the `strcpy`s to `str` have room for.
unfoldable pub listing_fits : List Bytes → Bool
unfolding all_short
listing_fits names = leb (length names) len && all_short names

-- The number of lines of a window.
abbrev pub page : ℕ
page = 30

-- The panels `list[0]` and `list[1]` change places; `row` is the cursor's.
unfoldable pub swap : ℕ → Cursor → Panel → ℕ × Bool → View
swap row c p (cols, right) = record {
  cols = cols;
  is_right = right;
  here = record { row = row; panel = p };
  other = c.panel;
}

-- What the code asks of the system: whether opendir succeeds, and the names that scandir sorts.
module _ (is_dir : Bytes → Bool) (scandir : Bytes → List Bytes) (columns : ℕ) where
  -- The colour loop's body: `strcat`, `opendir`, `wprintw`, and `path` cut back.
  unfoldable pub print_line : (path name : Bytes) → Line
  print_line path name = record { name = name; is_blue = is_dir (path ++ name) }

  -- `count` lines from subscript `i` on.
  unfoldable pub print_page : (path : Bytes) → (ℕ → Bytes) → (i count : ℕ) → List Line
  unfolding print_line
  print_page path str i zero = []
  print_page path str i (suc count) = print_line path (str i) ∷ print_page path str (suc i) count

  -- `strcpy(str[i], …)` for the names of a directory from `i` on.
  unfoldable pub store : (ℕ → Bytes) → ℕ → List Bytes → ℕ → Bytes
  store str i [] = str
  store str i (name ∷ names) = store (λ k. if k == i then name else str k) (suc i) names

  -- The names behind namelist[0], which is not shown.
  unfoldable pub tail_of : List Bytes → List Bytes
  tail_of [] = []
  tail_of (dot ∷ names) = names

  -- The start of `main`'s loop for one panel: its directory is listed and printed.
  unfoldable pub load : Panel → Panel
  unfolding print_line store tail_of
  load p =
      let names = scandir p.path in
      record p {
        poz = length names;
        local = 1;
        str = store p.str 1 (tail_of names);
        shown = map (print_line p.path) (take page (tail_of names));
      }

  -- KEY_BTAB
  pub key_btab : View → View
  unfolding swap
  key_btab v =
      let p = record v.other { local = 1 } in
      if v.is_right then swap 1 v.here p (1, false) else swap 1 v.here p (columns / 2 + 1, true)

  -- KEY_UP. `none`: the page above starts below subscript 0.
  unfoldable pub key_up : Cursor → Option Cursor
  unfolding print_page
  key_up c =
      let p = c.panel in
      let one_less = p.local - 1 in
      if ltb 1 c.row
      then some (record { row = c.row - 1; panel = record p { local = one_less } })
      else if ltb 1 p.local
      then if leb page p.local
        then some (record {
          row = page;
          panel = record p {
            local = one_less;
            shown = print_page p.path p.str (p.local - page) page;
          };
        })
        else none
      else some c

  -- How many lines the page from `i` on has.
  unfoldable pub lines_from : (poz i : ℕ) → ℕ
  lines_from poz i = if ltb (i + page) poz then page else poz - i

  -- KEY_DOWN, with `x < poz - 1` as `x + 1 < poz`.
  unfoldable pub key_down : Cursor → Cursor
  unfolding print_page lines_from
  key_down c =
      let p = c.panel in
      let next = p.local + 1 in
      let one_down : Cursor = record { row = c.row + 1; panel = record p { local = next } } in
      let next_page : Cursor = record {
        row = 1;
        panel = record p {
          local = next;
          shown = print_page p.path p.str next (lines_from p.poz next);
        };
      } in
      if ltb p.poz (page + 1)
      then if ltb (c.row + 1) p.poz then one_down else c
      else if ltb c.row page && ltb next p.poz
      then one_down
      else if ltb next p.poz
      then next_page
      else c

  -- The directory that Enter opens: its names, below a path with a closing slash.
  unfoldable pub descend : Panel → (path : Bytes) → List Bytes → Panel
  unfolding print_line store tail_of
  descend p path names =
      let inside = path ++ codes "/" in
      record {
        poz = length names;
        local = 1;
        str = store p.str 1 (tail_of names);
        path = inside;
        shown = map (print_line inside) (take page (tail_of names));
      }

  -- '\n'
  pub key_enter : View → Outcome
  unfolding descend
  key_enter v =
      let c = v.here in
      let p = c.panel in
      let path = p.path ++ p.str p.local in
      let names = scandir path in
      let appended = record v { here = record c { panel = record p { path = path } } } in
      let opened = record v { here = record { row = 1; panel = descend p path names } } in
      if is_dir path
      then go_on (if ltb 0 (length names) then opened else appended)
      else launch appended path (length p.path)

  -- Where Enter lists a directory, its names have to fit.
  unfoldable pub can_enter : Panel → Bool
  unfolding listing_fits
  can_enter p =
      let path = p.path ++ p.str p.local in
      if is_dir path then listing_fits (scandir path) else true

  -- One pass through the loop over keys.
  pub press : Key → View → Option Outcome
  unfolding key_btab key_up key_down key_enter can_enter
  press btab v = some (go_on (key_btab v))
  press up v = elim (key_up v.here) [ none ↦ none | some c ↦ some (go_on (record v { here = c })) ]
  press down v = some (go_on (record v { here = key_down v.here }))
  press enter v = if can_enter v.here.panel then some (key_enter v) else none
  press tilde v = some leave
  press unbound v = some (go_on v)

  -- What follows the end of the launched program: `path[glob]` is cut and both panels are loaded again.
  pub restart : View → (slen : ℕ) → View
  unfolding load
  restart v slen =
      let p = v.here.panel in
      record v {
        here = record { row = 1; panel = load (record p { path = take slen p.path }) };
        other = load v.other;
      }

  -- Both listings of `restart`.
  unfoldable pub can_restart : View → (slen : ℕ) → Bool
  unfolding listing_fits
  can_restart v slen =
      listing_fits (scandir (take slen v.here.panel.path)) && listing_fits (scandir v.other.path)

  -- The loops of `main` on the keys pressed; the view is what is on the screen when they run out.
  pub browse : View → List Key → Option (Option View)
  unfolding press restart can_restart
  browse v [] = some (some v)
  browse v (k ∷ ks) = elim (press k v) [
    | none ↦ none
    | some leave ↦ some none
    | some (go_on v') ↦ browse v' ks
    | some (launch v' file slen) ↦
        let rest = browse (restart v' slen) ks in if can_restart v' slen then rest else none
  ]

  -- `main` up to the first key, with whatever the arrays hold.
  pub begin : (str0 str1 : ℕ → Bytes) → View
  unfolding load
  begin str0 str1 =
      let entry = λ (str : ℕ → Bytes).
        load (record { poz = 1; local = 1; str = str; path = codes "./"; shown = [] }) in
      record {
        cols = 1;
        is_right = false;
        here = record { row = 1; panel = entry str0 };
        other = entry str1;
      }

  pub main : (str0 str1 : ℕ → Bytes) → List Key → Option (Option View)
  unfolding begin browse listing_fits
  main str0 str1 keys =
      if listing_fits (scandir (codes "./")) then browse (begin str0 str1) keys else none
