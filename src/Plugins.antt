-- ===== src/Plugins.antt =====
-- The calculator of lib/calc.c, which loads its functions from the libraries named on the command line.
-- dlopen and dlsym are a parameter. `none` is undefined behaviour.
pub mod Names
pub mod Sessions
use study_eltex.Prelude.{
  ℕ, zero, suc, ◌-◌, Bool, true, false, ◌&&◌, Option, none, some, List, [], ◌∷◌, Bytes, length, set,
  get_elem?, cstr, ltb, ◌==◌, if◌then◌else◌,
}
use study_eltex.Prelude.Int.{ℤ}
use study_eltex.Contacts.{◌>>=◌}

-- NAME_SIZE, the size of a row of `words`.
abbrev pub name_size : ℕ
name_size = 20

-- `for (int j = 3; j < len - 3; j++) words[i][j - 3] = argv[i][j]` with `rounds` rounds left.
pub copy_name : (rounds j : ℕ) → (arg word : Bytes) → Option Bytes
copy_name zero j arg word = some word
copy_name (suc rounds) j arg word = do
  c ← get_elem? arg j
  let rest = copy_name rounds (suc j) arg (set word (j - 3) c)
  if ltb (j - 3) (length word) then rest else none

-- The row of an argument, over what the row held before.
pub cut_name : (junk arg : Bytes) → Option Bytes
unfolding copy_name
cut_name junk arg = copy_name (length arg - 3 - 3) 3 arg junk

-- `for (int i = 1; i < argc; i++)` from `i` on, where `junk` says what the rows held.
pub cut_names : (i : ℕ) → (junk : ℕ → Bytes) → List Bytes → Option (List Bytes)
unfolding cut_name
cut_names i junk [] = some []
cut_names i junk (arg ∷ args) = do
  word ← cut_name (junk i) arg
  words ← cut_names (suc i) junk args
  some (word ∷ words)

-- What the loop reads: `atoi(num)`, where a negative number is as 0, and the two numbers.
pub record Request : Type 0 where
  pub num : ℕ
  pub x : ℤ
  pub y : ℤ

-- A line of output; a library or a function that is not found ends the program.
pub data Answer : Type 0 where
  result : (name : Bytes) → ℤ → Answer
  unknown : Answer
  load_failed : Answer

-- What a library gives under a name.
abbrev pub Loader : Type 0
Loader = (file name : Bytes) → Option (ℤ → ℤ → ℤ)

-- The string in a row. `none`: there is no NUL, and printf and dlsym read past the row's end.
unfoldable pub string_at : (word : Bytes) → Option Bytes
string_at [] = none
string_at (c ∷ word) =
    let rest = string_at word in if c == 0 then some [] else (rest >>= λ s. some (c ∷ s))

-- The menu, which prints every row.
unfoldable pub menu : (words : List Bytes) → Option (List Bytes)
unfolding string_at
menu [] = some []
menu (word ∷ words) = do name ← string_at word; names ← menu words; some (name ∷ names)

-- The function chosen by a number from 1 on.
pub call : Loader → (arg name : Bytes) → Request → List Answer → List Answer
call load arg name r rest = elim (load arg name) [
  | none ↦ load_failed ∷ []
  | some f ↦ result name (f r.x r.y) ∷ rest
]

-- `while (1)`, where `args` and `words` stand without their entry 0.
pub serve : Loader → (args words : List Bytes) → List Request → Option (List Answer)
unfolding call menu string_at
serve load args words [] = do _ ← menu words; some []
serve load args words (r ∷ requests) = do
  let argc = suc (length args)
  let later = serve load args words requests
  let chosen = do
    arg ← get_elem? args (r.num - 1)
    word ← get_elem? words (r.num - 1)
    name ← string_at word
    rest ← later
    some (call load arg name r rest)
  let refused = later >>= λ rest. some (unknown ∷ rest)
  _ ← menu words
  if r.num == argc then some [] else if ltb 0 r.num && ltb r.num argc then chosen else refused

-- `main`: with no argument it ends at once.
pub calc : Loader → (junk : ℕ → Bytes) → (args : List Bytes) → List Request → Option (List Answer)
unfolding cut_names serve
calc load junk [] requests = some []
calc load junk (arg ∷ args) requests =
    cut_names 1 junk (arg ∷ args) >>= λ words. serve load (arg ∷ args) words requests
