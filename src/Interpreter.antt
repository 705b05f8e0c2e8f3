-- ===== src/Interpreter.antt =====
-- The command interpreter of pipes/command_interpreter/cmd.c: the path of its prompt and what a line makes
-- it do. `none` is an overflow of a buffer of SIZE bytes. The children's uninitialised `tmp_arr` is taken
-- as an empty string, and its names are held to SIZE also where it is not reached.
pub mod Slashes
pub mod Dirs
pub mod Sessions
use study_eltex.Prelude.{
  ℕ, zero, suc, Bool, true, false, Option, none, some, List, [], ◌∷◌, ◌++◌, Bytes, codes, length,
  take, map, ltb, str_eq, ◌==◌, if◌then◌else◌,
}
use study_eltex.Contacts.{◌>>=◌}
use study_eltex.Tokens.{stok_by_index}
use study_eltex.Tokens.Fields.{word}

-- SIZE
abbrev pub size : ℕ
size = 255

abbrev pub slash : ℕ
slash = 47

abbrev pub space : ℕ
space = 32

-- The loop of `find_last_slesh` from `i` on.
unfoldable pub slash_loop : (i poz : ℕ) → Bytes → ℕ
slash_loop i poz [] = poz
slash_loop i poz (c ∷ str) = slash_loop (suc i) (if c == slash then i else poz) str

pub find_last_slesh : Bytes → ℕ
unfolding slash_loop
find_last_slesh str = slash_loop 0 0 str

-- `path` and `poz_of_slesh`.
pub record Shell : Type 0 where
  pub path : Bytes
  pub poz_of_slesh : ℕ

-- What a line does beside the shell's own state. A child tries `file`, and then `/usr/bin/` with a name.
pub data Effect : Type 0 where
  run : (file : Bytes) (args : List Bytes) (name : Bytes) (name_args : List Bytes) → Effect
  chdir : (dir : Bytes) → Effect
  unknown_dir : Effect
  created : (file : Bytes) → Effect

pub data Response : Type 0 where
  quit : Response
  go_on : Shell → Effect → Response

-- A string that a buffer of SIZE bytes holds.
unfoldable pub fit : Bytes → Option Bytes
fit s = if ltb (length s) size then some s else none

-- getcwd, `find_last_slesh`, `strcat(path, "/")`
pub start : (cwd : Bytes) → Option Shell
unfolding fit find_last_slesh
start cwd = do
  path ← fit (cwd ++ slash ∷ [])
  some (record { path = path; poz_of_slesh = find_last_slesh cwd })

-- `cd ..`
pub cd_up : Shell → Option Response
unfolding fit find_last_slesh
cd_up sh = do
  let dir = take sh.poz_of_slesh sh.path
  path ← fit (dir ++ slash ∷ [])
  some (go_on (record { path = path; poz_of_slesh = find_last_slesh dir }) (chdir dir))

-- `cd name`, where `opens` says whether opendir succeeds.
pub cd_into : (opens : Bytes → Bool) → Shell → Bytes → Option Response
unfolding fit find_last_slesh
cd_into opens sh name = do
  dir ← fit (sh.path ++ name)
  let entered = do
    path ← fit (dir ++ slash ∷ [])
    some (go_on (record { path = path; poz_of_slesh = find_last_slesh dir }) (chdir dir))
  if opens dir then entered else some (go_on sh unknown_dir)

-- A line of one word.
pub run_alone : Shell → Bytes → Option Response
unfolding fit
run_alone sh comand = do
  file ← fit (sh.path ++ comand)
  name ← fit (codes "/usr/bin/" ++ comand)
  some (go_on sh (run file (file ∷ []) name (comand ∷ [])))

-- A line of several words that is no command of the interpreter's own.
pub run_with : Shell → (comand arg : Bytes) → Option Response
unfolding fit
run_with sh comand arg = do
  target ← fit (sh.path ++ arg)
  name ← fit (codes "/usr/bin/" ++ comand)
  some (go_on sh (run comand (comand ∷ arg ∷ []) name (comand ∷ target ∷ [])))

-- `> file`
pub create : Shell → Bytes → Option Response
unfolding fit
create sh name = do file ← fit (sh.path ++ name); some (go_on sh (created file))

-- The words of a line.
pub obey : (opens : Bytes → Bool) → Shell → List Bytes → Option Response
unfolding cd_up cd_into run_alone run_with create
obey opens sh [] = none
obey opens sh (comand ∷ []) = run_alone sh comand
obey opens sh (comand ∷ arg ∷ rest) =
    if str_eq comand (codes "cd")
    then if str_eq arg (codes "..") then cd_up sh else cd_into opens sh arg
    else if str_eq comand (codes ">")
    then create sh arg
    else run_with sh comand arg

-- One pass of the loop on a line without its newline.
pub execute : (opens : Bytes → Bool) → Shell → Bytes → Option Response
unfolding fit obey
execute opens sh line = do
  comand ← fit line
  let cut = stok_by_index comand space
  if str_eq comand (codes "quit")
      then some quit
      else obey opens sh (map (word cut.buffer) cut.words)

-- The shell at the end, whether "quit" ended it, and what the lines did.
pub record Session : Type 0 where
  pub shell : Shell
  pub ended : Bool
  pub log : List Effect

-- The rest of the loop, behind what a line does.
proceed : (Shell → Option Session) → Shell → Response → Option Session
proceed next sh quit = some (record { shell = sh; ended = true; log = [] })
proceed next sh (go_on sh' effect) = do s ← next sh'; some (record s { log = effect ∷ s.log })

-- `while (1)` on the lines that are typed, where opendir answers alike each time it is asked.
pub interpret : (opens : Bytes → Bool) → (lines : List Bytes) → Shell → Option Session
unfolding execute proceed
interpret opens [] sh = some (record { shell = sh; ended = false; log = [] })
interpret opens (line ∷ lines) sh = execute opens sh line >>= proceed (interpret opens lines) sh

pub main : (opens : Bytes → Bool) → (cwd : Bytes) → (lines : List Bytes) → Option Session
unfolding start interpret
main opens cwd lines = start cwd >>= interpret opens lines
