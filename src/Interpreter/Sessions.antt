-- ===== src/Interpreter/Sessions.antt =====
-- Lines with `cd` against a path of directory names.
use study_eltex.Prelude.{
  ◌+◌, ◌<◌, ◌≡◌, refl, ◌∙◌, Bool, false, some, List, [], ◌∷◌, ◌++◌, Bytes, length, length-append,
  codes, str_eq, arith, map, Bool-cases, inl, inr, if◌then◌else◌,
}
use study_eltex.Tokens.Fields.{Lacks}
use study_eltex.Interpreter.{
  slash, space, size, Effect, chdir, unknown_dir, go_on, execute, proceed, interpret, main,
}
use study_eltex.Interpreter.Dirs.{
  at_dir, start-at_dir, cd_up-parent, cd_into-child, cd_into-unknown, cd-line, up-line,
}

-- The path of some directories, the innermost first.
unfoldable pub path_of : List Bytes → Bytes
path_of [] = []
path_of (name ∷ dirs) = path_of dirs ++ slash ∷ name

pub data Move : Type 0 where
  up : Move
  into : (name : Bytes) → Move

abbrev pub line_of : Move → Bytes
line_of up = codes "cd .."
line_of (into name) = codes "cd " ++ name

abbrev pub parent : List Bytes → List Bytes
parent [] = []
parent (name ∷ dirs) = dirs

-- The directories behind a move, and what it does.
unfoldable pub moved : (opens : Bytes → Bool) → List Bytes → Move → List Bytes × Effect
unfolding path_of
moved opens dirs up = (parent dirs, chdir (path_of (parent dirs)))
moved opens dirs (into name) =
    if opens (path_of (name ∷ dirs))
    then (name ∷ dirs, chdir (path_of (name ∷ dirs)))
    else (dirs, unknown_dir)

unfoldable pub walk : (opens : Bytes → Bool) → List Bytes → List Move → List Bytes × List Effect
unfolding moved
walk opens dirs [] = (dirs, [])
walk opens dirs (m ∷ moves) =
    let (dirs', effect) = moved opens dirs m in
    let (dirs'', log) = walk opens dirs' moves in (dirs'', effect ∷ log)

-- A name of an entry that a line can hold: neither empty nor "." nor "..".
pub record IsName (name : Bytes) : Type 0 where
  pub no_nul : Lacks 0 name
  pub no_space : Lacks space name
  pub no_slash : Lacks slash name
  pub no_dots : str_eq name (codes "..") ≡ false
  pub no_dot : str_eq name (codes ".") ≡ false
  pub filled : 0 < length name

-- The names on the way, that each path fits its buffer, and that "cd .." does not come to the root, whose
-- path is empty.
abbrev pub CanMove : (dirs : List Bytes) → Move → Type 0
CanMove [] up = ⊥
CanMove (name ∷ []) up = ⊥
CanMove (name ∷ above ∷ dirs) up = Unit
CanMove dirs (into name) = IsName name × (length (path_of dirs) + length name + 3 < size)

unfoldable pub CanWalk : (opens : Bytes → Bool) → List Bytes → List Move → Type 0
CanWalk opens dirs [] = Unit
CanWalk opens dirs (m ∷ moves) = CanMove dirs m × CanWalk opens ((moved opens dirs m).0) moves

-- Directories whose path is shown right.
abbrev pub AllPlain : List Bytes → Type 0
AllPlain [] = Unit
AllPlain (name ∷ dirs) = Lacks slash name × AllPlain dirs

pub record IsPlace (dirs : List Bytes) : Type 0 where
  pub below_root : 0 < length dirs
  pub plain : AllPlain dirs
  pub short : length (path_of dirs) + 1 < size

move-IsPlace :
    (opens : Bytes → Bool) (dirs : List Bytes) (m : Move)
    → IsPlace dirs
    → CanMove dirs m
    → IsPlace ((moved opens dirs m).0)
unfolding moved path_of
move-IsPlace opens [] up h can = absurd can
move-IsPlace opens (name ∷ []) up h can = absurd can
move-IsPlace opens (name ∷ above ∷ dirs) up h can = record {
  below_root = omega arith;
  plain = h.plain.1;
  short = omega (arith, h.short, length-append (path_of dirs ++ slash ∷ above) (slash ∷ name));
}
move-IsPlace opens dirs (into name) h can =
    elim (Bool-cases (opens (path_of dirs ++ slash ∷ name))) [
      | inl e ↦ rw e (record {
        below_root = omega arith;
        plain = (can.0.no_slash, h.plain);
        short = omega (arith, can.1, length-append (path_of dirs) (slash ∷ name));
      })
      | inr e ↦ rw e h
    ]

move-line :
    (opens : Bytes → Bool) (dirs : List Bytes) (m : Move)
    → IsPlace dirs
    → CanMove dirs m
    → execute opens (at_dir (path_of dirs)) (line_of m)
      ≡ some (go_on (at_dir (path_of ((moved opens dirs m).0))) ((moved opens dirs m).1))
unfolding moved path_of
move-line opens [] up h can = absurd can
move-line opens (name ∷ []) up h can = absurd can
move-line opens (name ∷ above ∷ dirs) up h can =
    up-line opens _
    ∙ cd_up-parent (path_of dirs ++ slash ∷ above) name h.plain.0
        (omega (arith, h.short, length-append (path_of dirs ++ slash ∷ above) (slash ∷ name)))
move-line opens dirs (into name) h can =
    let n = can.0 in
    let line =
      cd-line opens (at_dir (path_of dirs)) name n.no_nul n.no_space n.no_dots
        (omega (arith, can.1)) in
    elim (Bool-cases (opens (path_of dirs ++ slash ∷ name))) [
      | inl e ↦ rw e (line ∙ cd_into-child opens (path_of dirs) name e (omega (arith, can.1)))
      | inr e ↦ rw e (line ∙ cd_into-unknown opens (path_of dirs) name e (omega (arith, can.1)))
    ]

interpret-walk :
    (opens : Bytes → Bool) (dirs : List Bytes) (moves : List Move)
    → IsPlace dirs
    → CanWalk opens dirs moves
    → let w = walk opens dirs moves in
      interpret opens (map line_of moves) (at_dir (path_of dirs))
      ≡ some (record { shell = at_dir (path_of w.0); ended = false; log = w.1 })
unfolding interpret proceed walk CanWalk
interpret-walk opens dirs [] h can = refl
interpret-walk opens dirs (m ∷ moves) h can =
    rw
      (
        move-line opens dirs m h can.0,
        interpret-walk opens ((moved opens dirs m).0) moves (move-IsPlace opens dirs m h can.0)
            can.1,
      )
      refl

-- From a directory below the root whose path fits, any lines "cd name" and "cd ..", where no name is empty
-- or "." or "..", or has a slash, a space or a NUL, no path on the way overruns its buffer and no
-- "cd .." comes to the root, lead the interpreter where the names lead from directory to directory: "cd .."
-- to the one above, "cd name" into the one of the name if that opens, else to the message. The
-- prompt at the end is the path, with the slash behind it, and each directory entered on the way is
-- handed to chdir.
pub main-walk :
    (opens : Bytes → Bool) (dirs : List Bytes) (moves : List Move)
    → IsPlace dirs
    → CanWalk opens dirs moves
    → let w = walk opens dirs moves in
      main opens (path_of dirs) (map line_of moves)
      ≡ some (record { shell = at_dir (path_of w.0); ended = false; log = w.1 })
unfolding main
main-walk opens dirs moves h can =
    rw (start-at_dir (path_of dirs) h.short) (interpret-walk opens dirs moves h can)
