-- ===== src/Examples/Lines.antt =====
-- Lines cut into words, a walk through directories, numbers, names and messages.
use study_eltex.Prelude.{
  refl, none, replicate, if◌then◌else◌, ℕ, ◌<◌, Bool, false, List, [], ◌≡◌, some, ◌∷◌, Bytes, codes,
  length, map, str_eq, arith,
}
use study_eltex.Tokens.{stok}
use study_eltex.Tokens.Fields.{word, fields, stok-fields}
use study_eltex.Interpreter.{main, space}
use study_eltex.Interpreter.Dirs.{at_dir}
use study_eltex.Interpreter.Sessions.{
  path_of, Move, up, into, line_of, moved, walk, IsName, CanWalk, main-walk,
}
use study_eltex.Prelude.Int.{pos, ◌+ℤ◌}
use study_eltex.Plugins.{calc, Loader, Request}
use study_eltex.Plugins.Sessions.{lib_of, plugins, answers, AllFit, has_nul, calc-answers}

abbrev typed : Bytes
typed = codes "a b"

stok-fields_example :
    (map (word (stok typed space).buffer) (stok typed space).words ≡ fields typed space)
    × (length (stok typed space).words ≡ length (fields typed space))
stok-fields_example = stok-fields typed space (omega arith, (omega arith, (omega arith, tt)))

abbrev rooted : Bytes → Bool
rooted dir = str_eq dir (codes "/h/a")

-- From /h into /h/a, to a directory that does not open, and up.
abbrev ways : List Move
ways = into (codes "a") ∷ into (codes "b") ∷ up ∷ []

abbrev home : List Bytes
home = codes "h" ∷ []

letter-IsName : (c : ℕ) → 96 < c → IsName (c ∷ [])
unfolding str_eq
letter-IsName c h = record {
  no_nul = (omega (arith, h), tt);
  no_space = (omega (arith, h), tt);
  no_slash = (omega (arith, h), tt);
  no_dots = ground (arith, h);
  no_dot = ground (arith, h);
  filled = omega arith;
}

ways-CanWalk : CanWalk rooted home ways
unfolding CanWalk moved path_of str_eq
ways-CanWalk = (
  (letter-IsName 97 (omega arith), omega arith),
  ((letter-IsName 98 (omega arith), omega arith), (tt, tt)),
)

main-walk_example :
    let w = walk rooted home ways in
    main rooted (path_of home) (map line_of ways)
    ≡ some (record { shell = at_dir (path_of w.0); ended = false; log = w.1 })
main-walk_example =
    main-walk rooted home ways
      (record {
        below_root = omega arith;
        plain = ((omega arith, tt), tt);
        short = unfold path_of in omega arith;
      })
      ways-CanWalk

-- Rows of twenty zeros, and a loader that finds sum only.
abbrev zeros : (i : ℕ) → Bytes
zeros i = replicate 20 0

abbrev loader : Loader
loader file name = if str_eq name (codes "sum") then some (λ x y. x +ℤ y) else none

abbrev names : List Bytes
names = codes "sum" ∷ codes "minus" ∷ []

-- A sum, an unknown command, and a function that is not found.
abbrev requests : List Request
requests =
    record { num = 1; x = pos 2; y = pos 3 }
    ∷ record { num = 7; x = pos 0; y = pos 0 }
    ∷ record { num = 2; x = pos 3; y = pos 1 }
    ∷ []

zeros-AllFit : AllFit 1 zeros names
unfolding AllFit has_nul
zeros-AllFit = (omega arith, refl, (omega arith, refl, tt))

calc-answers_example :
    calc loader zeros (map lib_of names) requests
    ≡ some (answers loader (plugins 1 zeros names) requests)
calc-answers_example = calc-answers loader zeros names requests (omega arith) zeros-AllFit
