-- ===== src/Interpreter/Dirs.antt =====
-- Going into a directory and out of it.
use study_eltex.Prelude.{
  ◌+◌, ◌<◌, ◌≡◌, refl, ◌∙◌, Bool, true, false, some, [], ◌∷◌, ◌++◌, append_assoc, Bytes, length,
  length-append, lt→ltb, codes, str_eq, arith, take-append_length, map,
}
use study_eltex.Tokens.{stok_by_index}
use study_eltex.Tokens.Fields.{
  Lacks, word, fields, first_field, other_fields, stok-fields, first_field-Lacks,
  other_fields-Lacks,
}
use study_eltex.Tokens.Walk.{stok_by_index-stok}
use study_eltex.Interpreter.{
  slash, space, size, Shell, go_on, chdir, unknown_dir, fit, start, find_last_slesh, slash_loop,
  cd_up, cd_into, execute, obey,
}
use study_eltex.Interpreter.Slashes.{find_last_slesh-last}

-- The shell whose prompt is a directory with a slash behind it.
abbrev pub at_dir : Bytes → Shell
at_dir dir = record { path = dir ++ slash ∷ []; poz_of_slesh = find_last_slesh dir }

fit-short : (s : Bytes) → length s < size → fit s ≡ some s
unfolding fit
fit-short s h = rw (lt→ltb (length s) size h) refl

pub start-at_dir : (cwd : Bytes) → length cwd + 1 < size → start cwd ≡ some (at_dir cwd)
unfolding start
start-at_dir cwd h =
    rw (fit-short (cwd ++ slash ∷ []) (omega (arith, h, length-append cwd (slash ∷ [])))) refl

-- At the root `cd ..` changes nothing but hands an empty path to chdir.
cd_up-root : cd_up (at_dir []) ≡ some (go_on (at_dir []) (chdir []))
unfolding cd_up fit find_last_slesh slash_loop
cd_up-root = refl

-- In the directory s/t, `cd ..` leads to s, and the prompt is its path.
pub cd_up-parent :
    (s t : Bytes)
    → Lacks slash t
    → length s + 1 < size
    → cd_up (at_dir (s ++ slash ∷ t)) ≡ some (go_on (at_dir s) (chdir s))
unfolding cd_up
cd_up-parent s t h k =
    let pos = find_last_slesh-last s t h in
    let cut = take-append_length (length s) s (slash ∷ t ++ slash ∷ []) refl in
    let short = fit-short (s ++ slash ∷ []) (omega (arith, length-append s (slash ∷ []))) in
    rw pos (rw (append_assoc s (slash ∷ t) (slash ∷ [])) (rw cut (rw short refl)))

-- A directory that opens: the prompt is its path.
pub cd_into-child :
    (opens : Bytes → Bool) (dir name : Bytes)
    → opens (dir ++ slash ∷ name) ≡ true
    → length dir + length name + 2 < size
    → cd_into opens (at_dir dir) name
      ≡ some (go_on (at_dir (dir ++ slash ∷ name)) (chdir (dir ++ slash ∷ name)))
unfolding cd_into
cd_into-child opens dir name o k =
    let short = fit-short (dir ++ slash ∷ name) (omega (arith, length-append dir (slash ∷ name))) in
    let shut = fit-short ((dir ++ slash ∷ name) ++ slash ∷ []) (
      omega (
        arith,
        length-append (dir ++ slash ∷ name) (slash ∷ []),
        length-append dir (slash ∷ name),
      )) in
    rw (append_assoc dir (slash ∷ []) name) (rw short (rw o (rw shut refl)))

-- The words of the line "cd name".
cd-words :
    (name : Bytes)
    → Lacks 0 name
    → Lacks space name
    → let cut = stok_by_index (codes "cd " ++ name) space in
      map (word cut.buffer) cut.words ≡ codes "cd" ∷ name ∷ []
unfolding fields first_field other_fields
cd-words name h k =
    let same = stok_by_index-stok (codes "cd " ++ name) space in
    let read =
      (stok-fields (codes "cd " ++ name) space (omega arith, (omega arith, (omega arith, h)))).0 in
    rw same
      (read ∙ (rw (first_field-Lacks space name k) (rw (other_fields-Lacks space name k) refl)))

-- A directory that does not open.
pub cd_into-unknown :
    (opens : Bytes → Bool) (dir name : Bytes)
    → opens (dir ++ slash ∷ name) ≡ false
    → length dir + length name + 2 < size
    → cd_into opens (at_dir dir) name ≡ some (go_on (at_dir dir) unknown_dir)
unfolding cd_into
cd_into-unknown opens dir name o k =
    let short = fit-short (dir ++ slash ∷ name) (omega (arith, length-append dir (slash ∷ name))) in
    rw (append_assoc dir (slash ∷ []) name) (rw short (rw o refl))

-- The line "cd name", and the line "cd ..".
pub cd-line :
    (opens : Bytes → Bool) (sh : Shell) (name : Bytes)
    → Lacks 0 name
    → Lacks space name
    → str_eq name (codes "..") ≡ false
    → length name + 3 < size
    → execute opens sh (codes "cd " ++ name) ≡ cd_into opens sh name
unfolding execute obey str_eq
cd-line opens sh name n p up k =
    let short = fit-short (codes "cd " ++ name) (omega arith) in
    rw short (rw (cd-words name n p) (rw up refl))

pub up-line : (opens : Bytes → Bool) (sh : Shell) → execute opens sh (codes "cd ..") ≡ cd_up sh
unfolding execute obey str_eq
up-line opens sh =
    let dots =
      cd-words (codes "..") (omega arith, (omega arith, tt)) (omega arith, (omega arith, tt)) in
    rw dots refl

-- From a directory, `cd name` and then `cd ..` as lines lead into the directory's entry and back to the
-- shell there was, where the name has no slash, space or NUL and is not "..", the entry opens, and the
-- paths fit their buffers.
cd_there_and_back :
    (opens : Bytes → Bool) (dir name : Bytes)
    → Lacks 0 name
    → Lacks space name
    → Lacks slash name
    → str_eq name (codes "..") ≡ false
    → opens (dir ++ slash ∷ name) ≡ true
    → length dir + length name + 3 < size
    → (execute opens (at_dir dir) (codes "cd " ++ name)
        ≡ some (go_on (at_dir (dir ++ slash ∷ name)) (chdir (dir ++ slash ∷ name))))
      × (execute opens (at_dir (dir ++ slash ∷ name)) (codes "cd ..")
          ≡ some (go_on (at_dir dir) (chdir dir)))
cd_there_and_back opens dir name n p s up o k = (
  cd-line opens (at_dir dir) name n p up (omega arith)
      ∙ cd_into-child opens dir name o (omega arith),
  up-line opens _ ∙ cd_up-parent dir name s (omega arith),
)
