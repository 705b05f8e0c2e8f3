-- ===== src/Contacts/Menu/Commands.antt =====
-- What a session of heap/task.c should do: the commands that its words are, performed on a list of contacts.
use study_eltex.Prelude.{
  ℕ, zero, suc, Bool, true, false, List, [], ◌∷◌, ◌++◌, Bytes, codes, length, str_eq, if◌then◌else◌,
}
use study_eltex.Contacts.{Sub}
use study_eltex.Contacts.Sort.Insertion.{insertion_sort}
use study_eltex.Contacts.HeapBook.Delete.{listed}
use study_eltex.Contacts.HeapBook.Report.{matches, numbered}
use study_eltex.Contacts.Menu.{Report, added, deleted, looked_up, listing, unknown}
use study_eltex.Contacts.Menu.Good.{new_contact}

pub data Command : Type 0 where
  add delete find : Sub → Command
  show mistake stop : Command

-- Who is meant by a name and a surename.
abbrev pub asked : Bytes → Bytes → Sub
asked name surename = record { name = name; surename = surename; number = [] }

-- The command that a word and those behind it are, and the rest; nothing where words are missing.
abbrev pub Parse : Type 0
Parse = List Bytes → List Command

unfoldable pub parse_add : Parse → Parse
unfolding new_contact
parse_add rest (name ∷ surename ∷ number ∷ tokens) =
    add (new_contact name surename number) ∷ rest tokens
parse_add rest _ = []

unfoldable pub parse_delete : Parse → Parse
parse_delete rest (name ∷ surename ∷ tokens) = delete (asked name surename) ∷ rest tokens
parse_delete rest _ = []

unfoldable pub parse_find : Parse → Parse
parse_find rest (name ∷ surename ∷ tokens) = find (asked name surename) ∷ rest tokens
parse_find rest _ = []

-- The word behind the menu, by the texts of the menu.
unfoldable pub parse_number : Bytes → Parse → Parse
unfolding parse_add parse_delete parse_find
parse_number num rest tokens =
    if str_eq num (codes "1")
    then parse_add rest tokens
    else if str_eq num (codes "2")
    then parse_delete rest tokens
    else if str_eq num (codes "3")
    then show ∷ rest tokens
    else if str_eq num (codes "4")
    then parse_find rest tokens
    else if str_eq num (codes "5")
    then stop ∷ []
    else mistake ∷ rest tokens

unfoldable pub parse : (fuel : ℕ) → Parse
unfolding parse_number
parse zero tokens = []
parse (suc fuel) [] = []
parse (suc fuel) (num ∷ tokens) = parse_number num (parse fuel) tokens

-- The commands of a session.
unfoldable pub commands : Parse
unfolding parse
commands tokens = parse (length tokens) tokens

-- What is in the book at the end, whether command 5 was given, and what was printed.
pub record Outcome : Type 0 where
  pub contacts : List Sub
  pub stopped : Bool
  pub log : List Report

abbrev pub prints : Report → Outcome → Outcome
prints r o = record o { log = r ∷ o.log }

-- The commands one by one, where `removed` says what the book of the program deletes.
unfoldable pub perform : (removed : Sub → List Sub → List Sub) → List Command → List Sub → Outcome
perform removed [] l = record { contacts = l; stopped = false; log = [] }
perform removed (add c ∷ rest) l =
    prints added (perform removed rest (insertion_sort (l ++ c ∷ [])))
perform removed (delete c ∷ rest) l =
    prints (deleted (listed c l)) (perform removed rest (removed c l))
perform removed (find c ∷ rest) l = prints (looked_up (matches c l)) (perform removed rest l)
perform removed (show ∷ rest) l = prints (listing (numbered 0 l)) (perform removed rest l)
perform removed (mistake ∷ rest) l = prints unknown (perform removed rest l)
perform removed (stop ∷ rest) l = record { contacts = l; stopped = true; log = [] }

-- How many contacts are added.
unfoldable pub adds : List Command → ℕ
adds [] = 0
adds (add c ∷ rest) = suc (adds rest)
adds (_ ∷ rest) = adds rest
