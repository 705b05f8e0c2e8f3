-- ===== src/Contacts/ArrayMenu.antt =====
-- The command loop of `main` in structures/task.c, on the words that scanf reads; where they run out the
-- program waits. `none` is undefined behaviour.
pub mod Refinement
use study_eltex.Prelude.{
  ℕ, zero, suc, ◌≡◌, refl, Bool, true, false, Option, some, List, [], ◌∷◌, Bytes, codes, length,
  str_eq, arith, if◌then◌else◌, ◌≤◌, lt→ltb, ◌<◌,
}
use study_eltex.Contacts.{Sub, field_size, ◌>>=◌}
use study_eltex.Contacts.HeapBook.Report.{matches, numbered}
use study_eltex.Contacts.Menu.{Report, listing, looked_up, deleted, added, unknown, scanned}
use study_eltex.Contacts.ArrayBook.{Contacts, add_sub, del_sub, lookup, print_subs}
use study_eltex.Contacts.ArrayBook.Delete.{contents, IsValid}
use study_eltex.Contacts.ArrayBook.Laws.{array_report_correct}

-- The book, whether command 5 was given, and what was printed.
pub record Session : Type 0 where
  pub book : Contacts
  pub quit : Bool
  pub log : List Report

-- The rest of the session, behind what a command printed.
pub logged : Report → Option Session → Option Session
logged r later = do s ← later; some (record s { log = r ∷ s.log })

-- The rest of the loop.
abbrev Next : Type 0
Next = List Bytes → Contacts → Option Session

idle : Contacts → Option Session
idle b = some (record { book = b; quit = false; log = [] })

add : Next → Next
unfolding logged idle
add next (name ∷ surename ∷ number ∷ tokens) b = do
  b' ← add_sub b name surename number
  logged added (next tokens b')
add next _ b = idle b

-- The name and surename that `del_sub` and `lookup` read.
asked : Bytes → Bytes → Option Sub
asked name surename = do
  n ← scanned name
  s ← scanned surename
  some (record { name = n; surename = s; number = [] })

delete : Next → Next
unfolding logged idle asked
delete next (name ∷ surename ∷ tokens) b = do
  sb ← asked name surename
  r ← del_sub b sb
  logged (deleted r.found) (next tokens r.book)
delete next _ b = idle b

print : Next → Next
unfolding logged
print next tokens b = do lines ← print_subs b; logged (listing lines) (next tokens b)

find : Next → Next
unfolding logged idle asked
find next (name ∷ surename ∷ tokens) b = do
  sb ← asked name surename
  found ← lookup b sb
  logged (looked_up found) (next tokens b)
find next _ b = idle b

-- The chain of `strcmp(num, …) == 0`.
dispatch : Bytes → Next → Next
unfolding add delete print find logged
dispatch num next tokens b =
    if str_eq num (codes "1")
    then add next tokens b
    else if str_eq num (codes "2")
    then delete next tokens b
    else if str_eq num (codes "3")
    then print next tokens b
    else if str_eq num (codes "4")
    then find next tokens b
    else if str_eq num (codes "5")
    then some (record { book = b; quit = true; log = [] })
    else logged unknown (next tokens b)

-- `while (1)`, on fuel: every round takes a token.
pub menu : (fuel : ℕ) → List Bytes → Contacts → Option Session
unfolding dispatch idle
menu zero tokens b = idle b
menu (suc fuel) [] b = idle b
menu (suc fuel) (num ∷ tokens) b = do n ← scanned num; dispatch n (menu fuel) tokens b

pub run_menu : List Bytes → Contacts → Option Session
unfolding menu
run_menu tokens b = menu (length tokens) tokens b

-- Commands that ask only.
data Query : Type 0 where
  show : Query
  ask : (name surename : Bytes) → Query

-- What is typed for them.
abbrev typed : List Query → List Bytes
typed [] = []
typed (show ∷ qs) = codes "3" ∷ typed qs
typed (ask name surename ∷ qs) = codes "4" ∷ name ∷ surename ∷ typed qs

-- What they are told, of the contacts in the book.
abbrev told : List Sub → List Query → List Report
told l [] = []
told l (show ∷ qs) = listing (numbered 0 l) ∷ told l qs
told l (ask name surename ∷ qs) =
    looked_up (matches (record { name = name; surename = surename; number = [] }) l) ∷ told l qs

-- The words fit their buffers.
abbrev AllShort : List Query → Type 0
AllShort [] = Unit
AllShort (show ∷ qs) = AllShort qs
AllShort (ask name surename ∷ qs) =
    ((length name < field_size) × (length surename < field_size)) × AllShort qs

-- On a valid book the command loop answers any sequence of commands 3 and 4, with names that fit, each from
-- all contacts of the book and in order, reads inside the array, and leaves the book as it was.
menu-queries :
    (qs : List Query) (fuel : ℕ) (b : Contacts)
    → IsValid b
    → AllShort qs
    → length qs ≤ fuel
    → menu fuel (typed qs) b ≡ some (record { book = b; quit = false; log = told (contents b) qs })
unfolding menu dispatch print find asked logged idle scanned str_eq
menu-queries [] zero b v h k = refl
menu-queries [] (suc fuel) b v h k = refl
menu-queries (q ∷ qs) zero b v h k = absurd (omega arith)
menu-queries (show ∷ qs) (suc fuel) b v h k =
    let sb : Sub = record { name = []; surename = []; number = [] } in
    let printed = (array_report_correct b sb v).1 in
    let later = menu-queries qs fuel b v h (omega arith) in rw printed (rw later refl)
menu-queries (ask name surename ∷ qs) (suc fuel) b v h k =
    let sb : Sub = record { name = name; surename = surename; number = [] } in
    let looked = (array_report_correct b sb v).0 in
    let later = menu-queries qs fuel b v h.1 (omega arith) in
    let n = lt→ltb (length name) 20 h.0.0 in
    let m = lt→ltb (length surename) 20 h.0.1 in rw n (rw m (rw looked (rw later refl)))
