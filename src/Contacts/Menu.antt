-- ===== src/Contacts/Menu.antt =====
-- The command loop of `main` in heap/task.c. The words that scanf reads are a list of tokens; where
-- they run out the program waits. `none` is undefined behaviour.
pub mod Good
pub mod Commands
pub mod Refinement
pub mod Safety
use study_eltex.Prelude.{
  ℕ, zero, suc, Bool, true, false, Option, none, some, List, [], ◌∷◌, ◌++◌, Bytes, codes, length,
  ltb, str_eq, if◌then◌else◌,
}
use study_eltex.Contacts.{field_size, Sub, ◌>>=◌}
use study_eltex.Contacts.HeapBook.{
  ContactBook, Allocator, Status, done, failed, Deletion, add_sub, del_sub, lookup, print_subs,
  free_book,
}
use study_eltex.Contacts.BookFile.{newline, make_sub, load_book, save_book}

-- What a command prints.
pub data Report : Type 0 where
  listing : List (ℕ × Sub) → Report
  looked_up : List Sub → Report
  deleted : (found : Bool) → Report
  added : Report
  unknown : Report

-- How the loop ends: command 5, a failed allocation, or no further input yet.
pub data End : Type 0 where
  quit : End
  no_memory : End
  waiting : End

pub record Session : Type 0 where
  pub book : ContactBook
  pub last : End
  pub log : List Report

-- The rest of the session, behind what a command printed.
pub continue : Report → Option Session → Option Session
continue r later = do s ← later; some (record s { log = r ∷ s.log })

-- Commands 1 and 2 go on only if their call returned 0.
pub after : Report → (ContactBook → Option Session) → ContactBook × Status → Option Session
unfolding continue
after r next (b, failed) = some (record { book = b; last = no_memory; log = r ∷ [] })
after r next (b, done) = continue r (next b)

-- A word that scanf stores in a buffer of 20 bytes.
unfoldable pub scanned : Bytes → Option Bytes
scanned s = if ltb (length s) field_size then some s else none

-- The rest of the loop, as a function of what is left of the input and of the book.
abbrev Next : Type 0
Next = List Bytes → ContactBook → Option Session

idle : ContactBook → Option Session
idle b = some (record { book = b; last = waiting; log = [] })

-- Command 1: the newline is appended to the number by strcat.
add_contact : Allocator → Next → Next
unfolding after idle
add_contact a next (name ∷ surename ∷ number ∷ tokens) b = do
  sb ← make_sub name surename (number ++ newline ∷ [])
  r ← add_sub a b sb
  after added (next tokens) r
add_contact a next _ b = idle b

-- Commands 2 and 4 read a name and a surename; the number of `sb` is not read by either.
delete_contact : Allocator → Next → Next
unfolding after idle scanned
delete_contact a next (name ∷ surename ∷ tokens) b = do
  n ← scanned name
  s ← scanned surename
  d ← del_sub a b (record { name = n; surename = s; number = [] })
  after (deleted d.found) (next tokens) (d.book, d.status)
delete_contact a next _ b = idle b

find_contact : Next → Next
unfolding continue idle scanned
find_contact next (name ∷ surename ∷ tokens) b = do
  n ← scanned name
  s ← scanned surename
  found ← lookup b (record { name = n; surename = s; number = [] })
  continue (looked_up found) (next tokens b)
find_contact next _ b = idle b

print_all : Next → Next
unfolding continue
print_all next tokens b = do lines ← print_subs b; continue (listing lines) (next tokens b)

-- The chain of `strcmp(num, …) == 0`.
dispatch : Allocator → Bytes → Next → Next
unfolding add_contact delete_contact find_contact print_all continue
dispatch a num next tokens b =
    if str_eq num (codes "1")
    then add_contact a next tokens b
    else if str_eq num (codes "2")
    then delete_contact a next tokens b
    else if str_eq num (codes "3")
    then print_all next tokens b
    else if str_eq num (codes "4")
    then find_contact next tokens b
    else if str_eq num (codes "5")
    then some (record { book = b; last = quit; log = [] })
    else continue unknown (next tokens b)

-- `while (1)`, on fuel: every round takes a token, so the number of tokens is enough.
menu : Allocator → (fuel : ℕ) → Next
unfolding dispatch idle scanned
menu a zero tokens b = idle b
menu a (suc fuel) [] b = idle b
menu a (suc fuel) (num ∷ tokens) b = do n ← scanned num; dispatch a n (menu a fuel) tokens b

-- The book after command 5: written to book.txt, then freed.
unfoldable pub close_book : ContactBook → Option Bytes
close_book b = do file ← save_book b; _ ← free_book b; some file

-- The loop over all of the input.
pub run_menu : Allocator → List Bytes → ContactBook → Option Session
unfolding menu
run_menu a tokens b = menu a (length tokens) tokens b
