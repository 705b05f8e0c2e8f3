-- ===== src/Contacts/ArrayProgram.antt =====
-- `main` of structures/task.c from end to end: book.txt is read into the array and removed, the command
-- loop runs, and behind command 5 book.txt is written again. `none` is undefined behaviour; fopen for
-- writing is taken to succeed.
pub mod Sessions
use study_eltex.Prelude.{ℕ, Bool, true, false, Option, none, some, List, [], Bytes}
use study_eltex.Contacts.{Sub, ◌>>=◌}
use study_eltex.Contacts.Menu.{Report}
use study_eltex.Contacts.ArrayBook.{Contacts, load_book, save_book}
use study_eltex.Contacts.ArrayMenu.{Session, run_menu}

-- What was printed, whether command 5 ended the loop, and book.txt then, if there is one.
pub record Run : Type 0 where
  pub log : List Report
  pub quit : Bool
  pub file : Option Bytes

-- What follows the loop.
leave : Session → (quit : Bool) → Option Run
leave s true = do f ← save_book s.book; some (record { log = s.log; quit = true; file = some f })
leave s false = some (record { log = s.log; quit = false; file = none })

-- `contacts` is the array on the stack with whatever it holds. fgets of the NULL that fopen gives for
-- a missing file is undefined.
pub main : (contacts : List Sub) → (tokens : List Bytes) → (file : Option Bytes) → Option Run
unfolding leave
main contacts tokens none = none
main contacts tokens (some file) = do
  b ← load_book (record { contacts = contacts; size = 0 }) file
  s ← run_menu tokens b
  leave s s.quit
