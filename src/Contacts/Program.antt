-- ===== src/Contacts/Program.antt =====
-- `main` of heap/task.c from end to end: book.txt is read and removed, the command loop runs, and
-- behind command 5 book.txt is written again. `none` is undefined behaviour; fopen for writing is
-- taken to succeed.
pub mod Sessions
use study_eltex.Prelude.{ℕ, Option, none, some, List, [], Bytes}
use study_eltex.Contacts.{◌>>=◌}
use study_eltex.Contacts.HeapBook.{ContactBook, Allocator, Status, done, failed, new_contact_book}
use study_eltex.Contacts.BookFile.{load_book}
use study_eltex.Contacts.Menu.{Report, End, quit, waiting, no_memory, Session, run_menu, close_book}

-- What was printed, how `main` ended or that it waits for input, and book.txt then, if there is one.
pub record Run : Type 0 where
  pub log : List Report
  pub last : End
  pub file : Option Bytes

-- An int and a pointer.
abbrev sizeof_contact_book : ℕ
sizeof_contact_book = 16

-- What follows the loop; without command 5 nothing does.
leave : Session → End → Option Run
unfolding close_book
leave s quit = do f ← close_book s.book; some (record { log = s.log; last = quit; file = some f })
leave s waiting = some (record { log = s.log; last = waiting; file = none })
leave s no_memory = some (record { log = s.log; last = no_memory; file = none })

-- book.txt is removed once it has been read; where `add_sub` failed on the way it is kept.
serve : Allocator → (tokens : List Bytes) → (file : Bytes) → ContactBook × Status → Option Run
unfolding leave
serve a tokens file (b, failed) = some (record { log = []; last = no_memory; file = some file })
serve a tokens file (b, done) = do s ← run_menu a tokens b; leave s s.last

-- fgets of the NULL that fopen gives for a missing file is undefined.
pub main : Allocator → (tokens : List Bytes) → (file : Option Bytes) → Option Run
unfolding serve new_contact_book
main a tokens none = none
main a tokens (some file) = do
  book ← new_contact_book (a.grant sizeof_contact_book)
  loaded ← load_book a book file
  serve a tokens file loaded
