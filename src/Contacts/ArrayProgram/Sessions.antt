-- ===== src/Contacts/ArrayProgram/Sessions.antt =====
-- A whole run of structures/task.c: the contacts of book.txt, the commands performed on them, and what is
-- in book.txt at the end.
use study_eltex.Prelude.{
  ◌+◌, ◌≤◌, ◌≡◌, refl, false, some, List, Bytes, length, Bool-cases, inl, inr, arith,
}
use study_eltex.Contacts.{Sub}
use study_eltex.Contacts.BookFile.RoundTrip.{AllClean, text}
use study_eltex.Contacts.Menu.Good.{AllTokens}
use study_eltex.Contacts.Menu.Commands.{commands, Outcome, perform, adds}
use study_eltex.Contacts.ArrayBook.Delete.{contents, thin}
use study_eltex.Contacts.ArrayBook.File.{load_book-text, save_book-text}
use study_eltex.Contacts.ArrayMenu.{Session}
use study_eltex.Contacts.ArrayMenu.Refinement.{IsReady, run_menu-Follows}
use study_eltex.Contacts.Program.Sessions.{kept}
use study_eltex.Contacts.ArrayProgram.{leave, main}

leave-kept :
    (s : Session) (o : Outcome)
    → IsReady s.book
    → contents s.book ≡ o.contacts
    → s.log ≡ o.log
    → leave s o.stopped ≡ some (record { log = o.log; quit = o.stopped; file = kept o })
unfolding leave
leave-kept s o ready holds told = elim (Bool-cases o.stopped) [
  | inl e ↦ rw (e, save_book-text s.book ready.valid ready.clean, holds, told) refl
  | inr e ↦ rw (e, told) refl
]

-- On a book.txt of contacts of two words and a number that fit, and on words of at most 18 bytes with
-- no space, newline or NUL, where the array has room for the contacts of the file and those added,
-- `main` has no undefined behaviour. It prints what the commands in the words, performed on the
-- contacts of the file, give, where a deletion passes over a match behind one just deleted. If they
-- hold command 5, book.txt holds the contacts that they leave; if not, `main` waits for more input and
-- there is no book.txt.
pub array_main-perform :
    (cells : List Sub) (tokens : List Bytes) (l : List Sub)
    → AllTokens tokens
    → AllClean l
    → length l + adds (commands tokens) ≤ length cells
    → let o = perform (thin false) (commands tokens) l in
      main cells tokens (some (text l))
      ≡ some (record { log = o.log; quit = o.stopped; file = kept o })
unfolding main
array_main-perform cells tokens l h clean room =
    let (b, loaded, holds, counted, kept_cells) =
      load_book-text l cells clean (omega (arith, room)) in
    let ready : IsReady b = record {
      valid = omega (arith, counted, kept_cells, room);
      clean = rw holds clean;
    } in
    let f = run_menu-Follows tokens b h ready (omega (arith, counted, kept_cells, room)) in
    let o = perform (thin false) (commands tokens) (contents b) in
    let left = leave-kept f.session o f.ready f.holds f.told in
    rw (loaded, f.returned, f.ends, left, holds) refl
