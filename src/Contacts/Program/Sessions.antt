-- ===== src/Contacts/Program/Sessions.antt =====
-- A whole run of heap/task.c: the contacts of book.txt, the commands performed on them, and what is
-- in book.txt at the end.
use study_eltex.Prelude.{
  ℕ, ◌<◌, ◌≡◌, ap, refl, true, Option, none, some, List, Bytes, length, length-take, Bool-cases,
  inl, inr, arith, if◌then◌else◌,
}
use study_eltex.Contacts.{Sub}
use study_eltex.Contacts.Sort.Insertion.{IsSorted}
use study_eltex.Contacts.HeapBook.{ContactBook, Allocator, cells, new_contact_book}
use study_eltex.Contacts.HeapBook.Contents.{contents}
use study_eltex.Contacts.HeapBook.Pointer.{is_set, cells-is_set, free_book_set}
use study_eltex.Contacts.HeapBook.Delete.{erase_first}
use study_eltex.Contacts.BookFile.RoundTrip.{AllClean, text, load_book-text, save_book-text}
use study_eltex.Contacts.Menu.{Session, close_book}
use study_eltex.Contacts.Menu.Good.{AllTokens, IsGood}
use study_eltex.Contacts.Menu.Commands.{commands, Outcome, perform}
use study_eltex.Contacts.Menu.Refinement.{end_of, run_menu-Follows}
use study_eltex.Contacts.Program.{sizeof_contact_book, leave, serve, main}

-- book.txt, by an outcome: written behind command 5, else gone.
abbrev pub kept : Outcome → Option Bytes
kept o = if o.stopped then some (text o.contacts) else none

close_book-text :
    (b : ContactBook) → IsGood b → is_set b.arr ≡ true → close_book b ≡ some (text (contents b))
unfolding close_book
close_book-text b good set = rw (save_book-text b good.valid good.clean, free_book_set b set) refl

leave-kept :
    (s : Session) (o : Outcome)
    → IsGood s.book
    → is_set s.book.arr ≡ true
    → contents s.book ≡ o.contacts
    → s.log ≡ o.log
    → leave s (end_of o.stopped)
      ≡ some (record { log = o.log; last = end_of o.stopped; file = kept o })
unfolding leave
leave-kept s o good set holds told = elim (Bool-cases o.stopped) [
  | inl e ↦ rw (e, close_book-text s.book good set, holds, told) refl
  | inr e ↦ rw (e, told) refl
]

-- With memory granted, on a book.txt that holds at least one contact, sorted by name and each of two
-- words and a number that fit, and on words of at most 18 bytes with no space, newline or NUL, `main`
-- has no undefined behaviour. It prints what the commands in the words, performed on the contacts of
-- the file, give. If they hold command 5, book.txt holds the contacts that they leave; if not,
-- `main` waits for more input and there is no book.txt.
pub main-perform :
    (a : Allocator) (tokens : List Bytes) (l : List Sub)
    → ((n : ℕ) → a.grant n ≡ true)
    → AllTokens tokens
    → 0 < length l
    → IsSorted l
    → AllClean l
    → let o = perform erase_first (commands tokens) l in
      main a tokens (some (text l))
      ≡ some (record { log = o.log; last = end_of o.stopped; file = kept o })
unfolding main new_contact_book serve
main-perform a tokens l grants_all h nonempty sorted clean =
    let (b, loaded, valid, holds) = load_book-text a grants_all l sorted clean in
    let good : IsGood b = record {
      valid = valid;
      sorted = rw holds sorted;
      clean = rw holds clean;
    } in
    let f = run_menu-Follows a grants_all tokens b h good in
    let filled = ap length holds in
    let set : is_set b.arr ≡ true =
      cells-is_set b.arr (omega (arith, filled, length-take b.size (cells b.arr), nonempty)) in
    let o = perform erase_first (commands tokens) (contents b) in
    let left = leave-kept f.session o f.good (f.keeps set) f.holds f.told in
    rw (grants_all sizeof_contact_book, loaded, f.returned, f.ends, left, holds) refl
