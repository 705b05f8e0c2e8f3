-- ===== src/Contacts/ArrayBook/File.antt =====
-- book.txt read into the array of structures/task.c, and written from it.
use study_eltex.Prelude.{
  ◌+◌, ◌<◌, ◌≤◌, ◌≡◌, refl, sym, ap, ◌∙◌, some, List, [], ◌∷◌, ◌++◌, append_assoc, append-nil,
  length, map, set, arith, lt→ltb, length-set, take-set,
}
use study_eltex.Contacts.{Sub}
use study_eltex.Contacts.BookFile.Lines.{
  IsClean, line, cstr-line, line-not_newline, words-line, make_sub_clean,
}
use study_eltex.Contacts.BookFile.RoundTrip.{AllClean, text, read_lines-text, save_from_start}
use study_eltex.Contacts.ArrayBook.{
  Contacts, put, register, load_line, load_lines, load_book, save_book,
}
use study_eltex.Contacts.ArrayBook.Delete.{contents, IsValid}

abbrev pushed : Contacts → Sub → Contacts
pushed b c = record { contacts = set b.contacts b.size c; size = b.size + 1 }

load_line_clean :
    (b : Contacts) (c : Sub)
    → IsClean c
    → b.size < length b.contacts
    → load_line b (line c) ≡ some (pushed b c)
unfolding load_line register put
load_line_clean b c h room =
    rw (cstr-line c h, line-not_newline c h, words-line c h, make_sub_clean c h)
      (rw (lt→ltb b.size (length b.contacts) room) refl)

-- The lines of a list of contacts are added behind those there are.
load_lines-append :
    (l : List Sub) (b : Contacts)
    → AllClean l
    → b.size + length l ≤ length b.contacts
    → (b' : Contacts) × (load_lines b (map line l) ≡ some b')
      × (contents b' ≡ contents b ++ l)
      × (b'.size ≡ b.size + length l)
      × (length b'.contacts ≡ length b.contacts)
unfolding load_lines
load_lines-append [] b h room = (b, refl, sym (append-nil (contents b)), omega arith, refl)
load_lines-append (c ∷ l) b h room =
    let here : b.size < length b.contacts = omega (arith, room) in
    let cells = length-set b.contacts b.size c in
    let (b', loaded, holds, counted, kept) =
      load_lines-append l (pushed b c) h.1 (omega (arith, room, cells)) in
    let front = take-set b.contacts b.size (b.size + 1) c here (omega arith) in
    (
      b',
      rw (load_line_clean b c h.0 here) loaded,
      holds ∙ ap (λ m. m ++ l) front ∙ append_assoc (contents b) (c ∷ []) l,
      omega (arith, counted),
      kept ∙ cells,
    )

pub load_book-text :
    (l : List Sub) (cells : List Sub)
    → AllClean l
    → length l ≤ length cells
    → (b' : Contacts) × (load_book (record { contacts = cells; size = 0 }) (text l) ≡ some b')
      × (contents b' ≡ l)
      × (b'.size ≡ length l)
      × (length b'.contacts ≡ length cells)
unfolding load_book
load_book-text l cells h room =
    let empty : Contacts = record { contacts = cells; size = 0 } in
    let (b', loaded, holds, counted, kept) = load_lines-append l empty h (omega (arith, room)) in
    (b', rw (read_lines-text l h) loaded, holds, omega (arith, counted), kept)

pub save_book-text :
    (b : Contacts) → IsValid b → AllClean (contents b) → save_book b ≡ some (text (contents b))
unfolding save_book
save_book-text b v h = save_from_start b.size b.contacts v h
