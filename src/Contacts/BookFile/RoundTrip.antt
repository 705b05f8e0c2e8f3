-- ===== src/Contacts/BookFile/RoundTrip.antt =====
-- A book that is written to book.txt and read back.
use study_eltex.Prelude.{
  ◌≤◌, take, ℕ, suc, ◌-◌, ◌≡◌, refl, sym, ap, ◌∙◌, true, some, List, [], ◌∷◌, ◌++◌, append_assoc,
  append-nil, Bytes, length, arith, map, length-snoc, get_elem?-middle, drop, length-take,
  take-append-drop,
}
use study_eltex.Contacts.{Sub}
use study_eltex.Contacts.Sort.Insertion.{
  IsBelow, IsSorted, insertion_sort, insertion_sort_of_IsSorted,
}
use study_eltex.Contacts.HeapBook.{ContactBook, Allocator, done, unset, cells}
use study_eltex.Contacts.HeapBook.Contents.{contents, IsValid, add_sub_done}
use study_eltex.Contacts.BookFile.{
  contact_size, flush, read_lines, load_lines, unless_failed, load_book, save_from, save_book,
}
use study_eltex.Contacts.BookFile.Lines.{
  IsClean, line, save_line_clean, load_line_clean, read_line_clean,
}

abbrev pub AllClean : List Sub → Type 0
AllClean [] = Unit
AllClean (c ∷ l) = IsClean c × AllClean l

-- The contents of book.txt.
unfoldable pub text : List Sub → Bytes
text [] = []
text (c ∷ l) = line c ++ text l

IsBelow-prefix : (x : Sub) (xs ys : List Sub) → IsBelow x (xs ++ ys) → IsBelow x xs
IsBelow-prefix x [] ys h = tt
IsBelow-prefix x (y ∷ xs) ys h = (h.0, IsBelow-prefix x xs ys h.1)

IsSorted-prefix : (xs ys : List Sub) → IsSorted (xs ++ ys) → IsSorted xs
IsSorted-prefix [] ys h = tt
IsSorted-prefix (x ∷ xs) ys h = (IsBelow-prefix x xs ys h.0, IsSorted-prefix xs ys h.1)

save_from-text :
    (pre ys post : List Sub) (p : ℕ)
    → length pre ≡ p
    → AllClean ys
    → save_from (length ys) p (pre ++ (ys ++ post)) ≡ some (text ys)
unfolding save_from text
save_from-text pre [] post p e h = refl
save_from-text pre (c ∷ ys) post p e h =
    let rest = save_from-text (pre ++ c ∷ []) ys post (suc p) (length-snoc pre c p e) h.1 in
    rw (← e) (
      rw (
        get_elem?-middle pre c (ys ++ post),
        e,
        save_line_clean c h.0,
        (simp append_assoc at rest),
      ))

pub read_lines-text :
    (l : List Sub) → AllClean l → read_lines (contact_size - 1) [] (text l) ≡ map line l
unfolding text read_lines flush
read_lines-text [] h = refl
read_lines-text (c ∷ l) (clean, h) =
    read_line_clean c clean (text l) ∙ ap (◌∷◌ (line c)) (read_lines-text l h)

module _ (a : Allocator) (grants_all : (n : ℕ) → a.grant n ≡ true) where
  -- Reading the lines of a sorted list adds each contact at the end.
  load_lines-append :
      (l pre : List Sub) (b : ContactBook)
      → AllClean l
      → IsSorted (pre ++ l)
      → IsValid b
      → contents b ≡ pre
      → (b' : ContactBook) × (load_lines a b (map line l) ≡ some (b', done))
        × IsValid b'
        × (contents b' ≡ pre ++ l)
  unfolding load_lines unless_failed
  load_lines-append [] pre b h s v e = (b, refl, v, e ∙ sym (append-nil pre))
  load_lines-append (c ∷ l) pre b h s v e =
      let (b1, added, v1, holds, _) = add_sub_done a b c v (grants_all _) in
      let s' : IsSorted ((pre ++ c ∷ []) ++ l) = rw (append_assoc pre (c ∷ []) l) s in
      let front =
        insertion_sort_of_IsSorted (pre ++ c ∷ []) (IsSorted-prefix (pre ++ c ∷ []) l s') in
      let (b2, loaded, v2, all) =
        load_lines-append l (pre ++ c ∷ []) b1 h.1 s' v1
          (holds ∙ ap (λ m. insertion_sort (m ++ c ∷ [])) e ∙ front) in
      (b2, rw (load_line_clean c h.0 a b, added) loaded, v2, all ∙ append_assoc pre (c ∷ []) l)

  pub load_book-text :
      (l : List Sub)
      → IsSorted l
      → AllClean l
      → (b' : ContactBook) × (load_book a (record { size = 0; arr = unset }) (text l)
          ≡ some (b', done))
        × IsValid b'
        × (contents b' ≡ l)
  unfolding load_book
  load_book-text l s h =
      rw (read_lines-text l h)
        (load_lines-append l [] (record { size = 0; arr = unset }) h s (omega arith) refl)

pub save_from_start :
    (size : ℕ) (xs : List Sub)
    → size ≤ length xs
    → AllClean (take size xs)
    → save_from size 0 xs ≡ some (text (take size xs))
save_from_start size xs v h =
    let len : length (take size xs) ≡ size = omega (arith, length-take size xs) in
    let saved = save_from-text [] (take size xs) (drop size xs) 0 refl h in
    (rw (len, take-append-drop size xs) at saved)

pub save_book-text :
    (b : ContactBook) → IsValid b → AllClean (contents b) → save_book b ≡ some (text (contents b))
unfolding save_book
save_book-text b v h = save_from_start b.size (cells b.arr) (omega arith) h

-- A valid book of sorted contacts, each of two words and a number that fit their buffers, is written
-- without overflow, and a new book that reads the file with memory granted ends with the same
-- contacts in the same order.
pub load_book-save_book :
    (a : Allocator) (b : ContactBook)
    → ((n : ℕ) → a.grant n ≡ true)
    → IsValid b
    → IsSorted (contents b)
    → AllClean (contents b)
    → (file : Bytes) × (save_book b ≡ some file)
      × ((b' : ContactBook) × (load_book a (record { size = 0; arr = unset }) file
            ≡ some (b', done))
          × IsValid b'
          × (contents b' ≡ contents b))
load_book-save_book a b grants_all v s h =
    (text (contents b), save_book-text b v h, load_book-text a grants_all (contents b) s h)
