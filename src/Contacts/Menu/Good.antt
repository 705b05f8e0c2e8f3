-- ===== src/Contacts/Menu/Good.antt =====
-- Words of the input of heap/task.c that fit, books that are ready to be written, and what keeps them so.
use study_eltex.Prelude.{
  ◌+◌, ◌<◌, ◌≡◌, refl, some, List, [], ◌∷◌, ◌++◌, Bytes, length, length-append, str_lt, Bool-cases,
  inl, inr, lt→ltb, arith,
}
use study_eltex.Contacts.{field_size, Sub}
use study_eltex.Contacts.Sort.Insertion.{IsBelow, IsSorted, insert, insertion_sort}
use study_eltex.Contacts.HeapBook.{ContactBook, same}
use study_eltex.Contacts.HeapBook.Contents.{contents, IsValid}
use study_eltex.Contacts.HeapBook.Delete.{erase_first}
use study_eltex.Contacts.BookFile.{newline, make_sub}
use study_eltex.Contacts.BookFile.Lines.{IsWord, IsClean}
use study_eltex.Contacts.BookFile.RoundTrip.{AllClean}
use study_eltex.Contacts.Menu.{scanned}

-- A word of the input with room for the newline that command 1 appends.
pub record IsToken (s : Bytes) : Type 0 where
  pub word : IsWord s
  pub shorter : length s + 1 < field_size

abbrev pub AllTokens : List Bytes → Type 0
AllTokens [] = Unit
AllTokens (s ∷ l) = IsToken s × AllTokens l

pub record IsGood (b : ContactBook) : Type 0 where
  pub valid : IsValid b
  pub sorted : IsSorted (contents b)
  pub clean : AllClean (contents b)

IsBelow-erase : (x sb : Sub) (l : List Sub) → IsBelow x l → IsBelow x (erase_first sb l)
unfolding erase_first
IsBelow-erase x sb [] h = tt
IsBelow-erase x sb (c ∷ l) h = elim (Bool-cases (same c sb)) [
  | inl e ↦ rw e (h.1)
  | inr e ↦ rw e (h.0, IsBelow-erase x sb l h.1)
]

pub IsSorted-erase : (sb : Sub) (l : List Sub) → IsSorted l → IsSorted (erase_first sb l)
unfolding erase_first
IsSorted-erase sb [] h = tt
IsSorted-erase sb (c ∷ l) h = elim (Bool-cases (same c sb)) [
  | inl e ↦ rw e (h.1)
  | inr e ↦ rw e (IsBelow-erase c sb l h.0, IsSorted-erase sb l h.1)
]

pub AllClean-erase : (sb : Sub) (l : List Sub) → AllClean l → AllClean (erase_first sb l)
unfolding erase_first
AllClean-erase sb [] h = tt
AllClean-erase sb (c ∷ l) h = elim (Bool-cases (same c sb)) [
  | inl e ↦ rw e (h.1)
  | inr e ↦ rw e (h.0, AllClean-erase sb l h.1)
]

AllClean-insert : (c : Sub) (l : List Sub) → IsClean c → AllClean l → AllClean (insert c l)
unfolding insert
AllClean-insert c [] h hl = (h, tt)
AllClean-insert c (y ∷ l) h hl = elim (Bool-cases (str_lt y.name c.name)) [
  | inl e ↦ rw e (hl.0, AllClean-insert c l h hl.1)
  | inr e ↦ rw e (h, hl)
]

pub AllClean-insertion_sort :
    (l : List Sub) (c : Sub) → AllClean l → IsClean c → AllClean (insertion_sort (l ++ c ∷ []))
unfolding insertion_sort
AllClean-insertion_sort [] c hl h = AllClean-insert c [] h tt
AllClean-insertion_sort (y ∷ l) c hl h =
    AllClean-insert y _ hl.0 (AllClean-insertion_sort l c hl.1 h)

pub scanned_token : (s : Bytes) → IsToken s → scanned s ≡ some s
unfolding scanned
scanned_token s h = rw (lt→ltb (length s) field_size h.word.short)

unfoldable pub new_contact : Bytes → Bytes → Bytes → Sub
new_contact name surename number = record {
  name = name;
  surename = surename;
  number = number ++ newline ∷ [];
}

module _ (name surename number : Bytes) (hn : IsToken name) (hs : IsToken surename)
    (hm : IsToken number) where
  length-number : length (number ++ newline ∷ []) ≡ length number + 1
  length-number = omega (arith, length-append number (newline ∷ []))

  pub make_new_contact :
      make_sub name surename (number ++ newline ∷ []) ≡ some (new_contact name surename number)
  unfolding make_sub new_contact
  make_new_contact = rw (
    lt→ltb (length name) field_size hn.word.short,
    lt→ltb (length surename) field_size hs.word.short,
    lt→ltb (length (number ++ newline ∷ [])) field_size (omega (arith, length-number, hm.shorter)),
  )

  pub new_contact-IsClean : IsClean (new_contact name surename number)
  unfolding new_contact
  new_contact-IsClean = record {
    name_word = hn.word;
    surename_word = hs.word;
    digits = number;
    ended = refl;
    digits_word = hm.word;
    number_short = omega (arith, length-number, hm.shorter);
  }
