-- ===== src/Contacts/HeapBook/Pointer.antt =====
-- The pointer of a book, once it has been written, stays so in del_sub.
use study_eltex.Prelude.{
  zero, suc, set, get_elem?, length-set, Option-cases, ℕ, ◌+◌, ◌-◌, ◌*◌, ◌<◌, ◌≡◌, ap, sym, ◌∙◌,
  refl, Bool, true, false, Option, none, some, List, length, Bool-cases, inl, inr, arith,
}
use mathlib.Core.Option.{some-injective, none-ne-some}
use study_eltex.Contacts.{Sub, ◌>>=◌}
use study_eltex.Contacts.HeapBook.{
  ContactBook, shift, Storage, unset, null, block, Allocator, sizeof_sub, Status, Deletion, cells,
  realloc, settled, shrink, finish, find_and_shift, del_sub, free, free_book,
}

abbrev pub is_set : Storage → Bool
is_set unset = false
is_set _ = true

pub cells-is_set : (st : Storage) → 0 < length (cells st) → is_set st ≡ true
cells-is_set unset h = absurd (omega arith)
cells-is_set null h = refl
cells-is_set (block xs) h = refl

free-set : (st : Storage) → is_set st ≡ true → free st ≡ some tt
unfolding free
free-set unset h = cc
free-set null h = refl
free-set (block xs) h = refl

pub free_book_set : (b : ContactBook) → is_set b.arr ≡ true → free_book b ≡ some tt
unfolding free_book
free_book_set b = free-set b.arr

-- What a call returned, if it did, has a pointer that is set.
leaves_set : Option (ContactBook × Status) → Bool
leaves_set none = true
leaves_set (some r) = is_set r.0.arr

deletes_set : Option Deletion → Bool
deletes_set none = true
deletes_set (some d) = is_set d.book.arr

shrink-leaves_set :
    (a : Allocator) (size : ℕ) (ys : List Sub) → leaves_set (shrink a size ys) ≡ true
unfolding shrink realloc settled leaves_set
shrink-leaves_set a size ys = elim (Bool-cases (a.grant (sizeof_sub * (size - 1 + 1)))) [
  | inl g ↦ rw g refl
  | inr g ↦ rw g refl
]

found-deletes_set :
    (a : Allocator) (b : ContactBook) (r : Option (ContactBook × Status))
    → leaves_set r ≡ true
    → deletes_set (r >>= λ s. some (record { book = s.0; status = s.1; found = true })) ≡ true
unfolding leaves_set deletes_set
found-deletes_set a b none h = refl
found-deletes_set a b (some s) h = h

finish-deletes_set :
    (a : Allocator) (b : ContactBook) (r : Option (Option (List Sub)))
    → is_set b.arr ≡ true
    → deletes_set (r >>= finish a b) ≡ true
unfolding finish deletes_set
finish-deletes_set a b none h = refl
finish-deletes_set a b (some none) h = h
finish-deletes_set a b (some (some ys)) h =
    found-deletes_set a b (shrink a b.size ys) (shrink-leaves_set a b.size ys)

pub del_sub-is_set :
    (a : Allocator) (b : ContactBook) (sb : Sub) (d : Deletion)
    → del_sub a b sb ≡ some d
    → is_set b.arr ≡ true
    → is_set d.book.arr ≡ true
unfolding del_sub deletes_set
del_sub-is_set a b sb d e h =
    sym (ap deletes_set e) ∙ finish-deletes_set a b (find_and_shift b.size 0 (cells b.arr) sb) h

-- A shift inside the block leaves as many cells.
pub length-shift :
    (rounds j : ℕ) (xs ys : List Sub) → shift rounds j xs ≡ some ys → length ys ≡ length xs
unfolding shift
length-shift zero j xs ys h = ap length (sym (some-injective xs ys h))
length-shift (suc rounds) j xs ys h = elim (Option-cases (get_elem? xs (suc j))) [
  | inl e ↦ absurd (none-ne-some _ (rw e at h))
  | inr (c, e) ↦ length-shift rounds (suc j) (set xs j c) ys (rw e at h) ∙ length-set xs j c
]
