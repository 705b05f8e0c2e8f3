-- ===== src/Contacts/HeapBook/Contents.antt =====
-- What a book of heap/task.c holds, and what `add_sub` makes of it.
use study_eltex.Prelude.{
  ℕ, zero, suc, ◌+◌, ◌*◌, ◌<◌, ◌≤◌, ◌≡◌, refl, Bool, true, false, Option, some, List, [], ◌∷◌, ◌++◌,
  length, set, take, drop, replicate, arith, length-set, length-take, length-append,
  length-replicate, take-set, take-append_length, length-drop, lt→ltb, take-take_append,
}
use study_eltex.Contacts.{Sub}
use study_eltex.Contacts.Sort.Insertion.{insertion_sort, insert, length-insertion_sort}
use study_eltex.Contacts.Sort.Loops.{sort-insertion_sort}
use study_eltex.Contacts.HeapBook.{
  Storage, unset, null, block, ContactBook, Allocator, Status, done, failed, sizeof_sub, write,
  malloc, realloc, fill, add_sub, cells,
}

abbrev pub contents : ContactBook → List Sub
contents b = take b.size (cells b.arr)

-- The block has room for all contacts.
abbrev pub IsValid : ContactBook → Type 0
IsValid b = b.size ≤ length (cells b.arr)

-- Whether the block for one contact more is granted.
abbrev pub grants : Allocator → ContactBook → Bool
grants a b = a.grant (sizeof_sub * (b.size + 1))

-- What `fill` returns when the block has room.
record Filled (size : ℕ) (before : List Sub) (sb : Sub) (r : Option (ContactBook × Status))
    : Type 0 where
  book : ContactBook
  returned : r ≡ some (book, done)
  valid : IsValid book
  holds : contents book ≡ insertion_sort (before ++ sb ∷ [])
  counted : book.size ≡ size + 1

write_in_range :
    (xs : List Sub) (i : ℕ) (v : Sub) → i < length xs → write xs i v ≡ some (set xs i v)
unfolding write
write_in_range xs i v h = ground arith

-- The array that `sort` leaves behind.
abbrev sorted_prefix : ℕ → List Sub → List Sub
sorted_prefix m ys = insertion_sort (take m ys) ++ drop m ys

take-sorted_prefix :
    (m : ℕ) (ys : List Sub)
    → m ≤ length ys
    → take m (sorted_prefix m ys) ≡ insertion_sort (take m ys)
take-sorted_prefix m ys h =
    take-append_length m (insertion_sort (take m ys)) (drop m ys)
      (omega (arith, length-insertion_sort (take m ys), length-take m ys))

length-sorted_prefix :
    (m : ℕ) (ys : List Sub) → m ≤ length ys → length (sorted_prefix m ys) ≡ length ys
length-sorted_prefix m ys h = omega (
  arith,
  length-append (insertion_sort (take m ys)) (drop m ys),
  length-insertion_sort (take m ys),
  length-take m ys,
  length-drop m ys,
)

fill-block :
    (size : ℕ) (xs : List Sub) (sb : Sub) (st : Storage)
    → size < length xs
    → Filled size (take size xs) sb (fill (record { size = size; arr = st }) sb (block xs))
unfolding fill
fill-block zero xs sb st h = record {
  book = record { size = 1; arr = block (set xs 0 sb) };
  returned = rw (write_in_range xs 0 sb h);
  valid = omega (arith, length-set xs 0 sb);
  holds = unfold insertion_sort insert in take-set xs 0 1 sb h refl;
  counted = refl;
}
fill-block (suc n) xs sb st h =
    let i : ℕ = suc n in
    let ys = set xs i sb in
    let room : i + 1 ≤ length ys = omega (arith, length-set xs i sb) in
    record {
      book = record { size = i + 1; arr = block (sorted_prefix (i + 1) ys) };
      returned =
          rw (
            write_in_range xs i sb h,
            lt→ltb 0 i (omega arith),
            sort-insertion_sort ys (i + 1) room,
          );
      valid = omega (arith, length-sorted_prefix (i + 1) ys room);
      holds = rw (take-sorted_prefix (i + 1) ys room, take-set xs i (i + 1) sb h (omega arith));
      counted = refl;
    }

add_sub-Filled :
    (a : Allocator) (size : ℕ) (st : Storage) (sb : Sub)
    → size ≤ length (cells st)
    → a.grant (sizeof_sub * (size + 1)) ≡ true
    → Filled size (take size (cells st)) sb (add_sub a (record { size = size; arr = st }) sb)
unfolding add_sub malloc realloc
add_sub-Filled a zero st sb v g = rw g (fill-block 0 (a.junk ∷ []) sb st (omega arith))
add_sub-Filled a (suc n) unset sb v g = absurd (omega arith)
add_sub-Filled a (suc n) null sb v g = absurd (omega arith)
add_sub-Filled a (suc n) (block xs) sb v g =
    let more = replicate (suc n + 1) a.junk in
    let ys = take (suc n + 1) (xs ++ more) in
    let long : length ys ≡ suc n + 1 = omega (
      arith,
      length-take (suc n + 1) (xs ++ more),
      length-append xs more,
      length-replicate (suc n + 1) a.junk,
    ) in
    let kept = take-take_append (suc n) (suc n + 1) xs more v (omega arith) in
    rw (lt→ltb 0 (suc n) (omega arith), g)
      (rw kept at (fill-block (suc n) ys sb (block xs) (omega arith)))

-- With memory granted, `add_sub` returns 0 and the book holds the contact given in the place that
-- insertion sort finds for it, the other contacts in order around it.
pub add_sub_done :
    (a : Allocator) (b : ContactBook) (sb : Sub)
    → IsValid b
    → grants a b ≡ true
    → (b' : ContactBook) × (add_sub a b sb ≡ some (b', done))
      × IsValid b'
      × (contents b' ≡ insertion_sort (contents b ++ sb ∷ []))
      × (b'.size ≡ b.size + 1)
add_sub_done a b sb v g =
    let f = add_sub-Filled a b.size b.arr sb v g in
    (f.book, f.returned, f.valid, f.holds, f.counted)

-- With memory refused, `add_sub` returns -1 and leaves the size, with NULL for the block: a book that
-- held a contact has lost them all and is no longer valid.
add_sub_failed :
    (a : Allocator) (b : ContactBook) (sb : Sub)
    → IsValid b
    → grants a b ≡ false
    → add_sub a b sb ≡ some (record { size = b.size; arr = null }, failed)
add_sub_failed a b sb v g = refused b.size b.arr v g
  where
    refused :
        (size : ℕ) (st : Storage)
        → size ≤ length (cells st)
        → a.grant (sizeof_sub * (size + 1)) ≡ false
        → add_sub a (record { size = size; arr = st }) sb
          ≡ some (record { size = size; arr = null }, failed)
    refused zero st v g = unfold add_sub malloc fill in rw g
    refused (suc n) unset v g = absurd (omega arith)
    refused (suc n) null v g = absurd (omega arith)
    refused (suc n) (block xs) v g =
        unfold add_sub realloc fill in rw (lt→ltb 0 (suc n) (omega arith), g)
