-- ===== src/Contacts/HeapBook/Delete.antt =====
-- `del_sub` of heap/task.c against the removal of one element of a list.
use study_eltex.Prelude.{
  ℕ, suc, ◌+◌, ◌-◌, ◌*◌, ◌≤◌, ◌≡◌, refl, ap, ◌∙◌, Bool, true, false, Option, some, none, List, [],
  ◌∷◌, ◌++◌, append_assoc, length, take, drop, replicate, arith, Bool-cases, inl, inr,
  if◌then◌else◌, get_elem?-middle, get_elem?-middle_suc, set-middle, length-take, length-append,
  length-snoc, length-replicate, take-append_length, take-append-drop, take-take_append,
}
use study_eltex.Contacts.{Sub}
use study_eltex.Contacts.HeapBook.{
  block, ContactBook, Allocator, done, sizeof_sub, realloc, same, shift, find_and_shift, shrink,
  settled, finish, Deletion, del_sub, cells,
}
use study_eltex.Contacts.HeapBook.Contents.{contents, IsValid}

-- Whether some contact has the name and surename asked for.
unfoldable pub listed : Sub → List Sub → Bool
listed sb [] = false
listed sb (c ∷ l) = if same c sb then true else listed sb l

-- The contacts without the first that has the name and surename asked for.
unfoldable pub erase_first : Sub → List Sub → List Sub
erase_first sb [] = []
erase_first sb (c ∷ l) = if same c sb then l else c ∷ erase_first sb l

length-erase_first :
    (sb : Sub) (l : List Sub) → listed sb l ≡ true → suc (length (erase_first sb l)) ≡ length l
unfolding listed erase_first
length-erase_first sb [] h = ground arith
length-erase_first sb (c ∷ l) h = ground (arith, length-erase_first sb l)

erase_first_of_not_listed : (sb : Sub) (l : List Sub) → listed sb l ≡ false → erase_first sb l ≡ l
unfolding listed erase_first
erase_first_of_not_listed sb [] h = refl
erase_first_of_not_listed sb (c ∷ l) h = ground (arith, erase_first_of_not_listed sb l)

unfoldable pub last_of : Sub → List Sub → Sub
last_of c [] = c
last_of c (y ∷ ys) = last_of y ys

-- The loop moves the contacts behind `c` down by one; the last stays in its old cell too.
pub shift-down :
    (pre : List Sub) (c : Sub) (ys post : List Sub) (p : ℕ)
    → length pre ≡ p
    → shift (length ys) p (pre ++ c ∷ (ys ++ post)) ≡ some (pre ++ (ys ++ last_of c ys ∷ post))
unfolding shift last_of
shift-down pre c [] post p e = refl
shift-down pre c (y ∷ ys) post p e =
    let rest = shift-down (pre ++ y ∷ []) y ys post (suc p) (length-snoc pre y p e) in
    rw (← e) (
      rw (get_elem?-middle_suc pre c y (ys ++ post), set-middle pre c y (y ∷ (ys ++ post)), e)
        (simp append_assoc at rest))

pub find-not_listed :
    (pre ys post : List Sub) (sb : Sub) (p : ℕ)
    → length pre ≡ p
    → listed sb ys ≡ false
    → find_and_shift (length ys) p (pre ++ (ys ++ post)) sb ≡ some none
unfolding find_and_shift listed
find-not_listed pre [] post sb p e h = refl
find-not_listed pre (c ∷ ys) post sb p e h =
    let rest =
      find-not_listed (pre ++ c ∷ []) ys post sb (suc p) (length-snoc pre c p e) (ground arith) in
    let differs : same c sb ≡ false = ground arith in
    rw (← e) (rw (get_elem?-middle pre c (ys ++ post), e, differs) (simp append_assoc at rest))

pub find-listed :
    (pre ys post : List Sub) (sb : Sub) (p : ℕ)
    → length pre ≡ p
    → listed sb ys ≡ true
    → (z : Sub) × (find_and_shift (length ys) p (pre ++ (ys ++ post)) sb
        ≡ some (some (pre ++ (erase_first sb ys ++ z ∷ post))))
unfolding find_and_shift listed erase_first
find-listed pre [] post sb p e h = absurd (ground arith)
find-listed pre (c ∷ ys) post sb p e h = elim (Bool-cases (same c sb)) [
  | inl here ↦ (
    last_of c ys,
    rw (← e) (rw (get_elem?-middle pre c (ys ++ post), e, here, shift-down pre c ys post p e)),
  )
  | inr later ↦
      let (z, rest) =
        find-listed (pre ++ c ∷ []) ys post sb (suc p) (length-snoc pre c p e) (ground arith) in
      (z, rw (← e) (rw (get_elem?-middle pre c (ys ++ post), e, later) (simp append_assoc at rest)))
]

-- The block that `del_sub` asks for once it has found the contact.
abbrev pub grants_back : Allocator → ContactBook → Bool
grants_back a b = a.grant (sizeof_sub * (b.size - 1 + 1))

record Erased (size : ℕ) (before : List Sub) (sb : Sub) (r : Option Deletion) : Type 0 where
  deletion : Deletion
  returned : r ≡ some deletion
  ended : deletion.status ≡ done
  valid : IsValid deletion.book
  holds : contents deletion.book ≡ erase_first sb before
  told : deletion.found ≡ listed sb before

shrink-block :
    (a : Allocator) (size : ℕ) (ys : List Sub)
    → size - 1 ≤ length ys
    → a.grant (sizeof_sub * (size - 1 + 1)) ≡ true
    → (b : ContactBook) × (shrink a size ys ≡ some (b, done))
      × IsValid b
      × (contents b ≡ take (size - 1) ys)
unfolding shrink realloc settled
shrink-block a size ys h g =
    let n = size - 1 in
    let more = replicate (n + 1) a.junk in
    (
      record { size = n; arr = block (take (n + 1) (ys ++ more)) },
      rw g,
      omega (
        arith,
        length-take (n + 1) (ys ++ more),
        length-append ys more,
        length-replicate (n + 1) a.junk,
      ),
      take-take_append n (n + 1) ys more h (omega arith),
    )

del_sub_found :
    (a : Allocator) (b b' : ContactBook) (sb : Sub) (ys : List Sub)
    → find_and_shift b.size 0 (cells b.arr) sb ≡ some (some ys)
    → shrink a b.size ys ≡ some (b', done)
    → del_sub a b sb ≡ some (record { book = b'; status = done; found = true })
unfolding del_sub finish
del_sub_found a b b' sb ys found shrunk = rw (found, shrunk)

del_sub_not_found :
    (a : Allocator) (b : ContactBook) (sb : Sub)
    → find_and_shift b.size 0 (cells b.arr) sb ≡ some none
    → del_sub a b sb ≡ some (record { book = b; status = done; found = false })
unfolding del_sub finish
del_sub_not_found a b sb missing = rw missing

del_sub-Erased :
    (a : Allocator) (b : ContactBook) (sb : Sub) (l post : List Sub)
    → length l ≡ b.size
    → cells b.arr ≡ l ++ post
    → a.grant (sizeof_sub * (b.size - 1 + 1)) ≡ true
    → Erased b.size l sb (del_sub a b sb)
del_sub-Erased a b sb l post len split g = elim (Bool-cases (listed sb l)) [
  | inl yes' ↦
      let (z, found) = find-listed [] l post sb 0 refl yes' in
      let ys = erase_first sb l ++ z ∷ post in
      let short : length (erase_first sb l) ≡ b.size - 1 =
        omega (arith, length-erase_first sb l yes') in
      let room : b.size - 1 ≤ length ys =
        omega (arith, length-append (erase_first sb l) (z ∷ post)) in
      let (b', shrunk, valid, holds) = shrink-block a b.size ys room g in
      record {
        deletion = record { book = b'; status = done; found = true };
        returned = del_sub_found a b b' sb ys (rw (split, ← len) found) shrunk;
        ended = refl;
        valid = valid;
        holds = holds ∙ take-append_length (b.size - 1) (erase_first sb l) (z ∷ post) short;
        told = rw yes';
      }
  | inr no' ↦ record {
    deletion = record { book = b; status = done; found = false };
    returned =
        del_sub_not_found a b sb (rw (split, ← len) (find-not_listed [] l post sb 0 refl no'));
    ended = refl;
    valid = omega (arith, ap length split, length-append l post);
    holds = rw (split, take-append_length b.size l post len, erase_first_of_not_listed sb l no');
    told = rw no';
  }
]

-- With memory granted, `del_sub` returns 0, the book holds its contacts without the first of the
-- name and surename asked for, and "Contact Not found" is printed exactly when there is none.
pub del_sub_done :
    (a : Allocator) (b : ContactBook) (sb : Sub)
    → IsValid b
    → grants_back a b ≡ true
    → (d : Deletion) × (del_sub a b sb ≡ some d)
      × (d.status ≡ done)
      × IsValid d.book
      × (contents d.book ≡ erase_first sb (contents b))
      × (d.found ≡ listed sb (contents b))
del_sub_done a b sb v g =
    let xs = cells b.arr in
    let e =
      del_sub-Erased a b sb (take b.size xs) (drop b.size xs) (omega (arith, length-take b.size xs))
        (rw (take-append-drop b.size xs)) g in
    (e.deletion, e.returned, e.ended, e.valid, e.holds, e.told)
