-- ===== src/Contacts/HeapBook/Report.antt =====
-- `lookup` and `print_subs` of heap/task.c: what they print, and that they read inside the block.
use study_eltex.Prelude.{
  ℕ, suc, ◌+◌, ◌≡◌, refl, some, List, [], ◌∷◌, ◌++◌, append_assoc, length, take, drop, arith,
  if◌then◌else◌, get_elem?-middle, length-take, length-snoc, take-append-drop,
}
use study_eltex.Contacts.{Sub}
use study_eltex.Contacts.HeapBook.{
  ContactBook, same, lookup_from, lookup, print_from, print_subs, cells,
}
use study_eltex.Contacts.HeapBook.Contents.{contents, IsValid}

-- All contacts with the name and surename asked for, in order.
unfoldable pub matches : Sub → List Sub → List Sub
matches sb [] = []
matches sb (c ∷ l) = if same c sb then c ∷ matches sb l else matches sb l

-- The contacts numbered from `i + 1` on.
unfoldable pub numbered : ℕ → List Sub → List (ℕ × Sub)
numbered i [] = []
numbered i (c ∷ l) = (i + 1, c) ∷ numbered (suc i) l

pub lookup_from-matches :
    (pre ys post : List Sub) (sb : Sub) (p : ℕ)
    → length pre ≡ p
    → lookup_from (length ys) p (pre ++ (ys ++ post)) sb ≡ some (matches sb ys)
unfolding lookup_from matches
lookup_from-matches pre [] post sb p e = refl
lookup_from-matches pre (c ∷ ys) post sb p e =
    let rest = lookup_from-matches (pre ++ c ∷ []) ys post sb (suc p) (length-snoc pre c p e) in
    rw (← e) (rw (get_elem?-middle pre c (ys ++ post), e, (simp append_assoc at rest)))

pub print_from-numbered :
    (pre ys post : List Sub) (p : ℕ)
    → length pre ≡ p
    → print_from (length ys) p (pre ++ (ys ++ post)) ≡ some (numbered p ys)
unfolding print_from numbered
print_from-numbered pre [] post p e = refl
print_from-numbered pre (c ∷ ys) post p e =
    let rest = print_from-numbered (pre ++ c ∷ []) ys post (suc p) (length-snoc pre c p e) in
    rw (← e) (rw (get_elem?-middle pre c (ys ++ post), e, (simp append_assoc at rest)))

-- On a valid book `lookup` reads only cells of the block and prints exactly the contacts that have
-- the name and surename asked for, in order; `print_subs` prints every contact once, numbered from 1.
pub report_correct :
    (b : ContactBook) (sb : Sub)
    → IsValid b
    → (lookup b sb ≡ some (matches sb (contents b)))
      × (print_subs b ≡ some (numbered 0 (contents b)))
unfolding lookup print_subs
report_correct b sb v =
    let xs = cells b.arr in
    let len : length (take b.size xs) ≡ b.size = omega (arith, length-take b.size xs) in
    let looked = lookup_from-matches [] (take b.size xs) (drop b.size xs) sb 0 refl in
    let printed = print_from-numbered [] (take b.size xs) (drop b.size xs) 0 refl in
    (
      rw (len, take-append-drop b.size xs) at looked,
      rw (len, take-append-drop b.size xs) at printed,
    )
