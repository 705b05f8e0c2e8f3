-- ===== src/Contacts/ArrayBook/Laws.antt =====
-- `add_sub` of structures/task.c, and what passing over a contact means for `del_sub`.
use study_eltex.Prelude.{
  take-append-drop, ◌+◌, ◌<◌, ◌≤◌, ◌≡◌, refl, ap, ◌∙◌, true, false, ◌&&◌, some, List, [], ◌∷◌, ◌++◌,
  Bytes, length, set, take, drop, arith, lt→ltb, length-set, take-set, length-take, length-append,
  length-drop, take-append_length,
}
use study_eltex.Contacts.{Sub}
use study_eltex.Contacts.Sort.Insertion.{insertion_sort, length-insertion_sort}
use study_eltex.Contacts.Sort.Loops.{sort-insertion_sort}
use study_eltex.Contacts.HeapBook.{same}
use study_eltex.Contacts.HeapBook.Delete.{listed}
use study_eltex.Contacts.BookFile.{newline, make_sub}
use study_eltex.Contacts.HeapBook.Report.{
  matches, numbered, lookup_from-matches, print_from-numbered,
}
use study_eltex.Contacts.ArrayBook.{Contacts, Purged, put, add_sub, del_sub, lookup, print_subs}
use study_eltex.Contacts.ArrayBook.Delete.{contents, IsValid, thin, remove_all, del_sub-thin}

-- With a free cell and words that fit, `add_sub` stores the contact, with a newline behind its number,
-- and insertion sorts the contacts by name; the array keeps its cells.
pub add_sub-insertion_sort :
    (b : Contacts) (name surename number : Bytes) (c : Sub)
    → b.size < length b.contacts
    → make_sub name surename (number ++ newline ∷ []) ≡ some c
    → (b' : Contacts) × (add_sub b name surename number ≡ some b')
      × (contents b' ≡ insertion_sort (contents b ++ c ∷ []))
      × (b'.size ≡ b.size + 1)
      × (length b'.contacts ≡ length b.contacts)
unfolding add_sub put
add_sub-insertion_sort b name surename number c room made =
    let n = b.size + 1 in
    let ys = set b.contacts b.size c in
    let fits : n ≤ length ys = omega (arith, length-set b.contacts b.size c) in
    let prefix = length-insertion_sort (take n ys) in
    (
      record { contacts = insertion_sort (take n ys) ++ drop n ys; size = n },
      rw (made, lt→ltb b.size (length b.contacts) room, sort-insertion_sort ys n fits),
      take-append_length n (insertion_sort (take n ys)) (drop n ys)
            (omega (arith, prefix, length-take n ys))
          ∙ ap insertion_sort (take-set b.contacts b.size n c room (omega arith)),
      refl,
      omega (
        arith,
        length-append (insertion_sort (take n ys)) (drop n ys),
        prefix,
        length-take n ys,
        length-drop n ys,
        length-set b.contacts b.size c,
      ),
    )

-- No two neighbours both have the name and surename asked for.
abbrev pub IsApart : Sub → List Sub → Type 0
IsApart sb [] = Unit
IsApart sb (c ∷ []) = Unit
IsApart sb (c ∷ d ∷ l) = ((same c sb && same d sb) ≡ false) × IsApart sb (d ∷ l)

thin-remove_all : (sb : Sub) (l : List Sub) → IsApart sb l → thin false sb l ≡ remove_all sb l
unfolding thin remove_all
thin-remove_all sb [] h = refl
thin-remove_all sb (c ∷ []) h = ground arith
thin-remove_all sb (c ∷ d ∷ l) h = ground (arith, thin-remove_all sb (d ∷ l) (h.1))

thin_survivor :
    (sb x y : Sub) (pre post : List Sub)
    → listed sb pre ≡ false
    → same x sb ≡ true
    → same y sb ≡ true
    → listed sb (thin false sb (pre ++ x ∷ y ∷ post)) ≡ true
unfolding thin listed
thin_survivor sb x y [] post h hx hy = rw hx (rw hy)
thin_survivor sb x y (c ∷ pre) post h hx hy = ground (arith, thin_survivor sb x y pre post)

-- Where no two neighbours both match, `del_sub` deletes every contact of the name and surename asked for
-- and keeps the others in order.
pub del_sub-remove_all :
    (b : Contacts) (sb : Sub)
    → IsValid b
    → IsApart sb (contents b)
    → (r : Purged) × (del_sub b sb ≡ some r) × (contents r.book ≡ remove_all sb (contents b))
del_sub-remove_all b sb v apart =
    let (b', returned, holds, _) = del_sub-thin b sb v in
    (_, returned, holds ∙ thin-remove_all sb (contents b) apart)

-- Where the first two matches stand side by side, the second is still listed after `del_sub`.
pub del_sub_survivor :
    (b : Contacts) (sb x y : Sub) (pre post : List Sub)
    → IsValid b
    → contents b ≡ pre ++ x ∷ y ∷ post
    → listed sb pre ≡ false
    → same x sb ≡ true
    → same y sb ≡ true
    → (r : Purged) × (del_sub b sb ≡ some r) × (listed sb (contents r.book) ≡ true)
del_sub_survivor b sb x y pre post v split h hx hy =
    let (b', returned, holds, _) = del_sub-thin b sb v in
    (_, returned, rw (holds, split) (thin_survivor sb x y pre post h hx hy))

-- On a valid book of structures/task.c `lookup` reads only filled cells and prints exactly the contacts that
-- have the name and surename asked for, in order; `print_subs` prints every contact once, numbered from 1.
pub array_report_correct :
    (b : Contacts) (sb : Sub)
    → IsValid b
    → (lookup b sb ≡ some (matches sb (contents b)))
      × (print_subs b ≡ some (numbered 0 (contents b)))
unfolding lookup print_subs
array_report_correct b sb v =
    let xs = b.contacts in
    let len : length (take b.size xs) ≡ b.size = omega (arith, length-take b.size xs) in
    let looked = lookup_from-matches [] (take b.size xs) (drop b.size xs) sb 0 refl in
    let printed = print_from-numbered [] (take b.size xs) (drop b.size xs) 0 refl in
    (
      rw (len, take-append-drop b.size xs) at looked,
      rw (len, take-append-drop b.size xs) at printed,
    )
