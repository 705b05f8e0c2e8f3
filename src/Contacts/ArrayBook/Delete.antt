-- ===== src/Contacts/ArrayBook/Delete.antt =====
-- `del_sub` of structures/task.c: after a match the next contact is passed over unseen.
use study_eltex.Prelude.{
  ℕ, zero, suc, ◌+◌, ◌-◌, ◌<◌, ◌≤◌, ◌≡◌, refl, ap, ◌∙◌, Bool, true, false, not, ◌&&◌, ◌||◌, Option,
  some, List, [], ◌∷◌, ◌++◌, append_assoc, length, take, drop, arith, Bool-cases, inl, inr,
  if◌then◌else◌, lt→ltb, not-lt→ltb, or_false, get_elem?-middle, length-take, length-append,
  length-snoc, take-append_length, take-append-drop,
}
use study_eltex.Contacts.{Sub}
use study_eltex.Contacts.HeapBook.{same}
use study_eltex.Contacts.HeapBook.Delete.{last_of, shift-down, listed}
use study_eltex.Contacts.ArrayBook.{Contacts, Purged, purge, del_sub}

abbrev pub contents : Contacts → List Sub
contents b = take b.size b.contacts

abbrev pub IsValid : Contacts → Type 0
IsValid b = b.size ≤ length b.contacts

-- The contacts that `del_sub` leaves; `passed` says that the one before was deleted.
unfoldable pub thin : (passed : Bool) → Sub → List Sub → List Sub
thin passed sb [] = []
thin passed sb (c ∷ l) =
    let hit = not passed && same c sb in let rest = thin hit sb l in if hit then rest else c ∷ rest

-- All contacts but those of the name and surename asked for.
unfoldable pub remove_all : Sub → List Sub → List Sub
remove_all sb [] = []
remove_all sb (c ∷ l) = if same c sb then remove_all sb l else c ∷ remove_all sb l

record Thinned (pre ys : List Sub) (flag : Bool) (sb : Sub) (r : Option Purged) : Type 0 where
  book : Contacts
  post : List Sub
  returned : r ≡ some (record { book = book; found = flag || listed sb ys })
  cells : book.contacts ≡ pre ++ (thin false sb ys ++ post)
  counted : book.size ≡ length pre + length (thin false sb ys)

purge_stop :
    (fuel i size : ℕ) (xs : List Sub) (flag : Bool) (sb : Sub)
    → size ≤ i
    → purge fuel i (record { contacts = xs; size = size }) flag sb
      ≡ some (record { book = record { contacts = xs; size = size }; found = flag })
unfolding purge
purge_stop zero i size xs flag sb h = refl
purge_stop (suc fuel) i size xs flag sb h = rw (not-lt→ltb i size h)

purge_keep :
    (fuel i size : ℕ) (pre : List Sub) (c : Sub) (ys : List Sub) (flag : Bool) (sb : Sub)
    → length pre ≡ i
    → i < size
    → same c sb ≡ false
    → purge (suc fuel) i (record { contacts = pre ++ c ∷ ys; size = size }) flag sb
      ≡ purge fuel (suc i) (record { contacts = pre ++ c ∷ ys; size = size }) flag sb
unfolding purge
purge_keep fuel i size pre c ys flag sb e h differs =
    rw (lt→ltb i size h, ← e) (rw (get_elem?-middle pre c ys, differs))

purge_hit :
    (fuel i size : ℕ) (pre : List Sub) (c : Sub) (ys post : List Sub) (flag : Bool) (sb : Sub)
    → length pre ≡ i
    → size ≡ suc i + length ys
    → same c sb ≡ true
    → purge (suc fuel) i (record { contacts = pre ++ c ∷ (ys ++ post); size = size }) flag sb
      ≡ purge fuel
          (suc i)
          (record { contacts = pre ++ (ys ++ last_of c ys ∷ post); size = size - 1 })
          true
          sb
unfolding purge
purge_hit fuel i size pre c ys post flag sb e t agrees =
    let rounds : size - 1 - i ≡ length ys = omega arith in
    rw (lt→ltb i size (omega arith), rounds, shift-down pre c ys post i e, ← e)
      (rw (get_elem?-middle pre c (ys ++ post), agrees))

thin_hit : (sb c : Sub) (l : List Sub) → same c sb ≡ true → thin false sb (c ∷ l) ≡ thin true sb l
unfolding thin
thin_hit sb c l h = rw h

thin_keep :
    (sb c : Sub) (l : List Sub) → same c sb ≡ false → thin false sb (c ∷ l) ≡ c ∷ thin false sb l
unfolding thin
thin_keep sb c l h = rw h

thin_passed : (sb c : Sub) (l : List Sub) → thin true sb (c ∷ l) ≡ c ∷ thin false sb l
unfolding thin
thin_passed sb c l = refl

found_later :
    (flag : Bool) (sb c : Sub) (l : List Sub)
    → same c sb ≡ false
    → (flag || listed sb l) ≡ (flag || listed sb (c ∷ l))
unfolding listed
found_later flag sb c l h = rw h

found_here :
    (flag : Bool) (sb c : Sub) (l : List Sub)
    → same c sb ≡ true
    → true ≡ (flag || listed sb (c ∷ l))
unfolding listed
found_here true sb c l h = refl
found_here false sb c l h = rw h

Thinned-keep :
    (pre : List Sub) (c : Sub) (ys : List Sub) (flag : Bool) (sb : Sub) (r r' : Option Purged)
    → same c sb ≡ false
    → r ≡ r'
    → Thinned (pre ++ c ∷ []) ys flag sb r'
    → Thinned pre (c ∷ ys) flag sb r
Thinned-keep pre c ys flag sb r r' h e t = record {
  book = t.book;
  post = t.post;
  returned =
      e
      ∙ t.returned
      ∙ ap (λ g. some (record { book = t.book; found = g })) (found_later flag sb c ys h);
  cells = rw (thin_keep sb c ys h) (t.cells ∙ append_assoc pre (c ∷ []) _);
  counted = rw (thin_keep sb c ys h) (omega (arith, t.counted, length-append pre (c ∷ [])));
}

Thinned-hit :
    (pre : List Sub) (c y : Sub) (ys : List Sub) (flag : Bool) (sb : Sub) (r r' : Option Purged)
    → same c sb ≡ true
    → r ≡ r'
    → Thinned (pre ++ y ∷ []) ys true sb r'
    → Thinned pre (c ∷ y ∷ ys) flag sb r
Thinned-hit pre c y ys flag sb r r' h e t = record {
  book = t.book;
  post = t.post;
  returned =
      e
      ∙ t.returned
      ∙ ap (λ g. some (record { book = t.book; found = g })) (found_here flag sb c (y ∷ ys) h);
  cells =
      rw (thin_hit sb c (y ∷ ys) h, thin_passed sb y ys) (t.cells ∙ append_assoc pre (y ∷ []) _);
  counted =
      rw (thin_hit sb c (y ∷ ys) h, thin_passed sb y ys)
        (omega (arith, t.counted, length-append pre (y ∷ [])));
}

purge-thin_nil :
    (fuel i size : ℕ) (pre post : List Sub) (flag : Bool) (sb : Sub)
    → length pre ≡ i
    → size ≡ i
    → Thinned pre [] flag sb (purge fuel i (record { contacts = pre ++ post; size = size }) flag sb)
unfolding listed thin
purge-thin_nil fuel i size pre post flag sb e t = record {
  book = record { contacts = pre ++ post; size = size };
  post = post;
  returned =
      purge_stop fuel i size (pre ++ post) flag sb (omega arith)
      ∙ ap (λ g. some (record { book = record { contacts = pre ++ post; size = size }; found = g }))
          (or_false flag);
  cells = refl;
  counted = omega arith;
}

purge-thin_last :
    (fuel i size : ℕ) (pre : List Sub) (c : Sub) (post : List Sub) (flag : Bool) (sb : Sub)
    → length pre ≡ i
    → size ≡ suc i
    → same c sb ≡ true
    → Thinned pre
        (c ∷ [])
        flag
        sb
        (purge (suc fuel) i (record { contacts = pre ++ c ∷ post; size = size }) flag sb)
unfolding last_of
purge-thin_last fuel i size pre c post flag sb e t h = record {
  book = record { contacts = pre ++ c ∷ post; size = size - 1 };
  post = c ∷ post;
  returned =
      purge_hit fuel i size pre c [] post flag sb e (omega arith) h
      ∙ purge_stop fuel (suc i) (size - 1) (pre ++ c ∷ post) true sb (omega arith)
      ∙ ap
          (λ g.
            some
              (record { book = record { contacts = pre ++ c ∷ post; size = size - 1 }; found = g }))
          (found_here flag sb c [] h);
  cells = rw (thin_hit sb c [] h) (unfold thin in refl);
  counted = rw (thin_hit sb c [] h) (unfold thin in omega arith);
}

purge-thin :
    (fuel i size : ℕ) (pre ys post : List Sub) (flag : Bool) (sb : Sub)
    → length pre ≡ i
    → size ≡ i + length ys
    → length ys ≤ fuel
    → Thinned pre ys flag sb
        (purge fuel i (record { contacts = pre ++ (ys ++ post); size = size }) flag sb)
unfolding last_of
purge-thin fuel i size pre [] post flag sb e t f =
    purge-thin_nil fuel i size pre post flag sb e (omega arith)
purge-thin zero i size pre (c ∷ ys) post flag sb e t f = absurd (omega arith)
purge-thin (suc fuel) i size pre (c ∷ []) post flag sb e t f = elim (Bool-cases (same c sb)) [
  | inl h ↦ purge-thin_last fuel i size pre c post flag sb e (omega arith) h
  | inr h ↦
      let later =
        purge-thin fuel (suc i) size (pre ++ c ∷ []) [] post flag sb (length-snoc pre c i e)
          (omega arith) (omega arith) in
      Thinned-keep pre c [] flag sb _ _ h
        (purge_keep fuel i size pre c post flag sb e (omega arith) h)
        (rw (append_assoc pre (c ∷ []) post) at later)
]
purge-thin (suc fuel) i size pre (c ∷ y ∷ ys) post flag sb e t f = elim (Bool-cases (same c sb)) [
  | inl h ↦
      let more = last_of y ys ∷ post in
      let later =
        purge-thin fuel (suc i) (size - 1) (pre ++ y ∷ []) ys more true sb (length-snoc pre y i e)
          (omega arith) (omega arith) in
      Thinned-hit pre c y ys flag sb _ _ h
        (purge_hit fuel i size pre c (y ∷ ys) post flag sb e (omega arith) h)
        (rw (append_assoc pre (y ∷ []) (ys ++ more)) at later)
  | inr h ↦
      let later =
        purge-thin fuel (suc i) size (pre ++ c ∷ []) (y ∷ ys) post flag sb (length-snoc pre c i e)
          (omega arith) (omega arith) in
      Thinned-keep pre c (y ∷ ys) flag sb _ _ h
        (purge_keep fuel i size pre c (y ∷ (ys ++ post)) flag sb e (omega arith) h)
        (rw (append_assoc pre (c ∷ []) (y ∷ (ys ++ post))) at later)
]

-- On a valid book `del_sub` reads and writes inside the array, reports whether anybody of the name and
-- surename is listed, and leaves the contacts with each match deleted unless the contact before it
-- was just deleted: such a match is passed over.
pub del_sub-thin :
    (b : Contacts) (sb : Sub)
    → IsValid b
    → (b' : Contacts) × (del_sub b sb ≡ some (record { book = b'; found = listed sb (contents b) }))
      × (contents b' ≡ thin false sb (contents b))
      × IsValid b'
unfolding del_sub
del_sub-thin b sb v =
    let l = contents b in
    let len : length l ≡ b.size = omega (arith, length-take b.size b.contacts) in
    let t =
      purge-thin b.size 0 b.size [] l (drop b.size b.contacts) false sb refl (omega arith)
        (omega arith) in
    let short =
      take-append_length t.book.size (thin false sb l) t.post (omega (arith, t.counted)) in
    (
      t.book,
      rw (take-append-drop b.size b.contacts) at t.returned,
      rw (t.cells) short,
      omega (arith, ap length t.cells, t.counted, length-append (thin false sb l) t.post),
    )
