-- ===== src/Tables/Loops.antt =====
-- The loops stay inside the arrays, and what they print.
use mathlib.Core.List.{reverse, reverse-append}
use study_eltex.Prelude.{
  ℕ, zero, suc, ◌-◌, ◌≡◌, refl, ap, sym, true, some, List, [], ◌∷◌, ◌++◌, append-nil, append_assoc,
  length, get_elem?, set, take, drop, take-append-drop, length-take, length-drop, replicate,
  length-append, length-replicate, length-snoc, snoc_view, get_elem?-middle, set-middle, ltb,
  lt→ltb, arith,
}
use study_eltex.Contacts.{◌>>=◌}
use study_eltex.Tables.{print_row, print_rows, print_back, fill_row, fill_rows, task3}

module _ {ℓ} {A : Type ℓ} (pre : List A) (x : A) (ys : List A) (j : ℕ) (e : length pre ≡ j) where
  get_elem?-at : get_elem? (pre ++ x ∷ ys) j ≡ some x
  get_elem?-at = rw (sym e) (get_elem?-middle pre x ys)

  set-at : (v : A) → set (pre ++ x ∷ ys) j v ≡ pre ++ v ∷ ys
  set-at v = rw (sym e) (set-middle pre x v ys)

-- From behind a prefix a row is printed to its end.
print_row-append :
    (pre row : List ℕ) (j : ℕ) → length pre ≡ j → print_row (length row) j (pre ++ row) ≡ some row
unfolding print_row
print_row-append pre [] j e = refl
print_row-append pre (x ∷ row) j e =
    let next = print_row-append (pre ++ x ∷ []) row (suc j) (length-snoc pre x j e) in
    rw (get_elem?-at pre x row j e, rw (append_assoc pre (x ∷ []) row) at next) refl

-- Every row has `size` cells.
abbrev pub AreRows : (size : ℕ) → List (List ℕ) → Type 0
AreRows size [] = Unit
AreRows size (row ∷ rows) = (length row ≡ size) × AreRows size rows

print_rows-append :
    (size : ℕ) (pre rows : List (List ℕ)) (i : ℕ)
    → length pre ≡ i
    → AreRows size rows
    → print_rows size (length rows) i (pre ++ rows) ≡ some rows
unfolding print_rows
print_rows-append size pre [] i e h = refl
print_rows-append size pre (row ∷ rows) i e h =
    let next =
      print_rows-append size (pre ++ row ∷ []) rows (suc i) (length-snoc pre row i e) h.1 in
    let line : print_row size 0 row ≡ some row = rw h.0 at (print_row-append [] row 0 refl) in
    rw (get_elem?-at pre row rows i e, line, rw (append_assoc pre (row ∷ []) rows) at next) refl

print_back-append :
    (n : ℕ) (arr post : List ℕ) → length arr ≡ n → print_back n (arr ++ post) ≡ some (reverse arr)
unfolding print_back
print_back-append zero [] post e = refl
print_back-append zero (x ∷ arr) post e = absurd (omega arith)
print_back-append (suc n) arr post e =
    let (ys, y, split, len) = snoc_view n arr e in
    let whole : (ys ++ y ∷ []) ++ post ≡ ys ++ y ∷ post = append_assoc ys (y ∷ []) post in
    rw (split, whole, get_elem?-at ys y post n len, print_back-append n ys (y ∷ post) len)
      (rw (reverse-append ys (y ∷ [])) refl)

-- A row among others, of which the loop over j overwrites a part.
fill_row-replicate :
    (v : ℕ) (done rest : List (List ℕ)) (pre old post : List ℕ) (j i : ℕ)
    → length done ≡ i
    → length pre ≡ j
    → fill_row v (length old) j i (done ++ (pre ++ (old ++ post)) ∷ rest)
      ≡ some (done ++ (pre ++ (replicate (length old) v ++ post)) ∷ rest)
unfolding fill_row
fill_row-replicate v done rest pre [] post j i d e = refl
fill_row-replicate v done rest pre (x ∷ old) post j i d e =
    let next =
      fill_row-replicate v done rest (pre ++ v ∷ []) old post (suc j) i d (length-snoc pre v j e) in
    let next' =
      rw
        (
          append_assoc pre (v ∷ []) (old ++ post),
          append_assoc pre (v ∷ []) (replicate (length old) v ++ post),
        )
        at next in
    let inside : ltb j (length (pre ++ x ∷ (old ++ post))) ≡ true =
      lt→ltb j _ (omega (arith, length-append pre (x ∷ (old ++ post)), length-append old post)) in
    rw
      (
        get_elem?-at done (pre ++ x ∷ (old ++ post)) rest i d,
        inside,
        set-at done (pre ++ x ∷ (old ++ post)) rest i d (set (pre ++ x ∷ (old ++ post)) j v),
        set-at pre x (old ++ post) j e v,
      )
      next'

-- Row i: ones in front of column size - i and zeros from there on.
abbrev pub triangle_row : (size i : ℕ) → List ℕ
triangle_row size i = replicate (size - i) 1 ++ replicate (size - (size - i)) 0

abbrev pub triangle : (size rounds i : ℕ) → List (List ℕ)
triangle size zero i = []
triangle size (suc rounds) i = triangle_row size i ∷ triangle size rounds (suc i)

-- One row of task3.c.
two_fills :
    (size : ℕ) (done rest : List (List ℕ)) (row : List ℕ) (i : ℕ)
    → length done ≡ i
    → length row ≡ size
    → (fill_row 1 (size - i) 0 i (done ++ row ∷ rest)
        >>= fill_row 0 (size - (size - i)) (size - i) i)
      ≡ some (done ++ triangle_row size i ∷ rest)
two_fills size done rest row i d e =
    let m = size - i in
    let front : length (take m row) ≡ m = omega (arith, length-take m row) in
    let back : length (drop m row) ≡ size - m = omega (arith, length-drop m row) in
    let ones = fill_row-replicate 1 done rest [] (take m row) (drop m row) 0 i d refl in
    let zeros =
      fill_row-replicate 0 done rest (replicate m 1) (drop m row) [] m i d (length-replicate m 1) in
    let ones' = rw (front, take-append-drop m row) at ones in
    let zeros' =
      rw (back, append-nil (drop m row), append-nil {A = ℕ} (replicate (size - m) 0)) at zeros in
    rw ones' zeros'

fill_rows-triangle :
    (size : ℕ) (done rows : List (List ℕ)) (i : ℕ)
    → length done ≡ i
    → AreRows size rows
    → fill_rows size (length rows) i (done ++ rows) ≡ some (done ++ triangle size (length rows) i)
unfolding fill_rows
fill_rows-triangle size done [] i d h = refl
fill_rows-triangle size done (row ∷ rows) i d h =
    let first = two_fills size done rows row i d h.0 in
    let next =
      fill_rows-triangle size (done ++ triangle_row size i ∷ []) rows (suc i)
        (length-snoc done _ i d) h.1 in
    let next' =
      rw
        (
          append_assoc done (triangle_row size i ∷ []) rows,
          append_assoc done (triangle_row size i ∷ []) (triangle size (length rows) (suc i)),
        )
        at next in
    rw first next'

length-triangle : (size rounds i : ℕ) → length (triangle size rounds i) ≡ rounds
length-triangle size zero i = refl
length-triangle size (suc rounds) i = ap suc (length-triangle size rounds (suc i))

triangle-AreRows : (size rounds i : ℕ) → AreRows size (triangle size rounds i)
triangle-AreRows size zero i = tt
triangle-AreRows size (suc rounds) i = (
  omega (
    arith,
    length-append {A = ℕ} (replicate (size - i) 1) (replicate (size - (size - i)) 0),
    length-replicate {A = ℕ} (size - i) 1,
    length-replicate {A = ℕ} (size - (size - i)) 0,
  ),
  triangle-AreRows size rounds (suc i),
)

-- Of a square of any size task1.c prints the rows as they are, and task3.c ones up to the other diagonal and zeros
-- behind it; task2.c prints an array of any size from its end. No access is out of bounds.
pub arrays_printed :
    (size : ℕ) (square : List (List ℕ)) (arr : List ℕ)
    → length square ≡ size
    → AreRows size square
    → (print_rows size size 0 square ≡ some square)
      × (task3 size square ≡ some (triangle size size 0))
      × (print_back (length arr) arr ≡ some (reverse arr))
unfolding task3
arrays_printed size square arr e h =
    let filled = rw e at (fill_rows-triangle size [] square 0 refl h) in
    let shown =
      print_rows-append size [] (triangle size size 0) 0 refl (triangle-AreRows size size 0) in
    (
      rw e at (print_rows-append size [] square 0 refl h),
      rw filled (rw (length-triangle size size 0) at shown),
      rw (append-nil arr) at (print_back-append (length arr) arr [] refl),
    )
