-- ===== src/Contacts/Sort/Loops.antt =====
-- The loops of `sort` against insertion sort: no index leaves the array, and what lies behind `size`
-- is not touched.
use study_eltex.Prelude.{
  ℕ, zero, suc, ◌+◌, ◌-◌, ◌<◌, ◌≤◌, ◌≡◌, refl, sym, ap, ◌∙◌, Option, some, true, false, List, [],
  ◌∷◌, ◌++◌, append_assoc, str_lt, str_lt_asym, if◌then◌else◌, Bool-cases, inl, inr, arith, length,
  Bytes, take, drop, get_elem?-middle, get_elem?-middle_suc, set-middle, set-middle_suc, snoc_view,
  length-snoc, take-append-drop, length-take,
}
use study_eltex.Contacts.{Sub, out_of_order, exchange}
use study_eltex.Contacts.Sort.{exchange_if, bubble, settle, outer, sort}
use study_eltex.Contacts.Sort.Insertion.{
  IsBelow, IsSorted, insert, insertion_sort, insertion_sort-IsSorted, length-insertion_sort,
  insertion_sort-perm, named, named-insertion_sort,
}
use mathlib.Core.List.{Perm}

out_of_order_at :
    (pre : List Sub) (x y : Sub) (ys : List Sub)
    → out_of_order (pre ++ x ∷ y ∷ ys) (length pre) ≡ some (str_lt y.name x.name)
unfolding out_of_order
out_of_order_at pre x y ys = rw (get_elem?-middle pre x, get_elem?-middle_suc pre x y ys)

exchange_at :
    (pre : List Sub) (x y : Sub) (ys : List Sub)
    → exchange (pre ++ x ∷ y ∷ ys) (length pre) ≡ some (pre ++ y ∷ x ∷ ys)
unfolding exchange
exchange_at pre x y ys = rw (
  get_elem?-middle pre x,
  get_elem?-middle_suc pre x y ys,
  set-middle_suc pre x y x ys,
  set-middle pre x y (x ∷ ys),
)

-- One round, from what the rest of the loop makes of the two outcomes of its test.
bubble_step :
    (pre : List Sub) (x y : Sub) (rest : List Sub) (rounds p : ℕ)
    → length pre ≡ p
    → (swapped kept : Option (List Sub)) → bubble rounds (suc p) (pre ++ y ∷ x ∷ rest) ≡ swapped
    → bubble rounds (suc p) (pre ++ x ∷ y ∷ rest) ≡ kept
    → bubble (suc rounds) p (pre ++ x ∷ y ∷ rest) ≡ (if str_lt y.name x.name then swapped else kept)
unfolding bubble exchange_if
bubble_step pre x y rest rounds p e swapped kept hs hk = rw (← e) (
    rw (out_of_order_at pre x y rest) (elim (Bool-cases (str_lt y.name x.name)) [
      | inl l ↦ rw (l, exchange_at pre x y rest, e) hs
      | inr l ↦ rw (l, e) hk
    ]))

-- What one inner loop makes of `x` and the elements behind it.
pass : Sub → List Sub → List Sub
pass x [] = x ∷ []
pass x (y ∷ ys) = if str_lt y.name x.name then y ∷ pass x ys else x ∷ pass y ys

bubble-pass :
    (pre : List Sub) (x : Sub) (ys post : List Sub) (p : ℕ)
    → length pre ≡ p
    → bubble (length ys) p (pre ++ x ∷ (ys ++ post)) ≡ some (pre ++ (pass x ys ++ post))
unfolding bubble pass
bubble-pass pre x [] post p e = refl
bubble-pass pre x (y ∷ ys) post p e =
    let swapped = bubble-pass (pre ++ y ∷ []) x ys post (suc p) (length-snoc pre y p e) in
    let kept = bubble-pass (pre ++ x ∷ []) y ys post (suc p) (length-snoc pre x p e) in
    bubble_step pre x y (ys ++ post) (length ys) p e _ _ (simp append_assoc at swapped)
      (simp append_assoc at kept)
    ∙ ground arith

pass_of_IsSorted : (x : Sub) (ys : List Sub) → IsBelow x ys → IsSorted ys → pass x ys ≡ x ∷ ys
unfolding pass
pass_of_IsSorted x [] b s = refl
pass_of_IsSorted x (y ∷ ys) b s = rw (b.0) (ap (◌∷◌ x) (pass_of_IsSorted y ys s.0 s.1))

pass-insert : (x : Sub) (ys : List Sub) → IsSorted ys → pass x ys ≡ insert x ys
unfolding pass insert
pass-insert x [] s = refl
pass-insert x (y ∷ ys) s = elim (Bool-cases (str_lt y.name x.name)) [
  | inl l ↦ rw l (ap (◌∷◌ y) (pass-insert x ys s.1))
  | inr l ↦ rw l (ap (◌∷◌ x) (pass_of_IsSorted y ys s.0 s.1))
]

pass_late :
    (x y : Sub) (ys : List Sub)
    → IsSorted ys
    → str_lt y.name x.name ≡ true
    → pass y (x ∷ ys) ≡ insert x (y ∷ ys)
unfolding pass insert
pass_late x y ys s l = rw (l, str_lt_asym _ _ l) (ap (◌∷◌ y) (pass-insert x ys s))

insert_early :
    (x y : Sub) (ys : List Sub) → str_lt y.name x.name ≡ false → insert x (y ∷ ys) ≡ x ∷ y ∷ ys
unfolding insert
insert_early x y ys l = rw l

-- The body of the outer loop inserts `x` into the sorted part behind it.
settle-insert :
    (pre : List Sub) (x : Sub) (rest post : List Sub) (size : ℕ)
    → IsSorted rest
    → 0 < length rest
    → size ≡ length pre + suc (length rest)
    → settle size (length pre) (pre ++ x ∷ (rest ++ post)) ≡ some (pre ++ (insert x rest ++ post))
unfolding settle
settle-insert pre x [] post size s pos e = absurd (omega arith)
settle-insert pre x (y ∷ ys) post size s pos e =
    rw (out_of_order_at pre x y (ys ++ post)) (elim (Bool-cases (str_lt y.name x.name)) [
      | inl l ↦
          rw (l, exchange_at pre x y (ys ++ post), rounds)
            (bubble-pass pre y (x ∷ ys) post (length pre) refl
              ∙ ap (λ m. some (pre ++ (m ++ post))) (pass_late x y ys s.1 l))
      | inr l ↦ rw l (ap (λ m. some (pre ++ (m ++ post))) (sym (insert_early x y ys l)))
    ])
  where
    rounds : size - suc (length pre) ≡ suc (length ys)
    rounds = omega arith

outer-insertion_sort :
    (left : ℕ) (pre mid post : List Sub) (size : ℕ)
    → length pre ≡ left
    → 0 < length mid
    → size ≡ left + length mid
    → outer size left (pre ++ (insertion_sort mid ++ post))
      ≡ some (insertion_sort (pre ++ mid) ++ post)
unfolding outer insertion_sort insert
outer-insertion_sort zero [] mid post size e pos t = refl
outer-insertion_sort zero (x ∷ pre) mid post size e pos t = absurd (omega arith)
outer-insertion_sort (suc n) pre mid post size e pos t =
    let (front, x, split, len) = snoc_view n pre e in
    rw (split, append_assoc front, append_assoc front, ← len)
      (rw
        (settle-insert front x (insertion_sort mid) post size (insertion_sort-IsSorted mid)
          (omega (arith, length-insertion_sort mid)) (omega (arith, length-insertion_sort mid)))
        (rw len (outer-insertion_sort n front (x ∷ mid) post size len (omega arith) (omega arith))))

sort-append :
    (n : ℕ) (l post : List Sub)
    → length l ≡ n
    → sort (l ++ post) n ≡ some (insertion_sort l ++ post)
unfolding sort outer insertion_sort insert
sort-append zero [] post e = refl
sort-append zero (x ∷ l) post e = absurd (omega arith)
sort-append (suc n) l post e =
    let (front, x, split, len) = snoc_view n l e in
    let last : suc n - 1 ≡ n = omega arith in
    rw (last, split, append_assoc front)
      (outer-insertion_sort n front (x ∷ []) post (suc n) len (omega arith) (omega arith))

-- On an array with room for `size` contacts `sort` ends with no access out of bounds; it insertion
-- sorts the first `size` contacts and leaves the rest of the array alone.
pub sort-insertion_sort :
    (arr : List Sub) (size : ℕ)
    → size ≤ length arr
    → sort arr size ≡ some (insertion_sort (take size arr) ++ drop size arr)
sort-insertion_sort arr size h =
    let len : length (take size arr) ≡ size = omega (arith, length-take size arr) in
    rw (take-append-drop size arr) at (sort-append size (take size arr) (drop size arr) len)

-- The result of `sort` is the contacts given, in the order of their names, and contacts of one name
-- stay in the order they had.
pub sort_correct :
    (arr : List Sub) (size : ℕ)
    → size ≤ length arr
    → (l : List Sub) × (sort arr size ≡ some (l ++ drop size arr))
      × IsSorted l
      × Perm l (take size arr)
      × ((n : Bytes) → named n l ≡ named n (take size arr))
sort_correct arr size h = (
  insertion_sort (take size arr),
  sort-insertion_sort arr size h,
  insertion_sort-IsSorted (take size arr),
  insertion_sort-perm (take size arr),
  λ n. named-insertion_sort n (take size arr),
)
