-- ===== src/Contacts/Sort/Insertion.antt =====
-- Stable insertion sort by name, the reference that the loops are compared with.
use study_eltex.Prelude.{
  ◌≡◌, refl, suc, false, List, [], ◌∷◌, str_lt, str_lt_asym, str_ge_trans, if◌then◌else◌,
  Bool-cases, inl, inr, arith, Bytes, str_eq, str_eq→eq, length,
}
use study_eltex.Contacts.{Sub}
use mathlib.Core.List.{Perm}
use mathlib.Core.List.Perm

-- `x` is not behind `y` in the order of the names.
abbrev pub ◌≼◌ : Sub → Sub → Type 0
◌≼◌ x y = str_lt y.name x.name ≡ false

unfoldable pub insert : Sub → List Sub → List Sub
insert x [] = x ∷ []
insert x (y ∷ ys) = if str_lt y.name x.name then y ∷ insert x ys else x ∷ y ∷ ys

unfoldable pub insertion_sort : List Sub → List Sub
insertion_sort [] = []
insertion_sort (x ∷ xs) = insert x (insertion_sort xs)

abbrev pub IsBelow : Sub → List Sub → Type 0
IsBelow x [] = Unit
IsBelow x (y ∷ ys) = ◌≼◌ x y × IsBelow x ys

-- Every contact stands before none that precedes it in the order of the names.
abbrev pub IsSorted : List Sub → Type 0
IsSorted [] = Unit
IsSorted (x ∷ xs) = IsBelow x xs × IsSorted xs

pub IsBelow-trans : (x y : Sub) (l : List Sub) → ◌≼◌ x y → IsBelow y l → IsBelow x l
IsBelow-trans x y [] h b = tt
IsBelow-trans x y (z ∷ l) h b = (str_ge_trans x.name y.name z.name h b.0, IsBelow-trans x y l h b.1)

IsBelow-insert : (x y : Sub) (l : List Sub) → ◌≼◌ y x → IsBelow y l → IsBelow y (insert x l)
unfolding insert
IsBelow-insert x y [] h b = (h, tt)
IsBelow-insert x y (z ∷ l) h b = elim (Bool-cases (str_lt z.name x.name)) [
  | inl e ↦ rw e (b.0, IsBelow-insert x y l h b.1)
  | inr e ↦ rw e (h, b)
]

insert-IsSorted : (x : Sub) (l : List Sub) → IsSorted l → IsSorted (insert x l)
unfolding insert
insert-IsSorted x [] s = (tt, tt)
insert-IsSorted x (y ∷ l) s = elim (Bool-cases (str_lt y.name x.name)) [
  | inl e ↦ rw e (IsBelow-insert x y l (str_lt_asym _ _ e) s.0, insert-IsSorted x l s.1)
  | inr e ↦ rw e ((e, IsBelow-trans x y l e s.0), s)
]

pub insertion_sort-IsSorted : (l : List Sub) → IsSorted (insertion_sort l)
unfolding insertion_sort
insertion_sort-IsSorted [] = tt
insertion_sort-IsSorted (x ∷ l) = insert-IsSorted x _ (insertion_sort-IsSorted l)

length-insert : (x : Sub) (l : List Sub) → length (insert x l) ≡ suc (length l)
unfolding insert
length-insert x [] = refl
length-insert x (y ∷ l) = ground (arith, length-insert x l)

pub length-insertion_sort : (l : List Sub) → length (insertion_sort l) ≡ length l
unfolding insertion_sort
length-insertion_sort [] = refl
length-insertion_sort (x ∷ l) =
    omega (arith, length-insert x (insertion_sort l), length-insertion_sort l)

insert-perm : (x : Sub) (l : List Sub) → Perm (insert x l) (x ∷ l)
unfolding insert
insert-perm x [] = Perm.rfl
insert-perm x (y ∷ l) = elim (Bool-cases (str_lt y.name x.name)) [
  | inl e ↦ rw e (Perm.trans (Perm.cons y (insert-perm x l)) (Perm.swap x y l))
  | inr e ↦ rw e Perm.rfl
]

pub insertion_sort-perm : (l : List Sub) → Perm (insertion_sort l) l
unfolding insertion_sort
insertion_sort-perm [] = Perm.rfl
insertion_sort-perm (x ∷ l) =
    Perm.trans (insert-perm x (insertion_sort l)) (Perm.cons x (insertion_sort-perm l))

-- A sorted list is left as it is.
pub insert_of_IsBelow : (x : Sub) (l : List Sub) → IsBelow x l → insert x l ≡ x ∷ l
unfolding insert
insert_of_IsBelow x [] h = refl
insert_of_IsBelow x (y ∷ l) h = rw (h.0)

pub insertion_sort_of_IsSorted : (l : List Sub) → IsSorted l → insertion_sort l ≡ l
unfolding insertion_sort
insertion_sort_of_IsSorted [] s = refl
insertion_sort_of_IsSorted (x ∷ l) s =
    rw (insertion_sort_of_IsSorted l s.1) (insert_of_IsBelow x l s.0)

-- The contacts of one name, in their order.
unfoldable pub named : Bytes → List Sub → List Sub
named n [] = []
named n (x ∷ xs) = if str_eq x.name n then x ∷ named n xs else named n xs

str_lt_irrefl : (s : Bytes) → str_lt s s ≡ false
str_lt_irrefl s = elim (Bool-cases (str_lt s s)) [ inl e ↦ str_lt_asym s s e | inr e ↦ e ]

named-insert : (n : Bytes) (x : Sub) (l : List Sub) → named n (insert x l) ≡ named n (x ∷ l)
unfolding named insert
named-insert n x [] = refl
named-insert n x (y ∷ l) =
    ground (arith, named-insert n x l, str_eq→eq x.name n, str_eq→eq y.name n, str_lt_irrefl n)

pub named-insertion_sort : (n : Bytes) (l : List Sub) → named n (insertion_sort l) ≡ named n l
unfolding insertion_sort named
named-insertion_sort n [] = refl
named-insertion_sort n (x ∷ l) =
    ground (arith, named-insert n x (insertion_sort l), named-insertion_sort n l)
