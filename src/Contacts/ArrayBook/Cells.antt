-- ===== src/Contacts/ArrayBook/Cells.antt =====
-- The array of structures/task.c keeps its 100 cells in del_sub, and what is left of the contacts is no more.
use study_eltex.Prelude.{
  ℕ, zero, suc, ◌-◌, ◌≤◌, ◌≡◌, refl, ◌∙◌, Bool, true, false, Option, none, some, List, [], ◌∷◌,
  length, get_elem?, ltb, Bool-cases, inl, inr, arith,
}
use study_eltex.Contacts.{Sub, ◌>>=◌}
use study_eltex.Contacts.HeapBook.{same, shift}
use study_eltex.Contacts.HeapBook.Pointer.{length-shift}
use study_eltex.Contacts.ArrayBook.{Contacts, Purged, purge, del_sub}
use study_eltex.Contacts.ArrayBook.Delete.{thin}

-- What a call returned, if it did, has `n` cells.
HasCells : (n : ℕ) → Option Purged → Type 0
HasCells n none = Unit
HasCells n (some r) = length r.book.contacts ≡ n

bind-HasCells :
    {A : Type 0} (n : ℕ) (o : Option A) (f : A → Option Purged)
    → ((x : A) → o ≡ some x → HasCells n (f x))
    → HasCells n (o >>= f)
unfolding HasCells
bind-HasCells n none f h = tt
bind-HasCells n (some x) f h = h x refl

purge-HasCells :
    (n fuel i : ℕ) (b : Contacts) (flag : Bool) (sb : Sub)
    → length b.contacts ≡ n
    → HasCells n (purge fuel i b flag sb)
unfolding purge HasCells
purge-HasCells n zero i b flag sb h = h
purge-HasCells n (suc fuel) i b flag sb h = elim (Bool-cases (ltb i b.size)) [
  | inl e ↦ rw e (
      bind-HasCells n (get_elem? b.contacts i) _ (λ c read. elim (Bool-cases (same c sb)) [
        | inl s ↦ rw s (
            bind-HasCells n (shift (b.size - 1 - i) i b.contacts) _ (λ ys moved.
              purge-HasCells n fuel (suc i) (record { contacts = ys; size = b.size - 1 }) true sb
                (length-shift _ i b.contacts ys moved ∙ h)))
        | inr s ↦ rw s (purge-HasCells n fuel (suc i) b flag sb h)
      ]))
  | inr e ↦ rw e h
]

pub del_sub-cells :
    (b : Contacts) (sb : Sub) (r : Purged)
    → del_sub b sb ≡ some r
    → length r.book.contacts ≡ length b.contacts
unfolding del_sub HasCells
del_sub-cells b sb r e = rw e at (purge-HasCells (length b.contacts) b.size 0 b false sb refl)

pub length-thin : (passed : Bool) (sb : Sub) (l : List Sub) → length (thin passed sb l) ≤ length l
unfolding thin
length-thin passed sb [] = omega arith
length-thin true sb (c ∷ l) = omega (arith, length-thin false sb l)
length-thin false sb (c ∷ l) = elim (Bool-cases (same c sb)) [
  | inl s ↦ rw s (omega (arith, length-thin true sb l))
  | inr s ↦ rw s (omega (arith, length-thin false sb l))
]
