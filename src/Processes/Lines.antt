-- ===== src/Processes/Lines.antt =====
-- Comparing what was printed, and the test for processes that have all ended.
use study_eltex.Prelude.{
  ◌≡◌, ◌≢◌, ◌⊎◌, inl, inr, refl, ap, ap₂, Bool, true, false, none, some, List, [], ◌∷◌, ◌&&◌, ◌==◌,
  str_eq, str_eq→eq, arith,
}
use study_eltex.Processes.{Value, number, string, Line, Process, has_ended}

unfoldable pub same_value : Value → Value → Bool
same_value (number m) (number n) = m == n
same_value (string none) (string none) = true
same_value (string (some s)) (string (some t)) = str_eq s t
same_value _ _ = false

unfoldable pub same_values : List Value → List Value → Bool
same_values [] [] = true
same_values (v ∷ l) (w ∷ m) = same_value v w && same_values l m
same_values _ _ = false

unfoldable pub same_lines : List Line → List Line → Bool
same_lines [] [] = true
same_lines (a ∷ l) (b ∷ m) =
    (str_eq a.format b.format && same_values a.values b.values) && same_lines l m
same_lines _ _ = false

-- Every process has ended, and those from the second on have been waited for.
unfoldable pub all_waited : List Process → Bool
all_waited [] = true
all_waited (p ∷ ps) = (has_ended p && p.waited) && all_waited ps

unfoldable pub all_ended : List Process → Bool
all_ended [] = true
all_ended (p ∷ ps) = has_ended p && all_ended ps

unfoldable pub over : List Process → Bool
over [] = true
over (p ∷ ps) = has_ended p && all_waited ps

pub List-cases {ℓ} : {A : Type ℓ} (l : List A) → (l ≢ []) ⊎ (l ≡ [])
List-cases [] = inr refl
List-cases (x ∷ l) = inl (ground arith)

same_value→eq : (v w : Value) → same_value v w ≡ true → v ≡ w
unfolding same_value
same_value→eq (number m) (number n) h = ground arith
same_value→eq (number m) (string s) h = absurd (ground arith)
same_value→eq (string s) (number n) h = absurd (ground arith)
same_value→eq (string none) (string none) h = refl
same_value→eq (string none) (string (some t)) h = absurd (ground arith)
same_value→eq (string (some s)) (string none) h = absurd (ground arith)
same_value→eq (string (some s)) (string (some t)) h = ap (λ u. string (some u)) (str_eq→eq s t h)

same_values→eq : (l m : List Value) → same_values l m ≡ true → l ≡ m
unfolding same_values
same_values→eq [] [] h = refl
same_values→eq [] (w ∷ m) h = absurd (ground arith)
same_values→eq (v ∷ l) [] h = absurd (ground arith)
same_values→eq (v ∷ l) (w ∷ m) h =
    ap₂ (◌∷◌) (same_value→eq v w (ground arith)) (same_values→eq l m (ground arith))

pub same_lines→eq : (l m : List Line) → same_lines l m ≡ true → l ≡ m
unfolding same_lines
same_lines→eq [] [] h = refl
same_lines→eq [] (b ∷ m) h = absurd (ground arith)
same_lines→eq (a ∷ l) [] h = absurd (ground arith)
same_lines→eq (a ∷ l) (b ∷ m) h =
    let f = str_eq→eq a.format b.format (ground arith) in
    let v = same_values→eq a.values b.values (ground arith) in
    ap₂ (◌∷◌) (ap₂ (λ f v. record { format = f; values = v }) f v)
      (same_lines→eq l m (ground arith))
