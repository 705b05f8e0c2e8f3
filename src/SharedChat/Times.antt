-- ===== src/SharedChat/Times.antt =====
-- How often a text of the chat stands in a list.
use study_eltex.Prelude.{
  ℕ, zero, suc, ◌+◌, ◌<◌, ◌≤◌, ◌≡◌, List, [], ◌∷◌, ◌++◌, Bytes, take, str_eq, str_eq_refl,
  if◌then◌else◌, arith,
}

-- How often a text stands in a list.
abbrev pub times : Bytes → List Bytes → ℕ
times s [] = 0
times s (x ∷ xs) = (if str_eq x s then 1 else 0) + times s xs

pub times-append : (s : Bytes) (xs ys : List Bytes) → times s (xs ++ ys) ≡ times s xs + times s ys
times-append s [] ys = omega arith
times-append s (x ∷ xs) ys = omega (arith, times-append s xs ys)

pub times-take : (s : Bytes) (k : ℕ) (xs : List Bytes) → times s (take k xs) ≤ times s xs
times-take s zero xs = omega arith
times-take s (suc k) [] = omega arith
times-take s (suc k) (x ∷ xs) = omega (arith, times-take s k xs)

pub times-last : (s : Bytes) (xs : List Bytes) → 0 < times s (xs ++ s ∷ [])
times-last s xs = ground (arith, times-append s xs (s ∷ []), str_eq_refl s)
