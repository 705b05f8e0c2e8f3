-- ===== src/Calculator/Division.antt =====
-- What devid returns, without division.
use study_eltex.Prelude.{
  ℕ, zero, suc, ◌+◌, ◌-◌, ◌*◌, ◌/◌, ◌^◌, ◌≤◌, ◌<◌, ◌≡◌, ◌⊎◌, inl, inr, refl, ap, Bool, true, false,
  Option, none, some, ◌&&◌, ltb, Bool-cases, ◌∙◌, arith,
}
use study_eltex.Prelude.Int.{ℤ, pos, negsuc}
use study_eltex.Calculator.{is_int, int, negative, devid}

abbrev pub size : ℤ → ℕ
size (pos n) = n
size (negsuc n) = suc n

abbrev pub is_below : ℤ → Bool
is_below (pos n) = false
is_below (negsuc n) = true

abbrev pub differ : Bool → Bool → Bool
differ true false = true
differ false true = true
differ _ _ = false

-- q is x through y, rounded to 0.
abbrev pub IsQuotient : (x y q : ℤ) → Type 0
IsQuotient x y q =
    (size q * size y ≤ size x)
    × (size x < (size q + 1) * size y)
    × (is_below q ≡ ltb 0 (size q) && differ (is_below x) (is_below y))

quotient_fits :
    (a b : ℕ) → (a / suc b * suc b ≤ a) × (a < (a / suc b + 1) * suc b) × (a / suc b ≤ a)
quotient_fits a b = (grind arith, grind arith, grind arith)

half_fits : (a b : ℕ) → a / suc (suc b) * 2 ≤ a
half_fits a b = grind (arith, quotient_fits a (suc b))

int-some : (z : ℤ) → is_int z ≡ true → int z ≡ some z
unfolding int
int-some z h = rw h refl

-- A quotient that is an int is what devid returns.
returned :
    (x y q : ℤ) (r : Option ℤ)
    → r ≡ int q
    → is_int q ≡ true
    → IsQuotient x y q
    → (q : ℤ) × (r ≡ some q) × (is_int q ≡ true) × IsQuotient x y q
returned x y q r e i h = (q, e ∙ int-some q i, i, h)

negative-IsQuotient :
    (m n : ℕ)
    → m ≤ 2 ^ 31
    → (is_int (negative (m / suc n)) ≡ true)
      × (size (negative (m / suc n)) ≡ m / suc n)
      × (is_below (negative (m / suc n)) ≡ ltb 0 (size (negative (m / suc n))) && true)
unfolding is_int negative
negative-IsQuotient m n h = let f = quotient_fits m n in (ground arith, ground arith, ground arith)

by_minus_one :
    (a : ℕ)
    → a < 2 ^ 31
    → ((int (pos (suc a / 1)) ≡ none) × (a ≡ 2 ^ 31 - 1)) ⊎ (is_int (pos (suc a / 1)) ≡ true)
unfolding int is_int
by_minus_one a h = elim (Bool-cases (ltb (suc a / 1) (2 ^ 31))) [
  | inl fits ↦ inr fits
  | inr over ↦ inl (rw over refl, ground arith)
]

-- For ints devid is undefined where the divisor is 0 and where the least int is divided by -1, and returns the
-- quotient rounded to 0 otherwise.
pub devid-IsQuotient :
    (x y : ℤ)
    → is_int x ≡ true
    → is_int y ≡ true
    → ((devid x y ≡ none) × ((y ≡ pos 0) ⊎ ((x ≡ negsuc (2 ^ 31 - 1)) × (y ≡ negsuc 0))))
      ⊎ ((q : ℤ) × (devid x y ≡ some q) × (is_int q ≡ true) × IsQuotient x y q)
unfolding devid is_int
devid-IsQuotient x (pos zero) h k = inl (refl, inl refl)
devid-IsQuotient (pos a) (pos (suc b)) h k =
    let f = quotient_fits a b in
    inr (
      returned (pos a) (pos (suc b)) (pos (a / suc b)) _ refl (ground arith)
        (f.0, f.1, ground arith))
devid-IsQuotient (pos a) (negsuc b) h k =
    let f = quotient_fits a b in
    let n = negative-IsQuotient a b (ground arith) in
    inr (
      returned (pos a) (negsuc b) (negative (a / suc b)) _ refl n.0
        (rw (n.1) f.0, rw (n.1) f.1, n.2))
devid-IsQuotient (negsuc a) (pos (suc b)) h k =
    let f = quotient_fits (suc a) b in
    let n = negative-IsQuotient (suc a) b (ground arith) in
    inr (
      returned (negsuc a) (pos (suc b)) (negative (suc a / suc b)) _ refl n.0
        (rw (n.1) f.0, rw (n.1) f.1, n.2))
devid-IsQuotient (negsuc a) (negsuc zero) h k =
    let f = quotient_fits (suc a) 0 in
    elim (by_minus_one a (ground arith)) [
      | inl over ↦ inl (over.0, inr (ap negsuc over.1, refl))
      | inr fits ↦
          inr (
            returned (negsuc a) (negsuc zero) (pos (suc a / 1)) _ refl fits
              (f.0, f.1, ground arith))
    ]
devid-IsQuotient (negsuc a) (negsuc (suc b)) h k =
    let f = quotient_fits (suc a) (suc b) in
    let half = half_fits (suc a) b in
    inr (
      returned (negsuc a) (negsuc (suc b)) (pos (suc a / suc (suc b))) _ refl (ground arith)
        (f.0, f.1, ground arith))
