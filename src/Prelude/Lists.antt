-- ===== src/Prelude/Lists.antt =====
-- Lists measured and indexed by native numbers, under the library's names.
use Prim.Native.Nat.{ℕ, zero, suc, ◌+◌, ◌-◌, ◌<◌, ◌≤◌, min}
use mathlib.Core.Path.{◌≡◌, refl, ap}
use mathlib.Core.Logic.{◌≢◌}
use mathlib.Core.List.{List, [], ◌∷◌, ◌++◌, map}
use mathlib.Core.Option.{Option, none, some}
use native.Mathlib.Omega.{arith}

module _ {ℓ} {A : Type ℓ} where
  abbrev pub length : List A → ℕ
  length [] = 0
  length (x ∷ xs) = suc (length xs)

  abbrev pub get_elem? : List A → ℕ → Option A
  get_elem? [] i = none
  get_elem? (x ∷ xs) zero = some x
  get_elem? (x ∷ xs) (suc i) = get_elem? xs i

  -- A write out of bounds changes nothing.
  abbrev pub set : List A → ℕ → A → List A
  set [] i v = []
  set (x ∷ xs) zero v = v ∷ xs
  set (x ∷ xs) (suc i) v = x ∷ set xs i v

  pub length-append : (xs ys : List A) → length (xs ++ ys) ≡ length xs + length ys
  length-append [] ys = omega arith
  length-append (x ∷ xs) ys = omega (arith, length-append xs ys)

module _ {ℓ} {A : Type ℓ} where
  pub length-set : (xs : List A) (i : ℕ) (v : A) → length (set xs i v) ≡ length xs
  length-set [] i v = refl
  length-set (x ∷ xs) zero v = refl
  length-set (x ∷ xs) (suc i) v = ap suc (length-set xs i v)

  pub get_elem?-set_self :
      (xs : List A) (i : ℕ) (v : A) → i < length xs → get_elem? (set xs i v) i ≡ some v
  get_elem?-set_self [] i v h = elim h [ ]
  get_elem?-set_self (x ∷ xs) zero v h = refl
  get_elem?-set_self (x ∷ xs) (suc i) v h = get_elem?-set_self xs i v (omega arith)

  pub get_elem?-set_ne :
      (xs : List A) {i j : ℕ} (v : A) → i ≢ j → get_elem? (set xs i v) j ≡ get_elem? xs j
  get_elem?-set_ne [] v h = refl
  get_elem?-set_ne (x ∷ xs) {i = zero} {j = zero} v h = absurd (h refl)
  get_elem?-set_ne (x ∷ xs) {i = zero} {j = suc j} v h = refl
  get_elem?-set_ne (x ∷ xs) {i = suc i} {j = zero} v h = refl
  get_elem?-set_ne (x ∷ xs) {i = suc i} {j = suc j} v h = get_elem?-set_ne xs v (λ e. h (ap suc e))

module _ {ℓ} {A : Type ℓ} where
  abbrev pub get_or : List A → ℕ → A → A
  get_or [] i d = d
  get_or (x ∷ xs) zero d = x
  get_or (x ∷ xs) (suc i) d = get_or xs i d

  abbrev pub take : ℕ → List A → List A
  take zero xs = []
  take (suc n) [] = []
  take (suc n) (x ∷ xs) = x ∷ take n xs

  abbrev pub drop : ℕ → List A → List A
  drop zero xs = xs
  drop (suc n) [] = []
  drop (suc n) (x ∷ xs) = drop n xs

  abbrev pub replicate : ℕ → A → List A
  replicate zero a = []
  replicate (suc n) a = a ∷ replicate n a

  pub take-append-drop : (n : ℕ) (xs : List A) → take n xs ++ drop n xs ≡ xs
  take-append-drop zero xs = refl
  take-append-drop (suc n) [] = refl
  take-append-drop (suc n) (x ∷ xs) = rw (take-append-drop n xs)

  pub length-take : (n : ℕ) (xs : List A) → length (take n xs) ≡ min n (length xs)
  length-take zero xs = omega arith
  length-take (suc n) [] = omega arith
  length-take (suc n) (x ∷ xs) = omega (arith, length-take n xs)

  pub length-drop : (n : ℕ) (xs : List A) → length (drop n xs) ≡ length xs - n
  length-drop zero xs = omega arith
  length-drop (suc n) [] = omega arith
  length-drop (suc n) (x ∷ xs) = omega (arith, length-drop n xs)

  pub length-replicate : (n : ℕ) (a : A) → length (replicate n a) ≡ n
  length-replicate zero a = refl
  length-replicate (suc n) a = ap suc (length-replicate n a)

  pub length-map {κ} : {B : Type κ} (xs : List A) (f : A → B) → length (map f xs) ≡ length xs
  length-map [] f = refl
  length-map (x ∷ xs) f = ap suc (length-map xs f)

module _ {ℓ} {A : Type ℓ} where
  -- The element behind a prefix, and what a write there changes.
  pub get_elem?-middle :
      (pre : List A) (x : A) (ys : List A) → get_elem? (pre ++ x ∷ ys) (length pre) ≡ some x
  get_elem?-middle [] x ys = refl
  get_elem?-middle (z ∷ pre) x ys = get_elem?-middle pre x ys

  pub get_elem?-middle_suc :
      (pre : List A) (x y : A) (ys : List A)
      → get_elem? (pre ++ x ∷ y ∷ ys) (suc (length pre)) ≡ some y
  get_elem?-middle_suc [] x y ys = refl
  get_elem?-middle_suc (z ∷ pre) x y ys = get_elem?-middle_suc pre x y ys

  pub set-middle :
      (pre : List A) (x v : A) (ys : List A) → set (pre ++ x ∷ ys) (length pre) v ≡ pre ++ v ∷ ys
  set-middle [] x v ys = refl
  set-middle (z ∷ pre) x v ys = ap (◌∷◌ z) (set-middle pre x v ys)

  pub set-middle_suc :
      (pre : List A) (x y v : A) (ys : List A)
      → set (pre ++ x ∷ y ∷ ys) (suc (length pre)) v ≡ pre ++ x ∷ v ∷ ys
  set-middle_suc [] x y v ys = refl
  set-middle_suc (z ∷ pre) x y v ys = ap (◌∷◌ z) (set-middle_suc pre x y v ys)

  -- A list with `n + 1` elements, taken apart at its end.
  pub snoc_view :
      (n : ℕ) (xs : List A)
      → length xs ≡ suc n
      → (ys : List A) × (y : A) × (xs ≡ ys ++ y ∷ []) × (length ys ≡ n)
  snoc_view n [] e = absurd (omega arith)
  snoc_view zero (x ∷ []) e = ([], x, refl, refl)
  snoc_view zero (x ∷ y ∷ xs) e = absurd (omega arith)
  snoc_view (suc n) (x ∷ xs) e =
      let (ys, y, split, len) = snoc_view n xs (omega arith) in
      (x ∷ ys, y, ap (◌∷◌ x) split, ap suc len)

  pub drop-append_length : (n : ℕ) (xs ys : List A) → length xs ≡ n → drop n (xs ++ ys) ≡ ys
  drop-append_length zero [] ys e = refl
  drop-append_length zero (x ∷ xs) ys e = absurd (omega arith)
  drop-append_length (suc n) [] ys e = absurd (omega arith)
  drop-append_length (suc n) (x ∷ xs) ys e = drop-append_length n xs ys (omega arith)

  pub take-append_length : (n : ℕ) (xs ys : List A) → length xs ≡ n → take n (xs ++ ys) ≡ xs
  take-append_length zero [] ys e = refl
  take-append_length zero (x ∷ xs) ys e = absurd (omega arith)
  take-append_length (suc n) [] ys e = absurd (omega arith)
  take-append_length (suc n) (x ∷ xs) ys e = ap (◌∷◌ x) (take-append_length n xs ys (omega arith))

  -- Writing behind the first `i` elements extends that prefix by one.
  pub take-set :
      (xs : List A) (i m : ℕ) (v : A)
      → i < length xs
      → m ≡ suc i
      → take m (set xs i v) ≡ take i xs ++ v ∷ []
  take-set [] i m v h e = absurd (omega arith)
  take-set (x ∷ xs) zero m v h e = rw e
  take-set (x ∷ xs) (suc i) m v h e = rw e (ap (◌∷◌ x) (take-set xs i (suc i) v (omega arith) refl))

  -- A prefix of what realloc keeps is a prefix of what was there.
  pub take-take_append :
      (i m : ℕ) (xs ys : List A) → i ≤ length xs → i ≤ m → take i (take m (xs ++ ys)) ≡ take i xs
  take-take_append zero m xs ys h k = refl
  take-take_append (suc i) m [] ys h k = absurd (omega arith)
  take-take_append (suc i) zero (x ∷ xs) ys h k = absurd (omega arith)
  take-take_append (suc i) (suc m) (x ∷ xs) ys h k =
      ap (◌∷◌ x) (take-take_append i m xs ys (omega arith) (omega arith))

  pub length-snoc : (pre : List A) (x : A) (p : ℕ) → length pre ≡ p → length (pre ++ x ∷ []) ≡ suc p
  length-snoc pre x p e = omega (arith, length-append pre (x ∷ []))
