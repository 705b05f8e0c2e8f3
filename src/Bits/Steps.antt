-- ===== src/Bits/Steps.antt =====
-- `bit_and` and `bit_or` byte by byte: what the native library says of one binary digit, squared three times.
use Prim.Native.Nat.{min, max, bit_and, bit_or, bitwise, digits, bit_and-bitwise, bit_or-bitwise}
use study_eltex.Prelude.{ℕ, zero, suc, ◌+◌, ◌*◌, ◌/◌, ◌%◌, ◌≤◌, ◌<◌, ◌≡◌, refl, sym, ◌∙◌, ap, arith}

-- An operation works on the digits of base `d` one by one.
abbrev Splits : (ℕ → ℕ → ℕ) → (d : ℕ) → Type 0
Splits f d = (a b : ℕ) → f a b ≡ f (a / d) (b / d) * d + f (a % d) (b % d)

-- For any operation on binary digits that is given with its result on a number that has run out.
module _ (ends : ℕ → ℕ) (op : ℕ → ℕ → ℕ) where
  run_out : (n b : ℕ) → digits ends op n 0 b ≡ ends b
  run_out zero b = refl
  run_out (suc n) b = refl

  -- How many digits are to go is of no matter, as long as they are enough.
  same_digits : (n m a b : ℕ) → a ≤ n → a ≤ m → digits ends op n a b ≡ digits ends op m a b
  same_digits n m zero b h k = run_out n b ∙ sym (run_out m b)
  same_digits zero m (suc a) b h k = absurd (omega arith)
  same_digits (suc n) zero (suc a) b h k = absurd (omega arith)
  same_digits (suc n) (suc m) (suc a) b h k =
      ap (λ high. high * 2 + op (suc a % 2) (b % 2))
        (same_digits n m (suc a / 2) (b / 2) (omega arith) (omega arith))

  bitwise-digit :
      (a b : ℕ)
      → ((c : ℕ) → ends c ≡ ends (c / 2) * 2 + op 0 (c % 2))
      → bitwise ends op a b ≡ bitwise ends op (a / 2) (b / 2) * 2 + op (a % 2) (b % 2)
  bitwise-digit zero b h = h b
  bitwise-digit (suc a) b h =
      ap (λ high. high * 2 + op (suc a % 2) (b % 2))
        (same_digits a (suc a / 2) (suc a / 2) (b / 2) (omega arith) (omega arith))

  -- The digits of a digit are itself.
  bitwise-Splits :
      ((c : ℕ) → ends c ≡ ends (c / 2) * 2 + op 0 (c % 2)) → ends 0 ≡ 0 → Splits (bitwise ends op) 2
  bitwise-Splits h e a b =
      let small : bitwise ends op (a % 2) (b % 2) ≡ bitwise ends op 0 0 * 2 + op (a % 2) (b % 2) =
        rw (lone a, lone b, low a, low b) at (bitwise-digit (a % 2) (b % 2) h) in
      omega (arith, bitwise-digit a b h, small, e)
    where
      lone : (c : ℕ) → c % 2 / 2 ≡ 0
      lone c = omega arith

      low : (c : ℕ) → c % 2 % 2 ≡ c % 2
      low c = omega arith

and-Splits2 : Splits bit_and 2
and-Splits2 a b = omega (
  arith,
  bitwise-Splits (λ c. zero) min (λ c. omega arith) refl a b,
  bit_and-bitwise a b,
  bit_and-bitwise (a / 2) (b / 2),
  bit_and-bitwise (a % 2) (b % 2),
)

or-Splits2 : Splits bit_or 2
or-Splits2 a b = omega (
  arith,
  bitwise-Splits (λ c. c) max (λ c. omega arith) refl a b,
  bit_or-bitwise a b,
  bit_or-bitwise (a / 2) (b / 2),
  bit_or-bitwise (a % 2) (b % 2),
)

regrouped : (z w y d : ℕ) → (z * d + w) * d + y ≡ z * (d * d) + (w * d + y)
regrouped z w y d = grind arith

-- From base d to base d * d.
Splits-square :
    (f : ℕ → ℕ → ℕ) (d : ℕ)
    → ((a : ℕ) → a / d / d ≡ a / (d * d))
    → ((a : ℕ) → a % (d * d) / d ≡ a / d % d)
    → ((a : ℕ) → a % (d * d) % d ≡ a % d)
    → Splits f d
    → Splits f (d * d)
Splits-square f d over mid low h a b =
    let low_part : f (a % (d * d)) (b % (d * d))
        ≡ f (a / d % d) (b / d % d) * d + f (a % d) (b % d) =
      rw (mid a, mid b, low a, low b) at (h (a % (d * d)) (b % (d * d))) in
    let high_part : f (a / d) (b / d)
        ≡ f (a / (d * d)) (b / (d * d)) * d + f (a / d % d) (b / d % d) =
      rw (over a, over b) at (h (a / d) (b / d)) in
    h a b
    ∙ (rw (high_part, low_part)
        (regrouped (f (a / (d * d)) (b / (d * d))) (f (a / d % d) (b / d % d)) (f (a % d) (b % d))
          d))

Splits4 : (f : ℕ → ℕ → ℕ) → Splits f 2 → Splits f 4
Splits4 f = Splits-square f 2 (λ a. omega arith) (λ a. omega arith) (λ a. omega arith)

Splits16 : (f : ℕ → ℕ → ℕ) → Splits f 2 → Splits f 16
Splits16 f h =
    Splits-square f 4 (λ a. omega arith) (λ a. omega arith) (λ a. omega arith) (Splits4 f h)

Splits256 : (f : ℕ → ℕ → ℕ) → Splits f 2 → Splits f 256
Splits256 f h =
    Splits-square f 16 (λ a. omega arith) (λ a. omega arith) (λ a. omega arith) (Splits16 f h)

pub and-Splits : Splits bit_and 256
and-Splits = Splits256 bit_and and-Splits2

pub or-Splits : Splits bit_or 256
or-Splits = Splits256 bit_or or-Splits2

-- A mask of ones keeps a number that is no longer than it.
full2 : (x : ℕ) → x < 2 → bit_and x 1 ≡ x
full2 zero h = refl
full2 (suc zero) h = refl
full2 (suc (suc x)) h = absurd (omega arith)

full4 : (x : ℕ) → x < 4 → bit_and x 3 ≡ x
full4 x h = omega (arith, and-Splits2 x 3, full2 (x / 2) (omega arith), full2 (x % 2) (omega arith))

full16 : (x : ℕ) → x < 16 → bit_and x 15 ≡ x
full16 x h = omega (
  arith,
  Splits4 bit_and and-Splits2 x 15,
  full4 (x / 4) (omega arith),
  full4 (x % 4) (omega arith),
)

pub and-full : (x : ℕ) → x < 256 → bit_and x 255 ≡ x
and-full x h = omega (
  arith,
  Splits16 bit_and and-Splits2 x 255,
  full16 (x / 16) (omega arith),
  full16 (x % 16) (omega arith),
)

-- A mask of zeros.
no_digits : (n a : ℕ) → digits (λ c. zero) min n a 0 ≡ 0
no_digits zero a = refl
no_digits (suc n) zero = refl
no_digits (suc n) (suc a) = omega (arith, no_digits n (suc a / 2))

pub and-none : (a : ℕ) → bit_and a 0 ≡ 0
and-none a = bit_and-bitwise a 0 ∙ no_digits a a

own_digits : (n a : ℕ) → a ≤ n → digits (λ c. c) max n a 0 ≡ a
own_digits n zero h = run_out (λ c. c) max n 0
own_digits zero (suc a) h = absurd (omega arith)
own_digits (suc n) (suc a) h = omega (arith, own_digits n (suc a / 2) (omega arith))

pub or-none : (a : ℕ) → bit_or a 0 ≡ a
or-none a = bit_or-bitwise a 0 ∙ own_digits a a (omega arith)

pub none-or : (b : ℕ) → bit_or 0 b ≡ b
none-or b = bit_or-bitwise 0 b
