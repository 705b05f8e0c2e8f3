-- ===== src/Calculator.antt =====
-- The calculators of static_lib/calcul.c and dynamic_lib/calcul.c, whose texts are the same, and the four
-- functions that they link. int has 32 bits; `none` is undefined behaviour: an overflow or a division by 0.
pub mod Division
use study_eltex.Prelude.{
  ℕ, zero, suc, ◌-◌, ◌/◌, ◌^◌, ◌≡◌, refl, Bool, true, Option, none, some, List, [], ◌∷◌, Bytes,
  codes, length, ltb, str_eq, if◌then◌else◌, Bool-cases, inl, inr,
}
use study_eltex.Prelude.Int.{ℤ, pos, negsuc, ◌+ℤ◌, ◌-ℤ◌, ◌*ℤ◌, +ℤ_cancel}
use study_eltex.Contacts.{◌>>=◌}

-- The numbers of an int.
unfoldable pub is_int : ℤ → Bool
is_int (pos n) = ltb n (2 ^ 31)
is_int (negsuc n) = ltb n (2 ^ 31)

unfoldable pub int : ℤ → Option ℤ
unfolding is_int
int z = if is_int z then some z else none

-- functions/sum.c, minus.c, multiply.c and devid.c
unfoldable pub sum : ℤ → ℤ → Option ℤ
unfolding int
sum x y = int (x +ℤ y)

pub minus : ℤ → ℤ → Option ℤ
unfolding int
minus x y = int (x -ℤ y)

pub multiply : ℤ → ℤ → Option ℤ
unfolding int
multiply x y = int (x *ℤ y)

-- The quotient of two sizes under a minus sign.
unfoldable pub negative : ℕ → ℤ
negative q = if ltb 0 q then negsuc (q - 1) else pos 0

-- C rounds to 0.
pub devid : ℤ → ℤ → Option ℤ
unfolding int negative
devid x (pos zero) = none
devid (pos a) (pos (suc b)) = int (pos (a / suc b))
devid (pos a) (negsuc b) = int (negative (a / suc b))
devid (negsuc a) (pos (suc b)) = int (negative (suc a / suc b))
devid (negsuc a) (negsuc b) = int (pos (suc a / suc b))

-- What one pass of the loop reads: the command, and the two numbers that a command 1 to 4 goes on to read.
pub record Request : Type 0 where
  pub num : Bytes
  pub x : ℤ
  pub y : ℤ

pub data Answer : Type 0 where
  result : ℤ → Answer
  unknown : Answer

-- N, the size of `num`.
abbrev pub num_size : ℕ
num_size = 10

-- The function that a command calls; `none` of the outer option: there is no such command.
unfoldable pub chosen : Bytes → Option (ℤ → ℤ → Option ℤ)
unfolding sum minus multiply devid
chosen num =
    if str_eq num (codes "1")
    then some sum
    else if str_eq num (codes "2")
    then some minus
    else if str_eq num (codes "3")
    then some multiply
    else if str_eq num (codes "4")
    then some devid
    else none

unfoldable pub answer : Request → Option Answer
unfolding chosen
answer r = elim (chosen r.num) [ none ↦ some unknown | some f ↦ f r.x r.y >>= λ z. some (result z) ]

-- `while (1)` over the requests, to command 5.
pub calculate : List Request → Option (List Answer)
unfolding answer
calculate [] = some []
calculate (r ∷ rest) =
    let later = calculate rest in
    let go_on = answer r >>= λ a. later >>= λ more. some (a ∷ more) in
    if ltb (length r.num) num_size
    then if str_eq r.num (codes "5") then some [] else go_on
    else none

-- The loop of dynamic_lib/calcul.c
abbrev pub calculate_dynamic : List Request → Option (List Answer)
calculate_dynamic = calculate

-- Where two ints have a sum that is an int, `minus` takes the second from it again and gives the first.
pub minus-sum : (x y z : ℤ) → is_int x ≡ true → sum x y ≡ some z → minus z y ≡ some x
unfolding sum minus int
minus-sum x y z h e = elim (Bool-cases (is_int (x +ℤ y))) [
  | inl t ↦
      let found : some (x +ℤ y) ≡ some z = rw t at e in
      let z_eq : z ≡ x +ℤ y = cc in rw z_eq (rw (+ℤ_cancel x y) (rw h refl))
  | inr t ↦ let failed : ◌≡◌ {A = Option ℤ} none (some z) = rw t at e in absurd cc
]
