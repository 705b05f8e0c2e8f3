-- ===== src/Spiral/Number.antt =====
-- The number that a cell of a spiral has, by the rings from outside inwards.
use study_eltex.Prelude.{ℕ, zero, suc, ◌+◌, ◌-◌, ◌*◌, ◌≡◌, ◌==◌, if◌then◌else◌, arith}
use native.Mathlib.Nat.{mul-suc, suc-mul}

-- In a square of `width` rows: row 0, the last column, the last row backwards, column 0 backwards, then the
-- square inside.
unfoldable pub number : (width i j : ℕ) → ℕ
number zero i j = 0
number (suc zero) i j = 0
number (suc (suc w)) i j =
    let inner = number w (i - 1) (j - 1) in
    let last = suc w in
    if i == 0
    then j
    else if j == last
    then last + i
    else if i == last
    then 2 * last + (last - j)
    else if j == 0
    then 3 * last + (last - i)
    else 4 * last + inner

pub square-step : (w : ℕ) → suc (suc w) * suc (suc w) ≡ w * w + 4 * suc w
square-step w =
    omega (
      arith,
      mul-suc (suc (suc w)) (suc w),
      mul-suc (suc (suc w)) w,
      suc-mul (suc w) w,
      suc-mul w w,
    )
