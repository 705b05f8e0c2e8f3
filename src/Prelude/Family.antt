-- ===== src/Prelude/Family.antt =====
-- Families indexed by numbers: one entry replaced, and the sum of the first entries.
use Prim.Native.Nat.{ℕ, zero, suc, ◌+◌, ◌≤◌, ◌<◌}
use mathlib.Core.Path.{◌≡◌, refl}
use native.Mathlib.Omega.{arith}
use native.Mathlib.Decide.{dec_lt}
use study_eltex.Prelude.Tests.{◌==◌, if◌then◌else◌}

abbrev pub replace {ℓ} : {A : Type ℓ} → (ℕ → A) → ℕ → A → ℕ → A
replace f i v j = if i == j then v else f j

unfoldable pub sum_to : ℕ → (ℕ → ℕ) → ℕ
sum_to zero f = 0
sum_to (suc n) f = f n + sum_to n f

pub sum_to-replace_outside :
    (n : ℕ) (f : ℕ → ℕ) (i v : ℕ) → n ≤ i → sum_to n (replace f i v) ≡ sum_to n f
unfolding sum_to
sum_to-replace_outside zero f i v h = refl
sum_to-replace_outside (suc n) f i v h = ground (arith, sum_to-replace_outside n f i v)

-- Replacing an entry changes the sum by that entry.
pub sum_to-replace :
    (n : ℕ) (f : ℕ → ℕ) (i v : ℕ) → i < n → sum_to n (replace f i v) + f i ≡ sum_to n f + v
unfolding sum_to
sum_to-replace zero f i v h = absurd (omega arith)
sum_to-replace (suc n) f i v h = elim (dec_lt i n) [
  | yes below ↦ ground (arith, sum_to-replace n f i v below)
  | no last ↦ ground (arith, sum_to-replace_outside n f i v)
]

-- The sums of two families that agree are equal.
pub sum_to-agree : (n : ℕ) (f g : ℕ → ℕ) → ((i : ℕ) → f i ≡ g i) → sum_to n f ≡ sum_to n g
unfolding sum_to
sum_to-agree zero f g h = refl
sum_to-agree (suc n) f g h = omega (arith, h n, sum_to-agree n f g h)
