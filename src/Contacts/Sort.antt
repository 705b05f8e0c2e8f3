-- ===== src/Contacts/Sort.antt =====
-- `sort` of heap/task.c and of structures/task.c, which are the same loops over an array and a size.
pub mod Insertion
pub mod Loops
use study_eltex.Prelude.{
  ℕ, zero, suc, ◌-◌, Bool, true, false, Option, none, some, List, if◌then◌else◌,
}
use study_eltex.Contacts.{Sub, ◌>>=◌, out_of_order, exchange}

-- One test of a loop with the exchange it guards.
exchange_if : Bool → List Sub → ℕ → Option (List Sub)
exchange_if true arr p = exchange arr p
exchange_if false arr p = some arr

-- `for (int j = i + 1; j < size; j++)`: `rounds` rounds are left and `j` is `p + 1`.
bubble : (rounds p : ℕ) → List Sub → Option (List Sub)
bubble zero p arr = some arr
bubble (suc rounds) p arr = do
  late ← out_of_order arr p
  arr' ← exchange_if late arr p
  bubble rounds (suc p) arr'

-- The body of the outer loop at `i`.
settle : (size i : ℕ) → List Sub → Option (List Sub)
settle size i arr = do
  late ← out_of_order arr i
  if late then (exchange arr i >>= bubble (size - suc i) i) else some arr

-- `for (int i = size - 2; i >= 0; i--)`: `left` is `i + 1`.
outer : (size left : ℕ) → List Sub → Option (List Sub)
outer size zero arr = some arr
outer size (suc i) arr = settle size i arr >>= outer size i

pub sort : List Sub → ℕ → Option (List Sub)
unfolding outer settle bubble exchange_if out_of_order exchange
sort arr size = outer size (size - 1) arr
