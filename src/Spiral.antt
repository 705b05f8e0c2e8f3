-- ===== src/Spiral.antt =====
-- arrays/task4.c for any size N: the loops that write the numbers from 1 on into a square, ring by ring. A
-- write outside the square is `none`; so is a run that has not ended when its rounds are used up.
pub mod Number
pub mod Loops
pub mod Filled
use study_eltex.Prelude.{
  ℕ, zero, suc, ◌+◌, ◌-◌, ◌*◌, Bool, Option, none, some, ltb, leb, ◌==◌, ◌&&◌, if◌then◌else◌,
}
use study_eltex.Contacts.{◌>>=◌}

-- `arr` and `count`.
pub record Square : Type 0 where
  pub arr : ℕ → ℕ → ℕ
  pub count : ℕ

-- `arr[i][j] = count; count++` in an array of `size` rows.
unfoldable pub put : (size i j : ℕ) → Square → Option Square
put size i j s =
    if ltb i size && ltb j size
    then some (record {
      arr = λ i' j'. if i' == i && j' == j then s.count else s.arr i' j';
      count = s.count + 1;
    })
    else none

-- Row n from column j on, for `rounds` columns.
unfoldable pub rightwards : (size n rounds j : ℕ) → Square → Option Square
rightwards size n zero j s = some s
rightwards size n (suc rounds) j s = put size n j s >>= rightwards size n rounds (suc j)

-- Column k - 1 from row j on.
unfoldable pub downwards : (size k rounds j : ℕ) → Square → Option Square
downwards size k zero j s = some s
downwards size k (suc rounds) j s = put size j (k - 1) s >>= downwards size k rounds (suc j)

-- Row k - 1 back to column `last`, which is the column of the last of `rounds`.
unfoldable pub leftwards : (size k rounds last : ℕ) → Square → Option Square
leftwards size k zero last s = some s
leftwards size k (suc rounds) last s =
    put size (k - 1) (last + rounds) s >>= leftwards size k rounds last

-- Column n back to row `last`.
unfoldable pub upwards : (size n rounds last : ℕ) → Square → Option Square
upwards size n zero last s = some s
upwards size n (suc rounds) last s = put size (last + rounds) n s >>= upwards size n rounds last

-- The four loops: columns n to k - 1, rows n + 1 to k - 1, columns k - 2 to n, rows k - 2 to n + 1.
unfoldable pub turn : (size n k : ℕ) → Square → Option Square
turn size n k s = rightwards size n (k - n) n s >>= λ s1.
    downwards size k (k - (n + 1)) (n + 1) s1 >>= λ s2.
    leftwards size k (k - 1 - n) n s2 >>= λ s3. upwards size n (k - 1 - (n + 1)) (n + 1) s3

-- `while (count <= N * N)` with `n++` and `k--`
unfoldable pub spiral : (fuel size n k : ℕ) → Square → Option Square
spiral zero size n k s = if leb s.count (size * size) then none else some s
spiral (suc fuel) size n k s =
    let rest = turn size n k s >>= spiral fuel size (n + 1) (k - 1) in
    if leb s.count (size * size) then rest else some s

-- The array and the counter before the loop, n = 0 and k = N.
abbrev pub blank : Square
blank = record { arr = λ i j. 0; count = 1 }

pub fill_spiral : (fuel size : ℕ) → Option Square
unfolding spiral
fill_spiral fuel size = spiral fuel size 0 size blank
