-- ===== src/Tables.antt =====
-- arrays/task1.c, task2.c and task3.c for arrays of any size. `none` is an access out of bounds.
pub mod Loops
use study_eltex.Prelude.{
  ℕ, zero, suc, ◌-◌, Option, none, some, List, [], ◌∷◌, length, get_elem?, set, ltb, if◌then◌else◌,
}
use study_eltex.Contacts.{◌>>=◌}

-- task1.c and task3.c: `for (int j = …; j < N; j++) printf("%d ", arr[i][j]);` for `rounds` values of j.
unfoldable pub print_row : (rounds j : ℕ) → List ℕ → Option (List ℕ)
print_row zero j row = some []
print_row (suc rounds) j row = do
  x ← get_elem? row j
  rest ← print_row rounds (suc j) row
  some (x ∷ rest)

-- The loop over i around it, which ends each line.
unfoldable pub print_rows : (size rounds i : ℕ) → List (List ℕ) → Option (List (List ℕ))
print_rows size zero i arr = some []
print_rows size (suc rounds) i arr = do
  row ← get_elem? arr i
  line ← print_row size 0 row
  rest ← print_rows size rounds (suc i) arr
  some (line ∷ rest)

-- task2.c: `for (int i = N - 1; i >= 0; i--)`, with i + 1 rounds to go.
unfoldable pub print_back : (rounds : ℕ) → List ℕ → Option (List ℕ)
print_back zero arr = some []
print_back (suc i) arr = do x ← get_elem? arr i; rest ← print_back i arr; some (x ∷ rest)

-- `arr[i][j] = v;`
abbrev pub put : (i j v : ℕ) → List (List ℕ) → Option (List (List ℕ))
put i j v arr = do
  row ← get_elem? arr i
  if ltb j (length row) then some (set arr i (set row j v)) else none

-- `for (; …; j++) arr[i][j] = v;`
unfoldable pub fill_row : (v rounds j i : ℕ) → List (List ℕ) → Option (List (List ℕ))
fill_row v zero j i arr = some arr
fill_row v (suc rounds) j i arr = put i j v arr >>= fill_row v rounds (suc j) i

-- task3.c: ones in front of the diagonal and zeros behind it, for `rounds` values of i.
unfoldable pub fill_rows : (size rounds i : ℕ) → List (List ℕ) → Option (List (List ℕ))
fill_rows size zero i arr = some arr
fill_rows size (suc rounds) i arr =
    (fill_row 1 (size - i) 0 i arr >>= fill_row 0 (size - (size - i)) (size - i) i)
    >>= fill_rows size rounds (suc i)

unfoldable pub task3 : (size : ℕ) → List (List ℕ) → Option (List (List ℕ))
task3 size arr = fill_rows size size 0 arr >>= print_rows size size 0
