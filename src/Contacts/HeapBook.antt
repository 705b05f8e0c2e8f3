-- ===== src/Contacts/HeapBook.antt =====
-- The contact book of heap/task.c: a size and a block from malloc. `none` is undefined behaviour:
-- an access out of bounds, or a pointer that was never set handed to realloc or free.
pub mod Contents
pub mod Delete
pub mod Report
pub mod Pointer
use study_eltex.Prelude.{
  ℕ, zero, suc, ◌+◌, ◌-◌, ◌*◌, Bool, true, false, ◌&&◌, Option, none, some, List, [], ◌∷◌, ◌++◌,
  length, set, get_elem?, take, replicate, ltb, ◌==◌, str_eq, if◌then◌else◌,
}
use study_eltex.Contacts.{Sub, ◌>>=◌}
use study_eltex.Contacts.Sort.{sort}

-- Where `arr` points: nowhere that was ever written, to NULL, or to a block of contacts.
pub data Storage : Type 0 where
  unset : Storage
  null : Storage
  block : List Sub → Storage

pub record ContactBook : Type 0 where
  pub size : ℕ
  pub arr : Storage

-- malloc and realloc of libc: whether a request of so many bytes is met, and what a new cell holds.
pub record Allocator : Type 0 where
  pub grant : ℕ → Bool
  pub junk : Sub

-- The return codes 0 and -1.
pub data Status : Type 0 where
  done : Status
  failed : Status

-- Three buffers of 20 bytes.
abbrev pub sizeof_sub : ℕ
sizeof_sub = 60

-- `malloc(sizeof(Sub) * n)`
pub malloc : Allocator → ℕ → Storage
malloc a n = if a.grant (sizeof_sub * n) then block (replicate n a.junk) else null

-- `realloc(p, sizeof(Sub) * n)`
pub realloc : Allocator → Storage → ℕ → Option Storage
realloc a unset n = none
realloc a null n = some (malloc a n)
realloc a (block xs) n =
    some (if a.grant (sizeof_sub * n) then block (take n (xs ++ replicate n a.junk)) else null)

-- `new_contact_book`: the argument says whether malloc gave memory. `arr` is not set.
unfoldable pub new_contact_book : Bool → Option ContactBook
new_contact_book true = some (record { size = 0; arr = unset })
new_contact_book false = none

-- `free_book`: `free` accepts a block of malloc and NULL.
free : Storage → Option (Unit {0})
free unset = none
free null = some tt
free (block xs) = some tt

pub free_book : ContactBook → Option (Unit {0})
unfolding free
free_book book = free book.arr

-- `copy_sub(&arr[i], sb)`
pub write : List Sub → ℕ → Sub → Option (List Sub)
write xs i sb = if ltb i (length xs) then some (set xs i sb) else none

-- What `add_sub` does with the block it got: store behind the last contact and, if the book was not
-- empty, sort.
fill : ContactBook → Sub → Storage → Option (ContactBook × Status)
unfolding write
fill book sb unset = none
fill book sb null = some (record book { arr = null }, failed)
fill book sb (block xs) = do
  ys ← write xs book.size sb
  zs ← if ltb 0 book.size then sort ys (book.size + 1) else some ys
  some (record { size = book.size + 1; arr = block zs }, done)

pub add_sub : Allocator → ContactBook → Sub → Option (ContactBook × Status)
unfolding fill malloc realloc
add_sub a book sb =
    if ltb 0 book.size
    then (realloc a book.arr (book.size + 1) >>= fill book sb)
    else fill book sb (malloc a 1)

-- The test of `del_sub` and `lookup`: name and surename agree.
unfoldable pub same : Sub → Sub → Bool
same c sb = str_eq c.name sb.name && str_eq c.surename sb.surename

-- `for (int j = i; j < size - 1; j++) copy_sub(&arr[j], &arr[j + 1])` with `rounds` rounds left.
pub shift : (rounds j : ℕ) → List Sub → Option (List Sub)
shift zero j xs = some xs
shift (suc rounds) j xs = do c ← get_elem? xs (suc j); shift rounds (suc j) (set xs j c)

-- The search loop of `del_sub` from `i` on, where `rounds` is `size - i`; it ends at the first match,
-- with the block behind it moved down. The inner `none` says that `flag` stayed 0.
pub find_and_shift : (rounds i : ℕ) → List Sub → Sub → Option (Option (List Sub))
unfolding shift
find_and_shift zero i xs sb = some none
find_and_shift (suc rounds) i xs sb = do
  c ← get_elem? xs i
  let rest = find_and_shift rounds (suc i) xs sb
  if same c sb then (shift rounds i xs >>= λ ys. some (some ys)) else rest

-- The cells that an index can reach; a pointer that is not set or NULL reaches none.
abbrev pub cells : Storage → List Sub
cells (block xs) = xs
cells _ = []

-- The book after realloc, by what it gave.
settled : (size : ℕ) → Storage → Option (ContactBook × Status)
settled size (block zs) = some (record { size = size; arr = block zs }, done)
settled size st = some (record { size = size; arr = st }, failed)

-- After the shift: one contact fewer, and a block with one cell more than contacts.
shrink : Allocator → ℕ → List Sub → Option (ContactBook × Status)
unfolding realloc settled
shrink a size ys = realloc a (block ys) (size - 1 + 1) >>= settled (size - 1)

-- `del_sub` with what it prints: `found` is false where it says "Contact Not found".
pub record Deletion : Type 0 where
  pub book : ContactBook
  pub status : Status
  pub found : Bool

finish : Allocator → ContactBook → Option (List Sub) → Option Deletion
unfolding shrink
finish a b none = some (record { book = b; status = done; found = false })
finish a b (some ys) = do
  (b', st) ← shrink a b.size ys
  some (record { book = b'; status = st; found = true })

pub del_sub : Allocator → ContactBook → Sub → Option Deletion
unfolding find_and_shift finish
del_sub a b sb = find_and_shift b.size 0 (cells b.arr) sb >>= finish a b

-- The lines that `lookup` prints, one for each match; none means "Contact Not found".
pub lookup_from : (rounds i : ℕ) → List Sub → Sub → Option (List Sub)
lookup_from zero i xs sb = some []
lookup_from (suc rounds) i xs sb = do
  c ← get_elem? xs i
  rest ← lookup_from rounds (suc i) xs sb
  some (if same c sb then c ∷ rest else rest)

pub lookup : ContactBook → Sub → Option (List Sub)
unfolding lookup_from
lookup b sb = lookup_from b.size 0 (cells b.arr) sb

-- `print_subs`: the number and the contact of each line.
pub print_from : (rounds i : ℕ) → List Sub → Option (List (ℕ × Sub))
print_from zero i xs = some []
print_from (suc rounds) i xs = do
  c ← get_elem? xs i
  rest ← print_from rounds (suc i) xs
  some ((i + 1, c) ∷ rest)

pub print_subs : ContactBook → Option (List (ℕ × Sub))
unfolding print_from
print_subs b = print_from b.size 0 (cells b.arr)
