-- ===== src/Contacts.antt =====
-- The contact of heap/task.c and structures/task.c, and the neighbour exchanges that both sorts are
-- made of. A field of the struct is the string that its buffer holds.
pub mod Sort
pub mod HeapBook
pub mod BookFile
pub mod Menu
pub mod Program
pub mod ArrayBook
pub mod ArrayMenu
pub mod ArrayProgram
use study_eltex.Prelude.{ℕ, suc, Bool, Option, none, some, List, Bytes, get_elem?, set, str_lt}

-- Both programs give each field a buffer of 20 bytes, so at most 19 bytes before the NUL.
abbrev pub field_size : ℕ
field_size = 20

pub record Sub : Type 0 where
  pub name : Bytes
  pub surename : Bytes
  pub number : Bytes

infixl 5 ◌>>=◌
abbrev pub ◌>>=◌ {ℓ κ} : {A : Type ℓ} {B : Type κ} → Option A → (A → Option B) → Option B
none >>= f = none
some a >>= f = f a

-- `strcmp(arr[p + 1].name, arr[p].name) < 0`; `none` is a read out of bounds.
unfoldable pub out_of_order : List Sub → ℕ → Option Bool
out_of_order arr p = do a ← get_elem? arr p; b ← get_elem? arr (suc p); some (str_lt b.name a.name)

-- The three copies of a `Sub`, through a temporary, that exchange `arr[p]` and `arr[p + 1]`.
unfoldable pub exchange : List Sub → ℕ → Option (List Sub)
exchange arr p = do
  a ← get_elem? arr p
  b ← get_elem? arr (suc p)
  some (set (set arr (suc p) a) p b)
