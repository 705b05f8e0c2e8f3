-- ===== src/Contacts/BookFile.antt =====
-- book.txt of heap/task.c: how `main` reads the contacts with fgets and `stok`, and writes them back.
-- `none` is undefined behaviour: a string too long for its buffer, or a word beyond `words[3]`.
pub mod Lines
pub mod RoundTrip
use study_eltex.Prelude.{
  ℕ, zero, suc, ◌-◌, Bool, true, false, ◌||◌, Option, none, some, List, [], ◌∷◌, ◌++◌, Bytes,
  length, map, ltb, ◌==◌, str_eq, cstr, if◌then◌else◌, get_elem?,
}
use study_eltex.Contacts.{field_size, Sub, ◌>>=◌}
use study_eltex.Contacts.HeapBook.{ContactBook, Allocator, Status, done, failed, add_sub, cells}
use study_eltex.Tokens.{Cut, stok}
use study_eltex.Tokens.Fields.{word}

abbrev pub newline : ℕ
newline = 10

abbrev pub space : ℕ
space = b' '

-- `CONTACT_SIZE`, the size of `mass` and of `arr`.
abbrev pub contact_size : ℕ
contact_size = 100

-- At the end of the file fgets gives what it has, and NULL if that is nothing.
unfoldable pub flush : Bytes → List Bytes
flush [] = []
flush (c ∷ mass) = (c ∷ mass) ∷ []

-- A call of fgets is over: it has the newline, or the buffer has no room behind this byte.
unfoldable pub is_last : (room c : ℕ) → Bool
is_last room c = c == newline || room == 1

-- `while (fgets(mass, CONTACT_SIZE, file) != NULL)`: the lines that the calls give, one after another,
-- where `mass` is read so far and `room` bytes (99 at the start of a call) are left for it.
pub read_lines : (room : ℕ) → (mass : Bytes) → (file : Bytes) → List Bytes
read_lines room mass [] = flush mass
read_lines room mass (c ∷ file) =
    let over = is_last room c in
    let rest =
      read_lines (if over then contact_size - 1 else room - 1) (if over then [] else mass ++ c ∷ [])
        file in
    if over then (mass ++ c ∷ []) ∷ rest else rest

-- The `strcpy`s into a `Sub`.
unfoldable pub make_sub : Bytes → Bytes → Bytes → Option Sub
make_sub name surename number =
    if ltb (length name) field_size
    then (if ltb (length surename) field_size
        then (if ltb (length number) field_size
            then some (record { name = name; surename = surename; number = number })
            else none)
        else none)
    else none

-- What follows `stok(mass, ' ', words)`, where `words` has room for three.
unfoldable pub register : Allocator → ContactBook → List Bytes → Option (ContactBook × Status)
register a b (name ∷ surename ∷ number ∷ []) = make_sub name surename number >>= add_sub a b
register a b (_ ∷ _ ∷ _ ∷ _ ∷ _) = none
register a b _ = some (b, done)

pub load_line : Allocator → ContactBook → Bytes → Option (ContactBook × Status)
unfolding register
load_line a b mass =
    let line = cstr mass in
    let cut = stok line space in
    if str_eq line (newline ∷ [])
    then some (b, done)
    else register a b (map (word cut.buffer) cut.words)

unless_failed :
    (ContactBook → Option (ContactBook × Status))
    → ContactBook × Status
    → Option (ContactBook × Status)
unless_failed next (b, failed) = some (b, failed)
unless_failed next (b, done) = next b

-- `main` returns -1 as soon as `add_sub` does.
pub load_lines : Allocator → ContactBook → List Bytes → Option (ContactBook × Status)
load_lines a b [] = some (b, done)
load_lines a b (mass ∷ lines) = load_line a b mass >>= unless_failed (λ b'. load_lines a b' lines)

-- The loop of `main` over book.txt.
pub load_book : Allocator → ContactBook → Bytes → Option (ContactBook × Status)
unfolding load_lines unless_failed
load_book a b file = load_lines a b (read_lines (contact_size - 1) [] file)

-- The `strcpy` and `strcat`s into `arr`, and the `fprintf`.
unfoldable pub save_line : Sub → Option Bytes
save_line c =
    let arr = c.name ++ space ∷ (c.surename ++ space ∷ c.number) in
    if ltb (length arr) contact_size then some arr else none

pub save_from : (rounds i : ℕ) → List Sub → Option Bytes
save_from zero i xs = some []
save_from (suc rounds) i xs = do
  c ← get_elem? xs i
  line ← save_line c
  rest ← save_from rounds (suc i) xs
  some (line ++ rest)

-- The loop of `main` that writes book.txt.
pub save_book : ContactBook → Option Bytes
unfolding save_from
save_book b = save_from b.size 0 (cells b.arr)
