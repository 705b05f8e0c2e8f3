-- ===== src/Contacts/ArrayBook.antt =====
-- The contact book of structures/task.c: an array of 100 contacts on the stack and a size. `none` is
-- undefined behaviour. The loops that shift, compare and print are those of heap/task.c.
pub mod Delete
pub mod Laws
pub mod Cells
pub mod File
use study_eltex.Prelude.{
  ℕ, zero, suc, ◌+◌, ◌-◌, Bool, true, false, Option, none, some, List, [], ◌∷◌, ◌++◌, Bytes, length,
  set, get_elem?, map, ltb, str_eq, cstr, if◌then◌else◌,
}
use study_eltex.Contacts.{Sub, ◌>>=◌}
use study_eltex.Contacts.Sort.{sort}
use study_eltex.Contacts.HeapBook.{same, shift, lookup_from, print_from}
use study_eltex.Contacts.BookFile.{contact_size, newline, space, make_sub, read_lines, save_from}
use study_eltex.Tokens.{stok}
use study_eltex.Tokens.Fields.{word}

pub record Contacts : Type 0 where
  pub contacts : List Sub
  pub size : ℕ

-- The strings of a contact written to `contacts[size]`.
pub put : Contacts → Sub → Option Contacts
put b c =
    if ltb b.size (length b.contacts)
    then some (record { contacts = set b.contacts b.size c; size = b.size + 1 })
    else none

-- `add_sub`, on the three words that it reads.
pub add_sub : Contacts → Bytes → Bytes → Bytes → Option Contacts
unfolding put
add_sub b name surename number = do
  c ← make_sub name surename (number ++ newline ∷ [])
  b' ← put b c
  arr ← sort b'.contacts b'.size
  some (record b' { contacts = arr })

-- What `del_sub` leaves, and whether it found anything.
pub record Purged : Type 0 where
  pub book : Contacts
  pub found : Bool

-- `for (int i = 0; i < *size; i++)` of `del_sub`: it does not end at a match, and `i` goes on past the
-- contact that has moved to the cell of the one deleted. The old size is enough fuel.
pub purge : (fuel i : ℕ) → Contacts → Bool → Sub → Option Purged
purge zero i b flag sb = some (record { book = b; found = flag })
purge (suc fuel) i b flag sb =
    let over : Option Purged = some (record { book = b; found = flag }) in
    let keep = purge fuel (suc i) b flag sb in
    let drop_it =
      λ (ys : List Sub). purge fuel (suc i) (record { contacts = ys; size = b.size - 1 }) true sb in
    if ltb i b.size
    then (get_elem? b.contacts i >>= λ c.
        if same c sb then (shift (b.size - 1 - i) i b.contacts >>= drop_it) else keep)
    else over

pub del_sub : Contacts → Sub → Option Purged
unfolding purge
del_sub b sb = purge b.size 0 b false sb

pub lookup : Contacts → Sub → Option (List Sub)
lookup b sb = lookup_from b.size 0 b.contacts sb

pub print_subs : Contacts → Option (List (ℕ × Sub))
print_subs b = print_from b.size 0 b.contacts

-- `char *words[CONTACT_SIZE / 3]`
abbrev words_size : ℕ
words_size = 33

-- A line of book.txt: stored behind the last contact, in the order of the file.
register : Contacts → List Bytes → Option Contacts
unfolding put
register b (name ∷ surename ∷ number ∷ []) = make_sub name surename number >>= put b
register b words = if ltb words_size (length words) then none else some b

load_line : Contacts → Bytes → Option Contacts
unfolding register
load_line b mass =
    let line = cstr mass in
    let cut = stok line space in
    if str_eq line (newline ∷ []) then some b else register b (map (word cut.buffer) cut.words)

load_lines : Contacts → List Bytes → Option Contacts
unfolding load_line
load_lines b [] = some b
load_lines b (mass ∷ lines) = load_line b mass >>= λ b'. load_lines b' lines

-- The loop of `main` that reads book.txt.
pub load_book : Contacts → Bytes → Option Contacts
unfolding load_lines
load_book b file = load_lines b (read_lines (contact_size - 1) [] file)

-- The loop of `main` that writes book.txt.
pub save_book : Contacts → Option Bytes
save_book b = save_from b.size 0 b.contacts
