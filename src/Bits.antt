-- ===== src/Bits.antt =====
-- bit_operations/first_task.c and pointers/task.c: the bytes of an int shown, and one of them changed, by masks and
-- through a pointer to char. An int is its 32 bits, a number below 2 ^ 32, least significant byte first in memory.
pub mod Steps
pub mod Bytes
use Prim.Native.Nat.{bit_and, bit_or}
use study_eltex.Prelude.{
  ℕ, zero, suc, ◌+◌, ◌-◌, ◌*◌, ◌/◌, ◌%◌, ◌^◌, List, [], ◌∷◌, map, set, get_or, ltb, if◌then◌else◌,
}
use study_eltex.Prelude.Int.{ℤ, pos, negsuc}

-- `x >> k` of an int, which brings in copies of the sign bit.
abbrev pub shift_right : (x k : ℕ) → ℕ
shift_right x k = if ltb x (2 ^ 31) then x / 2 ^ k else 2 ^ 32 - 1 - (2 ^ 32 - 1 - x) / 2 ^ k

-- `for (; counter >= 0; counter -= 8) printf("%X", (x >> counter) & 0x000000FF);` for at most `rounds` rounds.
unfoldable pub shown : (rounds counter x : ℕ) → List ℕ
shown zero counter x = []
shown (suc rounds) counter x =
    let rest = shown rounds (counter - 8) x in
    bit_and (shift_right x counter) 0x000000FF ∷ (if ltb counter 8 then [] else rest)

-- `x &= 0xFFFF00FF; x |= 0x0000EE00;`
unfoldable pub masked : ℕ → ℕ
masked x = bit_or (bit_and x 0xFFFF00FF) 0x0000EE00

-- What first_task.c prints of an int, before and after.
unfoldable pub first_task : ℕ → List ℕ × List ℕ
first_task x = (shown 4 24 x, shown 4 24 (masked x))

-- The bytes of an int in memory, and the int that they are.
abbrev pub memory : ℕ → List ℕ
memory x = x % 256 ∷ x / 256 % 256 ∷ x / 65536 % 256 ∷ x / 16777216 % 256 ∷ []

abbrev pub int_at : List ℕ → ℕ
int_at bytes =
    get_or bytes 0 0
    + get_or bytes 1 0 * 256
    + get_or bytes 2 0 * 65536
    + get_or bytes 3 0 * 16777216

-- `pointer[k] = byte;`
abbrev pub stored : (x k byte : ℕ) → ℕ
stored x k byte = int_at (set (memory x) k byte)

-- A byte as a char, which is signed.
abbrev pub char_of : ℕ → ℤ
char_of byte = if ltb byte 128 then pos byte else negsuc (255 - byte)

-- What pointers/task.c prints of an int: the four chars at the pointer, the changed int and its chars.
pub record Printed : Type 0 where
  pub bits_of_source : List ℤ
  pub changed : ℕ
  pub bits_of_changed : List ℤ

unfoldable pub task : ℕ → Printed
task x = record {
  bits_of_source = map char_of (memory x);
  changed = stored x 2 127;
  bits_of_changed = map char_of (memory (stored x 2 127));
}
