-- ===== src/Bits/Bytes.antt =====
-- The masks of first_task.c replace one byte, as the pointer of pointers/task.c does, and both show the bytes in
-- memory.
use Prim.Native.Nat.{bit_and, bit_or}
use mathlib.Core.List.{reverse}
use study_eltex.Prelude.{
  ℕ, zero, suc, ◌+◌, ◌*◌, ◌/◌, ◌%◌, ◌^◌, ◌<◌, ◌≡◌, refl, ap, ◌∙◌, List, [], ◌∷◌, map, set, arith,
}
use study_eltex.Prelude.Int.{pos}
use study_eltex.Bits.{shift_right, shown, masked, first_task, memory, stored, char_of, task}
use study_eltex.Bits.Steps.{and-Splits, or-Splits, and-none, or-none, none-or, and-full}

low_byte : (a : ℕ) → bit_and a 255 ≡ a % 256
low_byte a = omega (arith, and-Splits a 255, and-none (a / 256), and-full (a % 256) (omega arith))

-- 0xFFFF00FF takes away the second byte.
cleared : (x : ℕ) → x < 2 ^ 32 → bit_and x 0xFFFF00FF ≡ x / 65536 * 65536 + x % 256
cleared x h = omega (
  arith,
  and-Splits x 0xFFFF00FF,
  and-Splits (x / 256) 0xFFFF00,
  and-Splits (x / 256 / 256) 0xFFFF,
  and-full (x % 256) (omega arith),
  and-none (x / 256 % 256),
  and-full (x / 256 / 256 % 256) (omega arith),
  and-full (x / 256 / 256 / 256) (omega arith),
)

-- 0x0000EE00 fills it, where it is 0.
filled :
    (high low : ℕ) → low < 256 → bit_or (high * 65536 + low) 0xEE00 ≡ high * 65536 + 0xEE00 + low
filled high low h =
    let first = or-Splits (high * 65536 + low) 0xEE00 in
    let second = or-Splits (high * 256) 0xEE in
    let high_is : (high * 65536 + low) / 256 ≡ high * 256 = omega arith in
    let low_is : (high * 65536 + low) % 256 ≡ low = omega arith in
    let high_of : high * 256 / 256 ≡ high = omega arith in
    let low_of : high * 256 % 256 ≡ 0 = omega arith in
    let first' = rw (high_is, low_is) at first in
    let second' = rw (high_of, low_of) at second in
    omega (arith, first', second', or-none high, or-none low, none-or 0xEE)

pub masked-stored : (x : ℕ) → x < 2 ^ 32 → masked x ≡ stored x 1 0xEE
unfolding masked
masked-stored x h = rw (cleared x h) (filled (x / 65536) (x % 256) (omega arith) ∙ (omega arith))

-- The byte that `(x >> counter) & 0xFF` is, where the shift is by a number of bytes.
byte-24 : (x : ℕ) → x < 2 ^ 32 → shift_right x 24 % 256 ≡ x / 16777216 % 256
byte-24 x h = ground arith

byte-16 : (x : ℕ) → x < 2 ^ 32 → shift_right x 16 % 256 ≡ x / 65536 % 256
byte-16 x h = ground arith

byte-8 : (x : ℕ) → x < 2 ^ 32 → shift_right x 8 % 256 ≡ x / 256 % 256
byte-8 x h = ground arith

byte-0 : (x : ℕ) → x < 2 ^ 32 → shift_right x 0 % 256 ≡ x % 256
byte-0 x h = ground arith

shown-memory : (x : ℕ) → x < 2 ^ 32 → shown 4 24 x ≡ reverse (memory x)
unfolding shown
shown-memory x h =
    rw
      (
        low_byte (shift_right x 24),
        low_byte (shift_right x 16),
        low_byte (shift_right x 8),
        low_byte (shift_right x 0),
        byte-24 x h,
        byte-16 x h,
        byte-8 x h,
        byte-0 x h,
      )
      refl

four :
    {a b c d a' b' c' d' : ℕ}
    → a ≡ a'
    → b ≡ b'
    → c ≡ c'
    → d ≡ d'
    → ◌≡◌ {A = List ℕ} (a ∷ b ∷ c ∷ d ∷ []) (a' ∷ b' ∷ c' ∷ d' ∷ [])
four p q r s = cc

-- What a store through the pointer leaves in memory.
memory-stored :
    (x k byte : ℕ)
    → k < 4
    → byte < 256
    → (memory (stored x k byte) ≡ set (memory x) k byte) × (stored x k byte < 2 ^ 32)
memory-stored x zero byte h b =
    (four (omega arith) (omega arith) (omega arith) (omega arith), omega arith)
memory-stored x (suc zero) byte h b =
    (four (omega arith) (omega arith) (omega arith) (omega arith), omega arith)
memory-stored x (suc (suc zero)) byte h b =
    (four (omega arith) (omega arith) (omega arith) (omega arith), omega arith)
memory-stored x (suc (suc (suc zero))) byte h b =
    (four (omega arith) (omega arith) (omega arith) (omega arith), omega arith)
memory-stored x (suc (suc (suc (suc k)))) byte h b = absurd (omega arith)

-- Of any int first_task.c shows the bytes from the last in memory to the first, and what it shows after its masks is
-- that with the second byte in memory 0xEE, as a store through a pointer would leave it. task.c shows the chars in
-- memory, and then those with the third 127.
pub bytes_replaced :
    (x : ℕ)
    → x < 2 ^ 32
    → ((first_task x).0 ≡ reverse (memory x))
      × ((first_task x).1 ≡ reverse (set (memory x) 1 0xEE))
      × (masked x ≡ stored x 1 0xEE)
      × ((task x).bits_of_changed ≡ set (task x).bits_of_source 2 (pos 127))
unfolding first_task task
bytes_replaced x h =
    let m = masked-stored x h in
    let (left, low) = memory-stored x 1 0xEE (omega arith) (omega arith) in
    let (left', low') = memory-stored x 2 127 (omega arith) (omega arith) in
    (
      shown-memory x h,
      rw m (shown-memory (stored x 1 0xEE) low ∙ ap reverse left),
      m,
      ap (map char_of) left',
    )
