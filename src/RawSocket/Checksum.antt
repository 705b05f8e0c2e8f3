-- ===== src/RawSocket/Checksum.antt =====
-- `check_sum`: a packet with its checksum in place sums to the value that a receiver accepts.
use study_eltex.Prelude.{
  ℕ, ◌+◌, ◌-◌, ◌*◌, ◌/◌, ◌%◌, ◌^◌, ◌<◌, ◌≤◌, ◌≡◌, refl, [], ◌∷◌, ◌++◌, Bytes, length, arith,
}
use study_eltex.RawSocket.{sum_words, fold, check_sum}

abbrev pub AllBytes : Bytes → Type 0
AllBytes [] = Unit
AllBytes (x ∷ s) = (x < 256) × AllBytes s

-- An even number of bytes.
abbrev pub IsEven : Bytes → Type 0
IsEven [] = Unit
IsEven (x ∷ []) = ⊥
IsEven (x ∷ y ∷ s) = IsEven s

sum_words-add : (s : Bytes) (a b : ℕ) → sum_words s (a + b) ≡ sum_words s a + b
unfolding sum_words
sum_words-add [] a b = refl
sum_words-add (x ∷ []) a b = omega arith
sum_words-add (x ∷ y ∷ s) a b =
    let moved : a + b + (x + 256 * y) ≡ a + (x + 256 * y) + b = omega arith in
    rw moved (sum_words-add s (a + (x + 256 * y)) b)

-- A word in the middle of a packet adds its value to the sum.
sum_words-middle :
    (pre post : Bytes) (x y sum : ℕ)
    → IsEven pre
    → sum_words (pre ++ x ∷ y ∷ post) sum ≡ sum_words (pre ++ 0 ∷ 0 ∷ post) sum + (x + 256 * y)
unfolding sum_words
sum_words-middle [] post x y sum e =
    let none_added : sum + 0 ≡ sum = omega arith in
    rw none_added (sum_words-add post sum (x + 256 * y))
sum_words-middle (a ∷ []) post x y sum e = absurd e
sum_words-middle (a ∷ b ∷ pre) post x y sum e =
    sum_words-middle pre post x y (sum + (a + 256 * b)) e

sum_words-le : (s : Bytes) (sum : ℕ) → AllBytes s → sum_words s sum ≤ sum + length s * 65535
unfolding sum_words
sum_words-le [] sum h = omega arith
sum_words-le (x ∷ []) sum h = omega arith
sum_words-le (x ∷ y ∷ s) sum h = omega (arith, sum_words-le s (sum + (x + 256 * y)) h.1.1)

-- The folds give the ones' complement sum: the same residue by 65535, in 16 bits.
fold-mod : (sum : ℕ) → sum < 2 ^ 32 → fold sum % 65536 % 65535 ≡ sum % 65535
unfolding fold
fold-mod sum h = omega arith

fold-accepts : (sum : ℕ) → sum < 2 ^ 31 → fold (sum + (65535 - fold sum % 65536)) % 65536 ≡ 65535
unfolding fold
fold-accepts sum h = omega arith

-- The checksum written into an even place of a packet: the sum over the packet then leaves 0, which is
-- what a receiver tests. The packet is shorter than 2^15 bytes and its checksum is computed with 0 in
-- that place.
pub check_sum-accepts :
    (pre post : Bytes)
    → IsEven pre
    → AllBytes (pre ++ 0 ∷ 0 ∷ post)
    → length (pre ++ 0 ∷ 0 ∷ post) < 32768
    → let check = check_sum (pre ++ 0 ∷ 0 ∷ post) in
      check_sum (pre ++ check % 256 ∷ check / 256 ∷ post) ≡ 0
unfolding check_sum
check_sum-accepts pre post e h l =
    let sum = sum_words (pre ++ 0 ∷ 0 ∷ post) 0 in
    let check = 65535 - fold sum % 65536 in
    let small : sum < 2 ^ 31 = omega (arith, sum_words-le (pre ++ 0 ∷ 0 ∷ post) 0 h) in
    let joined : check % 256 + 256 * (check / 256) ≡ check = omega arith in
    rw (sum_words-middle pre post (check % 256) (check / 256) 0 e) rw joined
      (omega (arith, fold-accepts sum small))
