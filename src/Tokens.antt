-- ===== src/Tokens.antt =====
-- `stok`, which cuts a string at a separator in place: the pointer walk of heap/task.c and
-- structures/task.c, and the index loop of pipes/command_interpreter/cmd.c. A string is given without
-- its closing NUL, and a word is the offset that `words[k]` points to.
pub mod Fields
pub mod Walk
use study_eltex.Prelude.{
  ℕ, zero, suc, Option, none, some, List, [], ◌∷◌, ◌++◌, Bytes, length, set, get_elem?, ◌==◌,
  if◌then◌else◌,
}

-- The buffer afterwards and the offsets of the words; the count returned is their number.
pub record Cut : Type 0 where
  pub buffer : Bytes
  pub words : List ℕ

-- `while (*str != '\0')`, with `str` at offset `pos`.
pub walk : (symbol pos : ℕ) → Bytes → List ℕ → Cut
walk symbol pos [] words = record { buffer = []; words = words }
walk symbol pos (c ∷ s) words =
    let rest = walk symbol (suc pos) s (if c == symbol then words ++ suc pos ∷ [] else words) in
    record { buffer = (if c == symbol then 0 else c) ∷ rest.buffer; words = rest.words }

-- `stok` of heap/task.c and structures/task.c
pub stok : Bytes → ℕ → Cut
unfolding walk
stok str symbol = walk symbol 0 str (0 ∷ [])

-- `while (src[i] != '\0')` of cmd.c; the NUL stands where the list ends.
pub index_loop : (rounds symb i : ℕ) → Bytes → List ℕ → Cut
index_loop zero symb i src strs = record { buffer = src; words = strs }
index_loop (suc rounds) symb i src strs = elim (get_elem? src i) [
  | none ↦ record { buffer = src; words = strs }
  | some c ↦
      if c == symb
      then index_loop rounds symb (suc i) (set src i 0) (strs ++ suc i ∷ [])
      else index_loop rounds symb (suc i) src strs
]

-- `stok` of cmd.c
pub stok_by_index : Bytes → ℕ → Cut
unfolding index_loop
stok_by_index src symb = index_loop (length src) symb 0 src (0 ∷ [])
