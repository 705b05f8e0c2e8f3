-- ===== src/Tokens/Walk.antt =====
-- The two spellings of `stok` do the same.
use study_eltex.Prelude.{
  ℕ, suc, ◌≡◌, refl, List, [], ◌∷◌, ◌++◌, append_assoc, Bytes, length, length-snoc, ◌==◌,
  Bool-cases, inl, inr, get_elem?-middle, set-middle,
}
use study_eltex.Tokens.{Cut, walk, stok, index_loop, stok_by_index}

-- A cut of the text behind a prefix that is done with.
behind : Bytes → Cut → Cut
behind pre c = record { buffer = pre ++ c.buffer; words = c.words }

behind-append :
    (pre : Bytes) (x : ℕ) (c : Cut)
    → behind (pre ++ x ∷ []) c ≡ behind pre (record { buffer = x ∷ c.buffer; words = c.words })
unfolding behind
behind-append pre x c = rw (append_assoc pre (x ∷ []) c.buffer)

index_loop-walk :
    (symb p : ℕ) (pre s : Bytes) (words : List ℕ)
    → length pre ≡ p
    → index_loop (length s) symb p (pre ++ s) words ≡ behind pre (walk symb p s words)
unfolding index_loop walk
index_loop-walk symb p pre [] words e = unfold behind in refl
index_loop-walk symb p pre (c ∷ s) words e =
    let cut =
      index_loop-walk symb (suc p) (pre ++ 0 ∷ []) s (words ++ suc p ∷ [])
        (length-snoc pre 0 p e) in
    let keep = index_loop-walk symb (suc p) (pre ++ c ∷ []) s words (length-snoc pre c p e) in
    rw (← e) (
      rw (get_elem?-middle pre c s, index_loop, set-middle pre c 0 s, e)
        (elim (Bool-cases (c == symb)) [
          | inl same ↦ rw same (simp (append_assoc, behind-append) at cut)
          | inr other ↦ rw other (simp (append_assoc, behind-append) at keep)
        ]))

-- The index loop of cmd.c leaves the same buffer, the same words and the same count as the pointer
-- walk of the contact books, on every string and separator.
pub stok_by_index-stok : (s : Bytes) (symb : ℕ) → stok_by_index s symb ≡ stok s symb
unfolding stok_by_index stok behind
stok_by_index-stok s symb = index_loop-walk symb 0 [] s (0 ∷ []) refl
