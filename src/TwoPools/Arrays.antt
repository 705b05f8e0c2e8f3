-- ===== src/TwoPools/Arrays.antt =====
-- The arrays of thread numbers.
use study_eltex.Prelude.{
  ℕ, zero, suc, ◌≡◌, refl, sym, ap, ◌∙◌, true, none, some, List, [], ◌∷◌, ◌++◌, append_assoc,
  length, length-snoc, set, set-middle, length-append, ltb, lt→ltb, arith,
}
use study_eltex.TwoPools.{count_of_threads, fill, fill_arr, fill_arr2}

-- The numbers from `i` on.
abbrev pub numbers : (count i : ℕ) → List ℕ
numbers zero i = []
numbers (suc count) i = i ∷ numbers count (suc i)

fill-numbers :
    (pre rest : List ℕ) (i : ℕ)
    → length pre ≡ i
    → fill (length rest) i (pre ++ rest) ≡ some (pre ++ numbers (length rest) i)
unfolding fill
fill-numbers pre [] i e = refl
fill-numbers pre (x ∷ rest) i e =
    let inside : ltb i (length (pre ++ x ∷ rest)) ≡ true =
      lt→ltb i (length (pre ++ x ∷ rest)) (omega (arith, length-append pre (x ∷ rest))) in
    let later = fill-numbers (pre ++ i ∷ []) rest (suc i) (length-snoc pre i i e) in
    let written : set (pre ++ x ∷ rest) i i ≡ pre ++ i ∷ rest =
      ap (λ p. set (pre ++ x ∷ rest) p i) (sym e) ∙ set-middle pre x i rest in
    rw inside (rw written (simp append_assoc at later))

-- The loop over `arr` writes the numbers 0 to 14 and stays in the array; the loop over `arr2`, which starts
-- at 15, is outside from its first write.
pub arr2_overrun :
    (arr arr2 : List ℕ)
    → length arr ≡ count_of_threads
    → length arr2 ≡ count_of_threads
    → (fill_arr arr ≡ some (numbers count_of_threads 0)) × (fill_arr2 arr2 ≡ none)
unfolding fill_arr fill_arr2
arr2_overrun arr arr2 h k = (rw h at (fill-numbers [] arr 0 refl), unfold fill in rw k refl)
