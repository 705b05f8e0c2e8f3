-- ===== src/Interpreter/Slashes.antt =====
-- `find_last_slesh`
use study_eltex.Prelude.{
  ℕ, suc, ◌+◌, ◌≡◌, refl, ◌∙◌, [], ◌∷◌, ◌++◌, Bytes, length, ◌==◌, arith, false,
}
use study_eltex.Tokens.Fields.{Lacks}
use study_eltex.Interpreter.{slash_loop, find_last_slesh, slash}

slash_loop_none : (i poz : ℕ) (s : Bytes) → Lacks slash s → slash_loop i poz s ≡ poz
unfolding slash_loop
slash_loop_none i poz [] h = refl
slash_loop_none i poz (c ∷ s) h =
    let other : (c == slash) ≡ false = ground arith in rw other (slash_loop_none (suc i) poz s h.1)

slash_loop_last :
    (i poz : ℕ) (s t : Bytes) → Lacks slash t → slash_loop i poz (s ++ slash ∷ t) ≡ i + length s
unfolding slash_loop
slash_loop_last i poz [] t h = slash_loop_none (suc i) i t h ∙ omega arith
slash_loop_last i poz (c ∷ s) t h = slash_loop_last (suc i) _ s t h ∙ omega arith

-- The position of the last slash: the text behind it has none.
pub find_last_slesh-last :
    (s t : Bytes) → Lacks slash t → find_last_slesh (s ++ slash ∷ t) ≡ length s
unfolding find_last_slesh
find_last_slesh-last s t h = slash_loop_last 0 0 s t h ∙ omega arith
