-- ===== src/Plugins/Names.antt =====
-- The function names that are cut out of the names of the libraries.
use study_eltex.Prelude.{
  ℕ, suc, ◌+◌, ◌-◌, ◌≤◌, ◌≡◌, refl, true, some, [], ◌∷◌, ◌++◌, append_assoc, Bytes, codes, length,
  drop, length-append, length-snoc, set-middle, get_elem?, get_elem?-middle, ltb, lt→ltb, arith,
}
use study_eltex.Plugins.{copy_name, cut_name}

copy_name-moves :
    (front s post pre t : Bytes) (j : ℕ)
    → length front ≡ j
    → j ≡ length pre + 3
    → length s ≤ length t
    → copy_name (length s) j (front ++ (s ++ post)) (pre ++ t)
      ≡ some (pre ++ (s ++ drop (length s) t))
unfolding copy_name
copy_name-moves front [] post pre t j e k h = refl
copy_name-moves front (c ∷ s) post pre [] j e k h = absurd (omega arith)
copy_name-moves front (c ∷ s) post pre (x ∷ t) j e k h =
    let at : j - 3 ≡ length pre = omega arith in
    let inside : ltb (length pre) (length (pre ++ x ∷ t)) ≡ true =
      lt→ltb (length pre) (length (pre ++ x ∷ t)) (omega (arith, length-append pre (x ∷ t))) in
    let found : get_elem? (front ++ c ∷ (s ++ post)) j ≡ some c =
      rw (← e) (get_elem?-middle front c (s ++ post)) in
    let later =
      copy_name-moves (front ++ c ∷ []) s post (pre ++ c ∷ []) t (suc j) (length-snoc front c j e)
        (omega (arith, length-append pre (c ∷ []))) (omega arith) in
    rw found (rw at (rw inside (rw (set-middle pre x c t) ((simp append_assoc at later)))))

-- From a library called "lib" name ".so", with a name that fits, the row gets the name at its front and
-- keeps behind it what it held: it is the name as a string only if a NUL happened to stand there.
pub cut_name-lib :
    (junk name : Bytes)
    → length name ≤ length junk
    → cut_name junk (codes "lib" ++ (name ++ codes ".so")) ≡ some (name ++ drop (length name) junk)
unfolding cut_name
cut_name-lib junk name h =
    let rounds : length (codes "lib" ++ (name ++ codes ".so")) - 3 - 3 ≡ length name =
      omega (arith, length-append name (codes ".so")) in
    rw rounds (copy_name-moves (codes "lib") name (codes ".so") [] junk 3 refl refl h)
