-- ===== src/Editor/Moves.antt =====
-- The arrow keys of the editor.
use study_eltex.Prelude.{
  ℕ, zero, suc, ◌+◌, ◌-◌, ◌<◌, ◌≡◌, ◌⊎◌, inl, inr, refl, ap, true, arith, Bool-cases, ltb, lt→ltb,
  tests,
}
use study_eltex.Prelude.Int.{pos, ◌+ℤ◌, ◌-ℤ◌, ltb_ℤ}
use study_eltex.Editor.{Curses, Page, Key, left, right, up, down, edit_on, press}

one_back : (n : ℕ) → pos (suc n) -ℤ pos 1 ≡ pos n
unfolding ◌-ℤ◌
one_back n = ground arith

one_on : (n : ℕ) → pos n +ℤ pos 1 ≡ pos (n + 1)
unfolding ◌+ℤ◌
one_on n = ground arith

in_columns : (n columns : ℕ) → ltb_ℤ (pos n) (pos columns -ℤ pos 1) ≡ true → n + 1 < columns
unfolding ◌-ℤ◌
in_columns n columns t = ground arith

module _ {Screen : Type 0} (c : Curses Screen) where
  abbrev pub IsArrow : Key → Type 0
  IsArrow k = (k ≡ left) ⊎ (k ≡ right) ⊎ (k ≡ up) ⊎ (k ≡ down)

  -- The cursor is on a cell of the window.
  abbrev pub InWindow : Page Screen → Type 0
  InWindow p = (p.row < c.lines) × ((col : ℕ) × (p.cols ≡ pos col) × (col < c.columns))

  left-InWindow :
      (p : Page Screen)
      → InWindow p
      → (p' : Page Screen) × (press c left p ≡ edit_on p') × InWindow p'
  unfolding press
  left-InWindow p (r, (zero, e, l)) = (p, rw e refl, (r, (zero, e, l)))
  left-InWindow p (r, (suc n, e, l)) = (
    record p { cols = pos n },
    rw e (rw (one_back n) (rw (lt→ltb 0 (suc n + 0) (omega arith)) refl)),
    (r, (n, refl, omega arith)),
  )

  right-InWindow :
      (p : Page Screen)
      → InWindow p
      → (p' : Page Screen) × (press c right p ≡ edit_on p') × InWindow p'
  unfolding press
  right-InWindow p (r, (n, e, l)) = elim (Bool-cases (ltb_ℤ (pos n) (pos c.columns -ℤ pos 1))) [
    | inl t ↦ (
      record p { cols = pos (n + 1) },
      rw e (rw t (ap (λ x. edit_on (record p { cols = x })) (one_on n))),
      (r, (n + 1, refl, in_columns n c.columns t)),
    )
    | inr t ↦ (p, rw e (rw t refl), (r, (n, e, l)))
  ]

  up-InWindow :
      (p : Page Screen)
      → InWindow p
      → (p' : Page Screen) × (press c up p ≡ edit_on p') × InWindow p'
  unfolding press
  up-InWindow p (r, w) = elim (Bool-cases (ltb 0 p.row)) [
    | inl t ↦ (record p { row = p.row - 1 }, rw t refl, (omega arith, w))
    | inr t ↦ (p, rw t refl, (r, w))
  ]

  down-InWindow :
      (p : Page Screen)
      → InWindow p
      → (p' : Page Screen) × (press c down p ≡ edit_on p') × InWindow p'
  unfolding press
  down-InWindow p (r, w) = elim (Bool-cases (ltb (p.row + 1) c.lines)) [
    | inl t ↦ (record p { row = p.row + 1 }, rw t refl, (omega tests, w))
    | inr t ↦ (p, rw t refl, (r, w))
  ]

  -- An arrow key at a cell of the window keeps the editor open, with its cursor on a cell of the window.
  pub arrow-InWindow :
      (k : Key) (p : Page Screen)
      → IsArrow k
      → InWindow p
      → (p' : Page Screen) × (press c k p ≡ edit_on p') × InWindow p'
  arrow-InWindow k p a w = elim a [
    | inl e ↦ rw e (left-InWindow p w)
    | inr (inl e) ↦ rw e (right-InWindow p w)
    | inr (inr (inl e)) ↦ rw e (up-InWindow p w)
    | inr (inr (inr e)) ↦ rw e (down-InWindow p w)
  ]
