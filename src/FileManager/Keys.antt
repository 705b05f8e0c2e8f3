-- ===== src/FileManager/Keys.antt =====
-- Sequences of keys in the file manager.
use study_eltex.Prelude.{
  ℕ, ◌+◌, ◌*◌, ◌≤◌, ◌≡◌, ◌≢◌, ◌⊎◌, inl, inr, refl, Bool, true, Option, none, some, List, [], ◌∷◌,
  ◌++◌, Bytes, codes, length, get_elem?, Bool-cases,
}
use study_eltex.FileManager.{Cursor, View, Key, btab, print_line, key_btab, listing_fits}
use study_eltex.FileManager.Browse.{IsSound, first_line}

abbrev pub NoTab : List Key → Type 0
NoTab [] = Unit
NoTab (k ∷ ks) = (k ≢ btab) × NoTab ks

module _ (is_dir : Bytes → Bool) (scandir : Bytes → List Bytes) (columns : ℕ)
    (dots : (path : Bytes) → is_dir path ≡ true → 2 ≤ length (scandir path))
    (slash : (path : Bytes) → is_dir path ≡ true → is_dir (path ++ codes "/") ≡ true)
    (fit : (path : Bytes) → listing_fits (scandir path) ≡ true) where
  -- The file manager has ended, or its cursor is sound.
  abbrev EndsWell : Option (Option View) → Type 0
  EndsWell r =
      (r ≡ some none) ⊎ ((w : View) × (r ≡ some (some w)) × IsSound is_dir scandir columns w.here)

key_btab_twice :
    (is_dir : Bytes → Bool) (scandir : Bytes → List Bytes) (columns : ℕ) (v : View)
    → let first : Cursor = record { row = 1; panel = record v.here.panel { local = 1 } } in
      (key_btab is_dir scandir columns (key_btab is_dir scandir columns v)).here ≡ first
unfolding key_btab
key_btab_twice is_dir scandir columns v = elim (Bool-cases v.is_right) [
  | inl e ↦ rw e refl
  | inr e ↦ rw e refl
]

-- Tab pressed twice in a panel that shows page k: `row` and `local` are 1, and the window is as before, so
-- that the cursor's line shows entry 30 k + 1 while Enter would open entry 1.
key_btab_forgets_page :
    (is_dir : Bytes → Bool) (scandir : Bytes → List Bytes) (columns : ℕ) (v : View)
    → (s : IsSound is_dir scandir columns v.here)
    → let w = key_btab is_dir scandir columns (key_btab is_dir scandir columns v) in
      (w.here.row ≡ 1)
      × (w.here.panel.local ≡ 1)
      × (get_elem? w.here.panel.shown 0
          ≡ some (
              print_line is_dir scandir columns w.here.panel.path
                (w.here.panel.str (30 * s.k + 1))))
key_btab_forgets_page is_dir scandir columns v s =
    rw (key_btab_twice is_dir scandir columns v)
      (refl, refl, first_line is_dir scandir columns v.here s)
