-- ===== src/FileManager/Browse.antt =====
-- What the cursor of the file manager stands on: the line under it is the entry that Enter opens.
use study_eltex.Prelude.{
  ℕ, zero, suc, ◌+◌, ◌-◌, ◌*◌, ◌≤◌, ◌<◌, ◌≡◌, inl, inr, refl, sym, ap, ◌∙◌, Bool, true, false, some,
  List, [], ◌∷◌, Bytes, length, take, map, get_elem?, ltb, ◌==◌, if◌then◌else◌, arith, Bool-cases,
}
use study_eltex.FileManager.{Line, Panel, Cursor, page, print_line, print_page, store, lines_from}

module _ (is_dir : Bytes → Bool) (scandir : Bytes → List Bytes) (columns : ℕ) where
  -- The lines from subscript `i` on, as many as a window takes.
  abbrev pub page_from : Panel → ℕ → List Line
  page_from p i =
      print_page is_dir scandir columns p.path p.str i (lines_from is_dir scandir columns p.poz i)

  -- Page k is on the screen, the cursor is in one of its rows, and `local` counts up to that row; the
  -- path is a directory's.
  pub record IsSound (c : Cursor) : Type 0 where
    pub k : ℕ
    pub local_eq : c.panel.local ≡ c.row + 30 * k
    pub first_row : 1 ≤ c.row
    pub last_row : c.row ≤ 30
    pub on_line : c.panel.local < c.panel.poz
    pub shown_eq : c.panel.shown ≡ page_from c.panel (30 * k + 1)
    pub path_opens : is_dir c.panel.path ≡ true

  get_elem?-print_page :
      (path : Bytes) (str : ℕ → Bytes) (from count i : ℕ)
      → i < count
      → get_elem? (print_page is_dir scandir columns path str from count) i
        ≡ some (print_line is_dir scandir columns path (str (from + i)))
  unfolding print_page
  get_elem?-print_page path str from zero i h = absurd (omega arith)
  get_elem?-print_page path str from (suc count) zero h =
      let here : from + 0 ≡ from = omega arith in rw here refl
  get_elem?-print_page path str from (suc count) (suc i) h =
      let moved : from + suc i ≡ suc from + i = omega arith in
      rw moved (get_elem?-print_page path str (suc from) count i (omega arith))

  lines_from-covers :
      (poz from i : ℕ) → from + i < poz → i < 30 → i < lines_from is_dir scandir columns poz from
  unfolding lines_from
  lines_from-covers poz from i h k = ground arith

  -- The entry that Enter appends to the path is the one on the line of the cursor.
  pub selected :
      (c : Cursor)
      → IsSound c
      → get_elem? c.panel.shown (c.row - 1)
        ≡ some (print_line is_dir scandir columns c.panel.path (c.panel.str c.panel.local))
  selected c s =
      let at : 30 * s.k + 1 + (c.row - 1) ≡ c.panel.local =
        omega (arith, s.local_eq, s.first_row) in
      let found =
        get_elem?-print_page c.panel.path c.panel.str (30 * s.k + 1)
          (lines_from is_dir scandir columns c.panel.poz (30 * s.k + 1)) (c.row - 1)
          (lines_from-covers c.panel.poz (30 * s.k + 1) (c.row - 1) (rw at s.on_line)
            (omega (arith, s.first_row, s.last_row))) in
      rw (s.shown_eq) (found ∙ rw at refl)

  pub first_line :
      (c : Cursor)
      → (s : IsSound c)
      → get_elem? c.panel.shown 0
        ≡ some (print_line is_dir scandir columns c.panel.path (c.panel.str (30 * s.k + 1)))
  first_line c s =
      let at : 30 * s.k + 1 + 0 ≡ 30 * s.k + 1 = omega arith in
      let found =
        get_elem?-print_page c.panel.path c.panel.str (30 * s.k + 1)
          (lines_from is_dir scandir columns c.panel.poz (30 * s.k + 1)) 0
          (lines_from-covers c.panel.poz (30 * s.k + 1) 0
            (omega (arith, s.on_line, s.local_eq, s.first_row)) (omega arith)) in
      rw (s.shown_eq) (found ∙ rw at refl)

  store_before :
      (str : ℕ → Bytes) (i : ℕ) (names : List Bytes) (j : ℕ)
      → j < i
      → store is_dir scandir columns str i names j ≡ str j
  unfolding store
  store_before str i [] j h = refl
  store_before str i (name ∷ names) j h =
      let other =
        store_before (λ k. if k == i then name else str k) (suc i) names j (omega arith) in
      let skipped : (j == i) ≡ false = ground arith in rw other rw skipped refl

  print_page-store :
      (path : Bytes) (str : ℕ → Bytes) (i : ℕ) (names : List Bytes) (count : ℕ)
      → count ≤ length names
      → print_page is_dir scandir columns path (store is_dir scandir columns str i names) i count
        ≡ map (print_line is_dir scandir columns path) (take count names)
  unfolding print_page store
  print_page-store path str i names zero h = refl
  print_page-store path str i [] (suc count) h = absurd (omega arith)
  print_page-store path str i (name ∷ names) (suc count) h =
      let here = store_before (λ k. if k == i then name else str k) (suc i) names i (omega arith) in
      let same : (i == i) ≡ true = ground arith in
      rw here (
        rw same (
          ap (◌∷◌ (print_line is_dir scandir columns path name)) (
            print_page-store path (λ k. if k == i then name else str k) (suc i) names count
              (omega arith))))

  take-covers {ℓ} :
      {A : Type ℓ} → (m n : ℕ) (xs : List A) → length xs ≤ m → length xs ≤ n → take m xs ≡ take n xs
  take-covers zero zero [] h k = refl
  take-covers zero (suc n) [] h k = refl
  take-covers (suc m) zero [] h k = refl
  take-covers (suc m) (suc n) [] h k = refl
  take-covers zero n (x ∷ xs) h k = absurd (omega arith)
  take-covers (suc m) zero (x ∷ xs) h k = absurd (omega arith)
  take-covers (suc m) (suc n) (x ∷ xs) h k =
      ap (◌∷◌ x) (take-covers m n xs (omega arith) (omega arith))

  take-lines :
      (dot : Bytes) (names : List Bytes)
      → take (lines_from is_dir scandir columns (length (dot ∷ names)) 1) names ≡ take page names
  unfolding lines_from
  take-lines dot names = elim (Bool-cases (ltb 31 (length (dot ∷ names)))) [
    | inl e ↦ rw e refl
    | inr e ↦
        let rest : length (dot ∷ names) - 1 ≡ length names = omega arith in
        rw e (rw rest (take-covers (length names) 30 names (omega arith) (ground arith)))
  ]

  lines_from-first :
      (dot : Bytes) (names : List Bytes)
      → lines_from is_dir scandir columns (length (dot ∷ names)) 1 ≤ length names
  unfolding lines_from
  lines_from-first dot names = ground arith

  -- A directory of two names or more, listed from its first: the first page is on the screen.
  pub listed-IsSound :
      (str : ℕ → Bytes) (path : Bytes) (dot : Bytes) (names : List Bytes)
      → 1 ≤ length names
      → is_dir path ≡ true
      → IsSound (record {
        row = 1;
        panel = record {
          poz = length (dot ∷ names);
          local = 1;
          str = store is_dir scandir columns str 1 names;
          path = path;
          shown = map (print_line is_dir scandir columns path) (take page names);
        };
      })
  listed-IsSound str path dot names h opens =
      let printed =
        print_page-store path str 1 names
          (lines_from is_dir scandir columns (length (dot ∷ names)) 1)
          (lines_from-first dot names) in
      let lines = take-lines dot names in
      record {
        k = 0;
        local_eq = refl;
        first_row = omega arith;
        last_row = omega arith;
        on_line = omega arith;
        shown_eq = sym (printed ∙ rw lines refl);
        path_opens = opens;
      }
