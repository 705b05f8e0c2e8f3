-- ===== src/FileManager/Rows.antt =====
-- KEY_UP and KEY_DOWN keep the cursor of the file manager on the entry that its line shows.
use study_eltex.Prelude.{
  ℕ, suc, ◌+◌, ◌-◌, ◌*◌, ◌<◌, ◌≡◌, inl, inr, refl, Bool, true, false, some, List, Bytes, ltb, tests,
  arith, Bool-cases, ltb→lt, lt→ltb, leb,
}
use study_eltex.FileManager.{Cursor, print_page, key_up, lines_from, key_down}
use study_eltex.FileManager.Browse.{IsSound, page_from}

module _ (is_dir : Bytes → Bool) (scandir : Bytes → List Bytes) (columns : ℕ) where
  page_above-IsSound :
      (c : Cursor)
      → IsSound is_dir scandir columns c
      → c.row ≡ 1
      → 1 < c.panel.local
      → IsSound is_dir scandir columns (record {
        row = 30;
        panel = record c.panel {
          local = c.panel.local - 1;
          shown =
              print_page is_dir scandir columns c.panel.path c.panel.str (c.panel.local - 30) 30;
        };
      })
  unfolding lines_from
  page_above-IsSound c s h d =
      let from : c.panel.local - 30 ≡ 30 * (s.k - 1) + 1 = omega (arith, s.local_eq) in
      let full : ltb (30 * (s.k - 1) + 1 + 30) c.panel.poz ≡ true =
        lt→ltb (30 * (s.k - 1) + 1 + 30) c.panel.poz (omega (arith, s.local_eq, s.on_line)) in
      record {
        k = s.k - 1;
        local_eq = omega (arith, s.local_eq);
        first_row = omega arith;
        last_row = omega arith;
        on_line = omega (arith, s.on_line);
        shown_eq = rw from (rw full refl);
        path_opens = s.path_opens;
      }

  -- At the top row: the page above, or no move.
  top_row-IsSound :
      (c : Cursor)
      → IsSound is_dir scandir columns c
      → c.row ≡ 1
      → ltb 1 c.row ≡ false
      → (c' : Cursor) × (key_up is_dir scandir columns c ≡ some c')
        × IsSound is_dir scandir columns c'
  unfolding key_up
  top_row-IsSound c s h e = elim (Bool-cases (ltb 1 c.panel.local)) [
    | inl d ↦
        let above : leb 30 c.panel.local ≡ true = let q = s.local_eq in ground arith in
        (
          record {
            row = 30;
            panel = record c.panel {
              local = c.panel.local - 1;
              shown =
                  print_page is_dir scandir columns c.panel.path c.panel.str (c.panel.local - 30)
                    30;
            };
          },
          rw e (rw d (rw above refl)),
          page_above-IsSound c s h (ltb→lt 1 c.panel.local d),
        )
    | inr d ↦ (c, rw e (rw d refl), s)
  ]

  pub up-IsSound :
      (c : Cursor)
      → IsSound is_dir scandir columns c
      → (c' : Cursor) × (key_up is_dir scandir columns c ≡ some c')
        × IsSound is_dir scandir columns c'
  unfolding key_up
  up-IsSound c s = elim (Bool-cases (ltb 1 c.row)) [
    | inl e ↦ (
      record { row = c.row - 1; panel = record c.panel { local = c.panel.local - 1 } },
      rw e refl,
      record {
        k = s.k;
        local_eq = omega (tests, s.local_eq);
        first_row = omega tests;
        last_row = omega (arith, s.last_row);
        on_line = omega (arith, s.on_line);
        shown_eq = s.shown_eq;
        path_opens = s.path_opens;
      },
    )
    | inr e ↦ top_row-IsSound c s (let h = s.first_row in ground arith) e
  ]

  one_down-IsSound :
      (c : Cursor)
      → IsSound is_dir scandir columns c
      → c.row < 30
      → c.panel.local + 1 < c.panel.poz
      → IsSound is_dir scandir columns
          (record { row = c.row + 1; panel = record c.panel { local = c.panel.local + 1 } })
  one_down-IsSound c s h k = record {
    k = s.k;
    local_eq = omega (arith, s.local_eq);
    first_row = omega arith;
    last_row = omega arith;
    on_line = k;
    shown_eq = s.shown_eq;
    path_opens = s.path_opens;
  }

  next_page-IsSound :
      (c : Cursor)
      → IsSound is_dir scandir columns c
      → c.row ≡ 30
      → c.panel.local + 1 < c.panel.poz
      → IsSound is_dir scandir columns (record {
        row = 1;
        panel = record c.panel {
          local = c.panel.local + 1;
          shown = page_from is_dir scandir columns c.panel (c.panel.local + 1);
        };
      })
  next_page-IsSound c s h k =
      let next : c.panel.local + 1 ≡ 30 * suc s.k + 1 = omega (arith, s.local_eq) in
      record {
        k = suc s.k;
        local_eq = omega (arith, s.local_eq);
        first_row = omega arith;
        last_row = omega arith;
        on_line = k;
        shown_eq = rw next refl;
        path_opens = s.path_opens;
      }

  pub down-IsSound :
      (c : Cursor)
      → IsSound is_dir scandir columns c
      → IsSound is_dir scandir columns (key_down is_dir scandir columns c)
  unfolding key_down
  down-IsSound c s = elim (Bool-cases (ltb c.panel.poz 31)) [
    | inl a ↦ elim (Bool-cases (ltb (c.row + 1) c.panel.poz)) [
      | inl b ↦ rw a (
          rw b (
            one_down-IsSound c s (omega (tests, s.local_eq))
              (omega (tests, s.local_eq, s.on_line, s.first_row))))
      | inr b ↦ rw a (rw b s)
    ]
    | inr a ↦ elim (Bool-cases (ltb c.row 30)) [
      | inl b ↦ elim (Bool-cases (ltb (c.panel.local + 1) c.panel.poz)) [
        | inl d ↦ rw a (rw b (rw d (one_down-IsSound c s (omega tests) (omega tests))))
        | inr d ↦ rw a (rw b (rw d s))
      ]
      | inr b ↦ elim (Bool-cases (ltb (c.panel.local + 1) c.panel.poz)) [
        | inl d ↦
            rw a (
              rw b
                (rw d (next_page-IsSound c s (let h = s.last_row in ground arith) (omega tests))))
        | inr d ↦ rw a (rw b (rw d s))
      ]
    ]
  ]
