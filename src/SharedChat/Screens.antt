-- ===== src/SharedChat/Screens.antt =====
-- What stands in the segments of the chat and on the screens of its clients.
use study_eltex.Prelude.{
  ℕ, ◌+◌, ◌<◌, ◌≤◌, ◌≡◌, ◌≢◌, refl, sym, ◌∙◌, false, Bool, Bool-cases, inl, inr, List, [], ◌∷◌,
  ◌++◌, Bytes, length, length-append, length-take, take, str_eq, str_eq_refl, str_eq→eq, ◌==◌,
  arith,
}
use mathlib.Core.Path.{subst}
use study_eltex.Prelude.Family.{replace}
use study_eltex.SharedChat.Times.{times, times-append, times-take, times-last}
use study_eltex.SharedChat.{
  wor, Shared, Pc, polling, copying, counting, resetting, typing, starting, watching, printing,
  Move, by_server, by_writer, by_printer, nothing_new, something, copy, copy_overruns,
  copy_too_long, set_count, reset, say, read_count, unchanged, changed, print, System, Step, pick,
  Steps, here, later, start,
}

-- What the place of a thread says of the segments.
abbrev Placed : Shared → ℕ → Pc → Type 0
Placed m t (polling co) = (t ≡ 0) × (length m.rows ≡ co) × (m.count ≡ co)
Placed m t (copying co) =
    (t ≡ 0) × (length m.rows ≡ co) × (m.count ≡ co) × (0 < times m.text m.sent)
Placed m t (counting co) = (t ≡ 0) × (length m.rows ≡ co) × (m.count + 1 ≡ co)
Placed m t (resetting co) = (t ≡ 0) × (length m.rows ≡ co) × (m.count ≡ co)
Placed m t typing = t ≢ 0
Placed m t starting = t ≢ 0
Placed m t (watching k) = (t ≢ 0) × (k ≤ m.count)
Placed m t (printing k) = (t ≢ 0) × (k ≤ m.count)

record Known (m : Shared) : Type 0 where
  counted : m.count ≤ length m.rows
  waiting_sent : str_eq m.text wor ≡ false → 0 < times m.text m.sent
  rows_sent : (s : Bytes) → 0 < times s m.rows → 0 < times s m.sent
  shown_sent : (t : ℕ) (s : Bytes) → 0 < times s (m.shown t) → 0 < times s m.sent
  shown_counted : (t : ℕ) → length (m.shown t) ≤ m.count

module _ {m : Shared} (known : Known m) (t : ℕ) where
  open known use {counted, waiting_sent, rows_sent, shown_sent, shown_counted}

  Move-here : {p p' : Pc} {m' : Shared} → Move m t p m' p' → Placed m t p → Placed m' t p'
  Move-here (by_server (nothing_new h)) q = q
  Move-here (by_server (something h)) q = (q.0, q.1, q.2, waiting_sent h)
  Move-here (by_server (copy l short)) q = ground (arith, length-append m.rows (m.text ∷ []))
  Move-here (by_server (copy_overruns h)) q = q
  Move-here (by_server (copy_too_long h)) q = q
  Move-here (by_server set_count) q = ground arith
  Move-here (by_server reset) q = q
  Move-here (by_writer (say message)) q = q
  Move-here (by_printer read_count) q = ground arith
  Move-here (by_printer (unchanged h)) q = q
  Move-here (by_printer (changed h)) q = ground arith
  Move-here (by_printer print) q = q

  -- Another client's place needs the count to grow only.
  grow : (m' : Shared) (u : ℕ) (r : Pc) → u ≢ 0 → m.count ≤ m'.count → Placed m u r → Placed m' u r
  grow m' u (polling co) d h w = absurd (d w.0)
  grow m' u (copying co) d h w = absurd (d w.0)
  grow m' u (counting co) d h w = absurd (d w.0)
  grow m' u (resetting co) d h w = absurd (d w.0)
  grow m' u typing d h w = w
  grow m' u starting d h w = w
  grow m' u (watching k) d h w = (w.0, omega arith)
  grow m' u (printing k) d h w = (w.0, omega arith)

  spoken :
      (message : Bytes) (u : ℕ) (r : Pc)
      → Placed m u r
      → Placed (record m { text = message; sent = m.sent ++ message ∷ [] }) u r
  spoken message u (polling co) w = w
  spoken message u (copying co) w = (w.0, w.1, w.2, times-last message m.sent)
  spoken message u (counting co) w = w
  spoken message u (resetting co) w = w
  spoken message u typing w = w
  spoken message u starting w = w
  spoken message u (watching k) w = w
  spoken message u (printing k) w = w

  displayed :
      (f : ℕ → List Bytes) (u : ℕ) (r : Pc) → Placed m u r → Placed (record m { shown = f }) u r
  displayed f u (polling co) w = w
  displayed f u (copying co) w = w
  displayed f u (counting co) w = w
  displayed f u (resetting co) w = w
  displayed f u typing w = w
  displayed f u starting w = w
  displayed f u (watching k) w = w
  displayed f u (printing k) w = w

  -- The server is one thread.
  Move-there :
      {p p' : Pc} {m' : Shared} (u : ℕ) (r : Pc)
      → Move m t p m' p'
      → Placed m t p
      → u ≢ t
      → Placed m u r
      → Placed m' u r
  Move-there u r (by_server (nothing_new h)) q d w = w
  Move-there u r (by_server (something h)) q d w = w
  Move-there u r (by_server (copy l short)) q d w =
      grow (record m { rows = m.rows ++ m.text ∷ [] }) u r (λ e. d (e ∙ sym (q.0))) (omega arith) w
  Move-there u r (by_server (copy_overruns h)) q d w =
      grow (record m { defined = false }) u r (λ e. d (e ∙ sym (q.0))) (omega arith) w
  Move-there u r (by_server (copy_too_long h)) q d w =
      grow (record m { defined = false }) u r (λ e. d (e ∙ sym (q.0))) (omega arith) w
  Move-there u r (by_server (set_count {co})) q d w =
      grow (record m { count = co }) u r (λ e. d (e ∙ sym (q.0))) (ground arith) w
  Move-there u r (by_server reset) q d w =
      grow (record m { text = wor }) u r (λ e. d (e ∙ sym (q.0))) (omega arith) w
  Move-there u r (by_writer (say message)) q d w = spoken message u r w
  Move-there u r (by_printer read_count) q d w = w
  Move-there u r (by_printer (unchanged h)) q d w = w
  Move-there u r (by_printer (changed h)) q d w = w
  Move-there u r (by_printer (print {k})) q d w =
      displayed (replace m.shown t (take k m.rows)) u r w

  copied_sent :
      0 < times m.text m.sent
      → (s : Bytes) → 0 < times s (m.rows ++ m.text ∷ [])
      → 0 < times s m.sent
  copied_sent q s h = elim (Bool-cases (str_eq m.text s)) [
    | inl e ↦ subst (λ x. 0 < times x m.sent) (str_eq→eq m.text s e) q
    | inr e ↦ ground (arith, rows_sent s, times-append s m.rows (m.text ∷ []))
  ]

  Move-Known : {p p' : Pc} {m' : Shared} → Move m t p m' p' → Placed m t p → Known m'
  Move-Known (by_server (nothing_new h)) q = known
  Move-Known (by_server (something h)) q = known
  Move-Known (by_server (copy l short)) q = record {
    counted = omega (arith, counted, length-append m.rows (m.text ∷ []));
    waiting_sent = waiting_sent;
    rows_sent = copied_sent (q.3);
    shown_sent = shown_sent;
    shown_counted = shown_counted;
  }
  Move-Known (by_server (copy_overruns h)) q = record {
    counted = counted;
    waiting_sent = waiting_sent;
    rows_sent = rows_sent;
    shown_sent = shown_sent;
    shown_counted = shown_counted;
  }
  Move-Known (by_server (copy_too_long h)) q = record {
    counted = counted;
    waiting_sent = waiting_sent;
    rows_sent = rows_sent;
    shown_sent = shown_sent;
    shown_counted = shown_counted;
  }
  Move-Known (by_server set_count) q = record {
    counted = ground arith;
    waiting_sent = waiting_sent;
    rows_sent = rows_sent;
    shown_sent = shown_sent;
    shown_counted = λ u. ground (arith, shown_counted u);
  }
  Move-Known (by_server reset) q = record {
    counted = counted;
    waiting_sent = λ e. ground (arith, str_eq_refl wor);
    rows_sent = rows_sent;
    shown_sent = shown_sent;
    shown_counted = shown_counted;
  }
  Move-Known (by_writer (say message)) q = record {
    counted = counted;
    waiting_sent = λ e. times-last message m.sent;
    rows_sent = λ s h. omega (arith, rows_sent s h, times-append s m.sent (message ∷ []));
    shown_sent = λ u s h. omega (arith, shown_sent u s h, times-append s m.sent (message ∷ []));
    shown_counted = shown_counted;
  }
  Move-Known (by_printer read_count) q = known
  Move-Known (by_printer (unchanged h)) q = known
  Move-Known (by_printer (changed h)) q = known
  Move-Known (by_printer (print {k})) q = record {
    counted = counted;
    waiting_sent = waiting_sent;
    rows_sent = rows_sent;
    shown_sent = λ u s h. elim (Bool-cases (u == t)) [
      | inl e ↦ ground (arith, rows_sent s, times-take s k m.rows)
      | inr e ↦ ground (arith, shown_sent u s)
    ];
    shown_counted = λ u. elim (Bool-cases (u == t)) [
      | inl e ↦ ground (arith, length-take k m.rows)
      | inr e ↦ ground (arith, shown_counted u)
    ];
  }

record Inv (s : System) : Type 0 where
  known : Known s.mem
  placed : (t : ℕ) → Placed s.mem t (s.pc t)

replace-Placed :
    (m : Shared) (pc : ℕ → Pc) (t : ℕ) (p : Pc)
    → Placed m t p
    → ((u : ℕ) → u ≢ t → Placed m u (pc u))
    → (u : ℕ) → Placed m u (replace pc t p u)
replace-Placed m pc t p h k u = elim (Bool-cases (t == u)) [
  | inl e ↦
      let at : t ≡ u = ground arith in
      let there : replace pc t p u ≡ p = rw e refl in
      subst (Placed m u) (sym there) (subst (λ v. Placed m v p) at h)
  | inr e ↦
      let there : replace pc t p u ≡ pc u = rw e refl in
      subst (Placed m u) (sym there) (k u (ground arith))
]

Step-Inv : {s s' : System} → Inv s → Step s s' → Inv s'
Step-Inv {s} inv (pick t {m} {p} run mv) = record {
  known = Move-Known inv.known t mv (inv.placed t);
  placed =
      replace-Placed m s.pc t p (Move-here inv.known t mv (inv.placed t))
        (λ u d. Move-there inv.known t u (s.pc u) mv (inv.placed t) d (inv.placed u));
}

start-Placed : (writes : ℕ → Bool) (t : ℕ) → Placed ((start writes).mem) t ((start writes).pc t)
start-Placed writes t = elim (Bool-cases (t == 0)) [
  | inl e ↦ rw e (ground arith, refl, refl)
  | inr e ↦ elim (Bool-cases (writes t)) [
    | inl w ↦ rw e (rw w (ground arith))
    | inr w ↦ rw e (rw w (ground arith))
  ]
]

Steps-Inv : (writes : ℕ → Bool) {s : System} → Steps (start writes) s → Inv s
Steps-Inv writes here = record {
  known = record {
    counted = omega arith;
    waiting_sent = λ e. ground (arith, str_eq_refl wor);
    rows_sent = λ s h. h;
    shown_sent = λ t s h. h;
    shown_counted = λ t. omega arith;
  };
  placed = start-Placed writes;
}
Steps-Inv writes (later r step) = Step-Inv (Steps-Inv writes r) step

-- In every reachable state, whichever threads write and in whatever order the threads take their steps, a
-- text on a client's screen has been sent by a client, a screen has no more texts than the count says, and
-- the count says no more than the rows that the server has stored.
screens_were_sent :
    (writes : ℕ → Bool) {s : System}
    → Steps (start writes) s
    → (t : ℕ)
    → ((text : Bytes) → 0 < times text (s.mem.shown t) → 0 < times text s.mem.sent)
      × (length (s.mem.shown t) ≤ s.mem.count)
      × (s.mem.count ≤ length s.mem.rows)
screens_were_sent writes r t =
    let known = (Steps-Inv writes r).known in
    (known.shown_sent t, known.shown_counted t, known.counted)
