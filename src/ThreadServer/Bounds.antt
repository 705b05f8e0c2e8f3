-- ===== src/ThreadServer/Bounds.antt =====
-- The array of threads of sokets2/1-2scheme/server.c, and the connections that its threads hold.
use study_eltex.Prelude.{ℕ, ◌+◌, ◌<◌, ◌≤◌, ◌≡◌, ◌≢◌, refl, [], ◌∷◌, arith}
use study_eltex.Prelude.Counts.{count, count-append}
use study_eltex.Prelude.Family.{replace}
use study_eltex.ThreadServer.{
  count_of_threads, Shared, Pc, unborn, starting, greeting, accepting, creating, joining, Move,
  by_process, by_main, accept, send, System, next, pick, create, Steps, here, later, start,
}

-- The code of main, and that of the threads.
abbrev pub IsMain : Pc → Type 0
IsMain accepting = Unit
IsMain creating = Unit
IsMain joining = Unit
IsMain _ = ⊥

abbrev pub IsWorker : Pc → Type 0
IsWorker accepting = ⊥
IsWorker creating = ⊥
IsWorker joining = ⊥
IsWorker _ = Unit

-- A connection that has been accepted.
abbrev pub IsKnown : Shared → ℕ → Type 0
IsKnown m fd = 0 < count fd m.accepted

pub record Inv (m : Shared) (pc : ℕ → Pc) : Type 0 where
  pub main : IsMain (pc 15)
  pub workers : (t : ℕ) → t < 15 → IsWorker (pc t)
  pub room : pc 15 ≢ joining → m.count_of_thr < 15
  pub total : m.count_of_thr ≤ 15
  pub rest_unborn : (t : ℕ) → m.count_of_thr ≤ t → t < 15 → pc t ≡ unborn
  pub answered_known : (fd : ℕ) → 0 < count fd m.answered → IsKnown m fd
  pub held_known : (t fd : ℕ) → pc t ≡ greeting fd → IsKnown m fd
  pub current_known : (t : ℕ) → pc t ≡ starting → IsKnown m m.client_fd
  pub new_known : pc 15 ≡ creating → IsKnown m m.client_fd

module _ {m : Shared} {pc : ℕ → Pc} (inv : Inv m pc) (t : ℕ) (lt : t < 16) where
  open inv use {
    main, workers, room, total, rest_unborn, answered_known, held_known, current_known, new_known,
  }

  Move-Inv : {p p' : Pc} {m' : Shared} → Move m p m' p' → pc t ≡ p → Inv m' (replace pc t p')
  Move-Inv {p' = p'} (by_main (accept x)) e = record {
    main = ground (arith, main);
    workers = λ u l. ground (arith, workers u);
    room = λ h. ground (arith, room, main);
    total = total;
    rest_unborn = λ u h l. ground (arith, rest_unborn u, rest_unborn t, workers u);
    answered_known = λ fd h. ground (arith, answered_known fd, count-append fd m.accepted (x ∷ []));
    held_known = λ u fd h. ground (arith, held_known u fd, count-append fd m.accepted (x ∷ []));
    current_known = λ u h. ground (arith, count-append x m.accepted (x ∷ []));
    new_known = λ h. ground (arith, count-append x m.accepted (x ∷ []));
  }
  Move-Inv {p' = p'} (by_process (send {fd = x})) e = record {
    main = ground (arith, main);
    workers = λ u l. ground (arith, workers u);
    room = λ h. ground (arith, room, main);
    total = total;
    rest_unborn = λ u h l. ground (arith, rest_unborn u, rest_unborn t, workers u);
    answered_known = λ fd h.
        ground (arith, answered_known fd, held_known t x e, count-append fd m.answered (x ∷ []));
    held_known = λ u fd h. ground (arith, held_known u fd);
    current_known = λ u h. ground (arith, current_known u);
    new_known = λ h. ground (arith, new_known);
  }
  Move-Inv {p' = p'} (by_process mv) e = record {
    main = ground (arith, main);
    workers = λ u l. ground (arith, workers u);
    room = λ h. ground (arith, room, main);
    total = ground (arith, total);
    rest_unborn = λ u h l. ground (arith, rest_unborn u, rest_unborn t, workers u);
    answered_known = λ fd h. ground (arith, answered_known fd);
    held_known = λ u fd h. ground (arith, held_known u fd, current_known t);
    current_known = λ u h. ground (arith, current_known u);
    new_known = λ h. ground (arith, new_known);
  }
  Move-Inv {p' = p'} (by_main mv) e = record {
    main = ground (arith, main);
    workers = λ u l. ground (arith, workers u);
    room = λ h. ground (arith, room, main);
    total = ground (arith, total);
    rest_unborn = λ u h l. ground (arith, rest_unborn u, rest_unborn t, workers u);
    answered_known = λ fd h. ground (arith, answered_known fd);
    held_known = λ u fd h. ground (arith, held_known u fd, current_known t);
    current_known = λ u h. ground (arith, current_known u);
    new_known = λ h. ground (arith, new_known);
  }

module _ {m : Shared} {pc : ℕ → Pc} (inv : Inv m pc) (at : pc 15 ≡ creating) where
  open inv use {
    main, workers, room, total, rest_unborn, answered_known, held_known, current_known, new_known,
  }

  create-Inv :
      Inv
        (record m { count_of_thr = m.count_of_thr + 1 })
        (replace (replace pc 15 (next (m.count_of_thr + 1))) m.count_of_thr starting)
  create-Inv =
      let below : m.count_of_thr < 15 = ground (arith, room, at) in
      record {
        main = ground (arith, below);
        workers = λ u l. ground (arith, workers u);
        room = λ h. ground (arith, below);
        total = omega (arith, below);
        rest_unborn = λ u h l. ground (arith, rest_unborn u);
        answered_known = answered_known;
        held_known = λ u fd h. ground (arith, held_known u fd);
        current_known = λ u h. new_known at;
        new_known = λ h. new_known at;
      }

Inv-start : Inv start.mem start.pc
Inv-start = record {
  main = tt;
  workers = λ t l. ground arith;
  room = λ h. omega arith;
  total = omega arith;
  rest_unborn = λ t h l. ground arith;
  answered_known = λ fd h. omega arith;
  held_known = λ t fd h. ground arith;
  current_known = λ t h. ground arith;
  new_known = λ h. ground arith;
}

pub Steps-Inv : {s : System} → Steps start s → Inv s.mem s.pc
Steps-Inv here = Inv-start
Steps-Inv (later r (pick t lt running mv)) = Move-Inv (Steps-Inv r) t lt mv refl
Steps-Inv (later r (create running at)) = create-Inv (Steps-Inv r) at

-- In every reachable state where main is about to create a thread, `treads` has a place for it, whose thread
-- does not run yet, and the connection that it is meant for and every connection answered so far have been
-- accepted.
pub threads_in_bounds :
    {s : System}
    → Steps start s
    → s.pc 15 ≡ creating
    → (s.mem.count_of_thr < count_of_threads)
      × (s.pc s.mem.count_of_thr ≡ unborn)
      × (0 < count s.mem.client_fd s.mem.accepted)
      × ((fd : ℕ) → 0 < count fd s.mem.answered → 0 < count fd s.mem.accepted)
threads_in_bounds {s} r at =
    let inv = Steps-Inv r in
    let below : s.mem.count_of_thr < 15 = inv.room (λ q. cc) in
    (
      below,
      inv.rest_unborn s.mem.count_of_thr (omega arith) below,
      inv.new_known at,
      inv.answered_known,
    )
