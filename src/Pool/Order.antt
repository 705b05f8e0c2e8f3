-- ===== src/Pool/Order.antt =====
-- The order of the connections of the pool, and in whose hands they are.
use study_eltex.Prelude.{
  ℕ, ◌+◌, ◌<◌, ◌≡◌, ◌≢◌, refl, sym, ap, ◌∙◌, true, Bool-cases, inl, inr, some, List, [], ◌∷◌, ◌++◌,
  append-nil, append_assoc, ◌==◌, ltb, ltb→lt, if◌then◌else◌, arith,
}
use mathlib.Core.Path.{subst}
use study_eltex.Prelude.Counts.{count, count-append}
use study_eltex.Prelude.Family.{replace, sum_to, sum_to-replace, sum_to-agree}
use study_eltex.Pool.{
  count_of_threads, threads, Shared, Pc, looping, receiving, greeting, listening, unlocking,
  accepting, sending, Move, by_worker, by_main, trylock, busy, msgrcv, msgrcv_fails, send,
  send_fails, recv, recv_fails, unlock, accept, accept_fails, msgsnd, msgsnd_fails, System, pick,
  Steps, here, later, start,
}

-- 1 for a worker that has taken the connection and not yet served it.
abbrev pub in_hand : ℕ → Pc → ℕ
in_hand fd (greeting x) = if x == fd then 1 else 0
in_hand fd (listening x) = if x == fd then 1 else 0
in_hand fd (unlocking x) = if x == fd then 1 else 0
in_hand fd _ = 0

abbrev pub in_hands : ℕ → (ℕ → Pc) → ℕ
in_hands fd pc = sum_to threads (λ t. in_hand fd (pc t))

-- What main has accepted and not yet sent.
abbrev pub pending : Pc → List ℕ
pending (sending fd) = fd ∷ []
pending _ = []

-- Main and the workers stand in their own code.
abbrev IsWorker : Pc → Type 0
IsWorker accepting = ⊥
IsWorker (sending fd) = ⊥
IsWorker _ = Unit

abbrev IsMain : Pc → Type 0
IsMain accepting = Unit
IsMain (sending fd) = Unit
IsMain _ = ⊥

pub record Inv (m : Shared) (pc : ℕ → Pc) : Type 0 where
  pub workers : (t : ℕ) → t < count_of_threads → IsWorker (pc t)
  pub main : IsMain (pc 15)
  pub ordered : m.accepted ≡ m.taken ++ (m.queue ++ pending (pc 15))
  pub counted : (fd : ℕ) → count fd m.taken ≡ in_hands fd pc + count fd m.served
  pub holding : (t u : ℕ) → m.owner t ≡ some u → pc t ≢ looping

in_hand-replace :
    (fd : ℕ) (pc : ℕ → Pc) (t : ℕ) (p' : Pc) (u : ℕ)
    → in_hand fd (replace pc t p' u) ≡ replace (λ u. in_hand fd (pc u)) t (in_hand fd p') u
in_hand-replace fd pc t p' u = elim (Bool-cases (t == u)) [ inl e ↦ rw e | inr e ↦ rw e ]

in_hands-replace :
    (fd : ℕ) (pc : ℕ → Pc) (t : ℕ) (p' : Pc)
    → t < threads
    → in_hands fd (replace pc t p') + in_hand fd (pc t) ≡ in_hands fd pc + in_hand fd p'
in_hands-replace fd pc t p' lt =
    let pointwise =
      sum_to-agree threads (λ u. in_hand fd (replace pc t p' u))
        (replace (λ u. in_hand fd (pc u)) t (in_hand fd p')) (in_hand-replace fd pc t p') in
    rw pointwise (sum_to-replace threads (λ u. in_hand fd (pc u)) t (in_hand fd p') lt)

module _ {m : Shared} {pc : ℕ → Pc} (inv : Inv m pc) (t : ℕ) (lt : t < threads) where
  open inv use {workers, main, ordered, counted, holding}

  Move-IsWorker :
      {p p' : Pc} {m' : Shared}
      → Move m t p m' p'
      → pc t ≡ p
      → (u : ℕ) → u < count_of_threads
      → IsWorker (replace pc t p' u)
  Move-IsWorker (by_worker (trylock h)) e u l = ground (arith, workers u)
  Move-IsWorker (by_worker mv) e u l = ground (arith, workers u)
  Move-IsWorker (by_main accept_fails) e u l = ground (arith, workers u)
  Move-IsWorker (by_main mv) e u l = ground (arith, workers u)

  Move-IsMain :
      {p p' : Pc} {m' : Shared} → Move m t p m' p' → pc t ≡ p → IsMain (replace pc t p' 15)
  Move-IsMain (by_worker (trylock h)) e = ground (arith, main)
  Move-IsMain (by_worker mv) e = ground (arith, main)
  Move-IsMain (by_main accept_fails) e = ground (arith, main)
  Move-IsMain (by_main mv) e = ground (arith, main)

  Move-counted :
      {p p' : Pc} {m' : Shared}
      → Move m t p m' p'
      → pc t ≡ p
      → (fd : ℕ) → count fd m'.taken ≡ in_hands fd (replace pc t p') + count fd m'.served
  Move-counted {p' = p'} (by_worker (trylock h)) e fd =
      ground (arith, counted fd, in_hands-replace fd pc t p' lt)
  Move-counted {p' = p'} (by_worker (msgrcv {fd = x} h)) e fd =
      ground (arith, counted fd, in_hands-replace fd pc t p' lt, count-append fd m.taken (x ∷ []))
  Move-counted {p' = p'} (by_worker (unlock {fd = x})) e fd =
      ground (arith, counted fd, in_hands-replace fd pc t p' lt, count-append fd m.served (x ∷ []))
  Move-counted {p' = p'} (by_worker mv) e fd =
      ground (arith, counted fd, in_hands-replace fd pc t p' lt)
  Move-counted {p' = p'} (by_main accept_fails) e fd =
      ground (arith, counted fd, in_hands-replace fd pc t p' lt)
  Move-counted {p' = p'} (by_main mv) e fd =
      ground (arith, counted fd, in_hands-replace fd pc t p' lt)

  Move-holding :
      {p p' : Pc} {m' : Shared}
      → Move m t p m' p'
      → pc t ≡ p
      → (u v : ℕ) → m'.owner u ≡ some v
      → replace pc t p' u ≢ looping
  Move-holding (by_worker (trylock h)) e u v q = ground (arith, holding u v)
  Move-holding (by_worker mv) e u v q = ground (arith, holding u v)
  Move-holding (by_main accept_fails) e u v q = ground (arith, holding u v)
  Move-holding (by_main mv) e u v q = ground (arith, holding u v)

  apart : (p : Pc) → IsWorker p → IsMain p → ⊥
  apart accepting w n = w
  apart (sending fd) w n = w
  apart looping w n = n
  apart receiving w n = n
  apart (greeting fd) w n = n
  apart (listening fd) w n = n
  apart (unlocking fd) w n = n

  -- A thread in the workers' code is not main, so main stays where it is.
  pending_stays :
      (p p' : Pc) → pc t ≡ p → IsWorker p → pending (replace pc t p' 15) ≡ pending (pc 15)
  pending_stays p p' e w = elim (Bool-cases (t == 15)) [
    | inl q ↦
        let is_main : t ≡ 15 = ground arith in
        absurd (apart p w (subst IsMain (sym (ap pc is_main) ∙ e) main))
    | inr q ↦ rw q refl
  ]

  -- A thread in main's code is main.
  main_here : (p : Pc) → pc t ≡ p → IsMain p → t ≡ 15
  main_here p e n = elim (Bool-cases (ltb t count_of_threads)) [
    | inl q ↦ absurd (apart p (subst IsWorker e (workers t (ltb→lt t 15 q))) n)
    | inr q ↦ ground arith
  ]

  -- Main's step moves what is pending.
  pending_moves :
      (p p' : Pc)
      → pc t ≡ p
      → IsMain p
      → (pending (pc 15) ≡ pending p) × (pending (replace pc t p' 15) ≡ pending p')
  pending_moves p p' e n =
      let at : t ≡ 15 = main_here p e n in
      let there : pc 15 ≡ p = ap pc (sym at) ∙ e in
      let test : (t == 15) ≡ true = ground arith in (ap pending there, rw test refl)

  Move-ordered :
      {p p' : Pc} {m' : Shared}
      → Move m t p m' p'
      → pc t ≡ p
      → m'.accepted ≡ m'.taken ++ (m'.queue ++ pending (replace pc t p' 15))
  Move-ordered {p} {p'} (by_worker (trylock h)) e = rw (pending_stays p p' e tt) ordered
  Move-ordered {p} {p'} (by_worker (busy h)) e = rw (pending_stays p p' e tt) ordered
  Move-ordered {p} {p'} (by_worker (msgrcv {fd = x} {rest = rest} h)) e =
      rw (pending_stays p p' e tt)
        (ordered ∙ rw h (sym (append_assoc m.taken (x ∷ []) (rest ++ pending (pc 15)))))
  Move-ordered {p} {p'} (by_worker msgrcv_fails) e = rw (pending_stays p p' e tt) ordered
  Move-ordered {p} {p'} (by_worker send) e = rw (pending_stays p p' e tt) ordered
  Move-ordered {p} {p'} (by_worker send_fails) e = rw (pending_stays p p' e tt) ordered
  Move-ordered {p} {p'} (by_worker recv) e = rw (pending_stays p p' e tt) ordered
  Move-ordered {p} {p'} (by_worker recv_fails) e = rw (pending_stays p p' e tt) ordered
  Move-ordered {p} {p'} (by_worker unlock) e = rw (pending_stays p p' e tt) ordered
  Move-ordered {p} {p'} (by_main (accept x)) e =
      let (before, now) = pending_moves p p' e tt in
      rw now (
        ap (λ l. l ++ x ∷ []) (ordered ∙ rw before (ap (λ l. m.taken ++ l) (append-nil m.queue)))
        ∙ append_assoc m.taken m.queue (x ∷ []))
  Move-ordered {p} {p'} (by_main accept_fails) e =
      let (before, now) = pending_moves p p' e tt in rw now (rw before at ordered)
  Move-ordered {p} {p'} (by_main (msgsnd {fd = x})) e =
      let (before, now) = pending_moves p p' e tt in
      rw now (rw (append-nil (m.queue ++ x ∷ [])) (rw before at ordered))
  Move-ordered {p} {p'} (by_main (msgsnd_fails {fd = x})) e =
      let (before, now) = pending_moves p p' e tt in rw now (rw before at ordered)

  Move-Inv : {p p' : Pc} {m' : Shared} → Move m t p m' p' → pc t ≡ p → Inv m' (replace pc t p')
  Move-Inv mv e = record {
    workers = Move-IsWorker mv e;
    main = Move-IsMain mv e;
    ordered = Move-ordered mv e;
    counted = Move-counted mv e;
    holding = Move-holding mv e;
  }

Inv-start : Inv start.mem start.pc
Inv-start = record {
  workers = λ t l. ground arith;
  main = tt;
  ordered = refl;
  counted = λ fd. unfold sum_to in refl;
  holding = λ t u q. ground arith;
}

pub Steps-Inv : {s : System} → Steps start s → Inv s.mem s.pc
Steps-Inv here = Inv-start
Steps-Inv (later r (pick t lt running mv)) = Move-Inv (Steps-Inv r) t lt mv refl

-- In every reachable state the connections accepted are, in order, those taken from the queue, those in the
-- queue and the one that main is about to send; and of those taken each is with exactly as many workers as
-- it was taken more often than served. So no connection is lost, overtaken or given to two workers.
pub connections_in_order :
    {s : System}
    → Steps start s
    → (s.mem.accepted ≡ s.mem.taken ++ (s.mem.queue ++ pending (s.pc 15)))
      × ((fd : ℕ) → count fd s.mem.taken ≡ in_hands fd s.pc + count fd s.mem.served)
connections_in_order r = let inv = Steps-Inv r in (inv.ordered, inv.counted)
