-- ===== src/Pool/Progress.antt =====
-- The steps of a worker of the pool for one connection.
use study_eltex.Prelude.{
  ℕ, ◌<◌, ◌≡◌, ◌==◌, refl, true, none, some, Option-cases, inl, inr, List, [], ◌∷◌, ◌++◌, arith,
}
use study_eltex.Prelude.Family.{replace}
use study_eltex.Pool.{
  by_worker, count_of_threads, Shared, looping, receiving, greeting, listening, unlocking, trylock,
  msgrcv, send, recv, unlock, System, Step, pick, Steps, here, later, start,
}
use study_eltex.Pool.Order.{Steps-Inv}

-- In a reachable state that runs, with a connection at the head of the queue, a worker in its loop finds its
-- mutex free, and its next steps take that connection, serve it and bring it back to its loop.
pub worker_serves_head :
    {s : System}
    → Steps start s
    → (t fd : ℕ) (rest : List ℕ) → t < count_of_threads
    → s.mem.running ≡ true
    → s.pc t ≡ looping
    → s.mem.queue ≡ fd ∷ rest
    → (s.mem.owner t ≡ none)
      × ((s' : System) × Steps s s'
          × (s'.pc t ≡ looping)
          × (s'.mem.queue ≡ rest)
          × (s'.mem.served ≡ s.mem.served ++ fd ∷ []))
worker_serves_head {s} r t fd rest lt running at waits =
    let free : s.mem.owner t ≡ none = elim (Option-cases (s.mem.owner t)) [
      | inl e ↦ e
      | inr (u, e) ↦ absurd ((Steps-Inv r).holding t u e at)
    ] in
    let m1 : Shared = record (s.mem) { owner = replace s.mem.owner t (some t) } in
    let s1 : System = record { mem = m1; pc = replace s.pc t receiving } in
    let m2 : Shared = record m1 { queue = rest; taken = s.mem.taken ++ fd ∷ [] } in
    let s2 : System = record { mem = m2; pc = replace s1.pc t (greeting fd) } in
    let s3 : System = record { mem = m2; pc = replace s2.pc t (listening fd) } in
    let s4 : System = record { mem = m2; pc = replace s3.pc t (unlocking fd) } in
    let m5 : Shared = record m2 {
      owner = replace m1.owner t none;
      served = s.mem.served ++ fd ∷ [];
    } in
    let s5 : System = record { mem = m5; pc = replace s4.pc t looping } in
    let same : (t == t) ≡ true = ground arith in
    let step1 : Step s s1 = pick t (omega arith) running (rw at (by_worker (trylock free))) in
    let step2 : Step s1 s2 = pick t (omega arith) running (rw same (by_worker (msgrcv waits))) in
    let step3 : Step s2 s3 = pick t (omega arith) running (rw same (by_worker send)) in
    let step4 : Step s3 s4 = pick t (omega arith) running (rw same (by_worker recv)) in
    let step5 : Step s4 s5 = pick t (omega arith) running (rw same (by_worker unlock)) in
    (
      free,
      (
        s5,
        later (later (later (later (later here step1) step2) step3) step4) step5,
        rw same refl,
        refl,
        refl,
      ),
    )
