-- ===== src/ThreadServer/Race.antt =====
-- Two connections and main's one `client_fd`.
use study_eltex.Prelude.{ℕ, ◌≡◌, refl, [], ◌∷◌, arith}
use study_eltex.Prelude.Family.{replace}
use study_eltex.ThreadServer.{
  by_process, by_main, Shared, starting, greeting, listening, accepting, creating, accept, read_fd,
  send, System, Step, pick, create, Steps, here, later, start,
}

-- Whatever two connections come first, main can accept both before the first thread reads `client_fd`: both
-- threads then answer the second, and the first connection has no thread.
pub first_connection_overtaken :
    (a b : ℕ)
    → (s : System) × Steps start s
      × (s.mem.accepted ≡ a ∷ b ∷ [])
      × (s.mem.answered ≡ b ∷ b ∷ [])
      × (s.pc 0 ≡ listening b)
      × (s.pc 1 ≡ listening b)
first_connection_overtaken a b =
    let m1 : Shared = record (start.mem) { client_fd = a; accepted = a ∷ [] } in
    let s1 : System = record { mem = m1; pc = replace start.pc 15 creating } in
    let s2 : System = record {
      mem = record m1 { count_of_thr = 1 };
      pc = replace (replace s1.pc 15 accepting) 0 starting;
    } in
    let m3 : Shared = record (s2.mem) { client_fd = b; accepted = a ∷ b ∷ [] } in
    let s3 : System = record { mem = m3; pc = replace s2.pc 15 creating } in
    let s4 : System = record {
      mem = record m3 { count_of_thr = 2 };
      pc = replace (replace s3.pc 15 accepting) 1 starting;
    } in
    let s5 : System = record { mem = s4.mem; pc = replace s4.pc 0 (greeting b) } in
    let s6 : System = record { mem = s4.mem; pc = replace s5.pc 1 (greeting b) } in
    let s7 : System = record {
      mem = record (s4.mem) { answered = b ∷ [] };
      pc = replace s6.pc 0 (listening b);
    } in
    let s8 : System = record {
      mem = record (s4.mem) { answered = b ∷ b ∷ [] };
      pc = replace s7.pc 1 (listening b);
    } in
    let t1 : Step start s1 = pick 15 (omega arith) refl (by_main (accept a)) in
    let t2 : Step s1 s2 = create refl refl in
    let t3 : Step s2 s3 = pick 15 (omega arith) refl (by_main (accept b)) in
    let t4 : Step s3 s4 = create refl refl in
    let t5 : Step s4 s5 = pick 0 (omega arith) refl (by_process read_fd) in
    let t6 : Step s5 s6 = pick 1 (omega arith) refl (by_process read_fd) in
    let t7 : Step s6 s7 = pick 0 (omega arith) refl (by_process send) in
    let t8 : Step s7 s8 = pick 1 (omega arith) refl (by_process send) in
    (
      s8,
      later (later (later (later (later (later (later (later here t1) t2) t3) t4) t5) t6) t7) t8,
      refl,
      refl,
      refl,
      refl,
    )
