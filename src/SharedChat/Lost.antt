-- ===== src/SharedChat/Lost.antt =====
-- Two clients that write before the server reads.
use study_eltex.Prelude.{◌≡◌, ◌<◌, refl, true, false, [], ◌∷◌, Bytes, length, str_eq, arith}
use study_eltex.Prelude.Family.{replace}
use study_eltex.SharedChat.{
  by_server, by_writer, wor, row_size, polling, copying, counting, resetting, typing, something,
  copy, set_count, reset, say, System, Step, pick, Steps, here, later, start,
}

-- Whatever a client sends first, where another sends a text that fits a row and is not WOR, both can be sent
-- and the rows get the second only, before the server polls again with nothing waiting.
text_lost :
    (first second : Bytes)
    → str_eq second wor ≡ false
    → length second < row_size
    → (s : System) × Steps (start (λ t. true)) s
      × (s.mem.sent ≡ first ∷ second ∷ [])
      × (s.mem.rows ≡ second ∷ [])
      × (s.mem.text ≡ wor)
      × (s.pc 0 ≡ polling 1)
text_lost first second new short =
    let s0 : System = start (λ t. true) in
    let s1 : System = record {
      mem = record (s0.mem) { text = first; sent = first ∷ [] };
      pc = replace s0.pc 1 typing;
    } in
    let s2 : System = record {
      mem = record (s1.mem) { text = second; sent = first ∷ second ∷ [] };
      pc = replace s1.pc 2 typing;
    } in
    let s3 : System = record { mem = s2.mem; pc = replace s2.pc 0 (copying 0) } in
    let s4 : System = record {
      mem = record (s3.mem) { rows = second ∷ [] };
      pc = replace s3.pc 0 (counting 1);
    } in
    let s5 : System = record {
      mem = record (s4.mem) { count = 1 };
      pc = replace s4.pc 0 (resetting 1);
    } in
    let s6 : System = record {
      mem = record (s5.mem) { text = wor };
      pc = replace s5.pc 0 (polling 1);
    } in
    let t1 : Step s0 s1 = pick 1 refl (by_writer (say first)) in
    let t2 : Step s1 s2 = pick 2 refl (by_writer (say second)) in
    let t3 : Step s2 s3 = pick 0 refl (by_server (something new)) in
    let t4 : Step s3 s4 = pick 0 refl (by_server (copy (omega arith) short)) in
    let t5 : Step s4 s5 = pick 0 refl (by_server set_count) in
    let t6 : Step s5 s6 = pick 0 refl (by_server reset) in
    (
      s6,
      later (later (later (later (later (later here t1) t2) t3) t4) t5) t6,
      refl,
      refl,
      refl,
      refl,
    )
