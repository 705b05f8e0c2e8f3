-- ===== src/Shop/Counter.antt =====
-- The counter `glob`, which the shoppers increment with no mutex and the delivery waits on.
use study_eltex.Prelude.{ℕ, ◌+◌, ◌<◌, ◌≤◌, ◌≡◌, ◌≢◌, refl, ◌==◌, arith, Bool-cases, inl, inr}
use study_eltex.Prelude.Family.{replace, sum_to, sum_to-replace, sum_to-agree}
use native.Mathlib.Decide.{dec_lt}
use study_eltex.Shop.{
  count_of_threads, Shared, Pc, counting, incrementing, finished, delivery_loop, delivery_visit,
  delivery_inside, delivery_storing, delivery_made, delivery_finished, Move, go_shopping, read_glob,
  write_glob, all_served, System, Step, pick, Steps, here, later, start,
}

-- 1 for a shopper that has finished.
abbrev pub is_finished : Pc → ℕ
is_finished (finished b) = 1
is_finished _ = 0

abbrev pub finished_threads : (ℕ → Pc) → ℕ
finished_threads pc = sum_to count_of_threads (λ t. is_finished (pc t))

record Counted (m : Shared) (pc : ℕ → Pc) : Type 0 where
  counted : m.glob ≤ finished_threads pc
  read : (t b g : ℕ) → pc t ≡ incrementing b g → g ≤ finished_threads pc
  ended : (t : ℕ) → pc t ≡ delivery_finished → 3 ≤ finished_threads pc

is_finished-replace :
    (pc : ℕ → Pc) (t : ℕ) (p' : Pc) (u : ℕ)
    → is_finished (replace pc t p' u) ≡ replace (λ u. is_finished (pc u)) t (is_finished p') u
is_finished-replace pc t p' u = elim (Bool-cases (t == u)) [ inl e ↦ rw e | inr e ↦ rw e ]

finished_threads-replace :
    (pc : ℕ → Pc) (t : ℕ) (p' : Pc)
    → t < count_of_threads
    → finished_threads (replace pc t p') + is_finished (pc t) ≡ finished_threads pc + is_finished p'
finished_threads-replace pc t p' lt =
    let pointwise =
      sum_to-agree count_of_threads (λ u. is_finished (replace pc t p' u))
        (replace (λ u. is_finished (pc u)) t (is_finished p')) (is_finished-replace pc t p') in
    rw pointwise (sum_to-replace count_of_threads (λ u. is_finished (pc u)) t (is_finished p') lt)

module _ {m : Shared} {pc : ℕ → Pc} (inv : Counted m pc) (t : ℕ) (lt : t < count_of_threads) where
  open inv use {counted, read, ended}

  Move-counted :
      {p p' : Pc} {m' : Shared}
      → Move m t p m' p'
      → pc t ≡ p
      → m'.glob ≤ finished_threads (replace pc t p')
  Move-counted {p' = p'} (go_shopping h) e = ground (arith, finished_threads-replace pc t p' lt)
  Move-counted {p' = p'} (write_glob {b = b} {g = g}) e =
      ground (arith, finished_threads-replace pc t p' lt, read t b g e)
  Move-counted {p' = p'} mv e = ground (arith, finished_threads-replace pc t p' lt)

  Move-read :
      {p p' : Pc} {m' : Shared}
      → Move m t p m' p'
      → pc t ≡ p
      → (u b g : ℕ) → replace pc t p' u ≡ incrementing b g
      → g ≤ finished_threads (replace pc t p')
  Move-read {p' = p'} (go_shopping h) e u b g q =
      ground (arith, finished_threads-replace pc t p' lt, read u b g)
  Move-read {p' = p'} mv e u b g q = ground (arith, finished_threads-replace pc t p' lt, read u b g)

  Move-ended :
      {p p' : Pc} {m' : Shared}
      → Move m t p m' p'
      → pc t ≡ p
      → (u : ℕ) → replace pc t p' u ≡ delivery_finished
      → 3 ≤ finished_threads (replace pc t p')
  Move-ended {p' = p'} (all_served h) e u q =
      ground (arith, h, finished_threads-replace pc t p' lt, ended u)
  Move-ended {p' = p'} mv e u q = ground (arith, finished_threads-replace pc t p' lt, ended u)

Counted-start : Counted start.mem start.pc
Counted-start = record {
  counted = omega arith;
  read = λ t b g q. ground arith;
  ended = λ t q. ground arith;
}

Steps-Counted : {s : System} → Steps start s → Counted s.mem s.pc
Steps-Counted here = Counted-start
Steps-Counted (later r (pick t lt mv)) =
    let inv = Steps-Counted r in
    record {
      counted = Move-counted inv t lt mv refl;
      read = Move-read inv t lt mv refl;
      ended = Move-ended inv t lt mv refl;
    }

-- In every reachable state `glob` is at most the number of threads that have finished shopping, and where
-- the delivery has ended three have.
pub glob-le-finished :
    {s : System}
    → Steps start s
    → (s.mem.glob ≤ finished_threads s.pc)
      × ((t : ℕ) → s.pc t ≡ delivery_finished → 3 ≤ finished_threads s.pc)
glob-le-finished r = let inv = Steps-Counted r in (inv.counted, inv.ended)

-- Two shoppers that both stand before `glob++` can be scheduled so that both finish and the counter
-- grows by one only.
lost_update :
    (s : System) (t u b c : ℕ)
    → t < count_of_threads
    → u < count_of_threads
    → t ≢ u
    → s.pc t ≡ counting b
    → s.pc u ≡ counting c
    → (s' : System) × Steps s s'
      × (s'.pc t ≡ finished b)
      × (s'.pc u ≡ finished c)
      × (s'.mem.glob ≡ s.mem.glob + 1)
lost_update s t u b c lt lu ne et eu =
    let g = s.mem.glob in
    let read_t : System = record s { pc = replace s.pc t (incrementing b g) } in
    let read_u : System = record s { pc = replace read_t.pc u (incrementing c g) } in
    let counted : Shared = record (s.mem) { glob = g + 1 } in
    let wrote_t : System = record { mem = counted; pc = replace read_u.pc t (finished b) } in
    let wrote_u : System = record { mem = counted; pc = replace wrote_t.pc u (finished c) } in
    let at_u : read_t.pc u ≡ counting c = ground arith in
    let at_t : read_u.pc t ≡ incrementing b g = ground arith in
    let at_u' : wrote_t.pc u ≡ incrementing c g = ground arith in
    let first : Step s read_t = pick t lt (rw et read_glob) in
    let second : Step read_t read_u = pick u lu (rw at_u read_glob) in
    let third : Step read_u wrote_t = pick t lt (rw at_t write_glob) in
    let fourth : Step wrote_t wrote_u = pick u lu (rw at_u' write_glob) in
    (
      wrote_u,
      later (later (later (later here first) second) third) fourth,
      ground arith,
      ground arith,
      refl,
    )

-- The delivery thread in its loop.
abbrev IsDelivery : Pc → Type 0
IsDelivery delivery_loop = Unit
IsDelivery (delivery_visit i) = Unit
IsDelivery (delivery_inside i) = Unit
IsDelivery (delivery_storing i amount v) = Unit
IsDelivery (delivery_made i) = Unit
IsDelivery _ = ⊥

-- Every shopper has finished, the counter is not 3, and the delivery is in its loop.
record IsStuck (s : System) : Type 0 where
  short : s.mem.glob ≢ 3
  shopped : (t : ℕ) → t < 3 → is_finished (s.pc t) ≡ 1
  delivering : IsDelivery (s.pc 3)

finished_stays :
    {m : Shared} {t : ℕ} {p : Pc} {m' : Shared} {p' : Pc} → Move m t p m' p' → is_finished p ≢ 1
finished_stays (go_shopping h) e = omega arith
finished_stays mv e = omega arith

-- A step of the delivery leaves the counter alone, and ends its loop only at 3.
IsDelivery-stays :
    {m : Shared} {t : ℕ} {p : Pc} {m' : Shared} {p' : Pc}
    → Move m t p m' p'
    → m.glob ≢ 3
    → IsDelivery p
    → IsDelivery p' × (m'.glob ≡ m.glob)
IsDelivery-stays (go_shopping h) g d = absurd d
IsDelivery-stays (all_served h) g d = absurd (g h)
IsDelivery-stays mv g d = ground arith

Step-IsStuck : {s s' : System} → Step s s' → IsStuck s → IsStuck s'
Step-IsStuck {s} (pick t {m} {p} lt mv) k = elim (dec_lt t 3) [
  | yes shopper ↦ absurd (finished_stays mv (k.shopped t shopper))
  | no other ↦
      let at_end : t ≡ 3 = omega arith in
      let (d, g) = IsDelivery-stays mv k.short (rw at_end k.delivering) in
      record {
        short = rw g k.short;
        shopped = λ u h. ground (arith, k.shopped u h);
        delivering = ground (arith, d);
      }
]

-- Once every shopper has finished with the counter short of or past 3, as after a lost update, the
-- counter stays where it is and the delivery loops for ever, whatever the schedule.
delivery_never_ends :
    {s s' : System} → IsStuck s → Steps s s' → IsStuck s' × (s'.pc 3 ≢ delivery_finished)
delivery_never_ends k r = let k' = go k r in (k', λ e. rw e at k'.delivering)
  where
    go : {s s' : System} → IsStuck s → Steps s s' → IsStuck s'
    go k here = k
    go k (later r st) = Step-IsStuck st (go k r)
