-- ===== src/Bot/Reaped.antt =====
-- All bots come to an end, and all their children are waited for.
use study_eltex.Prelude.{
  ℕ, zero, suc, ◌+◌, ◌-◌, ◌*◌, ◌≤◌, ◌<◌, ◌≡◌, ◌≢◌, ◌⊎◌, inl, inr, refl, ap, ◌==◌, Bool-cases,
  dec_lt, arith,
}
use study_eltex.Prelude.Family.{replace, sum_to, sum_to-replace, sum_to-agree}
use study_eltex.Bot.{
  count_of_bots, Pc, idle, forking, waiting, finished, System, Step, create, fork, fork_fails,
  client_ends, wait, wait_fails, join, Steps, here, later, start,
}

abbrev pub waits : Pc → ℕ
waits waiting = 1
waits _ = 0

-- The steps that a thread has to go, with that of its child.
abbrev pub to_go : Pc → ℕ
to_go forking = 3
to_go waiting = 1
to_go _ = 0

abbrev sum_of : (Pc → ℕ) → (ℕ → Pc) → ℕ
sum_of f pc = sum_to count_of_bots (λ t. f (pc t))

image-replace :
    (f : Pc → ℕ) (pc : ℕ → Pc) (t : ℕ) (p : Pc) (u : ℕ)
    → f (replace pc t p u) ≡ replace (λ u. f (pc u)) t (f p) u
image-replace f pc t p u = elim (Bool-cases (t == u)) [ inl e ↦ rw e refl | inr e ↦ rw e refl ]

sum_of-replace :
    (f : Pc → ℕ) (pc : ℕ → Pc) (t : ℕ) (p : Pc)
    → t < count_of_bots
    → sum_of f (replace pc t p) + f (pc t) ≡ sum_of f pc + f p
sum_of-replace f pc t p h =
    let agree =
      sum_to-agree count_of_bots (λ u. f (replace pc t p u)) (replace (λ u. f (pc u)) t (f p))
        (λ u. image-replace f pc t p u) in
    omega (arith, agree, sum_to-replace count_of_bots (λ u. f (pc u)) t (f p) h)

record Inv (s : System) : Type 0 where
  made : s.created ≤ count_of_bots
  unmade : (t : ℕ) → s.created ≤ t → s.pc t ≡ idle
  in_time : (t : ℕ) → t < s.created → s.pc t ≢ idle
  over : (t : ℕ) → t < s.joined → s.pc t ≡ finished
  joins : s.joined ≤ s.created
  children : s.running + s.ended ≤ sum_of waits s.pc

-- An upper bound for the steps to come.
abbrev measure : System → ℕ
measure s =
    4 * (count_of_bots - s.created) + sum_of to_go s.pc + (count_of_bots - s.joined) + s.running

module _ {s : System} (inv : Inv s) where
  open inv use {made, unmade, in_time, over, joins, children}

  in_range : (t : ℕ) → s.pc t ≢ idle → t < s.created
  in_range t h = elim (dec_lt t s.created) [
    | yes below ↦ below
    | no above ↦ absurd (h (unmade t (omega arith)))
  ]

  -- A thread that goes on, with what that leaves of the children.
  moved :
      (t : ℕ) (p : Pc) (r e : ℕ)
      → t < s.created
      → s.pc t ≢ finished
      → p ≢ idle
      → r + e ≤ sum_of waits (replace s.pc t p)
      → Inv (record s { pc = replace s.pc t p; running = r; ended = e })
  moved t p r e h k n l = record {
    made = made;
    unmade = λ u q. ground (arith, unmade u);
    in_time = λ u q. ground (arith, in_time u);
    over = λ u q. ground (arith, over u);
    joins = joins;
    children = l;
  }

  Step-Inv : {s' : System} → Step s s' → Inv s'
  Step-Inv (create h) = record {
    made = omega arith;
    unmade = λ u q. ground (arith, unmade u);
    in_time = λ u q. ground (arith, in_time u);
    over = λ u q. ground (arith, over u, joins);
    joins = omega (arith, joins);
    children = omega (
      arith,
      children,
      sum_of-replace waits s.pc s.created forking (omega arith),
      ap waits (unmade s.created (omega arith)),
    );
  }
  Step-Inv (fork t h) =
      let below = in_range t (λ i. ground arith) in
      moved t waiting (s.running + 1) s.ended below (λ i. ground arith) (λ i. ground arith)
        (omega (arith, children, sum_of-replace waits s.pc t waiting (omega arith), ap waits h))
  Step-Inv (fork_fails t h) =
      let below = in_range t (λ i. ground arith) in
      moved t waiting s.running s.ended below (λ i. ground arith) (λ i. ground arith)
        (omega (arith, children, sum_of-replace waits s.pc t waiting (omega arith), ap waits h))
  Step-Inv (client_ends rest h) = record {
    made = made;
    unmade = unmade;
    in_time = in_time;
    over = over;
    joins = joins;
    children = omega (arith, children, h);
  }
  Step-Inv (wait t rest h k) =
      let below = in_range t (λ i. ground arith) in
      moved t finished s.running rest below (λ i. ground arith) (λ i. ground arith)
        (omega (arith, children, sum_of-replace waits s.pc t finished (omega arith), ap waits h))
  Step-Inv (wait_fails t h k l) =
      let below = in_range t (λ i. ground arith) in
      moved t finished s.running s.ended below (λ i. ground arith) (λ i. ground arith) (omega arith)
  Step-Inv (join c h k) = record {
    made = made;
    unmade = unmade;
    in_time = in_time;
    over = λ u q. ground (arith, over u);
    joins = omega arith;
    children = children;
  }

start-Inv : Inv start
start-Inv = record {
  made = omega arith;
  unmade = λ t h. refl;
  in_time = λ t h. absurd (omega arith);
  over = λ t h. absurd (omega arith);
  joins = omega arith;
  children = omega arith;
}

Steps-Inv : {n : ℕ} {s : System} → Steps start n s → Inv s
Steps-Inv here = start-Inv
Steps-Inv (later r step) = Step-Inv (Steps-Inv r) step

-- Each step brings the end nearer.
Step-measure : {s s' : System} → Inv s → Step s s' → suc (measure s') ≤ measure s
Step-measure {s} inv (create h) =
    let inside = inv.unmade s.created (omega arith) in
    omega (arith, sum_of-replace to_go s.pc s.created forking h, ap to_go inside)
Step-measure {s} inv (fork t h) =
    let below = in_range inv t (λ i. ground arith) in
    omega (arith, sum_of-replace to_go s.pc t waiting (omega (arith, inv.made)), ap to_go h)
Step-measure {s} inv (fork_fails t h) =
    let below = in_range inv t (λ i. ground arith) in
    omega (arith, sum_of-replace to_go s.pc t waiting (omega (arith, inv.made)), ap to_go h)
Step-measure inv (client_ends rest h) = omega arith
Step-measure {s} inv (wait t rest h k) =
    let below = in_range inv t (λ i. ground arith) in
    omega (arith, sum_of-replace to_go s.pc t finished (omega (arith, inv.made)), ap to_go h)
Step-measure {s} inv (wait_fails t h k l) =
    let below = in_range inv t (λ i. ground arith) in
    omega (arith, sum_of-replace to_go s.pc t finished (omega (arith, inv.made)), ap to_go h)
Step-measure inv (join c h k) = omega arith

sum_to-zero : (n : ℕ) (f : ℕ → ℕ) → ((t : ℕ) → t < n → f t ≡ 0) → sum_to n f ≡ 0
unfolding sum_to
sum_to-zero zero f h = refl
sum_to-zero (suc n) f h =
    omega (arith, h n (omega arith), sum_to-zero n f (λ t k. h t (omega arith)))

Steps-measure : {n : ℕ} {s : System} → Steps start n s → n + measure s ≤ 5000
Steps-measure here = omega (arith, sum_to-zero count_of_bots (λ t. to_go idle) (λ t h. refl))
Steps-measure (later r step) = omega (arith, Steps-measure r, Step-measure (Steps-Inv r) step)

-- A thread that waits is not stuck: a child has ended, or one runs that can end, or there is none.
next_wait :
    {s : System} (t : ℕ)
    → s.pc t ≡ waiting
    → (r e : ℕ) → s.running ≡ r
    → s.ended ≡ e
    → (s' : System) × Step s s'
next_wait t h r (suc e) i j = (_, wait t e h j)
next_wait t h (suc r) zero i j = (_, client_ends r i)
next_wait t h zero zero i j = (_, wait_fails t h i j)

-- While main has not joined all threads, a step can be made.
next_step : {s : System} → Inv s → s.joined < count_of_bots → (s' : System) × Step s s'
next_step {s} inv h = elim (dec_lt s.created count_of_bots) [
  | yes more ↦ (_, create more)
  | no all ↦ by_pc (s.pc s.joined) refl (omega (arith, inv.made))
]
  where
    by_pc : (p : Pc) → s.pc s.joined ≡ p → s.created ≡ count_of_bots → (s' : System) × Step s s'
    by_pc idle e c = absurd (inv.in_time s.joined (omega arith) e)
    by_pc forking e c = (_, fork s.joined e)
    by_pc waiting e c = next_wait s.joined e s.running s.ended refl refl
    by_pc finished e c = (_, join c h e)

-- Every run of the bots ends after at most 5000 steps, and where no step can be made main has joined every thread
-- and every child has ended and been waited for.
pub bots_reaped :
    {n : ℕ} {s : System}
    → Steps start n s
    → (n ≤ 5 * count_of_bots)
      × (((s' : System) × Step s s')
          ⊎ ((s.joined ≡ count_of_bots) × (s.running ≡ 0) × (s.ended ≡ 0)))
bots_reaped {n} {s} r =
    let inv = Steps-Inv r in
    let bound = Steps-measure r in
    (
      omega (arith, bound),
      elim (dec_lt s.joined count_of_bots) [
        | yes h ↦ inl (next_step inv h)
        | no h ↦
            let all : s.joined ≡ count_of_bots = omega (arith, inv.made, inv.joins) in
            let none_waits =
              sum_to-zero count_of_bots (λ t. waits (s.pc t))
                (λ t k. ap waits (inv.over t (omega arith))) in
            inr (
              all,
              omega (arith, none_waits, inv.children),
              omega (arith, none_waits, inv.children),
            )
      ],
    )
