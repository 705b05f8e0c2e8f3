-- ===== src/Fifos/Deadlock.antt =====
-- How far the two processes of pipes/2tsk come.
use study_eltex.Prelude.{ℕ, zero, suc, ◌+◌, ◌≤◌, ◌≡◌, refl, false, take, arith}
use study_eltex.Fifos.{
  opens1, opens2, meets, can_open, System, Step, open1, open2, Steps, here, later, start,
}

-- A process that has one fifo open cannot open the next, however far the other is.
open1-stuck : (n : ℕ) → n ≤ 1 → can_open 1 opens1 (take (n + 1) opens2) ≡ false
unfolding can_open meets
open1-stuck zero h = refl
open1-stuck (suc zero) h = refl
open1-stuck (suc (suc n)) h = absurd (omega arith)

open2-stuck : (n : ℕ) → n ≤ 1 → can_open 1 opens2 (take (n + 1) opens1) ≡ false
unfolding can_open meets
open2-stuck zero h = refl
open2-stuck (suc zero) h = refl
open2-stuck (suc (suc n)) h = absurd (omega arith)

Step-low :
    (a b : ℕ) {s' : System}
    → a ≤ 1
    → b ≤ 1
    → Step (record { first = a; second = b }) s'
    → (s'.first ≤ 1) × (s'.second ≤ 1)
Step-low zero b h k (open1 m) = (omega arith, k)
Step-low (suc zero) b h k (open1 m) = absurd (let stuck = open1-stuck b k in cc)
Step-low a zero h k (open2 m) = (h, omega arith)
Step-low a (suc zero) h k (open2 m) = absurd (let stuck = open2-stuck a h in cc)
Step-low (suc (suc a)) b h k (open1 m) = absurd (omega arith)
Step-low a (suc (suc b)) h k (open2 m) = absurd (omega arith)

Steps-low : {s : System} → Steps start s → (s.first ≤ 1) × (s.second ≤ 1)
Steps-low here = (omega arith, omega arith)
Steps-low (later {t = t} r step) = let (h, k) = Steps-low r in Step-low t.first t.second h k step

-- Each process has its first fifo open.
abbrev pub waiting : System
waiting = record { first = 1; second = 1 }

reach-waiting : (a b : ℕ) → a ≤ 1 → b ≤ 1 → Steps (record { first = a; second = b }) waiting
unfolding can_open meets
reach-waiting zero zero h k =
    let opened : Steps (record { first = 0; second = 0 }) (record { first = 1; second = 0 }) =
      later here (open1 refl) in
    later opened (open2 refl)
reach-waiting zero (suc zero) h k = later here (open1 refl)
reach-waiting (suc zero) zero h k = later here (open2 refl)
reach-waiting (suc zero) (suc zero) h k = here
reach-waiting (suc (suc a)) b h k = absurd (omega arith)
reach-waiting a (suc (suc b)) h k = absurd (omega arith)

no_step : (s : System) → Step waiting s → ⊥
no_step s (open1 m) = let stuck = open1-stuck 1 (omega arith) in cc
no_step s (open2 m) = let stuck = open2-stuck 1 (omega arith) in cc

-- In every reachable state neither process has opened both fifos, and the two can go on to the state where
-- each has opened its first; from there no step is possible, so both wait in open for ever.
pub both_wait :
    {s : System}
    → Steps start s
    → (s.first ≤ 1) × (s.second ≤ 1) × Steps s waiting × ((t : System) → ¬ Step waiting t)
both_wait {s} r = let (h, k) = Steps-low r in (h, k, reach-waiting s.first s.second h k, no_step)
