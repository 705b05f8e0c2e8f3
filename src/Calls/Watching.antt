-- ===== src/Calls/Watching.antt =====
-- What main of a server has noted in its global variables when a signal comes.
use study_eltex.Prelude.{
  ℕ, zero, suc, ◌≡◌, refl, true, false, Bool-cases, inl, inr, none, some, Option, List, [], ◌∷◌,
  ◌==◌, not, arith,
}
use study_eltex.Calls.{
  Call, socket, epoll_create1, Program, exit, looping, call, or_return, each, Event, run,
}
use study_eltex.Calls.Protocol.{Sockets, added, has, plausible, after, is_plausible}

-- `glob_fd = server_fd;` behind socket, and its like behind epoll_create1: the variables that are set, the last first.
abbrev pub noting : List ℕ → Call → Option ℕ → List ℕ
noting g socket r = added r g
noting g epoll_create1 r = added r g
noting g c r = g

unfoldable pub noted : List ℕ → List Event → List ℕ
noted g [] = g
noted g (e ∷ events) = noted (noting g e.made e.answer) events

-- The sockets that a run leaves.
unfoldable pub left : Sockets → List Event → Sockets
left s [] = s
left s (e ∷ events) = left (after s e.made e.answer) events

-- What has been noted is open, and different.
abbrev pub AreHeld : List ℕ → (opened : List ℕ) → Type 0
AreHeld [] opened = Unit
AreHeld (n ∷ g) opened = (has opened (some n) ≡ true) × (has g (some n) ≡ false) × AreHeld g opened

pub AreHeld-more : (g opened : List ℕ) (n : ℕ) → AreHeld g opened → AreHeld g (n ∷ opened)
unfolding has
AreHeld-more [] opened n h = tt
AreHeld-more (m ∷ g) opened n h = (ground arith, h.1, AreHeld-more g opened n h.2)

has-not_held :
    (g opened : List ℕ) (n : ℕ)
    → AreHeld g opened
    → has opened (some n) ≡ false
    → has g (some n) ≡ false
unfolding has
has-not_held [] opened n h absent = refl
has-not_held (m ∷ g) opened n h absent =
    let rest = has-not_held g opened n h.2 absent in
    elim (Bool-cases (m == n)) [
      | inl e ↦
          let same : m ≡ n = ground arith in
          absurd (let yes : has opened (some n) ≡ true = rw same at h.0 in ground arith)
      | inr e ↦ ground arith
    ]

pub AreHeld-new :
    (g opened : List ℕ) (n : ℕ)
    → not (has opened (some n)) ≡ true
    → AreHeld g opened
    → AreHeld (n ∷ g) (n ∷ opened)
unfolding has
AreHeld-new g opened n new h =
    (ground arith, has-not_held g opened n h (ground arith), AreHeld-more g opened n h)

-- So it stays while a program runs.
abbrev pub IsWatched : List ℕ → Sockets → Program → Type 0
IsWatched g s (exit code) = AreHeld g s.opened
IsWatched g s looping = AreHeld g s.opened
IsWatched g s (call c k) =
    AreHeld g s.opened
    × ((r : Option ℕ) → plausible s c r ≡ true → IsWatched (noting g c r) (after s c r) (k r))

start-AreHeld : (g : List ℕ) (s : Sockets) (p : Program) → IsWatched g s p → AreHeld g s.opened
start-AreHeld g s (exit code) w = w
start-AreHeld g s looping w = w
start-AreHeld g s (call c k) w = w.0

pub run-AreHeld :
    (p : Program) (g : List ℕ) (s : Sockets) (answers : List (Option ℕ))
    → IsWatched g s p
    → is_plausible s (run p answers) ≡ true
    → AreHeld (noted g (run p answers)) (left s (run p answers)).opened
unfolding run noted left is_plausible
run-AreHeld (exit code) g s answers w h = w
run-AreHeld looping g s answers w h = w
run-AreHeld (call c k) g s [] w h = w.0
run-AreHeld (call c k) g s (r ∷ answers) w h = elim (Bool-cases (plausible s c r)) [
  | inl p ↦ run-AreHeld (k r) (noting g c r) (after s c r) answers (w.1 r p) (rw p at h)
  | inr p ↦ absurd (let no : false ≡ true = rw p at h in cc)
]

pub or_return-IsWatched :
    (g : List ℕ) (s : Sockets) (c : Call) (k : Option ℕ → Program)
    → AreHeld g s.opened
    → AreHeld (noting g c none) (after s c none).opened
    → ((n : ℕ)
        → plausible s c (some n) ≡ true
        → IsWatched (noting g c (some n)) (after s c (some n)) (k (some n)))
    → IsWatched g s (or_return c k)
unfolding or_return
or_return-IsWatched g s c k h failed each = (
  h,
  λ r p.
      elim r
          as (λ r.
            plausible s c r ≡ true
            → IsWatched (noting g c r) (after s c r)
                (elim r [ none ↦ exit 1 | some n ↦ k (some n) ])) [
                  | none ↦ λ p. failed
                  | some n ↦ each n
                ]
        p,
)

pub each-IsWatched :
    (g : List ℕ) (s : Sockets) (f : ℕ → Call) (count i : ℕ) (p : Program)
    → ((i : ℕ) (r : Option ℕ) → after s (f i) r ≡ s)
    → ((i : ℕ) (r : Option ℕ) → noting g (f i) r ≡ g)
    → IsWatched g s p
    → IsWatched g s (each f count i p)
unfolding each
each-IsWatched g s f zero i p k n w = w
each-IsWatched g s f (suc count) i p k n w = (
  start-AreHeld g s p w,
  λ r _. rw (k i r) (rw (n i r) (each-IsWatched g s f count (suc i) p k n w)),
)
