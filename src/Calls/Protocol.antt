-- ===== src/Calls/Protocol.antt =====
-- The order in which the calls on a socket make sense, and when a program keeps to it whatever the kernel
-- answers. Documented of the kernel: a call that needs a socket fails where it is given something else.
use study_eltex.Prelude.{
  ℕ, zero, suc, ◌≡◌, refl, Bool, true, false, Bool-cases, inl, inr, Option, none, some, List, [],
  ◌∷◌, ◌&&◌, ◌||◌, ◌==◌, not, if◌then◌else◌,
}
use study_eltex.Calls.{
  Call, socket, epoll_create1, bind, listen, connect, accept, setsockopt, send, recv, sendto,
  recvfrom, close, Program, exit, looping, call, or_return, each, Event, run,
}

-- The descriptors that are open, those that listen, and those that have a peer.
pub record Sockets : Type 0 where
  pub opened : List ℕ
  pub listening : List ℕ
  pub connected : List ℕ

abbrev pub no_sockets : Sockets
no_sockets = record { opened = []; listening = []; connected = [] }

unfoldable pub has : List ℕ → Option ℕ → Bool
has l none = false
has [] (some n) = false
has (m ∷ l) (some n) = m == n || has l (some n)

-- accept on a socket that listens, send and recv on one with a peer, the others on an open one.
abbrev pub allowed : Sockets → Call → Bool
allowed s (accept fd) = has s.listening fd
allowed s (send fd) = has s.connected fd
allowed s (recv fd) = has s.connected fd
allowed s (sendto fd) = has s.opened fd
allowed s (recvfrom fd) = has s.opened fd
allowed s (close fd) = has s.opened fd
allowed s _ = true

-- What succeeds was done to an open socket, and a new descriptor is not that of an open one.
abbrev pub plausible : Sockets → Call → Option ℕ → Bool
plausible s (bind fd) (some n) = has s.opened fd
plausible s (listen fd) (some n) = has s.opened fd
plausible s (connect fd) (some n) = has s.opened fd
plausible s (setsockopt fd) (some n) = has s.opened fd
plausible s socket (some n) = not (has s.opened (some n))
plausible s epoll_create1 (some n) = not (has s.opened (some n))
plausible s (accept fd) (some n) = not (has s.opened (some n))
plausible s c r = true

abbrev pub added : Option ℕ → List ℕ → List ℕ
added none l = l
added (some n) l = n ∷ l

unfoldable pub without : List ℕ → Option ℕ → List ℕ
without l none = l
without [] (some n) = []
without (m ∷ l) (some n) = let rest = without l (some n) in if m == n then rest else m ∷ rest

abbrev pub when : Option ℕ → List ℕ → List ℕ → List ℕ
when none changed l = l
when (some n) changed l = changed

-- What a call leaves. A socket is closed whatever close answers.
abbrev pub after : Sockets → Call → Option ℕ → Sockets
after s socket r = record s { opened = added r s.opened }
after s epoll_create1 r = record s { opened = added r s.opened }
after s (listen fd) r = record s { listening = when r (added fd s.listening) s.listening }
after s (connect fd) r = record s { connected = when r (added fd s.connected) s.connected }
after s (accept fd) r = record s { opened = added r s.opened; connected = added r s.connected }
after s (close fd) r = record {
  opened = without s.opened fd;
  listening = without s.listening fd;
  connected = without s.connected fd;
}
after s c r = s

-- A run in which every call is allowed where it is made, and one whose answers are plausible.
unfoldable pub is_legal : Sockets → List Event → Bool
is_legal s [] = true
is_legal s (e ∷ events) = allowed s e.made && is_legal (after s e.made e.answer) events

unfoldable pub is_plausible : Sockets → List Event → Bool
is_plausible s [] = true
is_plausible s (e ∷ events) =
    plausible s e.made e.answer && is_plausible (after s e.made e.answer) events

-- A program that makes allowed calls only, whatever plausible answers it gets.
abbrev pub IsSafe : Sockets → Program → Type 0
IsSafe s (exit code) = Unit
IsSafe s looping = Unit
IsSafe s (call c k) =
    (allowed s c ≡ true) × ((r : Option ℕ) → plausible s c r ≡ true → IsSafe (after s c r) (k r))

pub run-IsSafe :
    (p : Program) (s : Sockets) (answers : List (Option ℕ))
    → IsSafe s p
    → is_plausible s (run p answers) ≡ true
    → is_legal s (run p answers) ≡ true
unfolding run is_legal is_plausible
run-IsSafe (exit code) s answers safe h = refl
run-IsSafe looping s answers safe h = refl
run-IsSafe (call c k) s [] safe h = refl
run-IsSafe (call c k) s (r ∷ answers) safe h = elim (Bool-cases (plausible s c r)) [
  | inl p ↦ rw safe.0 (run-IsSafe (k r) (after s c r) answers (safe.1 r p) (rw p at h))
  | inr p ↦ absurd (let no : false ≡ true = rw p at h in cc)
]

-- A call that is tested goes on only where it succeeds.
pub or_return-IsSafe :
    (s : Sockets) (c : Call) (k : Option ℕ → Program)
    → allowed s c ≡ true
    → ((n : ℕ) → plausible s c (some n) ≡ true → IsSafe (after s c (some n)) (k (some n)))
    → IsSafe s (or_return c k)
unfolding or_return
or_return-IsSafe s c k h each = (
  h,
  λ r p.
      elim r
          as (λ r.
            plausible s c r ≡ true
            → IsSafe (after s c r) (elim r [ none ↦ exit 1 | some n ↦ k (some n) ])) [
              | none ↦ λ p. tt
              | some n ↦ each n
            ]
        p,
)

-- Calls in a loop that are always allowed and leave the sockets as they are.
pub each-IsSafe :
    (s : Sockets) (f : ℕ → Call) (count i : ℕ) (p : Program)
    → ((i : ℕ) → allowed s (f i) ≡ true)
    → ((i : ℕ) (r : Option ℕ) → after s (f i) r ≡ s)
    → IsSafe s p
    → IsSafe s (each f count i p)
unfolding each
each-IsSafe s f zero i p h k safe = safe
each-IsSafe s f (suc count) i p h k safe =
    (h i, λ r q. rw (k i r) (each-IsSafe s f count (suc i) p h k safe))
