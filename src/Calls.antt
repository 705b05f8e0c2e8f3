-- ===== src/Calls.antt =====
-- The programs that are sequences of system calls, as trees: a call, and how the program goes on for each
-- answer. An answer is `none` for -1 (or SIG_ERR), and else a number, such as a descriptor. What is sent and
-- received is in Exchange and RawSocket; constant messages, and perror, are left out.
pub mod Protocol
pub mod Connections
pub mod Datagrams
pub mod Servers
pub mod Handlers
pub mod Safety
pub mod Watching
pub mod Signals
use study_eltex.Prelude.{
  ℕ, zero, suc, ◌+◌, Bool, true, false, Option, none, some, List, [], ◌∷◌, ◌&&◌, ◌||◌, ◌==◌, not,
  if◌then◌else◌,
}

pub data Call : Type 0 where
  signal unlink socket msgget epoll_create1 msgsnd : Call
  bind listen connect accept setsockopt : (fd : Option ℕ) → Call
  send recv sendto recvfrom close : (fd : Option ℕ) → Call
  epoll_wait : (epoll_fd : Option ℕ) → Call
  epoll_ctl : (epoll_fd fd : Option ℕ) → Call
  mutex_init mutex_destroy pthread_create pthread_join : (i : ℕ) → Call

-- A program: it returns from main, or goes on in a loop that is modelled elsewhere or never left, or calls.
pub data Program : Type 0 where
  exit : (code : ℕ) → Program
  looping : Program
  call : Call → (Option ℕ → Program) → Program

-- `if (call == -1) { perror(…); return 1; }`
unfoldable pub or_return : Call → (Option ℕ → Program) → Program
or_return c k = call c (λ r. elim r [ none ↦ exit 1 | some n ↦ k (some n) ])

-- A call whose answer is not tested, and one that is.
pub data Act : Type 0 where
  plain : Call → Act
  tested : Call → Act

infixl 5 ◌>>=◌ ◌>>◌
abbrev pub ◌>>=◌ : Act → (Option ℕ → Program) → Program
plain c >>= k = call c k
tested c >>= k = or_return c k

abbrev pub ◌>>◌ : Act → Program → Program
a >> p = a >>= λ r. p

-- `if (r == -1) { perror(…); return 1; }` on an earlier answer.
abbrev pub when_opened : Option ℕ → Program → Program
when_opened none p = exit 1
when_opened (some n) p = p

-- `for (int i = …; …; i++)` around one call, for `count` values from `i` on.
unfoldable pub each : (ℕ → Call) → (count i : ℕ) → Program → Program
each f zero i p = p
each f (suc count) i p = call (f i) (λ r. each f count (suc i) p)

-- What a run did: each call with its answer.
pub record Event : Type 0 where
  pub made : Call
  pub answer : Option ℕ

-- The calls that a program makes and what they answer, as far as the answers go.
unfoldable pub run : Program → List (Option ℕ) → List Event
run (exit code) answers = []
run looping answers = []
run (call c k) [] = []
run (call c k) (r ∷ answers) = record { made = c; answer = r } ∷ run (k r) answers
