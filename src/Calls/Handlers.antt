-- ===== src/Calls/Handlers.antt =====
-- handle_sigint and handle_sigtstp, which are the same in each server, on the descriptors that main has noted in
-- its global variables, which are 0 before.
use study_eltex.Prelude.{ℕ, ◌≡◌, ◌≢◌, refl, true, false, some, Option, List, [], ◌∷◌, arith}
use study_eltex.Calls.{unlink, close, mutex_destroy, Program, exit, plain, ◌>>◌, each, run}
use study_eltex.Calls.Protocol.{Sockets, no_sockets, has, without, is_legal, IsSafe, each-IsSafe}

-- sokets2/1-2scheme/server.c
unfoldable pub thread_handler : (glob_fd : Option ℕ) → Program
thread_handler glob_fd = do plain unlink; plain (close glob_fd); exit 0

-- sokets2/3scheme/server.c
pub pool_handler : (glob_fd : Option ℕ) → Program
unfolding thread_handler
pool_handler glob_fd = each mutex_destroy 15 0 (thread_handler glob_fd)

-- sokets2/4scheme/server.c
unfoldable pub close_three : (glob_tcp_fd glob_udp_fd glob_epoll : Option ℕ) → Program
close_three glob_tcp_fd glob_udp_fd glob_epoll = do
  plain (close glob_tcp_fd)
  plain (close glob_udp_fd)
  plain (close glob_epoll)
  exit 0

unfoldable pub two_pools_handler : (glob_tcp_fd glob_udp_fd glob_epoll : Option ℕ) → Program
two_pools_handler glob_tcp_fd glob_udp_fd glob_epoll =
    each mutex_destroy 15 0 (close_three glob_tcp_fd glob_udp_fd glob_epoll)

-- raw_socket/UDP/server.c
unfoldable raw_handler : (glob_fd : Option ℕ) → Program
raw_handler glob_fd = do plain (close glob_fd); exit 0

has-without :
    (l : List ℕ) (m n : ℕ)
    → m ≢ n
    → has l (some n) ≡ true
    → has (without l (some m)) (some n) ≡ true
unfolding has without
has-without [] m n d h = h
has-without (k ∷ l) m n d h = let rest = has-without l m n d in ground arith

destroyed-IsSafe : (s : Sockets) (p : Program) → IsSafe s p → IsSafe s (each mutex_destroy 15 0 p)
destroyed-IsSafe s p safe = each-IsSafe s mutex_destroy 15 0 p (λ j. refl) (λ j r. refl) safe

pub thread_handler-IsSafe :
    (s : Sockets) (fd : ℕ) → has s.opened (some fd) ≡ true → IsSafe s (thread_handler (some fd))
unfolding thread_handler
thread_handler-IsSafe s fd h = (refl, λ r _. (h, λ r _. tt))

pub pool_handler-IsSafe :
    (s : Sockets) (fd : ℕ) → has s.opened (some fd) ≡ true → IsSafe s (pool_handler (some fd))
unfolding pool_handler
pool_handler-IsSafe s fd h =
    destroyed-IsSafe s (thread_handler (some fd)) (thread_handler-IsSafe s fd h)

pub two_pools_handler-IsSafe :
    (s : Sockets) (fd udp_fd epoll : ℕ)
    → has s.opened (some fd) ≡ true
    → has s.opened (some udp_fd) ≡ true
    → has s.opened (some epoll) ≡ true
    → fd ≢ udp_fd
    → fd ≢ epoll
    → udp_fd ≢ epoll
    → IsSafe s (two_pools_handler (some fd) (some udp_fd) (some epoll))
unfolding two_pools_handler close_three
two_pools_handler-IsSafe s fd udp_fd epoll h h' h'' d d' d'' =
    destroyed-IsSafe s (close_three (some fd) (some udp_fd) (some epoll)) (
      h,
      λ r _. (
        has-without s.opened fd udp_fd d h',
        λ r _. (
          has-without (without s.opened (some fd)) udp_fd epoll d''
              (has-without s.opened fd epoll d' h''),
          λ r _. tt,
        ),
      ),
    )

-- A signal that comes before socket finds 0 in the variables, and the handlers close 0, standard input, which is
-- no socket of the program.
early_signal :
    (answers : List (Option ℕ)) (r q : Option ℕ)
    → (is_legal no_sockets (run (thread_handler (some 0)) (r ∷ q ∷ answers)) ≡ false)
      × (is_legal no_sockets (run (raw_handler (some 0)) (r ∷ answers)) ≡ false)
      × (is_legal no_sockets (run (close_three (some 0) (some 0) (some 0)) (r ∷ answers)) ≡ false)
unfolding run thread_handler raw_handler close_three is_legal has
early_signal answers r q = (refl, refl, refl)
