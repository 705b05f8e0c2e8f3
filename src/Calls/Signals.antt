-- ===== src/Calls/Signals.antt =====
-- A signal at any moment of the servers of sokets2: what main has noted in its global variables by then, and the
-- handler on it.
use study_eltex.Prelude.{
  ℕ, zero, suc, ◌≤◌, ◌≡◌, refl, true, none, some, Option, List, [], ◌∷◌, length, arith,
}
use study_eltex.Calls.{
  signal, socket, msgget, epoll_create1, bind, listen, accept, epoll_ctl, epoll_wait, msgsnd,
  mutex_init, pthread_create, pthread_join, Program, exit, or_return, when_opened, each, run,
}
use study_eltex.Calls.Protocol.{
  Sockets, no_sockets, has, after, is_legal, is_plausible, IsSafe, run-IsSafe,
}
use study_eltex.Calls.Servers.{
  Ready, tcp, udp, other, pool_serve, two_pools_serve, serve_next, thread_server, pool_sockets,
  pool_server, two_pools_threads, two_pools_sockets, two_pools_server,
}
use study_eltex.Calls.Handlers.{
  thread_handler, pool_handler, two_pools_handler, thread_handler-IsSafe, pool_handler-IsSafe,
  two_pools_handler-IsSafe,
}
use study_eltex.Calls.Watching.{
  noted, left, AreHeld, AreHeld-more, AreHeld-new, IsWatched, run-AreHeld, or_return-IsWatched,
  each-IsWatched,
}

serve_next-IsWatched :
    (rounds i : ℕ) (fd : Option ℕ) (g : List ℕ) (s : Sockets)
    → AreHeld g s.opened
    → IsWatched g s (serve_next rounds i fd)
unfolding serve_next
serve_next-IsWatched zero i fd g s h =
    each-IsWatched g s pthread_join 15 0 (exit 0) (λ j r. refl) (λ j r. refl) h
serve_next-IsWatched (suc rounds) i fd g s h = or_return-IsWatched g s (accept fd) _ h h λ n _.
    let more = AreHeld-more g s.opened n h in
    (more, λ r _. serve_next-IsWatched rounds (suc i) fd g (after s (accept fd) (some n)) more)

threads-IsWatched :
    (count i : ℕ) (g : List ℕ) (s : Sockets) (p : Program)
    → IsWatched g s p
    → IsWatched g s (each pthread_create count i p)
threads-IsWatched count i g s p w =
    each-IsWatched g s pthread_create count i p (λ j r. refl) (λ j r. refl) w

mutexes-IsWatched :
    (count i : ℕ) (g : List ℕ) (s : Sockets) (p : Program)
    → IsWatched g s p
    → IsWatched g s (each mutex_init count i p)
mutexes-IsWatched count i g s p w =
    each-IsWatched g s mutex_init count i p (λ j r. refl) (λ j r. refl) w

-- A socket more, which main notes.
socket-IsWatched :
    (g : List ℕ) (s : Sockets) (k : Option ℕ → Program)
    → AreHeld g s.opened
    → ((n : ℕ)
        → AreHeld (n ∷ g) (n ∷ s.opened)
        → IsWatched (n ∷ g) (record s { opened = n ∷ s.opened }) (k (some n)))
    → IsWatched g s (or_return socket k)
socket-IsWatched g s k h w =
    or_return-IsWatched g s socket k h h λ n p. w n (AreHeld-new g s.opened n p h)

-- The part that two of the servers have in common, from socket on.
abbrev opening : (Option ℕ → Program) → Program
opening k = or_return socket (λ fd. or_return (bind fd) (λ r. or_return (listen fd) (λ r. k fd)))

opening-IsWatched :
    (k : Option ℕ → Program)
    → ((n : ℕ) (s : Sockets) → AreHeld (n ∷ []) s.opened → IsWatched (n ∷ []) s (k (some n)))
    → IsWatched [] no_sockets (opening k)
opening-IsWatched k w = socket-IsWatched [] no_sockets _ tt λ n h.
    let s : Sockets = record no_sockets { opened = n ∷ [] } in
    or_return-IsWatched (n ∷ []) s (bind (some n)) _ h h λ a _.
      or_return-IsWatched (n ∷ []) s (listen (some n)) _ h h
        λ b _. w n (after s (listen (some n)) (some b)) h

signals-IsWatched :
    (p : Program)
    → IsWatched [] no_sockets p
    → IsWatched [] no_sockets (or_return signal (λ r. or_return signal (λ r. p)))
signals-IsWatched p w =
    or_return-IsWatched [] no_sockets signal (λ r. or_return signal (λ r. p)) tt tt
      λ a _. or_return-IsWatched [] no_sockets signal (λ r. p) tt tt λ b _. w

pool_serve-IsWatched :
    (rounds : ℕ) (fd : Option ℕ) (g : List ℕ) (s : Sockets)
    → AreHeld g s.opened
    → IsWatched g s (pool_serve rounds fd)
unfolding pool_serve
pool_serve-IsWatched zero fd g s h = h
pool_serve-IsWatched (suc rounds) fd g s h = or_return-IsWatched g s (accept fd) _ h h λ n _.
    let s' = after s (accept fd) (some n) in
    let more = AreHeld-more g s.opened n h in
    or_return-IsWatched g s' msgsnd _ more more λ r _. pool_serve-IsWatched rounds fd g s' more

two_pools_serve-IsWatched :
    (rounds : List Ready) (t u e : Option ℕ) (g : List ℕ) (s : Sockets)
    → AreHeld g s.opened
    → IsWatched g s (two_pools_serve rounds t u e)
unfolding two_pools_serve
two_pools_serve-IsWatched [] t u e g s h = h
two_pools_serve-IsWatched (tcp ∷ rounds) t u e g s h =
    or_return-IsWatched g s (epoll_wait e) _ h h λ a _.
      or_return-IsWatched g s (accept t) _ h h λ n _.
        let s' = after s (accept t) (some n) in
        let more = AreHeld-more g s.opened n h in
        or_return-IsWatched g s' msgsnd _ more more
          λ r _. two_pools_serve-IsWatched rounds t u e g s' more
two_pools_serve-IsWatched (udp ∷ rounds) t u e g s h =
    or_return-IsWatched g s (epoll_wait e) _ h h λ a _. (
      h,
      λ c _.
          or_return-IsWatched g s msgsnd _ h h λ r _. two_pools_serve-IsWatched rounds t u e g s h,
    )
two_pools_serve-IsWatched (other ∷ rounds) t u e g s h =
    or_return-IsWatched g s (epoll_wait e) _ h h λ a _. two_pools_serve-IsWatched rounds t u e g s h

two_pools_threads-IsWatched :
    (g : List ℕ) (s : Sockets) (serving : Program)
    → IsWatched g s serving
    → IsWatched g s (two_pools_threads serving)
unfolding two_pools_threads
two_pools_threads-IsWatched g s serving w =
    let second = threads-IsWatched 15 15 g s serving w in
    let first = threads-IsWatched 15 0 g s (each pthread_create 15 15 serving) second in
    mutexes-IsWatched 30 0 g s (each pthread_create 15 0 (each pthread_create 15 15 serving)) first

two_pools_sockets-IsWatched :
    (rounds : List Ready) → IsWatched [] no_sockets (two_pools_sockets rounds)
unfolding two_pools_sockets
two_pools_sockets-IsWatched rounds = socket-IsWatched [] no_sockets _ tt λ n h.
    socket-IsWatched (n ∷ []) (record no_sockets { opened = n ∷ [] }) _ h
      λ m h'.
        let s : Sockets = record no_sockets { opened = m ∷ n ∷ [] } in
        let g : List ℕ = m ∷ n ∷ [] in
        or_return-IsWatched g s (bind (some n)) _ h' h' λ a _.
          or_return-IsWatched g s (bind (some m)) _ h' h' λ b _.
            or_return-IsWatched g s (listen (some n)) _ h' h' λ c _.
              let s' : Sockets = after s (listen (some n)) (some c) in
              or_return-IsWatched g s' epoll_create1 _ h' h' λ e p.
                let h'' = AreHeld-new g s.opened e p h' in
                let t : Sockets = after s' epoll_create1 (some e) in
                or_return-IsWatched (e ∷ g) t (epoll_ctl (some e) (some n)) _ h'' h'' λ u _.
                  or_return-IsWatched (e ∷ g) t (epoll_ctl (some e) (some m)) _ h'' h'' λ v _.
                    two_pools_threads-IsWatched (e ∷ g) t
                      (two_pools_serve rounds (some n) (some m) (some e))
                      (two_pools_serve-IsWatched rounds (some n) (some m) (some e) (e ∷ g) t h'')

opened-IsWatched :
    (r : Option ℕ) (p : Program)
    → IsWatched [] no_sockets p
    → IsWatched [] no_sockets (when_opened r p)
opened-IsWatched none p w = tt
opened-IsWatched (some n) p w = w

pub data Server : Type 0 where
  thread : Server
  pool : (rounds : ℕ) → Server
  two_pools : (rounds : List Ready) → Server

abbrev pub main_of : Server → Program
main_of thread = thread_server
main_of (pool rounds) = pool_server rounds
main_of (two_pools rounds) = two_pools_server rounds

-- How many global variables it has, and the handler with those that are set, the last first, and 0 in the others.
abbrev pub globals : Server → ℕ
globals (two_pools rounds) = 3
globals _ = 1

abbrev pub handler_of : Server → (set : List ℕ) → Program
handler_of thread [] = thread_handler (some 0)
handler_of thread (fd ∷ set) = thread_handler (some fd)
handler_of (pool rounds) [] = pool_handler (some 0)
handler_of (pool rounds) (fd ∷ set) = pool_handler (some fd)
handler_of (two_pools rounds) (epoll ∷ udp_fd ∷ tcp_fd ∷ set) =
    two_pools_handler (some tcp_fd) (some udp_fd) (some epoll)
handler_of (two_pools rounds) (udp_fd ∷ tcp_fd ∷ []) =
    two_pools_handler (some tcp_fd) (some udp_fd) (some 0)
handler_of (two_pools rounds) (tcp_fd ∷ []) = two_pools_handler (some tcp_fd) (some 0) (some 0)
handler_of (two_pools rounds) [] = two_pools_handler (some 0) (some 0) (some 0)

main_of-IsWatched : (server : Server) → IsWatched [] no_sockets (main_of server)
unfolding thread_server pool_server pool_sockets two_pools_server
main_of-IsWatched thread =
    signals-IsWatched (opening (serve_next 15 0)) (
      opening-IsWatched (serve_next 15 0)
        (λ n s h. serve_next-IsWatched 15 0 (some n) (n ∷ []) s h))
main_of-IsWatched (pool rounds) = or_return-IsWatched [] no_sockets msgget _ tt tt λ a _.
    mutexes-IsWatched 15 0 [] no_sockets (pool_sockets rounds) (
      signals-IsWatched (opening (λ fd. each pthread_create 15 0 (pool_serve rounds fd))) (
        opening-IsWatched (λ fd. each pthread_create 15 0 (pool_serve rounds fd))
          (λ n s h.
            threads-IsWatched 15 0 (n ∷ []) s (pool_serve rounds (some n))
              (pool_serve-IsWatched rounds (some n) (n ∷ []) s h))))
main_of-IsWatched (two_pools rounds) = or_return-IsWatched [] no_sockets signal _ tt tt λ a _.
    or_return-IsWatched [] no_sockets signal _ tt tt λ b _. (
      tt,
      λ r _. (
        tt,
        λ q _.
            opened-IsWatched r (when_opened q (two_pools_sockets rounds))
              (opened-IsWatched q (two_pools_sockets rounds) (two_pools_sockets-IsWatched rounds)),
      ),
    )

handler_of-IsSafe :
    (server : Server) (set : List ℕ) (s : Sockets)
    → globals server ≤ length set
    → AreHeld set s.opened
    → IsSafe s (handler_of server set)
unfolding has
handler_of-IsSafe thread [] s l h = absurd (omega (arith, l))
handler_of-IsSafe thread (fd ∷ set) s l h = thread_handler-IsSafe s fd h.0
handler_of-IsSafe (pool rounds) [] s l h = absurd (omega (arith, l))
handler_of-IsSafe (pool rounds) (fd ∷ set) s l h = pool_handler-IsSafe s fd h.0
handler_of-IsSafe (two_pools rounds) [] s l h = absurd (omega (arith, l))
handler_of-IsSafe (two_pools rounds) (tcp_fd ∷ []) s l h = absurd (omega (arith, l))
handler_of-IsSafe (two_pools rounds) (udp_fd ∷ tcp_fd ∷ []) s l h = absurd (omega (arith, l))
handler_of-IsSafe (two_pools rounds) (epoll ∷ udp_fd ∷ tcp_fd ∷ set) s l h =
    two_pools_handler-IsSafe s tcp_fd udp_fd epoll h.2.2.0 h.2.0 h.0 (ground arith) (ground arith)
      (ground arith)

-- Wherever a signal interrupts main behind the setting of its global variables, be it in any round of its loop,
-- whatever plausible answers main and the handler get, the handler closes open descriptors only.
pub signal-is_legal :
    (server : Server) (answers later : List (Option ℕ))
    → is_plausible no_sockets (run (main_of server) answers) ≡ true
    → globals server ≤ length (noted [] (run (main_of server) answers))
    → is_plausible
        (left no_sockets (run (main_of server) answers))
        (run (handler_of server (noted [] (run (main_of server) answers))) later)
      ≡ true
    → is_legal
        (left no_sockets (run (main_of server) answers))
        (run (handler_of server (noted [] (run (main_of server) answers))) later)
      ≡ true
signal-is_legal server answers later h l k =
    let set = noted [] (run (main_of server) answers) in
    let s = left no_sockets (run (main_of server) answers) in
    let held = run-AreHeld (main_of server) [] no_sockets answers (main_of-IsWatched server) h in
    run-IsSafe (handler_of server set) s later (handler_of-IsSafe server set s l held) k
