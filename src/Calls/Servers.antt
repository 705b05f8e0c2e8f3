-- ===== src/Calls/Servers.antt =====
-- `main` of the servers of sokets2 as sequences of calls. What their threads do is in ThreadServer, Pool and
-- TwoPools; a loop that never ends is modelled for any number of rounds.
use study_eltex.Prelude.{ℕ, zero, suc, ◌≡◌, refl, true, none, some, Option, List, [], ◌∷◌, arith}
use study_eltex.Calls.{
  signal, socket, msgget, epoll_create1, bind, listen, accept, epoll_ctl, epoll_wait, msgsnd,
  recvfrom, mutex_init, pthread_create, pthread_join, Program, exit, looping, call, or_return,
  plain, tested, ◌>>=◌, ◌>>◌, when_opened, each,
}
use study_eltex.Calls.Protocol.{
  Sockets, no_sockets, has, after, IsSafe, or_return-IsSafe, each-IsSafe,
}

-- sokets2/1-2scheme/server.c: `while (1)` for the next `rounds` connections, the first of them number `i`.
unfoldable pub serve_next : (rounds i : ℕ) (server_fd : Option ℕ) → Program
serve_next zero i server_fd = each pthread_join 15 0 (exit 0)
serve_next (suc rounds) i server_fd =
    or_return (accept server_fd)
      (λ client_fd. call (pthread_create i) (λ r. serve_next rounds (suc i) server_fd))

unfoldable pub thread_server : Program
unfolding serve_next
thread_server = do
  tested signal
  tested signal
  server_fd ← tested socket
  tested (bind server_fd)
  tested (listen server_fd)
  serve_next 15 0 server_fd

-- sokets2/3scheme/server.c: `while (1)`, behind the mutexes, and the whole.
unfoldable pub pool_serve : (rounds : ℕ) (server_fd : Option ℕ) → Program
pool_serve zero server_fd = looping
pool_serve (suc rounds) server_fd =
    or_return (accept server_fd) (λ client_fd. or_return msgsnd (λ r. pool_serve rounds server_fd))

unfoldable pub pool_sockets : (rounds : ℕ) → Program
unfolding each pool_serve
pool_sockets rounds = do
  tested signal
  tested signal
  server_fd ← tested socket
  tested (bind server_fd)
  tested (listen server_fd)
  each pthread_create 15 0 (pool_serve rounds server_fd)

unfoldable pub pool_server : (rounds : ℕ) → Program
pool_server rounds = tested msgget >> each mutex_init 15 0 (pool_sockets rounds)

-- sokets2/4scheme/server.c: what epoll_wait reports in a round, and `while (1)` over some rounds.
pub data Ready : Type 0 where
  tcp udp other : Ready

unfoldable pub two_pools_serve :
    (rounds : List Ready) (tcp_serv_fd udp_serv_fd epoll_fd : Option ℕ) → Program
two_pools_serve [] tcp_serv_fd udp_serv_fd epoll_fd = looping
two_pools_serve (tcp ∷ rounds) tcp_serv_fd udp_serv_fd epoll_fd =
    or_return (epoll_wait epoll_fd) λ event_count.
      or_return (accept tcp_serv_fd)
        λ tcp_cln_fd. or_return msgsnd λ r. two_pools_serve rounds tcp_serv_fd udp_serv_fd epoll_fd
two_pools_serve (udp ∷ rounds) tcp_serv_fd udp_serv_fd epoll_fd =
    or_return (epoll_wait epoll_fd) λ event_count.
      call (recvfrom udp_serv_fd)
        λ c. or_return msgsnd λ r. two_pools_serve rounds tcp_serv_fd udp_serv_fd epoll_fd
two_pools_serve (other ∷ rounds) tcp_serv_fd udp_serv_fd epoll_fd =
    or_return (epoll_wait epoll_fd)
      λ event_count. two_pools_serve rounds tcp_serv_fd udp_serv_fd epoll_fd

-- The mutexes and threads, the sockets, and the whole, in which both queues are asked
-- for before either answer is tested.
unfoldable pub two_pools_threads : Program → Program
unfolding each
two_pools_threads serving =
    each mutex_init 30 0 (each pthread_create 15 0 (each pthread_create 15 15 serving))

unfoldable pub two_pools_sockets : (rounds : List Ready) → Program
two_pools_sockets rounds = do
  tcp_serv_fd ← tested socket
  udp_serv_fd ← tested socket
  tested (bind tcp_serv_fd)
  tested (bind udp_serv_fd)
  tested (listen tcp_serv_fd)
  epoll_fd ← tested epoll_create1
  tested (epoll_ctl epoll_fd tcp_serv_fd)
  tested (epoll_ctl epoll_fd udp_serv_fd)
  two_pools_threads (two_pools_serve rounds tcp_serv_fd udp_serv_fd epoll_fd)

unfoldable pub two_pools_server : (rounds : List Ready) → Program
two_pools_server rounds = do
  tested signal
  tested signal
  msqid1 ← plain msgget
  msqid2 ← plain msgget
  when_opened msqid1 (when_opened msqid2 (two_pools_sockets rounds))

serve_next-IsSafe :
    (rounds i : ℕ) (s : Sockets) (server_fd : Option ℕ)
    → has s.listening server_fd ≡ true
    → IsSafe s (serve_next rounds i server_fd)
unfolding serve_next
serve_next-IsSafe zero i s server_fd h =
    each-IsSafe s pthread_join 15 0 (exit 0) (λ j. refl) (λ j r. refl) tt
serve_next-IsSafe (suc rounds) i s server_fd h = or_return-IsSafe s (accept server_fd) _ h λ n _. (
  refl,
  λ r _. serve_next-IsSafe rounds (suc i) (after s (accept server_fd) (some n)) server_fd h,
)

pub thread_server-IsSafe : IsSafe no_sockets thread_server
unfolding thread_server has
thread_server-IsSafe = or_return-IsSafe _ signal _ refl λ a _.
    or_return-IsSafe _ signal _ refl λ b _. or_return-IsSafe _ socket _ refl λ n _.
      or_return-IsSafe _ (bind (some n)) _ refl λ c _.
        or_return-IsSafe _ (listen (some n)) _ refl λ d _.
          serve_next-IsSafe 15 0 (record { opened = n ∷ []; listening = n ∷ []; connected = [] })
            (some n) (ground arith)

threads-IsSafe :
    (s : Sockets) (count i : ℕ) (p : Program)
    → IsSafe s p
    → IsSafe s (each pthread_create count i p)
threads-IsSafe s count i p safe =
    each-IsSafe s pthread_create count i p (λ j. refl) (λ j r. refl) safe

mutexes-IsSafe :
    (s : Sockets) (count i : ℕ) (p : Program) → IsSafe s p → IsSafe s (each mutex_init count i p)
mutexes-IsSafe s count i p safe = each-IsSafe s mutex_init count i p (λ j. refl) (λ j r. refl) safe

pool_serve-IsSafe :
    (rounds : ℕ) (s : Sockets) (server_fd : Option ℕ)
    → has s.listening server_fd ≡ true
    → IsSafe s (pool_serve rounds server_fd)
unfolding pool_serve
pool_serve-IsSafe zero s server_fd h = tt
pool_serve-IsSafe (suc rounds) s server_fd h = or_return-IsSafe s (accept server_fd) _ h λ n _.
    let s' = after s (accept server_fd) (some n) in
    or_return-IsSafe s' msgsnd _ refl λ r _. pool_serve-IsSafe rounds s' server_fd h

pool_sockets-IsSafe : (rounds : ℕ) → IsSafe no_sockets (pool_sockets rounds)
unfolding pool_sockets has
pool_sockets-IsSafe rounds = or_return-IsSafe _ signal _ refl λ a _.
    or_return-IsSafe _ signal _ refl λ b _. or_return-IsSafe _ socket _ refl λ n _.
      or_return-IsSafe _ (bind (some n)) _ refl λ c _.
        or_return-IsSafe _ (listen (some n)) _ refl λ d _.
          let s : Sockets = record { opened = n ∷ []; listening = n ∷ []; connected = [] } in
          threads-IsSafe s 15 0 (pool_serve rounds (some n))
            (pool_serve-IsSafe rounds s (some n) (ground arith))

pub pool_server-IsSafe : (rounds : ℕ) → IsSafe no_sockets (pool_server rounds)
unfolding pool_server
pool_server-IsSafe rounds =
    or_return-IsSafe no_sockets msgget (λ r. each mutex_init 15 0 (pool_sockets rounds)) refl
      λ a _. mutexes-IsSafe no_sockets 15 0 (pool_sockets rounds) (pool_sockets-IsSafe rounds)

has-more : (l : List ℕ) (m : ℕ) (fd : Option ℕ) → has l fd ≡ true → has (m ∷ l) fd ≡ true
unfolding has
has-more l m none h = h
has-more l m (some n) h = ground arith

two_pools_serve-IsSafe :
    (rounds : List Ready) (s : Sockets) (t u e : Option ℕ)
    → has s.listening t ≡ true
    → has s.opened u ≡ true
    → IsSafe s (two_pools_serve rounds t u e)
unfolding two_pools_serve
two_pools_serve-IsSafe [] s t u e h k = tt
two_pools_serve-IsSafe (tcp ∷ rounds) s t u e h k = or_return-IsSafe s (epoll_wait e) _ refl λ a _.
    or_return-IsSafe s (accept t) _ h λ n _.
      let s' = after s (accept t) (some n) in
      or_return-IsSafe s' msgsnd _ refl
        λ r _. two_pools_serve-IsSafe rounds s' t u e h (has-more s.opened n u k)
two_pools_serve-IsSafe (udp ∷ rounds) s t u e h k = or_return-IsSafe s (epoll_wait e) _ refl λ a _.
    (k, λ c _. or_return-IsSafe s msgsnd _ refl λ r _. two_pools_serve-IsSafe rounds s t u e h k)
two_pools_serve-IsSafe (other ∷ rounds) s t u e h k =
    or_return-IsSafe s (epoll_wait e) _ refl λ a _. two_pools_serve-IsSafe rounds s t u e h k

two_pools_threads-IsSafe :
    (s : Sockets) (serving : Program) → IsSafe s serving → IsSafe s (two_pools_threads serving)
unfolding two_pools_threads
two_pools_threads-IsSafe s serving safe =
    let second = threads-IsSafe s 15 15 serving safe in
    let first = threads-IsSafe s 15 0 (each pthread_create 15 15 serving) second in
    mutexes-IsSafe s 30 0 (each pthread_create 15 0 (each pthread_create 15 15 serving)) first

two_pools_sockets-IsSafe : (rounds : List Ready) → IsSafe no_sockets (two_pools_sockets rounds)
unfolding two_pools_sockets has
two_pools_sockets-IsSafe rounds = or_return-IsSafe _ socket _ refl λ n _.
    or_return-IsSafe _ socket _ refl λ m _. or_return-IsSafe _ (bind (some n)) _ refl λ a _.
      or_return-IsSafe _ (bind (some m)) _ refl λ b _.
        or_return-IsSafe _ (listen (some n)) _ refl λ c _.
          or_return-IsSafe _ epoll_create1 _ refl λ e _.
            or_return-IsSafe _ (epoll_ctl (some e) (some n)) _ refl λ f _.
              or_return-IsSafe _ (epoll_ctl (some e) (some m)) _ refl λ g _.
                let s : Sockets = record {
                  opened = e ∷ m ∷ n ∷ [];
                  listening = n ∷ [];
                  connected = [];
                } in
                two_pools_threads-IsSafe s (two_pools_serve rounds (some n) (some m) (some e)) (
                  two_pools_serve-IsSafe rounds s (some n) (some m) (some e) (ground arith)
                    (ground arith))

opened-IsSafe :
    (r : Option ℕ) (p : Program) → IsSafe no_sockets p → IsSafe no_sockets (when_opened r p)
opened-IsSafe none p safe = tt
opened-IsSafe (some n) p safe = safe

pub two_pools_server-IsSafe : (rounds : List Ready) → IsSafe no_sockets (two_pools_server rounds)
unfolding two_pools_server
two_pools_server-IsSafe rounds = or_return-IsSafe _ signal _ refl λ a _.
    or_return-IsSafe _ signal _ refl λ b _. (
      refl,
      λ r _. (
        refl,
        λ q _.
            opened-IsSafe r (when_opened q (two_pools_sockets rounds))
              (opened-IsSafe q (two_pools_sockets rounds) (two_pools_sockets-IsSafe rounds)),
      ),
    )
