-- ===== src/Calls/Datagrams.antt =====
-- The programs of data_exchange, the servers and the sniffer of raw_socket, and the clients that write their own
-- headers, as sequences of calls.
use study_eltex.Prelude.{
  ℕ, zero, suc, ◌≡◌, refl, true, false, Bool, some, Option, List, [], ◌∷◌, arith,
}
use study_eltex.Calls.{
  signal, socket, bind, setsockopt, sendto, recvfrom, close, Program, exit, looping, call,
  or_return, plain, tested, ◌>>=◌, ◌>>◌,
}
use study_eltex.Calls.Protocol.{Sockets, no_sockets, has, without, IsSafe, or_return-IsSafe}

-- data_exchange/broadcast
unfoldable pub broadcast_client : Program
broadcast_client = do
  fd ← tested socket
  tested (bind fd)
  tested (recvfrom fd)
  plain (close fd)
  exit 0

pub broadcast_client-IsSafe : IsSafe no_sockets broadcast_client
unfolding broadcast_client or_return has without
broadcast_client-IsSafe = ground arith

unfoldable pub broadcast_server : Program
broadcast_server = do fd ← tested socket; tested (setsockopt fd); tested (sendto fd); exit 0

pub broadcast_server-IsSafe : IsSafe no_sockets broadcast_server
unfolding broadcast_server or_return has without
broadcast_server-IsSafe = ground arith

-- data_exchange/multicast
unfoldable pub multicast_client : Program
multicast_client = do
  fd ← tested socket
  tested (setsockopt fd)
  tested (bind fd)
  tested (recvfrom fd)
  plain (close fd)
  exit 0

pub multicast_client-IsSafe : IsSafe no_sockets multicast_client
unfolding multicast_client or_return has without
multicast_client-IsSafe = ground arith

unfoldable pub multicast_server : Program
multicast_server = do fd ← tested socket; tested (sendto fd); exit 0

pub multicast_server-IsSafe : IsSafe no_sockets multicast_server
unfolding multicast_server or_return has without
multicast_server-IsSafe = ground arith

-- raw_socket/UDP/server.c
unfoldable pub raw_udp_server : Program
raw_udp_server = do
  tested signal
  tested signal
  fd ← plain socket
  tested (bind fd)
  plain (recvfrom fd)
  plain (sendto fd)
  plain (recvfrom fd)
  plain (close fd)
  exit 0

pub raw_udp_server-IsSafe : IsSafe no_sockets raw_udp_server
unfolding raw_udp_server or_return has without
raw_udp_server-IsSafe = ground arith

-- raw_socket/UDP_with_Headers/server.c, and UDP_WITH_ALL_HEADERS/server.c with the same calls.
unfoldable pub raw_ip_server : Program
raw_ip_server = do
  fd ← plain socket
  tested (bind fd)
  plain (recvfrom fd)
  plain (sendto fd)
  plain (recvfrom fd)
  plain (close fd)
  exit 0

pub raw_ip_server-IsSafe : IsSafe no_sockets raw_ip_server
unfolding raw_ip_server or_return has without
raw_ip_server-IsSafe = ground arith

abbrev pub raw_frame_server : Program
raw_frame_server = raw_ip_server

-- raw_socket/sniffer.c, until `packets` have been counted.
unfoldable pub counted : (packets : ℕ) → Option ℕ → Program
counted zero fd = looping
counted (suc packets) fd = or_return (recvfrom fd) (λ r. counted packets fd)

pub sniffer : (packets : ℕ) → Program
unfolding counted
sniffer packets = tested socket >>= counted packets

-- `while (1)` around recvfrom: for each packet that arrives, whether it is for PORT.
unfoldable pub wait_for : (fd : Option ℕ) (for_port : List Bool) → Program → Program
wait_for fd [] p = looping
wait_for fd (here ∷ for_port) p =
    let rest = wait_for fd for_port p in
    call (recvfrom fd) (λ r. elim here [ true ↦ p | false ↦ rest ])

-- raw_socket/UDP_with_Headers/client.c
pub raw_ip_client : (for_port : List Bool) → Program
unfolding wait_for
raw_ip_client for_port = do
  fd ← tested socket
  tested (setsockopt fd)
  tested (sendto fd)
  wait_for fd for_port (do tested (sendto fd); plain (close fd); exit 0)

-- raw_socket/UDP_WITH_ALL_HEADERS/client.c
pub raw_frame_client : (for_port : List Bool) → Program
unfolding wait_for
raw_frame_client for_port = do
  fd ← tested socket
  tested (sendto fd)
  wait_for fd for_port (do tested (sendto fd); plain (close fd); exit 0)

-- raw_socket/UDP/client.c, which does not test socket.
unfoldable pub raw_udp_client : (for_port : List Bool) → Program
unfolding wait_for
raw_udp_client for_port = do
  fd ← plain socket
  tested (sendto fd)
  wait_for fd for_port (do tested (sendto fd); plain (close fd); exit 0)

counted-IsSafe :
    (packets : ℕ) (s : Sockets) (fd : Option ℕ)
    → has s.opened fd ≡ true
    → IsSafe s (counted packets fd)
unfolding counted
counted-IsSafe zero s fd h = tt
counted-IsSafe (suc packets) s fd h =
    or_return-IsSafe s (recvfrom fd) (λ r. counted packets fd) h
      (λ n p. counted-IsSafe packets s fd h)

wait_for-IsSafe :
    (s : Sockets) (fd : Option ℕ) (for_port : List Bool) (p : Program)
    → has s.opened fd ≡ true
    → IsSafe s p
    → IsSafe s (wait_for fd for_port p)
unfolding wait_for
wait_for-IsSafe s fd [] p h safe = tt
wait_for-IsSafe s fd (true ∷ for_port) p h safe = (h, λ r q. safe)
wait_for-IsSafe s fd (false ∷ for_port) p h safe =
    (h, λ r q. wait_for-IsSafe s fd for_port p h safe)

pub sniffer-IsSafe : (packets : ℕ) → IsSafe no_sockets (sniffer packets)
unfolding sniffer has
sniffer-IsSafe packets =
    or_return-IsSafe no_sockets socket (counted packets) refl (λ n p.
      counted-IsSafe packets (record no_sockets { opened = n ∷ [] }) (some n) (ground arith))

-- From a descriptor that is open to the end.
answered-IsSafe :
    (for_port : List Bool) (n : ℕ)
    → IsSafe
        (record no_sockets { opened = n ∷ [] })
        (wait_for (some n) for_port (do tested (sendto (some n)); plain (close (some n)); exit 0))
unfolding has without or_return
answered-IsSafe for_port n =
    wait_for-IsSafe (record no_sockets { opened = n ∷ [] }) (some n) for_port
      (do tested (sendto (some n)); plain (close (some n)); exit 0) (ground arith) (ground arith)

pub raw_ip_client-IsSafe : (for_port : List Bool) → IsSafe no_sockets (raw_ip_client for_port)
unfolding raw_ip_client has
raw_ip_client-IsSafe for_port = or_return-IsSafe _ socket _ refl λ n _.
    or_return-IsSafe _ (setsockopt (some n)) _ refl
      λ a _. or_return-IsSafe _ (sendto (some n)) _ (ground arith) λ b _. answered-IsSafe for_port n

pub raw_frame_client-IsSafe : (for_port : List Bool) → IsSafe no_sockets (raw_frame_client for_port)
unfolding raw_frame_client has
raw_frame_client-IsSafe for_port =
    or_return-IsSafe _ socket _ refl
      λ n _. or_return-IsSafe _ (sendto (some n)) _ (ground arith) λ b _. answered-IsSafe for_port n
