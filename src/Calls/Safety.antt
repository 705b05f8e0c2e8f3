-- ===== src/Calls/Safety.antt =====
-- All programs together.
use study_eltex.Prelude.{ℕ, ◌≡◌, refl, true, false, Bool, none, Option, List, [], ◌∷◌}
use study_eltex.Calls.{Program, run, or_return, socket, sendto}
use study_eltex.Calls.Protocol.{no_sockets, has, is_legal, is_plausible, IsSafe, run-IsSafe}
use study_eltex.Calls.Connections
use study_eltex.Calls.Datagrams
use study_eltex.Calls.Servers

-- The programs, with the number of packets that a sniffer counts, and for a client with its own headers which
-- of the packets that arrive are for its port.
pub data Name : Type 0 where
  tcp_server tcp_client udp_server udp_client local_server local_client : Name
  thread_client pool_client two_pools_client : Name
  broadcast_client broadcast_server multicast_client multicast_server : Name
  raw_udp_server raw_ip_server raw_frame_server : Name
  sniffer : (packets : ℕ) → Name
  raw_ip_client raw_frame_client : (for_port : List Bool) → Name
  thread_server : Name
  pool_server : (rounds : ℕ) → Name
  two_pools_server : (rounds : List Servers.Ready) → Name

abbrev pub program : Name → Program
program tcp_server = Connections.tcp_server
program tcp_client = Connections.tcp_client
program udp_server = Connections.udp_server
program udp_client = Connections.udp_client
program local_server = Connections.local_server
program local_client = Connections.local_client
program thread_client = Connections.thread_client
program pool_client = Connections.pool_client
program two_pools_client = Connections.two_pools_client
program broadcast_client = Datagrams.broadcast_client
program broadcast_server = Datagrams.broadcast_server
program multicast_client = Datagrams.multicast_client
program multicast_server = Datagrams.multicast_server
program raw_udp_server = Datagrams.raw_udp_server
program raw_ip_server = Datagrams.raw_ip_server
program raw_frame_server = Datagrams.raw_frame_server
program (sniffer packets) = Datagrams.sniffer packets
program (raw_ip_client for_port) = Datagrams.raw_ip_client for_port
program (raw_frame_client for_port) = Datagrams.raw_frame_client for_port
program thread_server = Servers.thread_server
program (pool_server rounds) = Servers.pool_server rounds
program (two_pools_server rounds) = Servers.two_pools_server rounds

program-IsSafe : (name : Name) → IsSafe no_sockets (program name)
program-IsSafe tcp_server = Connections.tcp_server-IsSafe
program-IsSafe tcp_client = Connections.tcp_client-IsSafe
program-IsSafe udp_server = Connections.udp_server-IsSafe
program-IsSafe udp_client = Connections.udp_client-IsSafe
program-IsSafe local_server = Connections.local_server-IsSafe
program-IsSafe local_client = Connections.local_client-IsSafe
program-IsSafe thread_client = Connections.thread_client-IsSafe
program-IsSafe pool_client = Connections.thread_client-IsSafe
program-IsSafe two_pools_client = Connections.thread_client-IsSafe
program-IsSafe broadcast_client = Datagrams.broadcast_client-IsSafe
program-IsSafe broadcast_server = Datagrams.broadcast_server-IsSafe
program-IsSafe multicast_client = Datagrams.multicast_client-IsSafe
program-IsSafe multicast_server = Datagrams.multicast_server-IsSafe
program-IsSafe raw_udp_server = Datagrams.raw_udp_server-IsSafe
program-IsSafe raw_ip_server = Datagrams.raw_ip_server-IsSafe
program-IsSafe raw_frame_server = Datagrams.raw_ip_server-IsSafe
program-IsSafe (sniffer packets) = Datagrams.sniffer-IsSafe packets
program-IsSafe (raw_ip_client for_port) = Datagrams.raw_ip_client-IsSafe for_port
program-IsSafe (raw_frame_client for_port) = Datagrams.raw_frame_client-IsSafe for_port
program-IsSafe thread_server = Servers.thread_server-IsSafe
program-IsSafe (pool_server rounds) = Servers.pool_server-IsSafe rounds
program-IsSafe (two_pools_server rounds) = Servers.two_pools_server-IsSafe rounds

-- Whatever plausible answers `main` of one of these 22 servers and clients gets (without the threads that
-- three of the servers create), for as long as it runs and however many rounds its loop makes, it accepts only on a socket that listens,
-- sends and receives only on one with a peer, and uses for datagrams and closes only open ones.
pub program-is_legal :
    (name : Name) (answers : List (Option ℕ))
    → is_plausible no_sockets (run (program name) answers) ≡ true
    → is_legal no_sockets (run (program name) answers) ≡ true
program-is_legal name answers h =
    run-IsSafe (program name) no_sockets answers (program-IsSafe name) h

-- Where socket fails, the clients that do not test it call sendto on -1: sokets2/4scheme/client2.c, which goes
-- on to recvfrom, and raw_socket/UDP/client.c, which then returns.
unchecked_socket :
    (r : Option ℕ) (answers : List (Option ℕ)) (for_port : List Bool)
    → (is_legal no_sockets (run Connections.datagram_client (none ∷ r ∷ answers)) ≡ false)
      × (is_legal no_sockets (run (Datagrams.raw_udp_client for_port) (none ∷ r ∷ answers)) ≡ false)
      × (run (Datagrams.raw_udp_client for_port) (none ∷ none ∷ answers)
          ≡ record { made = socket; answer = none }
            ∷ record { made = sendto none; answer = none }
            ∷ [])
unfolding run or_return is_legal has Connections.datagram_client Datagrams.raw_udp_client
unchecked_socket r answers for_port = (refl, refl, refl)
