-- ===== src/Calls/Connections.antt =====
-- The programs of sokets1, and the clients of sokets2, as sequences of calls.
use study_eltex.Prelude.{arith}
use study_eltex.Calls.{
  unlink, socket, bind, listen, connect, accept, send, recv, sendto, recvfrom, close, Program, exit,
  or_return, plain, tested, ◌>>=◌, ◌>>◌,
}
use study_eltex.Calls.Protocol.{no_sockets, has, without, IsSafe}

-- sokets1/AF_INET/TCP
unfoldable pub tcp_server : Program
tcp_server = do
  server_fd ← plain socket
  tested (bind server_fd)
  tested (listen server_fd)
  client_fd ← tested (accept server_fd)
  plain (send client_fd)
  plain (recv client_fd)
  plain (close server_fd)
  plain (close client_fd)
  exit 0

pub tcp_server-IsSafe : IsSafe no_sockets tcp_server
unfolding tcp_server or_return has without
tcp_server-IsSafe = ground arith

unfoldable pub tcp_client : Program
tcp_client = do
  fd ← plain socket
  tested (connect fd)
  plain (recv fd)
  plain (send fd)
  plain (close fd)
  exit 0

pub tcp_client-IsSafe : IsSafe no_sockets tcp_client
unfolding tcp_client or_return has without
tcp_client-IsSafe = ground arith

-- sokets1/AF_INET/UDP
unfoldable pub udp_server : Program
udp_server = do
  fd ← plain socket
  tested (bind fd)
  plain (recvfrom fd)
  plain (sendto fd)
  plain (recvfrom fd)
  plain (close fd)
  exit 0

pub udp_server-IsSafe : IsSafe no_sockets udp_server
unfolding udp_server or_return has without
udp_server-IsSafe = ground arith

unfoldable pub udp_client : Program
udp_client = do
  fd ← plain socket
  tested (connect fd)
  plain (sendto fd)
  plain (recvfrom fd)
  plain (sendto fd)
  plain (close fd)
  exit 0

pub udp_client-IsSafe : IsSafe no_sockets udp_client
unfolding udp_client or_return has without
udp_client-IsSafe = ground arith

-- sokets1/AF_LOCAL/TCP
unfoldable pub local_server : Program
local_server = do
  server_fd ← tested socket
  plain unlink
  tested (bind server_fd)
  tested (listen server_fd)
  client_fd ← tested (accept server_fd)
  plain (send client_fd)
  plain (recv client_fd)
  tested unlink
  plain (close server_fd)
  exit 0

pub local_server-IsSafe : IsSafe no_sockets local_server
unfolding local_server or_return has without
local_server-IsSafe = ground arith

unfoldable pub local_client : Program
local_client = do
  server_fd ← plain socket
  tested (connect server_fd)
  plain (recv server_fd)
  plain (send server_fd)
  plain (close server_fd)
  exit 0

pub local_client-IsSafe : IsSafe no_sockets local_client
unfolding local_client or_return has without
local_client-IsSafe = ground arith

-- sokets2/1-2scheme/client.c, and sokets2/3scheme/client.c and sokets2/4scheme/client.c with the same calls.
unfoldable pub thread_client : Program
thread_client = do
  server_fd ← plain socket
  tested (connect server_fd)
  tested (recv server_fd)
  tested (send server_fd)
  exit 0

pub thread_client-IsSafe : IsSafe no_sockets thread_client
unfolding thread_client or_return has without
thread_client-IsSafe = ground arith

abbrev pub pool_client : Program
pool_client = thread_client

abbrev pub two_pools_client : Program
two_pools_client = thread_client

-- sokets2/4scheme/client2.c, which tests neither socket nor the first sendto.
unfoldable pub datagram_client : Program
datagram_client = do
  fd ← plain socket
  plain (sendto fd)
  tested (recvfrom fd)
  tested (sendto fd)
  plain (close fd)
  exit 0
