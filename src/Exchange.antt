-- ===== src/Exchange.antt =====
-- The exchange of one message each way in sokets1: AF_INET/TCP, AF_INET/UDP and AF_LOCAL/TCP, server.c and
-- client.c of each, from the connection on. A buffer is the list of its 199 bytes, what arrives is a list of
-- bytes, and `none` is an access outside a buffer or a line longer than fgets reads.
pub mod Messages
use study_eltex.Prelude.{
  ℕ, zero, suc, ◌+◌, Option, none, some, List, [], ◌∷◌, ◌++◌, Bytes, length, take, drop, ltb, ◌==◌,
  if◌then◌else◌,
}
use study_eltex.Contacts.{◌>>=◌}

-- SIZE
abbrev pub size : ℕ
size = 199

-- `memset(buf, '\0', SIZE)`
unfoldable pub zeros : ℕ → Bytes
zeros zero = []
zeros (suc n) = 0 ∷ zeros n

-- `fgets(buf, SIZE, stdin)` where it reads `line`, with the NUL behind it.
unfoldable pub typed : (buf line : Bytes) → Option Bytes
typed buf line =
    if ltb (length line) size then some (line ++ 0 ∷ drop (length line + 1) buf) else none

-- `recv(fd, buf, sizeof(buf), 0)`
unfoldable pub received : (buf arrived : Bytes) → Bytes
received buf arrived = take size arrived ++ drop (length (take size arrived)) buf

-- What "%s" prints and strlen counts: the bytes up to a NUL, which must be in the buffer.
unfoldable pub text : Bytes → Option Bytes
text [] = none
text (c ∷ buf) = let rest = text buf in if c == 0 then some [] else rest >>= λ s. some (c ∷ s)

-- The servers: what is sent, and what is printed. `buf` is what the buffer holds at first.
unfoldable pub server : (buf line arrived : Bytes) → Option (Bytes × Bytes)
server buf line arrived = do
  buf' ← typed buf line
  sent ← text buf'
  printed ← text (received (zeros size) arrived)
  some (sent, printed)

abbrev pub udp_server : (buf line arrived : Bytes) → Option (Bytes × Bytes)
udp_server = server

abbrev pub local_server : (buf line arrived : Bytes) → Option (Bytes × Bytes)
local_server = server

-- The clients: what is printed, and what is sent. They do not clear the buffer before recv.
unfoldable pub client : (buf arrived line : Bytes) → Option (Bytes × Bytes)
client buf arrived line = do
  printed ← text (received buf arrived)
  buf' ← typed (zeros size) line
  sent ← text buf'
  some (printed, sent)

abbrev pub udp_client : (buf arrived line : Bytes) → Option (Bytes × Bytes)
udp_client = client

-- That of AF_LOCAL sends its whole buffer.
unfoldable pub local_client : (buf arrived line : Bytes) → Option (Bytes × Bytes)
local_client buf arrived line = do
  printed ← text (received buf arrived)
  buf' ← typed (zeros size) line
  some (printed, buf')
