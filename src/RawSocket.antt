-- ===== src/RawSocket.antt =====
-- The UDP clients of raw_socket, which write their own headers: UDP (over an IP socket), UDP_with_Headers
-- (IP and UDP) and UDP_WITH_ALL_HEADERS (Ethernet, IP and UDP). Packets are lists of bytes; the host is
-- little-endian, so htons turns the two bytes of a word round.
pub mod Checksum
pub mod Receive
pub mod Frames
use study_eltex.Prelude.{
  ℕ, zero, suc, ◌+◌, ◌-◌, ◌*◌, ◌/◌, ◌%◌, ◌^◌, Option, none, some, List, [], ◌∷◌, ◌++◌, Bytes, codes,
  length, take, drop, get_or, cstr, ltb, ◌==◌, if◌then◌else◌,
}

-- The `while (count > 1)` loop of `check_sum` with the odd byte behind it; the words are little-endian
-- and `sum` is a long, which no packet overflows.
pub sum_words : Bytes → ℕ → ℕ
sum_words [] sum = sum
sum_words (a ∷ []) sum = sum + a
sum_words (a ∷ b ∷ rest) sum = sum_words rest (sum + (a + 256 * b))

-- The two folds: `sum >> 16` is `/ 65536`, `sum & 0xffff` is `% 65536`.
unfoldable pub fold : ℕ → ℕ
fold sum = let once = sum / 65536 + sum % 65536 in once + once / 65536

-- `(uint16_t)~sum`
pub check_sum : Bytes → ℕ
unfolding sum_words fold
check_sum packet = 65535 - fold (sum_words packet 0) % 65536

-- A uint16_t in memory, and `htons(x)` in memory.
abbrev pub word16 : ℕ → Bytes
word16 x = x % 256 ∷ x / 256 % 256 ∷ []

abbrev pub htons : ℕ → ℕ
htons x = x % 256 * 256 + x / 256 % 256

-- `htonl(x)`, a 32-bit value.
abbrev pub htonl : ℕ → ℕ
htonl x = x % 256 * 2 ^ 24 + x / 256 % 256 * 2 ^ 16 + x / 2 ^ 16 % 256 * 256 + x / 2 ^ 24 % 256

-- `PORT`, `DEST_PORT`, IPPROTO_UDP and the sizes of the three headers.
abbrev pub port : ℕ
port = 7777

abbrev pub dest_port : ℕ
dest_port = 8889

abbrev pub ether_size : ℕ
ether_size = 14

abbrev pub ip_size : ℕ
ip_size = 20

abbrev pub udp_size : ℕ
udp_size = 8

-- `ether_dhost`, `ether_shost` and `htons(0x0800)`
unfoldable pub ether_header : (dest_mac src_mac : Bytes) → Bytes
ether_header dest_mac src_mac = dest_mac ++ (src_mac ++ word16 (htons 0x0800))

-- The bytes of the IP header in front of `check`: version and ihl, tos, tot_len, id, frag_off, ttl,
-- protocol. `id` is `htonl(12345)` cut to 16 bits by the assignment.
unfoldable pub ip_front : (tot_len id : ℕ) → Bytes
ip_front tot_len id =
    0x45 ∷ 0 ∷ (word16 (htons tot_len) ++ (word16 (htonl id % 65536) ++ (0 ∷ 0 ∷ 255 ∷ 17 ∷ [])))

-- The IP header of UDP_WITH_ALL_HEADERS, with `check` computed over the header in which it is 0.
pub ip_header : (tot_len id : ℕ) (saddr daddr : Bytes) → Bytes
unfolding check_sum ip_front
ip_header tot_len id saddr daddr =
    let check = check_sum (ip_front tot_len id ++ 0 ∷ 0 ∷ (saddr ++ daddr)) in
    ip_front tot_len id ++ check % 256 ∷ check / 256 ∷ (saddr ++ daddr)

-- The UDP header with no checksum.
unfoldable pub udp_header : (source dest len : ℕ) → Bytes
udp_header source dest len =
    word16 (htons source) ++ (word16 (htons dest) ++ (word16 (htons len) ++ (0 ∷ 0 ∷ [])))

-- A frame of UDP_WITH_ALL_HEADERS as `sendto` is given it. `sizeof(udp_header)` is the size of a pointer,
-- which is 8 as well.
pub frame : (dest_mac src_mac saddr daddr message : Bytes) → Bytes
unfolding ether_header ip_header udp_header
frame dest_mac src_mac saddr daddr message =
    ether_header dest_mac src_mac
    ++ (ip_header (ip_size + 8 + length message) 12345 saddr daddr
        ++ (udp_header port dest_port (udp_size + length message) ++ message))

-- `recvfrom(fd, buf, MAX_SIZE, …)` overwrites the front of the buffer and leaves the rest as it was; of a
-- packet longer than the buffer, which has MAX_SIZE bytes, it stores what fits.
unfoldable pub receive : (buf packet : Bytes) → Bytes
receive buf packet = take (length buf) packet ++ drop (length packet) buf

-- `ntohs(udp_header->dest)`, where the UDP header stands at `offset`.
unfoldable pub dest_of : (offset : ℕ) → Bytes → ℕ
dest_of offset buf = get_or buf (offset + 2) 0 * 256 + get_or buf (offset + 3) 0

-- `while (1)`: packets arrive until one is for `PORT`. `none`: the client waits.
pub wait_for : (offset : ℕ) → (buf : Bytes) → List Bytes → Option Bytes
unfolding receive dest_of
wait_for offset buf [] = none
wait_for offset buf (packet ∷ rest) =
    let buf' = receive buf packet in
    let later = wait_for offset buf' rest in
    if dest_of offset buf' == port then some buf' else later

-- The string behind the UDP header.
unfoldable pub message_of : (offset : ℕ) → Bytes → Bytes
message_of offset buf = cstr (drop (offset + udp_size) buf)

-- `SIZE`, the size of `temp`.
abbrev pub size : ℕ
size = 199

-- `strcpy(temp, message->buf)`, then the message with " =)" behind it; `none` overflows `temp`.
unfoldable pub reply_to : Bytes → Option Bytes
reply_to message = if ltb (length message) size then some (message ++ codes " =)") else none

-- From the first packet for `PORT` to the frame that answers it.
pub answer :
    (dest_mac src_mac saddr daddr buf : Bytes) (packets : List Bytes) → Option (Option Bytes)
unfolding wait_for message_of reply_to frame
answer dest_mac src_mac saddr daddr buf packets =
    elim (wait_for (ether_size + ip_size) buf packets) [
      | none ↦ none
      | some got ↦ some (elim (reply_to (message_of (ether_size + ip_size) got)) [
        | none ↦ none
        | some reply ↦ some (frame dest_mac src_mac saddr daddr reply)
      ])
    ]

-- A packet of UDP_with_Headers/client.c: the kernel fills in the length, the id and the checksum.
unfoldable pub ip_packet : (addr message : Bytes) → Bytes
unfolding udp_header
ip_packet addr message =
    (0x45 ∷ 0 ∷ 0 ∷ 0 ∷ 0 ∷ 0 ∷ 0 ∷ 0 ∷ 255 ∷ 17 ∷ 0 ∷ 0 ∷ (addr ++ addr))
    ++ (udp_header port 8888 (udp_size + length message) ++ message)

-- From the first packet for `PORT` to the packet that answers it, in UDP_with_Headers/client.c.
pub answer_ip : (addr buf : Bytes) (packets : List Bytes) → Option (Option Bytes)
unfolding wait_for message_of reply_to ip_packet
answer_ip addr buf packets = elim (wait_for ip_size buf packets) [
  | none ↦ none
  | some got ↦ some (elim (reply_to (message_of ip_size got)) [
    | none ↦ none
    | some reply ↦ some (ip_packet addr reply)
  ])
]

-- A packet of UDP/client.c, to which the kernel adds the IP header.
unfoldable pub udp_packet : (message : Bytes) → Bytes
unfolding udp_header
udp_packet message = udp_header port 8888 (udp_size + length message) ++ message

-- From the first packet for `PORT` to the packet that answers it, in UDP/client.c.
pub answer_udp : (buf : Bytes) (packets : List Bytes) → Option (Option Bytes)
unfolding wait_for message_of reply_to udp_packet
answer_udp buf packets = elim (wait_for ip_size buf packets) [
  | none ↦ none
  | some got ↦ some (elim (reply_to (message_of ip_size got)) [
    | none ↦ none
    | some reply ↦ some (udp_packet reply)
  ])
]
