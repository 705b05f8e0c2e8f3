-- ===== src/RawSocket/Receive.antt =====
-- The receiving loop of the raw clients: which packet it takes and what it reads in it.
use study_eltex.Prelude.{
  ℕ, zero, suc, ◌+◌, ◌≤◌, ◌<◌, ◌≡◌, ◌≢◌, refl, sym, ◌∙◌, some, List, [], ◌∷◌, ◌++◌, Bytes, length,
  take, length-take, length-drop, length-append, drop, get_or, arith,
}
use study_eltex.RawSocket.{receive, dest_of, wait_for, port}

-- The buffer after some packets.
abbrev pub received : (buf : Bytes) → List Bytes → Bytes
received buf [] = buf
received buf (packet ∷ rest) = received (receive buf packet) rest

-- Packets with a UDP header for another port.
abbrev pub AllOthers : (offset : ℕ) → List Bytes → Type 0
AllOthers offset [] = Unit
AllOthers offset (packet ∷ rest) =
    ((offset + 4 ≤ length packet) × (dest_of offset packet ≢ port)) × AllOthers offset rest

get_or-append : (s t : Bytes) (i : ℕ) → i < length s → get_or (s ++ t) i 0 ≡ get_or s i 0
get_or-append [] t i h = omega arith
get_or-append (x ∷ s) t zero h = refl
get_or-append (x ∷ s) t (suc i) h = get_or-append s t i (omega arith)

get_or-take : (n : ℕ) (s : Bytes) (i : ℕ) → i < n → get_or (take n s) i 0 ≡ get_or s i 0
get_or-take zero s i h = absurd (omega arith)
get_or-take (suc n) [] i h = refl
get_or-take (suc n) (x ∷ s) zero h = refl
get_or-take (suc n) (x ∷ s) (suc i) h = get_or-take n s i (omega arith)

-- The buffer keeps its size.
length-receive : (buf packet : Bytes) → length (receive buf packet) ≡ length buf
unfolding receive
length-receive buf packet = omega (
  arith,
  length-append (take (length buf) packet) (drop (length packet) buf),
  length-take (length buf) packet,
  length-drop (length packet) buf,
)

-- A header that arrived whole is read from the packet, not from what the buffer had before.
dest_of-receive :
    (offset : ℕ) (buf packet : Bytes)
    → offset + 4 ≤ length packet
    → offset + 4 ≤ length buf
    → dest_of offset (receive buf packet) ≡ dest_of offset packet
unfolding dest_of receive
dest_of-receive offset buf packet h k =
    let kept = length-take (length buf) packet in
    let read : (i : ℕ)
        → i < offset + 4
        → get_or (take (length buf) packet ++ drop (length packet) buf) i 0 ≡ get_or packet i 0 =
      λ i l.
        get_or-append (take (length buf) packet) (drop (length packet) buf) i
          (omega (arith, kept, l, h, k))
        ∙ get_or-take (length buf) packet i (omega (arith, l, k)) in
    rw (read (offset + 2) (omega arith), read (offset + 3) (omega arith)) refl

-- Where packets for other ports and then one for `PORT` arrive, all with whole headers that the buffer has
-- room for, the client leaves the loop at that packet: its buffer has as much of the packet as fits,
-- followed by what earlier packets left there.
pub wait_for_first :
    (offset : ℕ) (buf : Bytes) (before : List Bytes) (packet : Bytes) (after : List Bytes)
    → offset + 4 ≤ length buf
    → AllOthers offset before
    → offset + 4 ≤ length packet
    → dest_of offset packet ≡ port
    → wait_for offset buf (before ++ packet ∷ after)
      ≡ some (take (length buf) packet ++ drop (length packet) (received buf before))
unfolding wait_for receive
wait_for_first offset buf [] packet after room others h p =
    let kept : dest_of offset (take (length buf) packet ++ drop (length packet) buf)
        ≡ dest_of offset packet =
      dest_of-receive offset buf packet h room in
    rw kept (rw p refl)
wait_for_first offset buf (other ∷ before) packet after room others h p =
    let kept = dest_of-receive offset buf other others.0.0 room in
    let skipped : dest_of offset (receive buf other) ≢ port = λ e. others.0.1 (sym kept ∙ e) in
    let same = length-receive buf other in
    let later =
      wait_for_first offset (receive buf other) before packet after (omega (arith, same, room))
        others.1 h p in
    ground (arith, same, later)
