-- ===== src/Examples/Packets.antt =====
-- Packets of the raw clients.
use study_eltex.Prelude.{◌/◌, ◌%◌, ◌≡◌, refl, some, [], ◌∷◌, ◌++◌, Bytes, take, drop, arith}
use study_eltex.RawSocket.{check_sum, wait_for, dest_of}
use study_eltex.RawSocket.Checksum.{check_sum-accepts}
use study_eltex.RawSocket.Receive.{received, wait_for_first}

abbrev here : Bytes
here = 192 ∷ 168 ∷ 122 ∷ 29 ∷ []

abbrev there : Bytes
there = 192 ∷ 168 ∷ 122 ∷ 1 ∷ []

check_sum-accepts_example :
    let check = check_sum (1 ∷ 2 ∷ 0 ∷ 0 ∷ 3 ∷ []) in
    check_sum (1 ∷ 2 ∷ check % 256 ∷ check / 256 ∷ 3 ∷ []) ≡ 0
check_sum-accepts_example =
    check_sum-accepts (1 ∷ 2 ∷ []) (3 ∷ []) tt
      (omega arith, (omega arith, (omega arith, (omega arith, (omega arith, tt))))) (omega arith)

-- A packet with a UDP header at its start, for port 8888, and one for port 7777.
abbrev other_packet : Bytes
other_packet = 0 ∷ 0 ∷ 34 ∷ 184 ∷ 0 ∷ 9 ∷ []

abbrev our_packet : Bytes
our_packet = 0 ∷ 0 ∷ 30 ∷ 97 ∷ []

-- A buffer of four bytes: the other packet does not fit it.
abbrev small : Bytes
small = 0 ∷ 0 ∷ 0 ∷ 0 ∷ []

wait_for_first_example :
    wait_for 0 small (other_packet ∷ our_packet ∷ [])
    ≡ some (take 4 our_packet ++ drop 4 (received small (other_packet ∷ [])))
unfolding dest_of
wait_for_first_example =
    wait_for_first 0 small (other_packet ∷ []) our_packet [] (omega arith)
      ((omega arith, omega arith), tt) (omega arith) refl
