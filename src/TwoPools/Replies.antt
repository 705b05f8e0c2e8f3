-- ===== src/TwoPools/Replies.antt =====
-- Where the replies to datagrams go.
use study_eltex.Prelude.{ℕ, ◌<◌, List, [], ◌∷◌, ◌++◌, arith}
use study_eltex.Prelude.Counts.{count, count-append}
use study_eltex.TwoPools.{
  Shared, Pc, Move, by_process, by_process2, by_main, trylock, sendto, recvfrom, datagram, System,
  pick, Steps, here, later, start,
}

-- The addresses that `udp_cln` can have held: that of `start`, and the senders'.
abbrev pub known : Shared → List ℕ
known m = start.mem.udp_cln ∷ m.heard

pub record Inv (m : Shared) : Type 0 where
  pub current : 0 < count m.udp_cln (known m)
  pub replies : (a : ℕ) → 0 < count a m.replied → 0 < count a (known m)

module _ {m : Shared} (inv : Inv m) (t : ℕ) where
  open inv use {current, replies}

  hear : (x : ℕ) → Inv (record m { udp_cln = x; heard = m.heard ++ x ∷ [] })
  hear x = record {
    current = ground (arith, count-append x m.heard (x ∷ []));
    replies = λ a q. ground (arith, replies a, count-append a m.heard (x ∷ []));
  }

  Move-Inv : {p p' : Pc} {m' : Shared} → Move m t p m' p' → Inv m'
  Move-Inv (by_process2 (recvfrom x)) = hear x
  Move-Inv (by_main (datagram x)) = hear x
  Move-Inv (by_process2 sendto) = record {
    current = current;
    replies = λ a q. ground (arith, replies a, count-append a m.replied (m.udp_cln ∷ []));
  }
  Move-Inv (by_process (trylock h)) = record { current = current; replies = replies }
  Move-Inv (by_process mv) = record {
    current = ground (arith, current);
    replies = λ a q. ground (arith, replies a);
  }
  Move-Inv (by_process2 mv) = record {
    current = ground (arith, current);
    replies = λ a q. ground (arith, replies a);
  }
  Move-Inv (by_main mv) = record {
    current = ground (arith, current);
    replies = λ a q. ground (arith, replies a);
  }

pub Steps-Inv : {s : System} → Steps start s → Inv s.mem
Steps-Inv here = record { current = omega arith; replies = λ a q. omega arith }
Steps-Inv (later r (pick t lt running mv)) = Move-Inv (Steps-Inv r) t mv

-- In every reachable state a reply has gone only to addresses that a datagram came from, or to what
-- `udp_cln` held before the first one.
pub replies_were_heard :
    {s : System} → Steps start s → (a : ℕ) → 0 < count a s.mem.replied → 0 < count a (known s.mem)
replies_were_heard r = (Steps-Inv r).replies
