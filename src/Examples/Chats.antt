-- ===== src/Examples/Chats.antt =====
-- Runs of the chat over queues, of an exchange of messages, and the spiral.
use study_eltex.Prelude.{ℕ, ◌+◌, ◌<◌, ◌≡◌, some, ◌++◌, Bytes, codes, arith}
use study_eltex.Exchange.{zeros, text, server, client, local_client}
use study_eltex.Exchange.Messages.{messages_exchanged}
use study_eltex.Spiral.{Square, fill_spiral}
use study_eltex.Spiral.Number.{number}
use study_eltex.Spiral.Filled.{fill_spiral-number}

-- N is 19.
fill_spiral-number_example :
    (out : Square) × (fill_spiral 19 19 ≡ some out)
    × (out.count ≡ 362)
    × ((a b : ℕ) → a < 19 → b < 19 → out.arr a b ≡ 1 + number 19 a b)
fill_spiral-number_example = fill_spiral-number 19

-- A buffer that still holds something.
abbrev stale : Bytes
stale = codes "garbage" ++ zeros 192

messages_exchanged_example :
    (server stale (codes "hi\n") (codes "ho\n") ≡ some (codes "hi\n", codes "ho\n"))
    × (client stale (codes "hi\n") (codes "ho\n") ≡ some (codes "hi\nbage", codes "ho\n"))
    × ((whole : Bytes) × (local_client stale (codes "hi\n") (codes "ho\n")
          ≡ some (codes "hi\nbage", whole))
        × (server stale (codes "hi\n") whole ≡ some (codes "hi\n", codes "ho\n")))
unfolding text zeros
messages_exchanged_example =
    messages_exchanged stale stale (codes "hi\n") (codes "ho\n")
      (omega arith, (omega arith, (omega arith, tt)))
      (omega arith, (omega arith, (omega arith, tt))) (omega arith) (omega arith)
