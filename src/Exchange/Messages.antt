-- ===== src/Exchange/Messages.antt =====
-- What each side prints of what the other typed.
use study_eltex.Prelude.{
  ℕ, zero, suc, ◌+◌, ◌<◌, ◌≤◌, ◌≡◌, refl, ap, ◌∙◌, false, Option, none, some, Option-cases, inl,
  inr, [], ◌∷◌, ◌++◌, append-nil, append_assoc, Bytes, length, length-append, take, drop,
  length-drop, lt→ltb, ◌==◌, arith,
}
use study_eltex.Contacts.{◌>>=◌}
use study_eltex.Tokens.Fields.{Lacks}
use study_eltex.Exchange.{size, zeros, typed, received, text, server, client, local_client}

-- A line in front of what follows.
text-append :
    (line rest : Bytes) → Lacks 0 line → text (line ++ rest) ≡ (text rest >>= λ s. some (line ++ s))
unfolding text
text-append [] rest h = elim (Option-cases (text rest)) [
  | inl e ↦ rw e refl
  | inr (s, e) ↦ rw e refl
]
text-append (c ∷ line) rest h =
    let other : (c == 0) ≡ false = ground arith in
    rw other (elim (Option-cases (text rest)) [
      | inl e ↦ rw (text-append line rest h.1) (rw e refl)
      | inr (s, e) ↦ rw (text-append line rest h.1) (rw e refl)
    ])

take-short : (n : ℕ) (s : Bytes) → length s ≤ n → take n s ≡ s
take-short zero [] h = refl
take-short zero (c ∷ s) h = absurd (omega arith)
take-short (suc n) [] h = refl
take-short (suc n) (c ∷ s) h = ap (◌∷◌ c) (take-short n s (omega arith))

received-short :
    (buf arrived : Bytes)
    → length arrived ≤ size
    → received buf arrived ≡ arrived ++ drop (length arrived) buf
unfolding received
received-short buf arrived h = rw (take-short size arrived h) refl

drop-zeros : (n m : ℕ) → n < m → (rest : Bytes) × (drop n (zeros m) ≡ 0 ∷ rest)
unfolding zeros
drop-zeros n zero h = absurd (omega arith)
drop-zeros zero (suc m) h = (zeros m, refl)
drop-zeros (suc n) (suc m) h = drop-zeros n m (omega arith)

text-ended : (line rest : Bytes) → Lacks 0 line → text (line ++ 0 ∷ rest) ≡ some line
unfolding text
text-ended line rest h = text-append line (0 ∷ rest) h ∙ ap some (append-nil line)

-- Into a cleared buffer a line is received as it was sent.
text-received_clear :
    (line : Bytes)
    → Lacks 0 line
    → length line < size
    → text (received (zeros size) line) ≡ some line
text-received_clear line h k =
    let (rest, behind) = drop-zeros (length line) size k in
    ap text (received-short (zeros size) line (omega arith) ∙ ap (λ s. line ++ s) behind)
    ∙ text-ended line rest h

typed-line :
    (buf line : Bytes)
    → length line < size
    → typed buf line ≡ some (line ++ 0 ∷ drop (length line + 1) buf)
unfolding typed
typed-line buf line h = rw (lt→ltb (length line) size h) refl

length-zeros : (n : ℕ) → length (zeros n) ≡ n
unfolding zeros
length-zeros zero = refl
length-zeros (suc n) = omega (arith, length-zeros n)

-- The whole buffer of a line, received into a cleared one.
text-received_whole :
    (line : Bytes)
    → Lacks 0 line
    → length line < size
    → text (received (zeros size) (line ++ 0 ∷ drop (length line + 1) (zeros size))) ≡ some line
text-received_whole line h k =
    let tail = drop (length line + 1) (zeros size) in
    let whole : length (line ++ 0 ∷ tail) ≤ size = omega (
      arith,
      length-append line (0 ∷ tail),
      length-drop (length line + 1) (zeros size),
      length-zeros size,
    ) in
    let behind = drop (length (line ++ 0 ∷ tail)) (zeros size) in
    ap text
      (received-short (zeros size) (line ++ 0 ∷ tail) whole ∙ append_assoc line (0 ∷ tail) behind)
    ∙ text-ended line (tail ++ behind) h

shown_then :
    (behind : Option Bytes) (line x : Bytes)
    → ◌>>=◌ {B = Bytes × Bytes} (behind >>= λ s. some (line ++ s)) (λ printed. some (printed, x))
      ≡ ◌>>=◌ {B = Bytes × Bytes} behind (λ s. some (line ++ s, x))
shown_then none line x = refl
shown_then (some s) line x = refl

-- Where both type a line of at most 198 bytes with no NUL, the server sends its line and prints the reply,
-- from a client that sends its whole buffer too. A client sends its reply, but prints behind the server's
-- line what its buffer held there at first, up to a NUL, and reads past its end if none is there.
pub messages_exchanged :
    (buf buf' line reply : Bytes)
    → Lacks 0 line
    → Lacks 0 reply
    → length line < size
    → length reply < size
    → (server buf line reply ≡ some (line, reply))
      × (client buf' line reply ≡ (text (drop (length line) buf') >>= λ s. some (line ++ s, reply)))
      × ((whole : Bytes) × (local_client buf' line reply
            ≡ (text (drop (length line) buf') >>= λ s. some (line ++ s, whole)))
          × (server buf line whole ≡ some (line, reply)))
unfolding server client local_client
messages_exchanged buf buf' line reply h h' k k' =
    let said = typed-line buf line k in
    let ended = text-ended line (drop (length line + 1) buf) h in
    let answered = typed-line (zeros size) reply k' in
    let ended' = text-ended reply (drop (length reply + 1) (zeros size)) h' in
    let front = received-short buf' line (omega arith) in
    let shown = text-append line (drop (length line) buf') h in
    (
      rw said (rw ended (rw (text-received_clear reply h' k') refl)),
      rw front (
          rw shown
            (rw answered (rw ended' (shown_then (text (drop (length line) buf')) line reply)))),
      (
        reply ++ 0 ∷ drop (length reply + 1) (zeros size),
        rw front (
            rw shown (
              rw answered (
                shown_then (text (drop (length line) buf')) line
                  (reply ++ 0 ∷ drop (length reply + 1) (zeros size))))),
        rw said (rw ended (rw (text-received_whole reply h' k') refl)),
      ),
    )
