-- ===== src/SharedChat/Client.antt =====
-- What `writs` of shared_memory/chat/client.c puts into the segment, one text after the other. A line is
-- what fgets leaves in its buffer; `none` is an access outside `name`, `tmp` or `tp`.
use study_eltex.Prelude.{
  ◌<◌, Bool-cases, inl, inr, Option, none, some, List, [], ◌∷◌, ◌++◌, Bytes, codes, length, ltb,
  ltb→lt,
}
use study_eltex.Contacts.{◌>>=◌}
use study_eltex.Chat.Client.{fitting, mark}
use study_eltex.SharedChat.{row_size}

-- `while (1)` on the lines typed, with the marked name.
unfoldable pub talk : (name : Bytes) (lines : List Bytes) → Option (List Bytes)
talk name [] = some []
talk name (buf ∷ lines) = do tp ← fitting (name ++ buf); rest ← talk name lines; some (tp ∷ rest)

unfoldable pub writs : (name : Bytes) (lines : List Bytes) → Option (List Bytes)
writs name lines = do
  tmp ← fitting (codes "New user - " ++ name)
  rest ← mark name >>= λ marked. talk marked lines
  some (tmp ∷ rest)

-- Every text fits a row.
abbrev pub AllFit : List Bytes → Type 0
AllFit [] = Unit
AllFit (text ∷ texts) = (length text < row_size) × AllFit texts

abbrev pub IsFitting : Option Bytes → Type 0
IsFitting none = Unit
IsFitting (some text) = length text < row_size

abbrev pub AreFitting : Option (List Bytes) → Type 0
AreFitting none = Unit
AreFitting (some texts) = AllFit texts

fitting-IsFitting : (s : Bytes) → IsFitting (fitting s)
unfolding fitting
fitting-IsFitting s = elim (Bool-cases (ltb (length s) 100)) [
  | inl e ↦ rw e (ltb→lt (length s) 100 e)
  | inr e ↦ rw e tt
]

-- A text put in front of texts.
both-AreFitting :
    (first : Option Bytes) (rest : Option (List Bytes))
    → IsFitting first
    → AreFitting rest
    → AreFitting (do text ← first; texts ← rest; some (text ∷ texts))
both-AreFitting none rest h k = tt
both-AreFitting (some text) none h k = tt
both-AreFitting (some text) (some texts) h k = (h, k)

talk-AreFitting : (name : Bytes) (lines : List Bytes) → AreFitting (talk name lines)
unfolding talk
talk-AreFitting name [] = tt
talk-AreFitting name (buf ∷ lines) =
    both-AreFitting (fitting (name ++ buf)) (talk name lines) (fitting-IsFitting (name ++ buf))
      (talk-AreFitting name lines)

marked-AreFitting :
    (marked : Option Bytes) (lines : List Bytes) → AreFitting (marked >>= λ name. talk name lines)
marked-AreFitting none lines = tt
marked-AreFitting (some name) lines = talk-AreFitting name lines

-- Whatever the name and the lines, each text that a client puts into the segment fits a row of the server.
pub writs-AreFitting : (name : Bytes) (lines : List Bytes) → AreFitting (writs name lines)
unfolding writs
writs-AreFitting name lines =
    both-AreFitting (fitting (codes "New user - " ++ name))
      (mark name >>= λ marked. talk marked lines) (fitting-IsFitting (codes "New user - " ++ name))
      (marked-AreFitting (mark name) lines)
