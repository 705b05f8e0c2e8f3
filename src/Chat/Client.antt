-- ===== src/Chat/Client.antt =====
-- The client of queue/chat/client.c: the messages that its writing thread sends, and what its printing thread
-- shows of a group. A line is what fgets leaves in its buffer; `none` is an access outside a
-- buffer, but for the bytes behind a message that msgsnd reads and msgrcv writes, since both are given the
-- size of the whole struct: those are not modelled.
use study_eltex.Prelude.{
  ℕ, Option, none, some, List, [], ◌∷◌, ◌++◌, Bytes, codes, length, set, ltb, if◌then◌else◌,
}
use study_eltex.Contacts.{◌>>=◌}
use study_eltex.Chat.{Group, rows}

-- '\n' as a message, ':' and ' '
abbrev pub newline : Bytes
newline = 10 ∷ []

abbrev pub colon : ℕ
colon = 58

abbrev pub blank : Bytes
blank = 32 ∷ []

-- strcpy and strcat into one of the arrays of ROWS bytes.
unfoldable pub fitting : Bytes → Option Bytes
fitting s = if ltb (length s) rows then some s else none

-- `name[strlen(name) - 1] = ':'` and `strcat(name, " ")`
unfoldable pub mark : (name : Bytes) → Option Bytes
unfolding fitting
mark [] = none
mark (c ∷ name) = fitting (set (c ∷ name) (length name) colon ++ blank)

-- `while (1)` of writs on the lines typed, with the marked name.
unfoldable pub talk : (name : Bytes) (lines : List Bytes) → Option (List Bytes)
talk name [] = some []
talk name (buf ∷ lines) = do
  mtext ← fitting (name ++ buf)
  rest ← talk name lines
  some (mtext ∷ newline ∷ rest)

-- writs: the messages sent, in order.
unfoldable pub writs : (name : Bytes) (lines : List Bytes) → Option (List Bytes)
writs name lines = do
  mtext ← fitting (codes "New user - " ++ name)
  marked ← mark name
  rest ← talk marked lines
  some (mtext ∷ newline ∷ rest)

-- prints: the rows one behind the other on a cleared screen.
abbrev pub joined_rows : List Bytes → Bytes
joined_rows [] = []
joined_rows (row ∷ marray) = row ++ joined_rows marray

abbrev pub prints : Group → Bytes
prints grp = joined_rows grp.marray
