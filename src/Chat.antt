-- ===== src/Chat.antt =====
-- The server of queue/chat/server.c: the table of messages that it sends after each one. `none` is a
-- message behind the last row or longer than a row. msgrcv and msgsnd are given the size of the whole struct and
-- so reach 8 bytes past it; that is not modelled.
pub mod Client
pub mod Screen
use study_eltex.Prelude.{
  ℕ, ◌+◌, ◌<◌, ◌≤◌, ◌≡◌, refl, true, Option, none, some, List, [], ◌∷◌, ◌++◌, Bytes, length,
  length-append, ltb, lt→ltb, ◌&&◌, if◌then◌else◌, arith,
}
use study_eltex.Contacts.{◌>>=◌}

-- ROWS and COLS
abbrev pub rows : ℕ
rows = 100

abbrev pub cols : ℕ
cols = 50

-- `marray` up to `count`.
pub record Group : Type 0 where
  pub marray : List Bytes

-- `strcpy(grp.marray[grp.count], msg.mtext)` and `count++`
unfoldable pub store : Group → Bytes → Option Group
store grp mtext =
    if ltb (length grp.marray) rows && ltb (length mtext) cols
    then some (record { marray = grp.marray ++ mtext ∷ [] })
    else none

-- `while (1)` on the messages received: the groups sent.
unfoldable pub serve : Group → List Bytes → Option (List Group)
unfolding store
serve grp [] = some []
serve grp (mtext ∷ rest) = do grp' ← store grp mtext; sent ← serve grp' rest; some (grp' ∷ sent)

-- The messages so far after each of them.
abbrev pub histories : (before messages : List Bytes) → List Group
histories before [] = []
histories before (m ∷ messages) =
    record { marray = before ++ m ∷ [] } ∷ histories (before ++ m ∷ []) messages

-- Every message fits a row.
abbrev pub AllFitRow : List Bytes → Type 0
AllFitRow [] = Unit
AllFitRow (m ∷ messages) = (length m < cols) × AllFitRow messages

-- While the messages fit a row each and are no more than the rows, the server sends after each message all
-- messages up to it, in the order received.
serve-histories :
    (before messages : List Bytes)
    → AllFitRow messages
    → length before + length messages ≤ rows
    → serve (record { marray = before }) messages ≡ some (histories before messages)
unfolding serve store
serve-histories before [] h k = refl
serve-histories before (m ∷ messages) h k =
    let room : ltb (length before) 100 ≡ true = lt→ltb (length before) 100 (omega arith) in
    let fits : ltb (length m) 50 ≡ true = lt→ltb (length m) 50 h.0 in
    let later =
      serve-histories (before ++ m ∷ []) messages h.1
        (omega (arith, length-append before (m ∷ []))) in
    rw room (rw fits (rw later refl))
