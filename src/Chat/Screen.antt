-- ===== src/Chat/Screen.antt =====
-- Clients and server together: what stands on the screens in the end.
use study_eltex.Prelude.{
  ◌+◌, ◌*◌, ◌<◌, ◌≤◌, ◌≡◌, refl, ap, ◌∙◌, true, false, none, some, List, [], ◌∷◌, ◌++◌,
  append_assoc, Bytes, codes, length, length-append, set, set-middle, ltb, lt→ltb, not-lt→ltb,
  arith,
}
use study_eltex.Chat.{Group, rows, cols, store, serve, histories, AllFitRow, serve-histories}
use study_eltex.Chat.Client.{newline, colon, blank, fitting, mark, talk, writs, joined_rows, prints}

-- The messages of a user, by what they should read like.
abbrev pub said : (user : Bytes) (lines : List Bytes) → List Bytes
said user [] = []
said user (line ∷ lines) = (user ++ (codes ": " ++ line)) ∷ newline ∷ said user lines

abbrev pub conversation : (user : Bytes) (lines : List Bytes) → List Bytes
conversation user lines = (codes "New user - " ++ (user ++ newline)) ∷ newline ∷ said user lines

-- Every message of the user fits a row of the server.
abbrev pub LinesShort : (user : Bytes) (lines : List Bytes) → Type 0
LinesShort user [] = Unit
LinesShort user (line ∷ lines) = (length user + 2 + length line < cols) × LinesShort user lines

abbrev pub IsShort : (user : Bytes) (lines : List Bytes) → Type 0
IsShort user lines = (length user + 12 < cols) × LinesShort user lines

-- `zs` is an interleaving of `xs` and `ys`.
pub data Shuffle : (xs ys zs : List Bytes) → Type 0 where
  done : Shuffle [] [] []
  left : {x : Bytes} {xs ys zs : List Bytes} → Shuffle xs ys zs → Shuffle (x ∷ xs) ys (x ∷ zs)
  right : {y : Bytes} {xs ys zs : List Bytes} → Shuffle xs ys zs → Shuffle xs (y ∷ ys) (y ∷ zs)

-- What a client shows once it has received all groups.
abbrev pub last_screen : List Group → Bytes
last_screen [] = []
last_screen (g ∷ []) = prints g
last_screen (g ∷ h ∷ groups) = last_screen (h ∷ groups)

fitting-short : (s : Bytes) → length s < rows → fitting s ≡ some s
unfolding fitting
fitting-short s h = rw (lt→ltb (length s) rows h) refl

mark-line :
    (user : Bytes) → length user + 2 < rows → mark (user ++ newline) ≡ some (user ++ codes ": ")
unfolding mark
mark-line [] h = refl
mark-line (c ∷ user) h =
    let at : length (user ++ newline) ≡ length (c ∷ user) =
      omega (arith, length-append user newline) in
    let marked : set (c ∷ (user ++ newline)) (length (user ++ newline)) colon
        ≡ (c ∷ user) ++ (colon ∷ []) =
      ap (λ i. set (c ∷ (user ++ newline)) i colon) at ∙ set-middle (c ∷ user) 10 colon [] in
    ap (λ s. fitting (s ++ blank)) marked
    ∙ (ap fitting (append_assoc (c ∷ user) (colon ∷ []) blank)
        ∙ fitting-short ((c ∷ user) ++ codes ": ") (omega (arith, length-append user (codes ": "))))

talk-said :
    (user : Bytes) (lines : List Bytes)
    → LinesShort user lines
    → talk (user ++ codes ": ") lines ≡ some (said user lines)
unfolding talk
talk-said user [] h = refl
talk-said user (line ∷ lines) h =
    let here =
      fitting-short (user ++ (codes ": " ++ line))
        (omega (arith, h.0, length-append user (codes ": " ++ line))) in
    rw (append_assoc user (codes ": ") line) (rw here (rw (talk-said user lines h.1) refl))

-- The client sends what the conversation should read like.
writs-conversation :
    (user : Bytes) (lines : List Bytes)
    → IsShort user lines
    → writs (user ++ newline) lines ≡ some (conversation user lines)
unfolding writs
writs-conversation user lines (h, k) =
    let first =
      fitting-short (codes "New user - " ++ (user ++ newline))
        (omega (arith, length-append user newline)) in
    rw first (rw (mark-line user (omega arith)) (rw (talk-said user lines k) refl))

said-AllFitRow :
    (user : Bytes) (lines : List Bytes) → LinesShort user lines → AllFitRow (said user lines)
said-AllFitRow user [] h = tt
said-AllFitRow user (line ∷ lines) h = (
  omega (arith, h.0, length-append user (codes ": " ++ line)),
  (omega arith, said-AllFitRow user lines h.1),
)

conversation-AllFitRow :
    (user : Bytes) (lines : List Bytes) → IsShort user lines → AllFitRow (conversation user lines)
conversation-AllFitRow user lines (h, k) =
    (omega (arith, length-append user newline), (omega arith, said-AllFitRow user lines k))

length-said : (user : Bytes) (lines : List Bytes) → length (said user lines) ≡ 2 * length lines
length-said user [] = refl
length-said user (line ∷ lines) = omega (arith, length-said user lines)

Shuffle-AllFitRow :
    {xs ys zs : List Bytes} → Shuffle xs ys zs → AllFitRow xs → AllFitRow ys → AllFitRow zs
Shuffle-AllFitRow done h k = tt
Shuffle-AllFitRow (left s) h k = (h.0, Shuffle-AllFitRow s h.1 k)
Shuffle-AllFitRow (right s) h k = (k.0, Shuffle-AllFitRow s h k.1)

length-Shuffle : {xs ys zs : List Bytes} → Shuffle xs ys zs → length zs ≡ length xs + length ys
length-Shuffle done = refl
length-Shuffle (left s) = omega (arith, length-Shuffle s)
length-Shuffle (right s) = omega (arith, length-Shuffle s)

last_screen-histories :
    (before messages : List Bytes) (m : Bytes)
    → last_screen (histories before (m ∷ messages)) ≡ joined_rows (before ++ m ∷ messages)
last_screen-histories before [] m = refl
last_screen-histories before (n ∷ messages) m =
    last_screen-histories (before ++ m ∷ []) messages n
    ∙ rw (append_assoc before (m ∷ []) (n ∷ messages)) refl

last_screen-messages :
    (messages : List Bytes) → last_screen (histories [] messages) ≡ joined_rows messages
last_screen-messages [] = refl
last_screen-messages (m ∷ messages) = last_screen-histories [] messages m

-- Two clients, whose names and lines are short and who send a hundred messages at most, send what their
-- conversations should read like; and in whatever order the queue mixes their messages, the server takes
-- all of them, and the last screen shows every message once, in that order.
chat_screen :
    (user user' : Bytes) (lines lines' messages : List Bytes)
    → IsShort user lines
    → IsShort user' lines'
    → 4 + 2 * (length lines + length lines') ≤ rows
    → Shuffle (conversation user lines) (conversation user' lines') messages
    → (writs (user ++ newline) lines ≡ some (conversation user lines))
      × (writs (user' ++ newline) lines' ≡ some (conversation user' lines'))
      × ((groups : List Group) × (serve (record { marray = [] }) messages ≡ some groups)
          × (last_screen groups ≡ joined_rows messages))
chat_screen user user' lines lines' messages h h' room shuffle =
    let fit =
      Shuffle-AllFitRow shuffle (conversation-AllFitRow user lines h)
        (conversation-AllFitRow user' lines' h') in
    let few : length {A = Bytes} [] + length messages ≤ rows =
      omega (arith, length-Shuffle shuffle, length-said user lines, length-said user' lines') in
    (
      writs-conversation user lines h,
      writs-conversation user' lines' h',
      (histories [] messages, serve-histories [] messages fit few, last_screen-messages messages),
    )

-- A line that the client can send, its buffer having 100 bytes, but that with the name is 50 bytes or longer
-- runs out of the server's row.
long_line_overruns :
    (user line : Bytes)
    → length user + 12 < cols
    → cols ≤ length user + 2 + length line
    → length user + 2 + length line < rows
    → (messages : List Bytes) × (writs (user ++ newline) (line ∷ []) ≡ some messages)
      × (serve (record { marray = [] }) messages ≡ none)
unfolding writs talk serve store
long_line_overruns user line short long sendable =
    let text = user ++ (codes ": " ++ line) in
    let first =
      fitting-short (codes "New user - " ++ (user ++ newline))
        (omega (arith, length-append user newline)) in
    let third = fitting-short text (omega (arith, length-append user (codes ": " ++ line))) in
    let fits : ltb (length (codes "New user - " ++ (user ++ newline))) 50 ≡ true =
      lt→ltb (length (codes "New user - " ++ (user ++ newline))) 50
        (omega (arith, length-append user newline)) in
    let over : ltb (length text) 50 ≡ false =
      not-lt→ltb (length text) 50 (omega (arith, length-append user (codes ": " ++ line))) in
    (
      conversation user (line ∷ []),
      rw first (
          rw (mark-line user (omega arith))
            (rw (append_assoc user (codes ": ") line) (rw third refl))),
      rw fits (rw over refl),
    )
