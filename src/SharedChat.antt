-- ===== src/SharedChat.antt =====
-- The chat over shared memory: shared_memory/chat/server.c and client.c. Clients write into the one text, the
-- server moves it into rows that the clients print. Thread 0 is the server; every other thread is one of the
-- two threads of a client. A strcpy of a text is one step, and so is a strcmp: texts that are read while half
-- written are not modelled.
pub mod Times
pub mod Screens
pub mod Client
pub mod Lost
use study_eltex.Prelude.{
  ℕ, zero, suc, ◌+◌, ◌<◌, ◌≤◌, ◌≡◌, ◌≢◌, Bool, true, false, List, [], ◌∷◌, ◌++◌, Bytes, codes,
  length, take, str_eq, ◌==◌, if◌then◌else◌,
}
use study_eltex.Prelude.Family.{replace}

-- WOR, the text that says that nothing waits.
abbrev pub wor : Bytes
wor = codes "12plkopl21"

-- ROWS, the bytes of a row, and the rows that SIZE bytes hold.
abbrev pub row_size : ℕ
row_size = 100

abbrev pub rows_size : ℕ
rows_size = 90

-- The three segments, whether all accesses were inside them so far, and the history: the texts sent, and
-- what each printing thread has shown last.
pub record Shared : Type 0 where
  pub text : Bytes
  pub rows : List Bytes
  pub count : ℕ
  pub defined : Bool
  pub sent : List Bytes
  pub shown : ℕ → List Bytes

-- Where a thread stands, with its local `co` or `k`.
pub data Pc : Type 0 where
  polling : (co : ℕ) → Pc  -- server, the test of the inner while
  copying : (co : ℕ) → Pc  -- before strcpy(arr[co], text)
  counting : (co : ℕ) → Pc  -- before *count = co, where co is counted up
  resetting : (co : ℕ) → Pc  -- before strcpy(text, WOR)
  typing : Pc  -- writs, before strcpy(text, …)
  starting : Pc  -- prints, before k = *count
  watching : (k : ℕ) → Pc  -- the test of the inner while
  printing : (k : ℕ) → Pc  -- before the rows are printed

-- One step of the server.
pub data ServerMove (m : Shared) : Pc → Shared → Pc → Type 0 where
  nothing_new : {co : ℕ} → str_eq m.text wor ≡ true → ServerMove m (polling co) m (polling co)
  something : {co : ℕ} → str_eq m.text wor ≡ false → ServerMove m (polling co) m (copying co)
  copy :
      {co : ℕ}
      → co < rows_size
      → length m.text < row_size
      → ServerMove m (copying co) (record m { rows = m.rows ++ m.text ∷ [] }) (counting (co + 1))
  copy_overruns :
      {co : ℕ}
      → rows_size ≤ co
      → ServerMove m (copying co) (record m { defined = false }) (copying co)
  copy_too_long :
      {co : ℕ}
      → row_size ≤ length m.text
      → ServerMove m (copying co) (record m { defined = false }) (copying co)
  set_count : {co : ℕ} → ServerMove m (counting co) (record m { count = co }) (resetting co)
  reset : {co : ℕ} → ServerMove m (resetting co) (record m { text = wor }) (polling co)

-- One step of `writs`.
pub data WriterMove (m : Shared) : Pc → Shared → Pc → Type 0 where
  say :
      (message : Bytes)
      → WriterMove m typing (record m { text = message; sent = m.sent ++ message ∷ [] }) typing

-- One step of `prints` in thread `t`.
pub data PrinterMove (m : Shared) (t : ℕ) : Pc → Shared → Pc → Type 0 where
  read_count : PrinterMove m t starting m (watching m.count)
  unchanged : {k : ℕ} → m.count ≡ k → PrinterMove m t (watching k) m (watching k)
  changed : {k : ℕ} → m.count ≢ k → PrinterMove m t (watching k) m (printing (k + 1))
  print :
      {k : ℕ}
      → PrinterMove m t
          (printing k)
          (record m { shown = replace m.shown t (take k m.rows) })
          (watching k)

-- One step of thread `t`.
pub data Move (m : Shared) (t : ℕ) (p : Pc) (m' : Shared) (p' : Pc) : Type 0 where
  by_server : ServerMove m p m' p' → Move m t p m' p'
  by_writer : WriterMove m p m' p' → Move m t p m' p'
  by_printer : PrinterMove m t p m' p' → Move m t p m' p'

pub record System : Type 0 where
  pub mem : Shared
  pub pc : ℕ → Pc

pub data Step (s : System) : System → Type 0 where
  pick :
      (t : ℕ) {m : Shared} {p : Pc}
      → s.mem.defined ≡ true
      → Move s.mem t (s.pc t) m p
      → Step s (record { mem = m; pc = replace s.pc t p })

pub data Steps (s : System) : System → Type 0 where
  here : Steps s s
  later : {t u : System} → Steps s t → Step t u → Steps s u

-- The server before its loop, and clients that have attached; `writes` says which threads are `writs`.
abbrev pub start : (writes : ℕ → Bool) → System
start writes = record {
  mem = record { text = wor; rows = []; count = 0; defined = true; sent = []; shown = λ t. [] };
  pc = λ t. if t == 0 then polling 0 else if writes t then typing else starting;
}
