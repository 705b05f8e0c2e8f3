-- ===== src/Bot.antt =====
-- sokets2/attack-bot/bot.c: a thousand threads that each fork a process for the client and wait. main and the
-- threads interleave in any order, and a client ends at any time.
pub mod Reaped
use study_eltex.Prelude.{
  ℕ, zero, suc, ◌+◌, ◌<◌, ◌≡◌, Option, none, some, List, [], ◌∷◌, Bytes, length, ltb, if◌then◌else◌,
}
use study_eltex.Prelude.Family.{replace}

abbrev pub count_of_bots : ℕ
count_of_bots = 1000

abbrev pub size : ℕ
size = 255

-- What main does with its arguments: it says how it is called, or takes the path into `buf`; `none` is a path that
-- does not fit.
pub data Entry : Type 0 where
  wrong : Entry
  attack : (buf : Bytes) → Entry

pub entry : (argv : List Bytes) → Option Entry
entry (program ∷ path ∷ []) = if ltb (length path) size then some (attack path) else none
entry _ = some wrong

-- Where a thread stands: not created, before fork, before wait (of the parent, also where fork has failed), and at
-- its end.
pub data Pc : Type 0 where
  idle forking waiting finished : Pc

-- How many threads main has created and joined, and how many children run and have ended without being waited for.
-- A child in which execl fails ends with its only thread.
pub record System : Type 0 where
  pub pc : ℕ → Pc
  pub created : ℕ
  pub joined : ℕ
  pub running : ℕ
  pub ended : ℕ

pub data Step (s : System) : System → Type 0 where
  create :
      s.created < count_of_bots
      → Step s (record s { pc = replace s.pc s.created forking; created = s.created + 1 })
  fork :
      (t : ℕ)
      → s.pc t ≡ forking
      → Step s (record s { pc = replace s.pc t waiting; running = s.running + 1 })
  fork_fails : (t : ℕ) → s.pc t ≡ forking → Step s (record s { pc = replace s.pc t waiting })
  client_ends :
      (rest : ℕ) → s.running ≡ suc rest → Step s (record s { running = rest; ended = s.ended + 1 })
  wait :
      (t rest : ℕ)
      → s.pc t ≡ waiting
      → s.ended ≡ suc rest
      → Step s (record s { pc = replace s.pc t finished; ended = rest })
  wait_fails :
      (t : ℕ)
      → s.pc t ≡ waiting
      → s.running ≡ 0
      → s.ended ≡ 0
      → Step s (record s { pc = replace s.pc t finished })
  join :
      s.created ≡ count_of_bots
      → s.joined < count_of_bots
      → s.pc s.joined ≡ finished
      → Step s (record s { joined = s.joined + 1 })

-- Runs of `n` steps.
pub data Steps (s : System) : (n : ℕ) → System → Type 0 where
  here : Steps s 0 s
  later : {n : ℕ} {t u : System} → Steps s n t → Step t u → Steps s (suc n) u

abbrev pub start : System
start = record { pc = λ t. idle; created = 0; joined = 0; running = 0; ended = 0 }
