-- ===== src/Fifos.antt =====
-- pipes/2tsk: 1tsk.c starts 2tsk.c, and both open the fifos channel1 and channel2. A process stands at the
-- number of the fifos that it has opened; `open` waits until the other end has been opened or is waited for.
pub mod Deadlock
use study_eltex.Prelude.{
  ℕ, zero, suc, ◌+◌, ◌≡◌, Bool, true, false, List, [], ◌∷◌, ◌&&◌, ◌||◌, take, ◌==◌, if◌then◌else◌,
}

pub data Mode : Type 0 where
  rdonly : Mode
  wronly : Mode

-- A fifo by its number, and the end of it.
pub record End : Type 0 where
  pub channel : ℕ
  pub mode : Mode

-- The calls of open in 1tsk.c and in 2tsk.c, in order.
abbrev pub opens1 : List End
opens1 = record { channel = 1; mode = rdonly } ∷ record { channel = 2; mode = rdonly } ∷ []

abbrev pub opens2 : List End
opens2 = record { channel = 1; mode = wronly } ∷ record { channel = 2; mode = rdonly } ∷ []

-- The other end of a fifo is among those opened or waited for.
abbrev pub is_other : Mode → Mode → Bool
is_other rdonly wronly = true
is_other wronly rdonly = true
is_other _ _ = false

unfoldable pub meets : End → List End → Bool
meets e [] = false
meets e (f ∷ ends) = ((e.channel == f.channel) && is_other e.mode f.mode) || meets e ends

-- Whether a process that has opened `n` fifos can open the next of its own, where the other process has
-- opened or waits for `others`.
unfoldable pub can_open : (n : ℕ) (own others : List End) → Bool
can_open n [] others = false
can_open zero (e ∷ own) others = meets e others
can_open (suc n) (e ∷ own) others = can_open n own others

-- How many fifos each process has opened.
pub record System : Type 0 where
  pub first : ℕ
  pub second : ℕ

pub data Step (s : System) : System → Type 0 where
  open1 :
      can_open s.first opens1 (take (s.second + 1) opens2) ≡ true
      → Step s (record s { first = s.first + 1 })
  open2 :
      can_open s.second opens2 (take (s.first + 1) opens1) ≡ true
      → Step s (record s { second = s.second + 1 })

pub data Steps (s : System) : System → Type 0 where
  here : Steps s s
  later : {t u : System} → Steps s t → Step t u → Steps s u

-- Behind fork and execl.
abbrev pub start : System
start = record { first = 0; second = 0 }
