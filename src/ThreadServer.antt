-- ===== src/ThreadServer.antt =====
-- sokets2/1-2scheme/server.c: a thread for each of the first fifteen connections. Every thread is given the
-- address of main's `client_fd` and reads it when it runs. Threads 0 to 14 are those that main creates, and
-- thread 15 is main; pthread_create is taken to succeed.
pub mod Bounds
pub mod Race
use study_eltex.Prelude.{
  ℕ, suc, ◌+◌, ◌<◌, ◌≡◌, Bool, true, false, List, [], ◌∷◌, ◌++◌, ltb, ◌==◌, if◌then◌else◌,
}
use study_eltex.Prelude.Family.{replace}

-- COUNT_OF_THREADS, the size of `treads`.
abbrev pub count_of_threads : ℕ
count_of_threads = 15

-- `client_fd` and `count_of_thr` of main, whether the process runs, and the history: the connections
-- accepted and those that got an answer, each in order.
pub record Shared : Type 0 where
  pub client_fd : ℕ
  pub count_of_thr : ℕ
  pub running : Bool
  pub accepted : List ℕ
  pub answered : List ℕ

pub data Pc : Type 0 where
  unborn : Pc
  starting : Pc  -- before `temp_fd = *temp`
  greeting : (fd : ℕ) → Pc  -- before send
  listening : (fd : ℕ) → Pc  -- before recv
  finished : Pc
  accepting : Pc  -- main, before accept
  creating : Pc  -- main, before pthread_create
  joining : Pc  -- main, behind the loop

abbrev pub stopped : Shared → Shared
stopped m = record m { running = false }

-- A step of `process`.
pub data ProcessMove (m : Shared) : Pc → Shared → Pc → Type 0 where
  read_fd : ProcessMove m starting m (greeting m.client_fd)
  send :
      {fd : ℕ}
      → ProcessMove m (greeting fd) (record m { answered = m.answered ++ fd ∷ [] }) (listening fd)
  send_fails : {fd : ℕ} → ProcessMove m (greeting fd) (stopped m) (greeting fd)
  recv : {fd : ℕ} → ProcessMove m (listening fd) m finished
  recv_fails : {fd : ℕ} → ProcessMove m (listening fd) (stopped m) (listening fd)

-- main at accept.
pub data MainMove (m : Shared) : Pc → Shared → Pc → Type 0 where
  accept :
      (fd : ℕ)
      → MainMove m accepting
          (record m { client_fd = fd; accepted = m.accepted ++ fd ∷ [] })
          creating
  accept_fails : MainMove m accepting (stopped m) accepting

-- A step of a thread that leaves the other threads where they are.
pub data Move (m : Shared) (p : Pc) (m' : Shared) (p' : Pc) : Type 0 where
  by_process : ProcessMove m p m' p' → Move m p m' p'
  by_main : MainMove m p m' p' → Move m p m' p'

pub record System : Type 0 where
  pub mem : Shared
  pub pc : ℕ → Pc

-- Where main goes behind `count_of_thr++`.
abbrev pub next : ℕ → Pc
next count = if ltb 14 count then joining else accepting

-- `pthread_create(&treads[count_of_thr], …)` starts a thread; every other step is a thread's own.
pub data Step (s : System) : System → Type 0 where
  pick :
      (t : ℕ) {m : Shared} {p : Pc}
      → t < 16
      → s.mem.running ≡ true
      → Move s.mem (s.pc t) m p
      → Step s (record { mem = m; pc = replace s.pc t p })
  create :
      s.mem.running ≡ true
      → s.pc 15 ≡ creating
      → Step s (record {
        mem = record (s.mem) { count_of_thr = s.mem.count_of_thr + 1 };
        pc = replace (replace s.pc 15 (next (s.mem.count_of_thr + 1))) s.mem.count_of_thr starting;
      })

pub data Steps (s : System) : System → Type 0 where
  here : Steps s s
  later : {t u : System} → Steps s t → Step t u → Steps s u

-- `main` before its first accept.
abbrev pub start : System
start = record {
  mem = record { client_fd = 0; count_of_thr = 0; running = true; accepted = []; answered = [] };
  pc = λ t. if t == 15 then accepting else unborn;
}
