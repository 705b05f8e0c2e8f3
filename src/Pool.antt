-- ===== src/Pool.antt =====
-- sokets2/3scheme/server.c: fifteen workers that take connections from a message queue, and the main thread
-- that accepts them. Threads interleave in any order; threads 0 to 14 are the workers, each with a mutex of
-- its own, and thread 15 is main. What the sockets and the queue answer is any answer they can give.
pub mod Order
pub mod Progress
use study_eltex.Prelude.{
  ℕ, suc, ◌+◌, ◌<◌, ◌≡◌, Bool, true, false, Option, none, some, List, [], ◌∷◌, ◌++◌, ltb, ◌==◌,
  if◌then◌else◌,
}
use study_eltex.Prelude.Family.{replace}

-- COUNT_OF_THREADS, and the number of threads with main.
abbrev pub count_of_threads : ℕ
count_of_threads = 15

abbrev pub threads : ℕ
threads = 16

-- The message queue, the mutexes (free, or held by a thread), whether the process still runs, and the
-- history: the connections accepted, those taken from the queue, and those served, each in order.
pub record Shared : Type 0 where
  pub queue : List ℕ
  pub owner : ℕ → Option ℕ
  pub running : Bool
  pub accepted : List ℕ
  pub taken : List ℕ
  pub served : List ℕ

-- Where a thread stands, with the descriptor it holds.
pub data Pc : Type 0 where
  looping : Pc  -- before pthread_mutex_trylock
  receiving : Pc  -- before msgrcv
  greeting : (fd : ℕ) → Pc  -- before send
  listening : (fd : ℕ) → Pc  -- before recv
  unlocking : (fd : ℕ) → Pc  -- before pthread_mutex_unlock
  accepting : Pc  -- main, before accept
  sending : (fd : ℕ) → Pc  -- main, before msgsnd

-- exit(1) of a worker, and `return 1` of main.
abbrev pub stopped : Shared → Shared
stopped m = record m { running = false }

-- One step of worker `t`, in `process`.
pub data WorkerMove (m : Shared) (t : ℕ) : Pc → Shared → Pc → Type 0 where
  trylock :
      m.owner t ≡ none
      → WorkerMove m t looping (record m { owner = replace m.owner t (some t) }) receiving
  busy : {u : ℕ} → m.owner t ≡ some u → WorkerMove m t looping m looping
  msgrcv :
      {fd : ℕ} {rest : List ℕ}
      → m.queue ≡ fd ∷ rest
      → WorkerMove m t receiving
          (record m { queue = rest; taken = m.taken ++ fd ∷ [] })
          (greeting fd)
  msgrcv_fails : WorkerMove m t receiving (stopped m) receiving
  send : {fd : ℕ} → WorkerMove m t (greeting fd) m (listening fd)
  send_fails : {fd : ℕ} → WorkerMove m t (greeting fd) (stopped m) (greeting fd)
  recv : {fd : ℕ} → WorkerMove m t (listening fd) m (unlocking fd)
  recv_fails : {fd : ℕ} → WorkerMove m t (listening fd) (stopped m) (listening fd)
  unlock :
      {fd : ℕ}
      → WorkerMove m t
          (unlocking fd)
          (record m { owner = replace m.owner t none; served = m.served ++ fd ∷ [] })
          looping

-- One step of main in its loop.
pub data MainMove (m : Shared) : Pc → Shared → Pc → Type 0 where
  accept :
      (fd : ℕ) → MainMove m accepting (record m { accepted = m.accepted ++ fd ∷ [] }) (sending fd)
  accept_fails : MainMove m accepting (stopped m) accepting
  msgsnd : {fd : ℕ} → MainMove m (sending fd) (record m { queue = m.queue ++ fd ∷ [] }) accepting
  msgsnd_fails : {fd : ℕ} → MainMove m (sending fd) (stopped m) (sending fd)

-- One step of thread `t`.
pub data Move (m : Shared) (t : ℕ) (p : Pc) (m' : Shared) (p' : Pc) : Type 0 where
  by_worker : WorkerMove m t p m' p' → Move m t p m' p'
  by_main : MainMove m p m' p' → Move m t p m' p'

pub record System : Type 0 where
  pub mem : Shared
  pub pc : ℕ → Pc

pub data Step (s : System) : System → Type 0 where
  pick :
      (t : ℕ) {m : Shared} {p : Pc}
      → t < threads
      → s.mem.running ≡ true
      → Move s.mem t (s.pc t) m p
      → Step s (record { mem = m; pc = replace s.pc t p })

-- What the threads can make of `s`.
pub data Steps (s : System) : System → Type 0 where
  here : Steps s s
  later : {t u : System} → Steps s t → Step t u → Steps s u

-- `main` once it has created its threads.
abbrev pub start : System
start = record {
  mem = record {
    queue = [];
    owner = λ _. none;
    running = true;
    accepted = [];
    taken = [];
    served = [];
  };
  pc = λ t. if ltb t count_of_threads then looping else accepting;
}
