-- ===== src/TwoPools.antt =====
-- sokets2/4scheme/server.c: main waits for TCP connections and UDP datagrams and hands them to two pools of
-- fifteen workers. The TCP queue carries descriptors; the UDP queue carries the address of main's one
-- `udp_cln`, which main and the UDP workers write. Threads 0 to 14 are `process`, 15 to 29 `process2`, 30 is
-- main; `arr2`, which main overruns, is taken to be long enough in the step relation.
pub mod Replies
pub mod Arrays
use study_eltex.Prelude.{
  ℕ, zero, suc, ◌+◌, ◌-◌, ◌<◌, ◌≤◌, ◌≡◌, Bool, true, false, Option, none, some, List, [], ◌∷◌, ◌++◌,
  length, set, ltb, ◌==◌, if◌then◌else◌,
}
use study_eltex.Prelude.Family.{replace}

-- COUNT_OF_THREADS
abbrev pub count_of_threads : ℕ
count_of_threads = 15

-- The two queues, `udp_cln`, the mutexes, whether the process runs, and the history: the descriptors
-- served, the senders of datagrams, and the addresses that replies went to.
pub record Shared : Type 0 where
  pub tcp_queue : List ℕ
  pub udp_queue : ℕ
  pub udp_cln : ℕ
  pub owner : ℕ → Option ℕ
  pub running : Bool
  pub served : List ℕ
  pub heard : List ℕ
  pub replied : List ℕ

pub data Pc : Type 0 where
  looping : Pc  -- process, before pthread_mutex_trylock
  receiving : Pc  -- before msgrcv
  greeting : (fd : ℕ) → Pc  -- before send
  listening : (fd : ℕ) → Pc  -- before recv
  unlocking : (fd : ℕ) → Pc  -- before pthread_mutex_unlock
  looping2 : Pc  -- process2, before pthread_mutex_trylock
  receiving2 : Pc  -- before msgrcv
  greeting2 : Pc  -- before sendto
  listening2 : Pc  -- before recvfrom
  unlocking2 : Pc  -- before pthread_mutex_unlock
  waiting : Pc  -- main, before epoll_wait
  sending : (fd : ℕ) → Pc  -- main, before msgsnd to the TCP queue
  sending2 : Pc  -- main, before msgsnd to the UDP queue

abbrev pub stopped : Shared → Shared
stopped m = record m { running = false }

-- One step of worker `t` in `process`.
pub data ProcessMove (m : Shared) (t : ℕ) : Pc → Shared → Pc → Type 0 where
  trylock :
      m.owner t ≡ none
      → ProcessMove m t looping (record m { owner = replace m.owner t (some t) }) receiving
  busy : {u : ℕ} → m.owner t ≡ some u → ProcessMove m t looping m looping
  msgrcv :
      {fd : ℕ} {rest : List ℕ}
      → m.tcp_queue ≡ fd ∷ rest
      → ProcessMove m t receiving (record m { tcp_queue = rest }) (greeting fd)
  msgrcv_fails : ProcessMove m t receiving (stopped m) receiving
  send : {fd : ℕ} → ProcessMove m t (greeting fd) m (listening fd)
  send_fails : {fd : ℕ} → ProcessMove m t (greeting fd) (stopped m) (greeting fd)
  recv : {fd : ℕ} → ProcessMove m t (listening fd) m (unlocking fd)
  recv_fails : {fd : ℕ} → ProcessMove m t (listening fd) (stopped m) (listening fd)
  unlock :
      {fd : ℕ}
      → ProcessMove m t
          (unlocking fd)
          (record m { owner = replace m.owner t none; served = m.served ++ fd ∷ [] })
          looping

-- One step of worker `t` in `process2`.
pub data Process2Move (m : Shared) (t : ℕ) : Pc → Shared → Pc → Type 0 where
  trylock2 :
      m.owner t ≡ none
      → Process2Move m t looping2 (record m { owner = replace m.owner t (some t) }) receiving2
  busy2 : {u : ℕ} → m.owner t ≡ some u → Process2Move m t looping2 m looping2
  msgrcv2 :
      {n : ℕ}
      → m.udp_queue ≡ suc n
      → Process2Move m t receiving2 (record m { udp_queue = n }) greeting2
  msgrcv2_fails : Process2Move m t receiving2 (stopped m) receiving2
  -- The address is what `udp_cln` holds now.
  sendto :
      Process2Move m t greeting2 (record m { replied = m.replied ++ m.udp_cln ∷ [] }) listening2
  sendto_fails : Process2Move m t greeting2 (stopped m) greeting2
  -- Whoever sends the next datagram; its address is written to `udp_cln`.
  recvfrom :
      (sender : ℕ)
      → Process2Move m t listening2
          (record m { udp_cln = sender; heard = m.heard ++ sender ∷ [] })
          unlocking2
  recvfrom_fails : Process2Move m t listening2 (stopped m) listening2
  unlock2 : Process2Move m t unlocking2 (record m { owner = replace m.owner t none }) looping2

-- One step of main in its loop.
pub data MainMove (m : Shared) : Pc → Shared → Pc → Type 0 where
  epoll_fails : MainMove m waiting (stopped m) waiting
  accept : (fd : ℕ) → MainMove m waiting m (sending fd)
  accept_fails : MainMove m waiting (stopped m) waiting
  msgsnd :
      {fd : ℕ} → MainMove m (sending fd) (record m { tcp_queue = m.tcp_queue ++ fd ∷ [] }) waiting
  msgsnd_fails : {fd : ℕ} → MainMove m (sending fd) (stopped m) (sending fd)
  datagram :
      (sender : ℕ)
      → MainMove m waiting (record m { udp_cln = sender; heard = m.heard ++ sender ∷ [] }) sending2
  -- main does not test what recvfrom returns.
  datagram_fails : MainMove m waiting m sending2
  msgsnd2 : MainMove m sending2 (record m { udp_queue = m.udp_queue + 1 }) waiting
  msgsnd2_fails : MainMove m sending2 (stopped m) sending2

-- One step of thread `t`.
pub data Move (m : Shared) (t : ℕ) (p : Pc) (m' : Shared) (p' : Pc) : Type 0 where
  by_process : ProcessMove m t p m' p' → Move m t p m' p'
  by_process2 : Process2Move m t p m' p' → Move m t p m' p'
  by_main : MainMove m p m' p' → Move m t p m' p'

pub record System : Type 0 where
  pub mem : Shared
  pub pc : ℕ → Pc

pub data Step (s : System) : System → Type 0 where
  pick :
      (t : ℕ) {m : Shared} {p : Pc}
      → t < 31
      → s.mem.running ≡ true
      → Move s.mem t (s.pc t) m p
      → Step s (record { mem = m; pc = replace s.pc t p })

pub data Steps (s : System) : System → Type 0 where
  here : Steps s s
  later : {t u : System} → Steps s t → Step t u → Steps s u

-- `main` at its first epoll_wait.
abbrev pub start : System
start = record {
  mem = record {
    tcp_queue = [];
    udp_queue = 0;
    udp_cln = 0;
    owner = λ _. none;
    running = true;
    served = [];
    heard = [];
    replied = [];
  };
  pc = λ t. if ltb t 15 then looping else if ltb t 30 then looping2 else waiting;
}

-- `arr[i] = i` for `rounds` values of i; `none` writes past the array.
pub fill : (rounds i : ℕ) → List ℕ → Option (List ℕ)
fill zero i arr = some arr
fill (suc rounds) i arr =
    let rest = fill rounds (suc i) (set arr i i) in if ltb i (length arr) then rest else none

-- The loops of main over `arr` and `arr2`, which have COUNT_OF_THREADS cells each.
pub fill_arr : List ℕ → Option (List ℕ)
unfolding fill
fill_arr arr = fill count_of_threads 0 arr

pub fill_arr2 : List ℕ → Option (List ℕ)
unfolding fill
fill_arr2 arr2 = fill count_of_threads count_of_threads arr2
