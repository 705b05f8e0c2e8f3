-- ===== src/Processes/Outputs.antt =====
-- What the exercises print, whichever process goes on first.
use study_eltex.Prelude.{
  ℕ, ◌≤◌, ◌≡◌, ◌≢◌, ◌⊎◌, inl, inr, refl, Bool, true, false, Option, some, List, [], ◌∷◌, ◌++◌, ◌&&◌,
  Bytes, codes, ◌==◌, str_eq, arith,
}
use study_eltex.Processes.{
  string, Line, has_ended, are_set, mq_receive, Script, Process, System, interrupt, successors,
  start, Steps, put, any_reads, any_writes, has_child, waited_for, is_running, step, each_step,
  taken,
}
use study_eltex.Processes.Explore.{all_end, verdict, all_end-Steps}
use study_eltex.Processes.Lines.{
  List-cases, same_lines, same_values, same_value, same_lines→eq, over, all_waited, all_ended,
}
use study_eltex.Processes.Scripts
use study_eltex.Processes.Scripts.{queue_server, mq_server, shm_server, mmap_server}

abbrev pub said : Bytes → Line
said format = record { format = format; values = [] }

abbrev chars : Bytes → List Line
chars [] = []
chars (c ∷ s) = said (c ∷ []) ∷ chars s

-- The exercises, and for those with a client that end well also where execl does not find it, whether it does.
pub data Exercise : Type 0 where
  relay relay_back : Exercise
  shm mmap : (found : Bool) → Exercise
  queue mq : Exercise
  interrupted : Exercise

abbrev pub script : Exercise → Script
script relay = Scripts.relay
script relay_back = Scripts.relay_back
script queue = queue_server true
script (shm found) = shm_server found
script (mmap found) = mmap_server found
script mq = mq_server true
script interrupted = Scripts.interrupted

abbrev sent : Option Bytes → Line
sent s = record { format = codes "sent message: %s\n"; values = string s ∷ [] }

abbrev received : Option Bytes → Line
received s = record { format = codes "received message: %s\n"; values = string s ∷ [] }

abbrev pub recieved : Bytes → Line
recieved s = record { format = codes "recieve message: %s\n"; values = string (some s) ∷ [] }

abbrev shown : Bytes → Line
shown s = record { format = codes "%s\n"; values = string (some s) ∷ [] }

-- What they should print.
abbrev pub lines : Exercise → List Line
lines relay =
    said (codes "Hello\n") ∷ chars (codes "Hello")
    ++ (said (codes ", ^-^\n") ∷ said (codes "8\n") ∷ [])
lines relay_back = said (codes "Hello\n") ∷ chars (codes "Hello") ++ (said (codes ", bye\n") ∷ [])
lines queue =
    sent (some (codes "Hello, I'm Lilo ^-^")) ∷ received (some (codes "Hi, I'm Maksi %)")) ∷ []
lines (shm true) = shown (codes "Hello") ∷ shown (codes "Hi! Have a good day)") ∷ []
lines (shm false) = shown (codes "Hello") ∷ shown (codes "Hello") ∷ []
lines (mmap true) = shown (codes "Today is 19th of July") ∷ shown (codes "OMG, awesome!") ∷ []
lines (mmap false) =
    shown (codes "Today is 19th of July") ∷ shown (codes "Today is 19th of July") ∷ []
lines interrupted =
    said (codes "Program 1 started.\n")
    ∷ said (codes "Program 2 started.\n")
    ∷ said (codes "Program 2 sends signal to program 1.\n")
    ∷ said (codes "Program 2 finished.\n")
    ∷ []
lines mq = sent (some (codes "Heeeey, how are U??")) ∷ recieved (codes "I'm OK!") ∷ []

abbrev pub bound : Exercise → ℕ
bound relay = 16
bound relay_back = 15
bound queue = 9
bound (shm true) = 8
bound (shm false) = 7
bound (mmap true) = 8
bound (mmap false) = 7
bound mq = 8
bound interrupted = 6

-- How it should leave the processes: the parent that SIGINT ends has not waited for its child.
abbrev pub are_left : Exercise → List Process → Bool
are_left interrupted ps = all_ended ps
are_left _ ps = over ps

settled : Exercise → System → Bool
settled e s = same_lines s.printed (lines e) && are_left e s.processes

exercise-settled : (e : Exercise) → all_end (settled e) (bound e) (start (script e)) ≡ true
unfolding all_end verdict settled same_lines same_values same_value over all_waited all_ended
    interrupt put any_reads any_writes has_child waited_for is_running step are_set each_step taken
    str_eq
exercise-settled relay = refl
exercise-settled relay_back = refl
exercise-settled queue = refl
exercise-settled (shm true) = refl
exercise-settled (shm false) = refl
exercise-settled (mmap true) = refl
exercise-settled (mmap false) = refl
exercise-settled mq = refl
exercise-settled interrupted = refl

judged :
    (e : Exercise) (s : System)
    → (successors s ≡ [] → settled e s ≡ true)
    → (successors s ≢ []) ⊎ ((s.printed ≡ lines e) × (are_left e s.processes ≡ true))
unfolding settled
judged e s h = elim (List-cases (successors s)) [
  | inl more ↦ inl more
  | inr stuck ↦
      let b : same_lines s.printed (lines e) && are_left e s.processes ≡ true = h stuck in
      inr (same_lines→eq s.printed (lines e) (ground arith), ground arith)
]

-- Where stdout is a terminal, whichever process goes on first, the exercises come to an end, and when none can go on every process has ended,
-- what was printed is what should be, and every child has been waited for, but in signals/1tsk.
pub exercise_ends :
    (e : Exercise) (k : ℕ) (s : System)
    → Steps (start (script e)) k s
    → (k ≤ bound e)
      × ((successors s ≢ []) ⊎ ((s.printed ≡ lines e) × (are_left e s.processes ≡ true)))
exercise_ends e k s steps =
    let r = all_end-Steps (settled e) (bound e) (start (script e)) k s (exercise-settled e) steps in
    (r.0, judged e s r.1)

-- Where execl does not find the client of queue/Posix, the child takes the server's own message, and the server
-- waits for ever for another.
abbrev lines_without_client : List Line
lines_without_client = recieved (codes "Heeeey, how are U??") ∷ []

is_receiving : Script → Bool
is_receiving (mq_receive k) = true
is_receiving _ = false

-- The server stands before mq_receive; its only child has ended and been waited for.
unfoldable pub server_waits : List Process → Bool
unfolding is_receiving
server_waits (server ∷ child ∷ []) =
    is_receiving server.todo && (has_ended child && (child.parent == 1 && child.waited))
server_waits _ = false

is_empty : List (ℕ × Bytes) → Bool
is_empty [] = true
is_empty _ = false

is_empty→eq : (l : List (ℕ × Bytes)) → is_empty l ≡ true → l ≡ []
unfolding is_empty
is_empty→eq [] h = refl
is_empty→eq (m ∷ l) h = absurd cc

hangs : System → Bool
unfolding is_empty
hangs s =
    same_lines s.printed lines_without_client && (is_empty s.queue && server_waits s.processes)

server-hangs : all_end hangs 5 (start (mq_server false)) ≡ true
unfolding all_end verdict hangs is_empty server_waits is_receiving same_lines same_values same_value
    put any_reads any_writes has_child waited_for is_running step are_set each_step taken str_eq
server-hangs = refl

-- Where execl does not find the client of queue/Posix, whichever process goes on first, the programs come to
-- a stand after at most five steps: the child has printed the server's own message, ended and been
-- waited for, the queue is empty, and the server stands in mq_receive, where nothing will come.
pub mq_server_hangs :
    (k : ℕ) (s : System)
    → Steps (start (mq_server false)) k s
    → (k ≤ 5)
      × ((successors s ≢ [])
          ⊎ ((s.printed ≡ recieved (codes "Heeeey, how are U??") ∷ [])
              × (s.queue ≡ [])
              × (server_waits s.processes ≡ true)))
unfolding hangs
mq_server_hangs k s steps =
    let r = all_end-Steps hangs 5 (start (mq_server false)) k s server-hangs steps in
    (
      r.0,
      elim (List-cases (successors s)) [
        | inl more ↦ inl more
        | inr e ↦
            let b : same_lines s.printed (recieved (codes "Heeeey, how are U??") ∷ [])
                  && (is_empty s.queue && server_waits s.processes)
                ≡ true =
              r.1 e in
            inr (
              same_lines→eq s.printed _ (ground arith),
              is_empty→eq s.queue (ground arith),
              ground arith,
            )
      ],
    )
