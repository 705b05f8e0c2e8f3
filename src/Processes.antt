-- ===== src/Processes.antt =====
-- The exercises with fork: pipes/1tsk, queue/SystemV, queue/Posix, shared_memory/SystemV, shared_memory/Posix,
-- signals/1tsk and file_manager/process. A script is what is left of a program; a process does one step of its script at a time,
-- and any process that can go on may be the next. stdout is a terminal, so a line is out when printf returns, and
-- fork copies no text that is still to be printed.
pub mod Explore
pub mod Scripts
pub mod Lines
pub mod Outputs
pub mod Trees
use study_eltex.Prelude.{
  ℕ, zero, suc, ◌+◌, Bool, true, false, Option, none, some, List, [], ◌∷◌, ◌++◌, ◌&&◌, ◌||◌, ◌==◌,
  not, if◌then◌else◌, Bytes,
}
use mathlib.Core.List.{Memᴰ}

-- What printf prints: its format and its arguments, where the string `none` is a buffer that was never set.
pub data Value : Type 0 where
  number : ℕ → Value
  string : Option Bytes → Value

pub record Line : Type 0 where
  pub format : Bytes
  pub values : List Value

-- The calls of the exercises. `copy` is the loop around read(pipefd[0], &c, 1); `print` may ask for getpid and
-- getppid; `receive` is msgrcv with IPC_NOWAIT, where type 0 stands for any, and `mq_receive` waits; `copy_in` is
-- strcpy to the shared memory and `copy_out` reads it; `kill` sends SIGINT, whose default ends a process, and
-- `sleep` is `while (1) sleep(1);`.
pub data Script : Type 0 where
  exit : (status : ℕ) → Script
  close_read close_write copy clear : Script → Script
  write : Bytes → Script → Script
  print : (ℕ → ℕ → Line) → Script → Script
  fork : (child rest : Script) → Script
  wait : ((status : ℕ) → Script) → Script
  send : (mtype : ℕ) → Bytes → Script → Script
  receive : (mtype : ℕ) → (Option Bytes → Script) → Script
  mq_receive : (Bytes → Script) → Script
  copy_in : Bytes → Script → Script
  copy_out : (Option Bytes → Script) → Script
  kill : ((pid ppid : ℕ) → ℕ) → Script → Script
  sleep : Script

-- A process, with the number of the one that made it, which ends of the pipe it has not closed, and whether its
-- end has been waited for.
pub record Process : Type 0 where
  pub parent : ℕ
  pub reads : Bool
  pub writes : Bool
  pub waited : Bool
  pub todo : Script

-- The processes in the order in which they were made, from number 1 on, with what they share and have printed.
pub record System : Type 0 where
  pub processes : List Process
  pub pipe : Bytes
  pub queue : List (ℕ × Bytes)
  pub shared : Option Bytes
  pub printed : List Line

abbrev pub is_exit : Script → Bool
is_exit (exit status) = true
is_exit _ = false

abbrev pub has_ended : Process → Bool
has_ended p = is_exit p.todo

-- An end of the pipe is open while a process has it that has not ended.
unfoldable pub any_reads : List Process → Bool
any_reads [] = false
any_reads (p ∷ ps) = (not (has_ended p) && p.reads) || any_reads ps

unfoldable pub any_writes : List Process → Bool
any_writes [] = false
any_writes (p ∷ ps) = (not (has_ended p) && p.writes) || any_writes ps

unfoldable pub put : (id : ℕ) → Process → List Process → List Process
put id p [] = []
put zero p (q ∷ ps) = q ∷ ps
put (suc zero) p (q ∷ ps) = p ∷ ps
put (suc (suc n)) p (q ∷ ps) = q ∷ put (suc n) p ps

abbrev pub goes : (id : ℕ) → Process → System → System
goes id p s = record s { processes = put id p s.processes }

abbrev pub says : Line → System → System
says l s = record s { printed = s.printed ++ (l ∷ []) }

-- A child that has not been waited for, by its parent's number.
unfoldable pub has_child : (id : ℕ) → List Process → Bool
has_child id [] = false
has_child id (p ∷ ps) = ((p.parent == id) && not p.waited) || has_child id ps

unfoldable pub is_running : (id : ℕ) → List Process → Bool
is_running id [] = false
is_running zero (p ∷ ps) = false
is_running (suc zero) (p ∷ ps) = not (has_ended p)
is_running (suc (suc n)) (p ∷ ps) = is_running (suc n) ps

-- SIGINT for a process, which ends it where it has not ended; WEXITSTATUS reads its status as 0.
unfoldable pub interrupt : (id : ℕ) → List Process → List Process
interrupt id [] = []
interrupt zero (p ∷ ps) = p ∷ ps
interrupt (suc zero) (p ∷ ps) = (if has_ended p then p else record p { todo = exit 0 }) ∷ ps
interrupt (suc (suc n)) (p ∷ ps) = p ∷ interrupt (suc n) ps

-- A process whose parent has ended is given to process 0.
abbrev pub getppid : Process → List Process → ℕ
getppid p ps = if is_running p.parent ps then p.parent else 0

-- The message that is taken, and the queue without it.
unfoldable pub taken : (mtype : ℕ) → List (ℕ × Bytes) → Option (Bytes × List (ℕ × Bytes))
taken mtype [] = none
taken mtype (m ∷ queue) =
    let rest = taken mtype queue in
    if (mtype == 0) || (m.0 == mtype)
    then some (m.1, queue)
    else elim rest [ none ↦ none | some r ↦ some (r.0, m ∷ r.1) ]

-- wait takes any child that has ended; the candidates are `ps`, from number `i` on.
unfoldable pub waited_for :
    (id : ℕ) → Process → (ℕ → Script) → System → (i : ℕ) → List Process → List System
waited_for id p k s i [] = []
waited_for id p k s i (q ∷ ps) =
    let others = waited_for id p k s (suc i) ps in
    elim q.todo [
      | exit status ↦
          if (q.parent == id) && not q.waited
          then goes i (record q { waited = true }) (goes id (record p { todo = k status }) s)
            ∷ others
          else others
      | _ ↦ others
    ]

-- A line that printf can print; to print a buffer that was never set is undefined.
unfoldable pub are_set : List Value → Bool
are_set [] = true
are_set (number n ∷ values) = are_set values
are_set (string none ∷ values) = false
are_set (string (some s) ∷ values) = are_set values

-- The systems that one step of process number `id` leads to: none while it waits, and none from a step
-- that is undefined.
unfoldable pub step : (id : ℕ) → Process → System → List System
step id p s = elim p.todo [
  | exit status ↦ []
  | close_read next ↦ goes id (record p { reads = false; todo = next }) s ∷ []
  | close_write next ↦ goes id (record p { writes = false; todo = next }) s ∷ []
  | copy next ↦ elim s.pipe [
    | [] ↦ if any_writes s.processes then [] else goes id (record p { todo = next }) s ∷ []
    | c ∷ pipe ↦ says (record { format = c ∷ []; values = [] }) (record s { pipe = pipe }) ∷ []
  ]
  | clear next ↦ goes id (record p { todo = next }) (record s { queue = [] }) ∷ []
  | write text next ↦
      if any_reads s.processes
      then goes id (record p { todo = next }) (record s { pipe = s.pipe ++ text }) ∷ []
      else goes id (record p { todo = exit 0 }) s ∷ []
  | print line next ↦
      let l = line id (getppid p s.processes) in
      if are_set l.values then goes id (record p { todo = next }) (says l s) ∷ [] else []
  | fork child rest ↦
      record s {
        processes =
            put id (record p { todo = rest }) s.processes
            ++ (record p { parent = id; waited = false; todo = child } ∷ []);
      }
      ∷ []
  | wait k ↦
      if has_child id s.processes
      then waited_for id p k s 1 s.processes
      else goes id (record p { todo = k 0 }) s ∷ []
  | send mtype text next ↦
      goes id (record p { todo = next }) (record s { queue = s.queue ++ ((mtype, text) ∷ []) }) ∷ []
  | receive mtype k ↦ elim (taken mtype s.queue) [
    | none ↦ goes id (record p { todo = k none }) s ∷ []
    | some r ↦ goes id (record p { todo = k (some r.0) }) (record s { queue = r.1 }) ∷ []
  ]
  | mq_receive k ↦ elim s.queue [
    | [] ↦ []
    | m ∷ queue ↦ goes id (record p { todo = k m.1 }) (record s { queue = queue }) ∷ []
  ]
  | copy_in text next ↦ goes id (record p { todo = next }) (record s { shared = some text }) ∷ []
  | copy_out k ↦ goes id (record p { todo = k s.shared }) s ∷ []
  | kill target next ↦
      let target_id = target id (getppid p s.processes) in
      record s { processes = interrupt target_id (put id (record p { todo = next }) s.processes) }
      ∷ []
  | sleep ↦ []
]

unfoldable pub each_step : System → (id : ℕ) → List Process → List System
each_step s id [] = []
each_step s id (p ∷ ps) = step id p s ++ each_step s (suc id) ps

abbrev pub successors : System → List System
successors s = each_step s 1 s.processes

-- A program as the first process, with one pipe and an empty queue.
abbrev pub start : Script → System
start script = record {
  processes =
      record { parent = 0; reads = true; writes = true; waited = false; todo = script } ∷ [];
  pipe = [];
  queue = [];
  shared = none;
  printed = [];
}

-- Runs of `n` steps.
pub data Steps : System → (n : ℕ) → System → Type 0 where
  done : {s : System} → Steps s 0 s
  first : {s t u : System} {n : ℕ} → Memᴰ t (successors s) → Steps t n u → Steps s (suc n) u
