-- ===== src/Processes/Trees.antt =====
-- file_manager/process: 1tsk.c, which prints the status of its child, and 2tsk.c, which makes five processes.
use study_eltex.Prelude.{
  ℕ, ◌≤◌, ◌≡◌, ◌≢◌, ◌⊎◌, inl, inr, refl, Bool, true, false, List, [], ◌∷◌, ◌&&◌, ◌||◌,
  if◌then◌else◌, Bytes, codes, str_eq, arith,
}
use study_eltex.Processes.{
  number, Line, are_set, Script, System, exit, print, fork, wait, successors, start, Steps, put,
  has_child, waited_for, is_running, step, each_step,
}
use study_eltex.Processes.Explore.{all_end, verdict, all_end-Steps}
use study_eltex.Processes.Lines.{
  List-cases, same_lines, same_values, same_value, same_lines→eq, over, all_waited,
}

abbrev pub one_number : Bytes → ℕ → Line
one_number format n = record { format = format; values = number n ∷ [] }

abbrev child_pid : Bytes
child_pid = codes "Child pid = %d\n"

abbrev pid_ppid : Bytes
pid_ppid = codes "pid=%d ppid=%d\n"

abbrev ids : ℕ → ℕ → Line
ids pid ppid = record { format = pid_ppid; values = number pid ∷ number ppid ∷ [] }

-- 1tsk.c
abbrev pub one_child : Script
one_child = fork (print (λ pid ppid. one_number child_pid pid) (exit 5)) (
    print (λ pid ppid. one_number (codes "Parent pid = %d\n") pid)
      (wait (λ status. print (λ pid ppid. one_number (codes "Status = %d\n") status) (exit 0))))

-- 2tsk.c: a child with no children of its own, the first child of the source with its two, and the second with
-- its one.
abbrev pub leaf : Script
leaf = print ids (exit 5)

abbrev pub child1 : Script
child1 = print ids (fork leaf (wait (λ status2. fork leaf (wait (λ status3. exit 5)))))

abbrev pub child4 : Script
child4 = print ids (fork leaf (wait (λ status5. exit 5)))

abbrev pub five_children : Script
five_children = fork child1 (
    print (λ pid ppid. one_number (codes "source Pid=%d\n") pid)
      (wait (λ status1. fork child4 (wait (λ status4. exit 0)))))

-- What the children have printed, and what the first process has.
unfoldable pub printed_by : (child : Bool) → List Line → List Line
printed_by child [] = []
printed_by child (l ∷ lines) =
    let rest = printed_by child lines in
    let of_child = str_eq l.format child_pid || str_eq l.format pid_ppid in
    if of_child then (if child then l ∷ rest else rest) else (if child then rest else l ∷ rest)

pub data Tree : Type 0 where
  one five : Tree

abbrev pub script : Tree → Script
script one = one_child
script five = five_children

abbrev pub lines_of_children : Tree → List Line
lines_of_children one = one_number child_pid 2 ∷ []
lines_of_children five = ids 2 1 ∷ ids 3 2 ∷ ids 4 2 ∷ ids 5 1 ∷ ids 6 5 ∷ []

abbrev pub lines_of_first : Tree → List Line
lines_of_first one =
    one_number (codes "Parent pid = %d\n") 1 ∷ one_number (codes "Status = %d\n") 5 ∷ []
lines_of_first five = one_number (codes "source Pid=%d\n") 1 ∷ []

abbrev pub bound : Tree → ℕ
bound one = 5
bound five = 16

settled : Tree → System → Bool
settled e s =
    (same_lines (printed_by true s.printed) (lines_of_children e)
      && same_lines (printed_by false s.printed) (lines_of_first e))
    && over s.processes

tree-settled : (e : Tree) → all_end (settled e) (bound e) (start (script e)) ≡ true
unfolding all_end verdict settled printed_by same_lines same_values same_value over all_waited put
    has_child waited_for is_running step are_set each_step str_eq
tree-settled one = refl
tree-settled five = refl

-- Where stdout is a terminal, whichever process goes on first, both programs come to an end, and when none can go
-- on every process has ended and every child has been waited for. In 1tsk.c the child has printed its
-- own number, and the parent its own and then the child's status, 5. In 2tsk.c each child has printed
-- its number and that of the process that made it, in the order in which they were made, and the first
-- process its own.
pub tree_ends :
    (e : Tree) (k : ℕ) (s : System)
    → Steps (start (script e)) k s
    → (k ≤ bound e)
      × ((successors s ≢ [])
          ⊎ ((printed_by true s.printed ≡ lines_of_children e)
              × (printed_by false s.printed ≡ lines_of_first e)
              × (over s.processes ≡ true)))
unfolding settled
tree_ends e k s steps =
    let r = all_end-Steps (settled e) (bound e) (start (script e)) k s (tree-settled e) steps in
    (
      r.0,
      elim (List-cases (successors s)) [
        | inl more ↦ inl more
        | inr none ↦
            let b : (same_lines (printed_by true s.printed) (lines_of_children e)
                    && same_lines (printed_by false s.printed) (lines_of_first e))
                  && over s.processes
                ≡ true =
              r.1 none in
            inr (
              same_lines→eq (printed_by true s.printed) (lines_of_children e) (ground arith),
              same_lines→eq (printed_by false s.printed) (lines_of_first e) (ground arith),
              ground arith,
            )
      ],
    )
