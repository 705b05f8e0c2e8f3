-- ===== src/Examples/Families.antt =====
-- Runs of programs with fork, in which the process with the lowest number goes on first.
use study_eltex.Prelude.{ℕ, zero, suc, ◌≤◌, ◌≡◌, ◌≢◌, ◌⊎◌, refl, true, false, [], ◌∷◌, codes}
use study_eltex.Processes.{
  System, Steps, done, first, start, successors, put, any_reads, any_writes, has_child, waited_for,
  is_running, step, are_set, each_step, taken,
}
use study_eltex.Processes.Lines.{over}
use study_eltex.Processes.Scripts.{mq_server}
use study_eltex.Processes.Outputs.{
  queue, server_waits, script, lines, bound, are_left, recieved, exercise_ends, mq_server_hangs,
}
use study_eltex.Processes.Trees.{
  one, script as tree, bound as tree_bound, printed_by, lines_of_children, lines_of_first,
  tree_ends,
}
use mathlib.Core.List.{Memᴰ}

abbrev follow : ℕ → System → System
follow zero s = s
follow (suc n) s = elim (successors s) [ [] ↦ s | t ∷ ts ↦ follow n t ]

queue_run : Steps (start (script queue)) 9 (follow 9 (start (script queue)))
unfolding put has_child waited_for is_running step are_set each_step taken any_reads any_writes
queue_run = first (Memᴰ.head refl) (
    first (Memᴰ.head refl) (
      first (Memᴰ.head refl) (
        first (Memᴰ.head refl) (
          first (Memᴰ.head refl) (
            first (Memᴰ.head refl)
              (first (Memᴰ.head refl) (first (Memᴰ.head refl) (first (Memᴰ.head refl) done))))))))

exercise_ends_example :
    let s = follow 9 (start (script queue)) in
    (9 ≤ bound queue)
    × ((successors s ≢ []) ⊎ ((s.printed ≡ lines queue) × (are_left queue s.processes ≡ true)))
exercise_ends_example = exercise_ends queue 9 (follow 9 (start (script queue))) queue_run

mq_run : Steps (start (mq_server false)) 5 (follow 5 (start (mq_server false)))
unfolding put has_child waited_for is_running step are_set each_step taken any_reads any_writes
mq_run = first (Memᴰ.head refl) (
    first (Memᴰ.head refl)
      (first (Memᴰ.head refl) (first (Memᴰ.head refl) (first (Memᴰ.head refl) done))))

mq_server_hangs_example :
    let s = follow 5 (start (mq_server false)) in
    (5 ≤ 5)
    × ((successors s ≢ [])
        ⊎ ((s.printed ≡ recieved (codes "Heeeey, how are U??") ∷ [])
            × (s.queue ≡ [])
            × (server_waits s.processes ≡ true)))
mq_server_hangs_example = mq_server_hangs 5 (follow 5 (start (mq_server false))) mq_run

tree_run : Steps (start (tree one)) 5 (follow 5 (start (tree one)))
unfolding put has_child waited_for is_running step are_set each_step taken any_reads any_writes
tree_run = first (Memᴰ.head refl) (
    first (Memᴰ.head refl)
      (first (Memᴰ.head refl) (first (Memᴰ.head refl) (first (Memᴰ.head refl) done))))

tree_ends_example :
    let s = follow 5 (start (tree one)) in
    (5 ≤ tree_bound one)
    × ((successors s ≢ [])
        ⊎ ((printed_by true s.printed ≡ lines_of_children one)
            × (printed_by false s.printed ≡ lines_of_first one)
            × (over s.processes ≡ true)))
tree_ends_example = tree_ends one 5 (follow 5 (start (tree one))) tree_run
