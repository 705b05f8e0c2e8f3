-- ===== src/Examples/Values.antt =====
-- The ints, arrays and bots of the exercises.
use mathlib.Core.List.{reverse}
use study_eltex.Prelude.{
  ℕ, ◌-◌, ◌*◌, ◌^◌, ◌≤◌, ◌≡◌, ◌⊎◌, refl, true, none, some, List, [], ◌∷◌, set, arith,
}
use study_eltex.Prelude.Family.{replace}
use study_eltex.Prelude.Int.{ℤ, pos, negsuc}
use study_eltex.Calculator.{is_int, devid}
use study_eltex.Calculator.Division.{IsQuotient, devid-IsQuotient}
use study_eltex.Bits.{first_task, memory, masked, stored, task}
use study_eltex.Bits.Bytes.{bytes_replaced}
use study_eltex.Tables.{print_rows, print_back, task3}
use study_eltex.Tables.Loops.{triangle, arrays_printed}
use study_eltex.Bot.{
  System, Step, forking, waiting, finished, create, fork, client_ends, wait, Steps, here, later,
  start, count_of_bots,
}
use study_eltex.Bot.Reaped.{bots_reaped}

-- The int of first_task.c.
bytes_replaced_example :
    ((first_task 0xDDCCBBAA).0 ≡ reverse (memory 0xDDCCBBAA))
    × ((first_task 0xDDCCBBAA).1 ≡ reverse (set (memory 0xDDCCBBAA) 1 0xEE))
    × (masked 0xDDCCBBAA ≡ stored 0xDDCCBBAA 1 0xEE)
    × ((task 0xDDCCBBAA).bits_of_changed ≡ set (task 0xDDCCBBAA).bits_of_source 2 (pos 127))
bytes_replaced_example = bytes_replaced 0xDDCCBBAA (omega arith)

-- The square of task3.c.
abbrev square : List (List ℕ)
square = (1325 ∷ 12 ∷ 13 ∷ []) ∷ (21 ∷ 341 ∷ 3 ∷ []) ∷ (14 ∷ 34 ∷ 34 ∷ []) ∷ []

arrays_printed_example :
    (print_rows 3 3 0 square ≡ some square)
    × (task3 3 square ≡ some (triangle 3 3 0))
    × (print_back 2 (7 ∷ 8 ∷ []) ≡ some (reverse (7 ∷ 8 ∷ [])))
arrays_printed_example = arrays_printed 3 square (7 ∷ 8 ∷ []) refl (refl, (refl, (refl, tt)))

-- -7 through 2.
devid-IsQuotient_example :
    ((devid (negsuc 6) (pos 2) ≡ none)
      × ((pos 2 ≡ pos 0) ⊎ ((negsuc 6 ≡ negsuc (2 ^ 31 - 1)) × (pos 2 ≡ negsuc 0))))
    ⊎ ((q : ℤ) × (devid (negsuc 6) (pos 2) ≡ some q)
        × (is_int q ≡ true)
        × IsQuotient (negsuc 6) (pos 2) q)
unfolding is_int
devid-IsQuotient_example = devid-IsQuotient (negsuc 6) (pos 2) refl refl

-- One bot has done its part.
abbrev one_done : System
one_done = record {
  pc = replace (replace (replace start.pc 0 forking) 0 waiting) 0 finished;
  created = 1;
  joined = 0;
  running = 0;
  ended = 0;
}

one_run : Steps start 4 one_done
one_run =
    later (later (later (later here (create (omega arith))) (fork 0 refl)) (client_ends 0 refl))
      (wait 0 0 refl refl)

bots_reaped_example :
    (4 ≤ 5 * count_of_bots)
    × (((s : System) × Step one_done s)
        ⊎ ((one_done.joined ≡ count_of_bots) × (one_done.running ≡ 0) × (one_done.ended ≡ 0)))
bots_reaped_example = bots_reaped one_run
