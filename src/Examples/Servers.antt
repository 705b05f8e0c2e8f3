-- ===== src/Examples/Servers.antt =====
-- Runs of the servers with threads and of two processes with fifos.
use study_eltex.Prelude.{ℕ, ◌+◌, ◌<◌, ◌≤◌, ◌≡◌, refl, none, [], ◌∷◌, ◌++◌, arith}
use study_eltex.Prelude.Counts.{count}
use study_eltex.Prelude.Family.{replace}
use study_eltex.Pool
use study_eltex.Pool.Order.{connections_in_order, in_hands, pending}
use study_eltex.Pool.Progress.{worker_serves_head}
use study_eltex.ThreadServer
use study_eltex.ThreadServer.Race.{first_connection_overtaken}
use study_eltex.ThreadServer.Bounds.{threads_in_bounds}
use study_eltex.TwoPools
use study_eltex.Fifos
use study_eltex.Fifos.Deadlock.{waiting, both_wait}

-- Main has accepted descriptor 7 and sent it.
abbrev accepted : Pool.System
accepted = record {
  mem = record (Pool.start.mem) { accepted = 7 ∷ [] };
  pc = replace Pool.start.pc 15 (Pool.sending 7);
}

abbrev queued : Pool.System
queued = record {
  mem = record (accepted.mem) { queue = 7 ∷ [] };
  pc = replace accepted.pc 15 Pool.accepting;
}

queued-Steps : Pool.Steps Pool.start queued
queued-Steps =
    Pool.later
      (Pool.later Pool.here (Pool.pick 15 (omega arith) refl (Pool.by_main (Pool.accept 7))))
      (Pool.pick 15 (omega arith) refl (Pool.by_main Pool.msgsnd))

connections_in_order_example :
    (queued.mem.accepted ≡ queued.mem.taken ++ (queued.mem.queue ++ pending (queued.pc 15)))
    × ((fd : ℕ) → count fd queued.mem.taken ≡ in_hands fd queued.pc + count fd queued.mem.served)
connections_in_order_example = connections_in_order queued-Steps

worker_serves_head_example :
    (queued.mem.owner 3 ≡ none)
    × ((s' : Pool.System) × Pool.Steps queued s'
        × (s'.pc 3 ≡ Pool.looping)
        × (s'.mem.queue ≡ [])
        × (s'.mem.served ≡ 7 ∷ []))
worker_serves_head_example = worker_serves_head queued-Steps 3 7 [] (omega arith) refl refl refl

-- Main has accepted descriptor 7 and is about to create its thread.
abbrev creating_first : ThreadServer.System
creating_first = record {
  mem = record (ThreadServer.start.mem) { client_fd = 7; accepted = 7 ∷ [] };
  pc = replace ThreadServer.start.pc 15 ThreadServer.creating;
}

creating-Steps : ThreadServer.Steps ThreadServer.start creating_first
creating-Steps =
    ThreadServer.later ThreadServer.here
      (ThreadServer.pick 15 (omega arith) refl (ThreadServer.by_main (ThreadServer.accept 7)))

threads_in_bounds_example :
    (0 < 15)
    × (creating_first.pc 0 ≡ ThreadServer.unborn)
    × (0 < count 7 creating_first.mem.accepted)
    × ((fd : ℕ)
        → 0 < count fd creating_first.mem.answered
        → 0 < count fd creating_first.mem.accepted)
threads_in_bounds_example = threads_in_bounds creating-Steps refl

first_connection_overtaken_example :
    (s : ThreadServer.System) × ThreadServer.Steps ThreadServer.start s
    × (s.mem.accepted ≡ 4 ∷ 5 ∷ [])
    × (s.mem.answered ≡ 5 ∷ 5 ∷ [])
    × (s.pc 0 ≡ ThreadServer.listening 5)
    × (s.pc 1 ≡ ThreadServer.listening 5)
first_connection_overtaken_example = first_connection_overtaken 4 5

-- The first process has opened channel1.
abbrev half_open : Fifos.System
half_open = record { first = 1; second = 0 }

half-Steps : Fifos.Steps Fifos.start half_open
unfolding Fifos.can_open Fifos.meets
half-Steps = Fifos.later Fifos.here (Fifos.open1 refl)

both_wait_example :
    (1 ≤ 1)
    × (0 ≤ 1)
    × Fifos.Steps half_open waiting
    × ((t : Fifos.System) → ¬ Fifos.Step waiting t)
both_wait_example = both_wait half-Steps
