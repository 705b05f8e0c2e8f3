-- ===== src/Examples/Runs.antt =====
-- Runs of programs on answers of the kernel.
use study_eltex.Prelude.{ℕ, zero, suc, ◌≡◌, refl, true, some, Option, List, [], ◌∷◌, ◌++◌, arith}
use study_eltex.Calls.{run, or_return, each}
use study_eltex.Calls.Protocol.{no_sockets, has, without, is_legal, is_plausible}
use study_eltex.Calls.Connections
use study_eltex.Calls.Servers.{
  Ready, tcp, udp, two_pools_server, two_pools_sockets, two_pools_threads, two_pools_serve,
}
use study_eltex.Calls.Handlers.{two_pools_handler, close_three}
use study_eltex.Calls.Watching.{noted, left}
use study_eltex.Calls.Signals.{two_pools, main_of, handler_of, signal-is_legal}
use study_eltex.Calls.Safety.{Name, program, program-is_legal}

-- socket answers 3 and accept answers 4.
abbrev answers : List (Option ℕ)
answers = some 3 ∷ some 0 ∷ some 0 ∷ some 4 ∷ some 22 ∷ some 5 ∷ some 0 ∷ some 0 ∷ []

program-is_legal_example : is_legal no_sockets (run (program Name.tcp_server) answers) ≡ true
unfolding Connections.tcp_server run or_return has without is_plausible
program-is_legal_example = program-is_legal Name.tcp_server answers refl

-- A signal in the first round of the loop, behind accept, with sockets 3 and 4, and then the answers of fifteen mutexes and three calls of
-- close.
abbrev zeros : ℕ → List (Option ℕ)
zeros zero = []
zeros (suc n) = some 0 ∷ zeros n

abbrev rounds : List Ready
rounds = tcp ∷ udp ∷ []

abbrev before : List (Option ℕ)
before =
    some 0
      ∷ some 0
      ∷ some 5
      ∷ some 6
      ∷ some 3
      ∷ some 4
      ∷ some 0
      ∷ some 0
      ∷ some 0
      ∷ some 7
      ∷ zeros 62
    ++ (some 1 ∷ some 8 ∷ [])

signal-is_legal_example :
    let main_run = run (main_of (two_pools rounds)) before in
    is_legal
      (left no_sockets main_run)
      (run (handler_of (two_pools rounds) (noted [] main_run)) (zeros 18))
    ≡ true
unfolding two_pools_server two_pools_sockets two_pools_threads two_pools_serve two_pools_handler
    close_three run or_return each noted left has without is_plausible
signal-is_legal_example =
    signal-is_legal (two_pools rounds) before (zeros 18) refl (omega arith) refl
