-- ===== src/Examples/Threads.antt =====
-- Schedules of the shop.
use study_eltex.Prelude.{ℕ, ◌+◌, ◌<◌, ◌≤◌, ◌≡◌, refl, some, arith}
use study_eltex.Prelude.Family.{replace, sum_to}
use study_eltex.Shop.{
  System, Steps, here, later, pick, start, visit, inside, delivery_finished, go_shopping, lock_shop,
  total_basket, count_of_shops, count_of_threads,
}
use study_eltex.Shop.Counter.{finished_threads, glob-le-finished}
use study_eltex.Shop.Invariant.{basket, mutual_exclusion, goods_conserved}

-- Thread 0 has gone shopping and locked the first shop.
abbrev shopping : System
shopping = record { mem = start.mem; pc = replace start.pc 0 (visit 0 0) }

abbrev locked : System
locked = record {
  mem = record start.mem { owner = replace start.mem.owner 0 (some 0) };
  pc = replace shopping.pc 0 (inside 0 0);
}

locked-Steps : Steps start locked
locked-Steps =
    let first : Steps start shopping =
      later here (pick 0 (omega arith) (go_shopping (omega arith))) in
    later first (pick 0 (omega arith) (lock_shop (omega arith) refl))

mutual_exclusion_example : ◌≡◌ {A = ℕ} 0 0
mutual_exclusion_example = mutual_exclusion locked-Steps 0 0 0 refl refl

goods_conserved_example :
    ((i : ℕ) → 0 < locked.mem.shops i)
    × ((t : ℕ) → basket (locked.pc t) < total_basket + 499)
    × (sum_to count_of_shops locked.mem.shops + sum_to count_of_threads (λ t. basket (locked.pc t))
        ≡ 4000 + locked.mem.delivered)
goods_conserved_example = goods_conserved locked-Steps

glob-le-finished_example :
    (locked.mem.glob ≤ finished_threads locked.pc)
    × ((t : ℕ) → locked.pc t ≡ delivery_finished → 3 ≤ finished_threads locked.pc)
glob-le-finished_example = glob-le-finished locked-Steps
