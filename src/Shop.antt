-- ===== src/Shop.antt =====
-- threads/shop.c: three shoppers and a delivery thread over four shops, each with a mutex. The threads
-- interleave in any order, and each test, read and write of what they share is a step of its own.
-- `rand() % n` is any number below `n`. A delivery that would overflow an int is undefined and no step; the
-- difference of a purchase stops at 0, which no reachable state comes to.
pub mod Invariant
pub mod Counter
use study_eltex.Prelude.{
  ℕ, suc, ◌+◌, ◌-◌, ◌^◌, ◌<◌, ◌≤◌, ◌≡◌, ◌≢◌, Option, none, some, ltb, if◌then◌else◌,
}
use study_eltex.Prelude.Family.{replace}

-- `COUNT_OF_SHOPS`, `TOTAL_BASKET`, and the number of threads, of which the last is the delivery.
abbrev pub count_of_shops : ℕ
count_of_shops = 4

abbrev pub total_basket : ℕ
total_basket = 10000

abbrev pub shoppers : ℕ
shoppers = 3

abbrev pub count_of_threads : ℕ
count_of_threads = 4

-- The globals. A mutex is free or held by a thread; `delivered` is a history variable, the sum of what
-- the delivery has added so far.
pub record Shared : Type 0 where
  pub shops : ℕ → ℕ
  pub owner : ℕ → Option ℕ
  pub glob : ℕ
  pub delivered : ℕ

-- Where a thread stands, with its locals `basket` and `i`.
pub data Pc : Type 0 where
  shop_loop : (basket : ℕ) → Pc  -- the test of `while (basket < TOTAL_BASKET)`
  visit : (basket i : ℕ) → Pc  -- before the trylock of shop `i`
  inside : (basket i : ℕ) → Pc  -- before the test `shops[i] >= 500`
  taking : (basket i : ℕ) → Pc  -- before the read of `shops[i] -= tmp`
  storing : (basket i tmp v : ℕ) → Pc  -- before its write, with the value read
  bought : (basket i : ℕ) → Pc  -- before the unlock that is followed by `break`
  declined : (basket i : ℕ) → Pc  -- before the other unlock
  counting : (basket : ℕ) → Pc  -- before the read of `glob++`
  incrementing : (basket g : ℕ) → Pc  -- before the write of `glob++`, with the value read
  finished : (basket : ℕ) → Pc
  delivery_loop : Pc  -- the test of `while (glob != 3)`
  delivery_visit : (i : ℕ) → Pc
  delivery_inside : (i : ℕ) → Pc
  delivery_storing : (i amount v : ℕ) → Pc  -- before the write of `shops[i] += …`, with the value read
  delivery_made : (i : ℕ) → Pc  -- before the unlock that is followed by `break`
  delivery_finished : Pc

-- One step of thread `t`.
pub data Move (m : Shared) (t : ℕ) : Pc → Shared → Pc → Type 0 where
  go_shopping : {b : ℕ} → b < total_basket → Move m t (shop_loop b) m (visit b 0)
  basket_full : {b : ℕ} → total_basket ≤ b → Move m t (shop_loop b) m (counting b)
  round_over : {b i : ℕ} → count_of_shops ≤ i → Move m t (visit b i) m (shop_loop b)
  shop_busy :
      {b i u : ℕ}
      → i < count_of_shops
      → m.owner i ≡ some u
      → Move m t (visit b i) m (visit b (i + 1))
  lock_shop :
      {b i : ℕ}
      → i < count_of_shops
      → m.owner i ≡ none
      → Move m t (visit b i) (record m { owner = replace m.owner i (some t) }) (inside b i)
  enough : {b i : ℕ} → 500 ≤ m.shops i → Move m t (inside b i) m (taking b i)
  read_stock :
      {b i : ℕ} (tmp : ℕ) → tmp < 500 → Move m t (taking b i) m (storing b i tmp (m.shops i))
  write_stock :
      {b i tmp v : ℕ}
      → Move m t
          (storing b i tmp v)
          (record m { shops = replace m.shops i (v - tmp) })
          (bought (b + tmp) i)
  too_few : {b i : ℕ} → m.shops i < 500 → Move m t (inside b i) m (declined b i)
  leave_shop :
      {b i : ℕ} → Move m t (bought b i) (record m { owner = replace m.owner i none }) (shop_loop b)
  next_shop :
      {b i : ℕ}
      → Move m t (declined b i) (record m { owner = replace m.owner i none }) (visit b (i + 1))
  read_glob : {b : ℕ} → Move m t (counting b) m (incrementing b m.glob)
  write_glob : {b g : ℕ} → Move m t (incrementing b g) (record m { glob = g + 1 }) (finished b)
  deliver : m.glob ≢ 3 → Move m t delivery_loop m (delivery_visit 0)
  all_served : m.glob ≡ 3 → Move m t delivery_loop m delivery_finished
  delivery_over : {i : ℕ} → count_of_shops ≤ i → Move m t (delivery_visit i) m delivery_loop
  delivery_busy :
      {i u : ℕ}
      → i < count_of_shops
      → m.owner i ≡ some u
      → Move m t (delivery_visit i) m (delivery_visit (i + 1))
  delivery_lock :
      {i : ℕ}
      → i < count_of_shops
      → m.owner i ≡ none
      → Move m t
          (delivery_visit i)
          (record m { owner = replace m.owner i (some t) })
          (delivery_inside i)
  count_stock :
      {i : ℕ} (amount : ℕ)
      → amount < 1000
      → Move m t (delivery_inside i) m (delivery_storing i amount (m.shops i))
  restock :
      {i amount v : ℕ}
      → v + amount < 2 ^ 31
      → Move m t
          (delivery_storing i amount v)
          (record m { shops = replace m.shops i (v + amount); delivered = m.delivered + amount })
          (delivery_made i)
  delivery_leave :
      {i : ℕ}
      → Move m t (delivery_made i) (record m { owner = replace m.owner i none }) delivery_loop

pub record System : Type 0 where
  pub mem : Shared
  pub pc : ℕ → Pc

pub data Step (s : System) : System → Type 0 where
  pick :
      (t : ℕ) {m : Shared} {p : Pc}
      → t < count_of_threads
      → Move s.mem t (s.pc t) m p
      → Step s (record { mem = m; pc = replace s.pc t p })

-- What the threads can make of `s`.
pub data Steps (s : System) : System → Type 0 where
  here : Steps s s
  later : {t u : System} → Steps s t → Step t u → Steps s u

-- `main` once it has created its threads.
abbrev pub start : System
start = record {
  mem = record { shops = λ _. 1000; owner = λ _. none; glob = 0; delivered = 0 };
  pc = λ t. if ltb t shoppers then shop_loop 0 else delivery_loop;
}
