-- ===== src/Shop/Invariant.antt =====
-- Mutual exclusion, stock and conservation, in every reachable state.
use study_eltex.Prelude.{
  Bool-cases, inl, inr, ℕ, ◌+◌, ◌-◌, ◌<◌, ◌≤◌, ◌≡◌, ◌≢◌, false, ltb, refl, Option, none, some, some,
  ◌==◌, arith,
}
use study_eltex.Prelude.Family.{replace, sum_to, sum_to-replace, sum_to-agree}
use study_eltex.Shop.{
  count_of_shops, total_basket, count_of_threads, Shared, Pc, shop_loop, visit, inside, taking,
  storing, delivery_storing, enough, read_stock, write_stock, count_stock, bought, declined,
  counting, incrementing, finished, delivery_inside, delivery_made, Move, go_shopping, basket_full,
  lock_shop, delivery_lock, restock, System, pick, Steps, here, later, start,
}

-- The shop whose mutex a thread holds.
abbrev pub held : Pc → Option ℕ
held (inside b i) = some i
held (taking b i) = some i
held (storing b i tmp v) = some i
held (bought b i) = some i
held (declined b i) = some i
held (delivery_inside i) = some i
held (delivery_storing i amount v) = some i
held (delivery_made i) = some i
held _ = none

-- What a thread has in its basket.
abbrev pub basket : Pc → ℕ
basket (shop_loop b) = b
basket (visit b i) = b
basket (inside b i) = b
basket (taking b i) = b
basket (storing b i tmp v) = b
basket (bought b i) = b
basket (declined b i) = b
basket (counting b) = b
basket (incrementing b g) = b
basket (finished b) = b
basket _ = 0

-- A basket that may still be added to is below its total, and any basket below the total and a purchase.
abbrev pub InBounds : Pc → Type 0
InBounds (visit b i) = b < total_basket
InBounds (inside b i) = (b < total_basket) × (i < count_of_shops)
InBounds (taking b i) = (b < total_basket) × (i < count_of_shops)
InBounds (storing b i tmp v) = (b < total_basket) × (i < count_of_shops) × (tmp < 500) × (500 ≤ v)
InBounds (declined b i) = (b < total_basket) × (i < count_of_shops)
InBounds (bought b i) = (b < total_basket + 499) × (i < count_of_shops)
InBounds (counting b) = (total_basket ≤ b) × (b < total_basket + 499)
InBounds (incrementing b g) = (total_basket ≤ b) × (b < total_basket + 499)
InBounds (finished b) = (total_basket ≤ b) × (b < total_basket + 499)
InBounds (delivery_inside i) = i < count_of_shops
InBounds (delivery_storing i amount v) = i < count_of_shops
InBounds (delivery_made i) = i < count_of_shops
InBounds p = basket p < total_basket + 499

-- What a thread in a shop has read of it is still so.
abbrev pub Steady : (ℕ → ℕ) → Pc → Type 0
Steady shops (taking b i) = 500 ≤ shops i
Steady shops (storing b i tmp v) = v ≡ shops i
Steady shops (delivery_storing i amount v) = v ≡ shops i
Steady shops p = Unit

pub record Inv (m : Shared) (pc : ℕ → Pc) : Type 0 where
  pub owned : (t i : ℕ) → held (pc t) ≡ some i → m.owner i ≡ some t
  pub holder : (i t : ℕ) → m.owner i ≡ some t → held (pc t) ≡ some i
  pub bounded : (t : ℕ) → InBounds (pc t)
  pub steady : (t : ℕ) → Steady m.shops (pc t)
  pub stocked : (i : ℕ) → 0 < m.shops i
  pub conserved :
      sum_to count_of_shops m.shops + sum_to count_of_threads (λ t. basket (pc t))
      ≡ 4000 + m.delivered

-- What a move needs of the memory and of the locals, by its constructor.
abbrev Premise : {m : Shared} {t : ℕ} {p : Pc} {m' : Shared} {p' : Pc} → Move m t p m' p' → Type 0
Premise (go_shopping {b = b} h) = b < total_basket
Premise (basket_full {b = b} h) = total_basket ≤ b
Premise {m} (lock_shop {i = i} h k) = (i < count_of_shops) × (m.owner i ≡ none)
Premise {m} (enough {i = i} h) = 500 ≤ m.shops i
Premise (read_stock tmp h) = tmp < 500
Premise {m} (delivery_lock {i = i} h k) = (i < count_of_shops) × (m.owner i ≡ none)
Premise _ = Unit

premise : {m : Shared} {t : ℕ} {p : Pc} {m' : Shared} {p' : Pc} (mv : Move m t p m' p') → Premise mv
premise (go_shopping h) = h
premise (basket_full h) = h
premise (lock_shop h k) = (h, k)
premise (enough h) = h
premise (read_stock tmp h) = h
premise (delivery_lock h k) = (h, k)
premise _ = tt

basket-replace :
    (pc : ℕ → Pc) (t : ℕ) (p' : Pc) (u : ℕ)
    → basket (replace pc t p' u) ≡ replace (λ u. basket (pc u)) t (basket p') u
basket-replace pc t p' u = elim (Bool-cases (t == u)) [ inl e ↦ rw e | inr e ↦ rw e ]

basket-bound : (p : Pc) → InBounds p → basket p < total_basket + 499
basket-bound (shop_loop b) h = h
basket-bound p h = ground arith

module _ {m : Shared} {pc : ℕ → Pc} (inv : Inv m pc) (t : ℕ) where
  open inv use {owned, holder, bounded, steady, stocked, conserved}

  -- The thread that moves, at `p`. A match on `Move` needs a variable for `pc t`.
  record Mover (p : Pc) : Type 0 where
    here' : pc t ≡ p
    bound : InBounds p
    still : Steady m.shops p

  mover : Mover (pc t)
  mover = record { here' = refl; bound = bounded t; still = steady t }

  Move-owned :
      {p p' : Pc} {m' : Shared}
      → Move m t p m' p'
      → Mover p
      → (u i : ℕ) → held (replace pc t p' u) ≡ some i
      → m'.owner i ≡ some u
  Move-owned (go_shopping h) f u i q = ground (arith, owned u i)
  Move-owned mv f u i q = ground (arith, premise mv, owned u i, owned t i)

  Move-holder :
      {p p' : Pc} {m' : Shared}
      → Move m t p m' p'
      → Mover p
      → (i u : ℕ) → m'.owner i ≡ some u
      → held (replace pc t p' u) ≡ some i
  Move-holder (go_shopping h) f i u q = ground (arith, holder i u)
  Move-holder mv f i u q = ground (arith, premise mv, holder i u)

  Move-bounded :
      {p p' : Pc} {m' : Shared}
      → Move m t p m' p'
      → Mover p
      → (u : ℕ) → InBounds (replace pc t p' u)
  Move-bounded (go_shopping h) f u = ground (arith, bounded u)
  Move-bounded mv f u = ground (arith, premise mv, bounded u)

  Move-stocked : {p p' : Pc} {m' : Shared} → Move m t p m' p' → Mover p → (i : ℕ) → 0 < m'.shops i
  Move-stocked (go_shopping h) f i = stocked i
  Move-stocked mv f i = ground (arith, premise mv, stocked i)

  -- Who stands in another shop sees no change in one.
  others-Steady :
      (p : Pc) (i v : ℕ) → held p ≢ some i → Steady m.shops p → Steady (replace m.shops i v) p
  others-Steady (taking b j) i v d h = let ne : (i == j) ≡ false = ground arith in rw ne h
  others-Steady (storing b j tmp w) i v d h = let ne : (i == j) ≡ false = ground arith in rw ne h
  others-Steady (delivery_storing j a w) i v d h =
      let ne : (i == j) ≡ false = ground arith in rw ne h
  others-Steady p i v d h = tt

  replaced-Steady :
      (shops : ℕ → ℕ) (p' : Pc)
      → ((u : ℕ) → t ≢ u → Steady shops (pc u))
      → Steady shops p'
      → (u : ℕ) → Steady shops (replace pc t p' u)
  replaced-Steady shops p' h k u = elim (Bool-cases (t == u)) [
    | inl e ↦ rw e k
    | inr e ↦ rw e (h u (ground arith))
  ]

  alone : (i u : ℕ) → held (pc t) ≡ some i → t ≢ u → held (pc u) ≢ some i
  alone i u h d k = let a = owned t i h in let b = owned u i k in absurd (d (ground arith))

  written-Steady :
      (i v : ℕ) (p' : Pc)
      → held (pc t) ≡ some i
      → Steady (replace m.shops i v) p'
      → (u : ℕ) → Steady (replace m.shops i v) (replace pc t p' u)
  written-Steady i v p' h k =
      replaced-Steady (replace m.shops i v) p'
        (λ u d. others-Steady (pc u) i v (alone i u h d) (steady u)) k

  Move-Steady :
      {p p' : Pc} {m' : Shared}
      → Move m t p m' p'
      → Mover p
      → (u : ℕ) → Steady m'.shops (replace pc t p' u)
  Move-Steady {p' = p'} (go_shopping h) f = replaced-Steady m.shops p' (λ u d. steady u) tt
  Move-Steady {p' = p'} (enough h) f = replaced-Steady m.shops p' (λ u d. steady u) h
  Move-Steady {p' = p'} (read_stock tmp h) f = replaced-Steady m.shops p' (λ u d. steady u) refl
  Move-Steady {p' = p'} (count_stock a h) f = replaced-Steady m.shops p' (λ u d. steady u) refl
  Move-Steady {p' = p'} (write_stock {i = i} {tmp = tmp} {v = v}) f =
      written-Steady i (v - tmp) p' (rw f.here' refl) tt
  Move-Steady {p' = p'} (restock {i = i} {amount = a} {v = v} h) f =
      written-Steady i (v + a) p' (rw f.here' refl) tt
  Move-Steady {p' = p'} mv f = replaced-Steady m.shops p' (λ u d. steady u) tt

  -- The sum over the baskets once thread `t` stands at `p'`.
  baskets-replace :
      (p' : Pc)
      → t < count_of_threads
      → sum_to count_of_threads (λ u. basket (replace pc t p' u)) + basket (pc t)
        ≡ sum_to count_of_threads (λ u. basket (pc u)) + basket p'
  baskets-replace p' lt =
      let pointwise =
        sum_to-agree count_of_threads (λ u. basket (replace pc t p' u))
          (replace (λ u. basket (pc u)) t (basket p')) (λ u. basket-replace pc t p' u) in
      rw pointwise (sum_to-replace count_of_threads (λ u. basket (pc u)) t (basket p') lt)

  Move-conserved :
      {p p' : Pc} {m' : Shared}
      → Move m t p m' p'
      → Mover p
      → t < count_of_threads
      → sum_to count_of_shops m'.shops + sum_to count_of_threads (λ u. basket (replace pc t p' u))
        ≡ 4000 + m'.delivered
  Move-conserved {p' = p'} (go_shopping h) f lt = ground (arith, baskets-replace p' lt)
  Move-conserved {p' = p'} (write_stock {i = i} {tmp = tmp} {v = v}) f lt =
      ground (arith, baskets-replace p' lt, sum_to-replace count_of_shops m.shops i (v - tmp))
  Move-conserved {p' = p'} (restock {i = i} {amount = amount} {v = v} h) f lt =
      ground (arith, baskets-replace p' lt, sum_to-replace count_of_shops m.shops i (v + amount))
  Move-conserved {p' = p'} mv f lt = ground (arith, baskets-replace p' lt)

  Move-Inv :
      {p' : Pc} {m' : Shared}
      → t < count_of_threads
      → Move m t (pc t) m' p'
      → Inv m' (replace pc t p')
  Move-Inv lt mv = record {
    owned = Move-owned mv mover;
    holder = Move-holder mv mover;
    bounded = Move-bounded mv mover;
    steady = Move-Steady mv mover;
    stocked = Move-stocked mv mover;
    conserved = Move-conserved mv mover lt;
  }

Inv-start : Inv start.mem start.pc
Inv-start = record {
  owned = λ t i q. ground arith;
  holder = λ i t q. ground arith;
  bounded = λ t. ground arith;
  steady = λ t. elim (Bool-cases (ltb t 3)) [ inl e ↦ rw e tt | inr e ↦ rw e tt ];
  stocked = λ i. omega arith;
  conserved = unfold sum_to in refl;
}

pub Steps-Inv : {s : System} → Steps start s → Inv s.mem s.pc
Steps-Inv here = Inv-start
Steps-Inv (later r (pick t lt mv)) = Move-Inv (Steps-Inv r) t lt mv

-- In every state that the program can reach, two threads that hold the mutex of one shop are one thread.
pub mutual_exclusion :
    {s : System}
    → Steps start s
    → (t u i : ℕ) → held (s.pc t) ≡ some i
    → held (s.pc u) ≡ some i
    → t ≡ u
mutual_exclusion r t u i ht hu = let inv = Steps-Inv r in cc (inv.owned t i ht, inv.owned u i hu)

-- In every reachable state no shop is empty or oversold, no basket holds 10499 or more, and the stock of
-- the shops together with the baskets is the first stock with all that was delivered.
pub goods_conserved :
    {s : System}
    → Steps start s
    → ((i : ℕ) → 0 < s.mem.shops i)
      × ((t : ℕ) → basket (s.pc t) < total_basket + 499)
      × (sum_to count_of_shops s.mem.shops + sum_to count_of_threads (λ t. basket (s.pc t))
          ≡ 4000 + s.mem.delivered)
goods_conserved r =
    let inv = Steps-Inv r in (inv.stocked, λ t. basket-bound _ (inv.bounded t), inv.conserved)

-- A shopper that has finished has bought enough, and a mutex that is taken belongs to a thread that will
-- release it: it stands between a trylock and an unlock of that shop.
pub finished_full :
    {s : System}
    → Steps start s
    → ((t b : ℕ) → s.pc t ≡ finished b → total_basket ≤ b)
      × ((i t : ℕ) → s.mem.owner i ≡ some t → held (s.pc t) ≡ some i)
finished_full r = let inv = Steps-Inv r in (λ t b e. (rw e at (inv.bounded t)).0, inv.holder)
