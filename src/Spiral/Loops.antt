-- ===== src/Spiral/Loops.antt =====
-- What each of the four loops of a turn writes, and what a whole turn does.
use study_eltex.Prelude.{
  ℕ, zero, suc, ◌+◌, ◌-◌, ◌*◌, ◌<◌, ◌≤◌, ◌≡◌, refl, Bool, Option, some, ltb, leb, lt→ltb, ◌==◌,
  ◌&&◌, if◌then◌else◌, arith,
}
use study_eltex.Spiral.{Square, put, rightwards, downwards, leftwards, upwards, turn}

-- A run from `s` that ends, having written `rounds` cells: those of `cell`, with `value`.
pub record Writes (s : Square) (run : Option Square) (rounds : ℕ) (cell : ℕ → ℕ → Bool)
    (value : ℕ → ℕ → ℕ) : Type 0 where
  out : Square
  runs : run ≡ some out
  counted : out.count ≡ s.count + rounds
  cells : (a b : ℕ) → out.arr a b ≡ (if cell a b then value a b else s.arr a b)

stored : (i j : ℕ) → Square → Square
stored i j s = record {
  arr = λ i' j'. if i' == i && j' == j then s.count else s.arr i' j';
  count = s.count + 1;
}

put-inside :
    (size i j : ℕ) (s : Square) → i < size → j < size → put size i j s ≡ some (stored i j s)
unfolding put stored
put-inside size i j s h k = rw (lt→ltb i size h) (rw (lt→ltb j size k) refl)

rightwards-Writes :
    (size n rounds j : ℕ) (s : Square)
    → n < size
    → j + rounds ≤ size
    → Writes s
        (rightwards size n rounds j s)
        rounds
        (λ a b. a == n && (leb j b && ltb b (j + rounds)))
        (λ a b. s.count + (b - j))
unfolding rightwards stored
rightwards-Writes size n zero j s h k = record {
  out = s;
  runs = refl;
  counted = omega arith;
  cells = λ a b. ground arith;
}
rightwards-Writes size n (suc rounds) j s h k =
    let rest = rightwards-Writes size n rounds (suc j) (stored n j s) h (omega arith) in
    record {
      out = rest.out;
      runs = rw (put-inside size n j s h (omega arith)) rest.runs;
      counted = omega (arith, rest.counted);
      cells = λ a b. ground (arith, rest.cells a b);
    }

downwards-Writes :
    (size k rounds j : ℕ) (s : Square)
    → k - 1 < size
    → j + rounds ≤ size
    → Writes s
        (downwards size k rounds j s)
        rounds
        (λ a b. b == k - 1 && (leb j a && ltb a (j + rounds)))
        (λ a b. s.count + (a - j))
unfolding downwards stored
downwards-Writes size k zero j s h l = record {
  out = s;
  runs = refl;
  counted = omega arith;
  cells = λ a b. ground arith;
}
downwards-Writes size k (suc rounds) j s h l =
    let rest = downwards-Writes size k rounds (suc j) (stored j (k - 1) s) h (omega arith) in
    record {
      out = rest.out;
      runs = rw (put-inside size j (k - 1) s (omega arith) h) rest.runs;
      counted = omega (arith, rest.counted);
      cells = λ a b. ground (arith, rest.cells a b);
    }

leftwards-Writes :
    (size k rounds last : ℕ) (s : Square)
    → k - 1 < size
    → last + rounds ≤ size
    → Writes s
        (leftwards size k rounds last s)
        rounds
        (λ a b. a == k - 1 && (leb last b && ltb b (last + rounds)))
        (λ a b. s.count + (last + rounds - 1 - b))
unfolding leftwards stored
leftwards-Writes size k zero last s h l = record {
  out = s;
  runs = refl;
  counted = omega arith;
  cells = λ a b. ground arith;
}
leftwards-Writes size k (suc rounds) last s h l =
    let rest =
      leftwards-Writes size k rounds last (stored (k - 1) (last + rounds) s) h (omega arith) in
    record {
      out = rest.out;
      runs = rw (put-inside size (k - 1) (last + rounds) s h (omega arith)) rest.runs;
      counted = omega (arith, rest.counted);
      cells = λ a b. ground (arith, rest.cells a b);
    }

upwards-Writes :
    (size n rounds last : ℕ) (s : Square)
    → n < size
    → last + rounds ≤ size
    → Writes s
        (upwards size n rounds last s)
        rounds
        (λ a b. b == n && (leb last a && ltb a (last + rounds)))
        (λ a b. s.count + (last + rounds - 1 - a))
unfolding upwards stored
upwards-Writes size n zero last s h l = record {
  out = s;
  runs = refl;
  counted = omega arith;
  cells = λ a b. ground arith;
}
upwards-Writes size n (suc rounds) last s h l =
    let rest = upwards-Writes size n rounds last (stored (last + rounds) n s) h (omega arith) in
    record {
      out = rest.out;
      runs = rw (put-inside size (last + rounds) n s (omega arith) h) rest.runs;
      counted = omega (arith, rest.counted);
      cells = λ a b. ground (arith, rest.cells a b);
    }

-- What the four loops leave in a cell, from what each of them leaves.
module _ (n m a b c x0 : ℕ) where
  abbrev pub ring_cell : ℕ
  ring_cell =
      if leb n a && (ltb a (n + suc (suc m)) && (leb n b && ltb b (n + suc (suc m))))
      then if a == n
        then c + (b - n)
        else if b == n + suc m
        then c + (suc m + (a - n))
        else if a == n + suc m
        then c + (2 * suc m + (n + suc m - b))
        else if b == n
        then c + (3 * suc m + (n + suc m - a))
        else x0
      else x0

  ring_cells :
      (x1 x2 x3 x4 : ℕ)
      → x1 ≡ (if a == n && (leb n b && ltb b (n + suc (suc m))) then c + (b - n) else x0)
      → x2 ≡ (
          if b == n + suc m && (leb (n + 1) a && ltb a (n + suc (suc m)))
          then c + suc (suc m) + (a - (n + 1))
          else x1)
      → x3 ≡ (
          if a == n + suc m && (leb n b && ltb b (n + suc m))
          then c + suc (suc m) + suc m + (n + suc m - 1 - b)
          else x2)
      → x4 ≡ (
          if b == n && (leb (n + 1) a && ltb a (n + suc m))
          then c + suc (suc m) + suc m + suc m + (n + suc m - 1 - a)
          else x3)
      → x4 ≡ ring_cell
  ring_cells x1 x2 x3 x4 e1 e2 e3 e4 = ground arith

-- One turn around the ring of n to k - 1 where it is two cells wide or more.
pub turn-ring :
    (size n m : ℕ) (s : Square)
    → n + suc (suc m) ≤ size
    → (out : Square) × (turn size n (n + suc (suc m)) s ≡ some out)
      × (out.count ≡ s.count + 4 * suc m)
      × ((a b : ℕ) → out.arr a b ≡ ring_cell n m a b s.count (s.arr a b))
unfolding turn
turn-ring size n m s h =
    let k = n + suc (suc m) in
    let r1 = rightwards-Writes size n (k - n) n s (omega arith) (omega arith) in
    let r2 = downwards-Writes size k (k - (n + 1)) (n + 1) r1.out (omega arith) (omega arith) in
    let r3 = leftwards-Writes size k (k - 1 - n) n r2.out (omega arith) (omega arith) in
    let r4 = upwards-Writes size n (k - 1 - (n + 1)) (n + 1) r3.out (omega arith) (omega arith) in
    (
      r4.out,
      rw r1.runs (rw r2.runs (rw r3.runs r4.runs)),
      omega (arith, r1.counted, r2.counted, r3.counted, r4.counted),
      λ a b.
          ring_cells n m a b s.count (s.arr a b) (r1.out.arr a b) (r2.out.arr a b) (r3.out.arr a b)
            (r4.out.arr a b) (ground (arith, r1.cells a b))
            (ground (arith, r2.cells a b, r1.counted))
            (ground (arith, r3.cells a b, r2.counted, r1.counted))
            (ground (arith, r4.cells a b, r3.counted, r2.counted, r1.counted)),
    )

-- One turn in a square of one cell.
pub turn-single :
    (size n : ℕ) (s : Square)
    → n < size
    → (out : Square) × (turn size n (n + 1) s ≡ some out)
      × (out.count ≡ s.count + 1)
      × ((a b : ℕ) → out.arr a b ≡ (if a == n && b == n then s.count else s.arr a b))
unfolding turn rightwards downwards leftwards upwards stored
turn-single size n s h =
    let once : n + 1 - n ≡ 1 = omega arith in
    let none_down : n + 1 - (n + 1) ≡ 0 = omega arith in
    let none_left : n + 1 - 1 - n ≡ 0 = omega arith in
    let none_up : n + 1 - 1 - (n + 1) ≡ 0 = omega arith in
    (
      stored n n s,
      rw once (rw (put-inside size n n s h h) (rw none_down (rw none_left (rw none_up refl)))),
      refl,
      λ a b. refl,
    )
