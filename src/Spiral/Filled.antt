-- ===== src/Spiral/Filled.antt =====
-- The loop of arrays/task4.c over the turns, and what it leaves in every cell.
use study_eltex.Prelude.{
  ℕ, zero, suc, ◌+◌, ◌-◌, ◌*◌, ◌<◌, ◌≤◌, ◌≡◌, refl, ◌∙◌, true, false, Option, some, ltb, leb,
  Bool-cases, inl, inr, ◌==◌, ◌&&◌, if◌then◌else◌, arith,
}
use mathlib.Core.Path.{subst}
use study_eltex.Spiral.{Square, spiral, blank, fill_spiral}
use study_eltex.Spiral.Number.{number, square-step}
use study_eltex.Spiral.Loops.{ring_cell, turn-ring, turn-single}

spiral-stops :
    (fuel size n k : ℕ) (s : Square) → s.count ≡ size * size + 1 → spiral fuel size n k s ≡ some s
unfolding spiral
spiral-stops zero size n k s h =
    let over : leb s.count (size * size) ≡ false = ground arith in rw over refl
spiral-stops (suc fuel) size n k s h =
    let over : leb s.count (size * size) ≡ false = ground arith in rw over refl

abbrev filled_cell : (width n a b c x : ℕ) → ℕ
filled_cell width n a b c x =
    if leb n a && (ltb a (n + width) && (leb n b && ltb b (n + width)))
    then c + number width (a - n) (b - n)
    else x

single-filled : (n a b c x : ℕ) → (if a == n && b == n then c else x) ≡ filled_cell 1 n a b c x
unfolding number
single-filled n a b c x = ground arith

-- The ring and the filled square inside it are a filled square, whatever `y` the inner one has.
ring_inner :
    (w n a b c x y : ℕ)
    → (if leb (n + 1) a && (ltb a (n + 1 + w) && (leb (n + 1) b && ltb b (n + 1 + w)))
        then c + 4 * suc w + y
        else ring_cell n w a b c x)
      ≡ (if leb n a && (ltb a (n + suc (suc w)) && (leb n b && ltb b (n + suc (suc w))))
          then c
            + (if a - n == 0
                then b - n
                else if b - n == suc w
                then suc w + (a - n)
                else if a - n == suc w
                then 2 * suc w + (suc w - (b - n))
                else if b - n == 0
                then 3 * suc w + (suc w - (a - n))
                else 4 * suc w + y)
          else x)
ring_inner w n a b c x y =
    elim (Bool-cases
      (leb n a && (ltb a (n + suc (suc w)) && (leb n b && ltb b (n + suc (suc w)))))) [
        | inl inside ↦
            elim (Bool-cases
              (leb (n + 1) a && (ltb a (n + 1 + w) && (leb (n + 1) b && ltb b (n + 1 + w))))) [
                | inl inner ↦ ground arith
                | inr ring ↦ elim (Bool-cases (a == n)) [
                  | inl top ↦ ground arith
                  | inr below ↦ elim (Bool-cases (b == n + suc w)) [
                    | inl right ↦ ground arith
                    | inr before ↦ elim (Bool-cases (a == n + suc w)) [
                      | inl bottom ↦ ground arith
                      | inr above ↦ ground arith
                    ]
                  ]
                ]
              ]
        | inr outside ↦ ground arith
      ]

ring-filled :
    (w n a b c c' x x' : ℕ)
    → c' ≡ c + 4 * suc w
    → x' ≡ ring_cell n w a b c x
    → filled_cell w (n + 1) a b c' x' ≡ filled_cell (suc (suc w)) n a b c x
unfolding number
ring-filled w n a b c c' x x' e q =
    let row : a - (n + 1) ≡ a - n - 1 = omega arith in
    let column : b - (n + 1) ≡ b - n - 1 = omega arith in
    rw e (rw q (rw row (rw column (ring_inner w n a b c x (number w (a - n - 1) (b - n - 1))))))

record Ends (s : Square) (run : Option Square) (size width n : ℕ) : Type 0 where
  out : Square
  runs : run ≡ some out
  counted : out.count ≡ size * size + 1
  cells : (a b : ℕ) → out.arr a b ≡ filled_cell width n a b s.count (s.arr a b)

spiral-Ends :
    (width fuel size n : ℕ) (s : Square)
    → n + width ≤ size
    → width ≤ 2 * fuel
    → s.count + width * width ≡ size * size + 1
    → Ends s (spiral fuel size n (n + width) s) size width n
unfolding spiral
spiral-Ends zero fuel size n s h f c = record {
  out = s;
  runs = spiral-stops fuel size n (n + zero) s (omega (arith, c));
  counted = omega (arith, c);
  cells = λ a b. ground arith;
}
spiral-Ends (suc zero) zero size n s h f c = absurd (omega arith)
spiral-Ends (suc zero) (suc fuel) size n s h f c =
    let more : leb s.count (size * size) ≡ true = ground (arith, c) in
    let (out, runs, counted, cells) = turn-single size n s (omega arith) in
    let full : out.count ≡ size * size + 1 = omega (arith, counted, c) in
    record {
      out = out;
      runs = rw more (rw runs (spiral-stops fuel size (n + 1) (n + 1 - 1) out full));
      counted = full;
      cells = λ a b. cells a b ∙ single-filled n a b s.count (s.arr a b);
    }
spiral-Ends (suc (suc w)) zero size n s h f c = absurd (omega arith)
spiral-Ends (suc (suc w)) (suc fuel) size n s h f c =
    let area = square-step w in
    let more : leb s.count (size * size) ≡ true = ground (arith, c, area) in
    let (out, runs, counted, cells) = turn-ring size n w s h in
    let inner =
      spiral-Ends w fuel size (n + 1) out (omega arith) (omega arith)
        (omega (arith, counted, c, area)) in
    let narrower : n + suc (suc w) - 1 ≡ n + 1 + w = omega arith in
    record {
      out = inner.out;
      runs = rw more (rw runs (rw narrower inner.runs));
      counted = inner.counted;
      cells = λ a b.
          inner.cells a b
          ∙ ring-filled w n a b s.count out.count (s.arr a b) (out.arr a b) counted (cells a b);
    }

-- For any size, with as many rounds as rows, the loops end inside the square: the counter is one more than
-- the number of cells, and every cell has its number, counted from 1, on the spiral from the outer ring
-- inwards.
pub fill_spiral-number :
    (size : ℕ)
    → (out : Square) × (fill_spiral size size ≡ some out)
      × (out.count ≡ size * size + 1)
      × ((a b : ℕ) → a < size → b < size → out.arr a b ≡ 1 + number size a b)
unfolding fill_spiral
fill_spiral-number size =
    let whole : 0 + size ≡ size = omega arith in
    let ends : Ends blank (spiral size size 0 size blank) size size 0 =
      subst (λ k. Ends blank (spiral size size 0 k blank) size size 0) whole
        (spiral-Ends size size size 0 blank (omega arith) (omega arith) (omega arith)) in
    (ends.out, ends.runs, ends.counted, λ a b h k. ground (arith, ends.cells a b))
