-- ===== src/Graphics/Draw.antt =====
-- `drawLine` in all directions.
use chouryos.Base.{
  ℕ, zero, suc, ◌+◌, ◌^◌, ◌≤◌, ◌<◌, ◌≡◌, refl, sym, ap, ◌∙◌, inl, inr, false, List, [], ◌∷◌, arith,
  if◌then◌else◌, Bool-cases, ltb, ltb→lt, lt→ltb, fun_ext,
}
use chouryos.Base.Int.{ℤ, pos, pos_part, neg_part, ◌+ℤ◌, ◌-ℤ◌, ◌*ℤ◌, ltb_ℤ}
use chouryos.Graphics.{plot, draw_right, draw_line}
use chouryos.Graphics.Line.{row, row_is, points, bresenham_line-points}

-- A pixel for each `k`, from `k` on.
unfoldable pub path : ℕ → ℕ → (ℕ → ℤ × ℤ) → List (ℤ × ℤ)
path zero k f = []
path (suc left) k f = f k ∷ path left (k + 1) f

-- A line of `a` columns that rises by `b`: a pixel for each column where it is flat, and one for each
-- row where it is steep, the nearest one.
unfoldable pub rising : ℤ → ℤ → ℕ → ℕ → List (ℤ × ℤ)
rising x y a b =
    if ltb b a
    then path a 0 (λ k. (x +ℤ pos k, y +ℤ pos (row a b k)))
    else path b 0 (λ k. (x +ℤ pos (row b a k), y +ℤ pos k))

unfoldable pub falling : ℤ → ℤ → ℕ → ℕ → List (ℤ × ℤ)
falling x y a b =
    if ltb b a
    then path a 0 (λ k. (x +ℤ pos k, y -ℤ pos (row a b k)))
    else path b 0 (λ k. (x +ℤ pos (row b a k), y -ℤ pos k))

points-path :
    (left k kind dx dy : ℕ) (x y : ℤ) (f : ℕ → ℤ × ℤ)
    → ((j : ℕ) → plot kind x y (x +ℤ pos j) (y +ℤ pos (row dx dy j)) ≡ f j ∷ [])
    → points left k kind dx dy x y ≡ path left k f
unfolding points path
points-path zero k kind dx dy x y f h = refl
points-path (suc left) k kind dx dy x y f h =
    rw (h k) (ap (f k ∷◌) (points-path left (k + 1) kind dx dy x y f h))

-- Sums and differences of coordinates.
gain : (x : ℤ) (a : ℕ) → x +ℤ pos a -ℤ x ≡ pos a
unfolding ◌+ℤ◌ ◌-ℤ◌
gain x a = ground arith

loss : (y : ℤ) (b : ℕ) → y -ℤ (y -ℤ pos b) ≡ pos b
unfolding ◌-ℤ◌
loss y b = ground arith

mirror_up : (y : ℤ) (m : ℕ) → y *ℤ 2 -ℤ (y +ℤ pos m) ≡ y -ℤ pos m
unfolding ◌+ℤ◌ ◌-ℤ◌ ◌*ℤ◌
mirror_up y m = ground arith

mirror_down : (y : ℤ) (m : ℕ) → y *ℤ 2 -ℤ (y -ℤ pos m) ≡ y +ℤ pos m
unfolding ◌+ℤ◌ ◌-ℤ◌ ◌*ℤ◌
mirror_down y m = ground arith

over : (y : ℤ) (b : ℕ) → ltb_ℤ y (y +ℤ pos b) ≡ ltb 0 b
unfolding ◌+ℤ◌
over y b = ground arith

under : (y : ℤ) (b : ℕ) → ltb_ℤ y (y -ℤ pos b) ≡ false
unfolding ◌-ℤ◌
under y b = ground arith

right : (x : ℤ) (a : ℕ) → ltb_ℤ (x +ℤ pos a) x ≡ false
unfolding ◌+ℤ◌
right x a = ground arith

longer : (a b : ℕ) → ltb_ℤ (pos b) (pos a) ≡ ltb b a
longer a b = ground arith

level : (y : ℤ) → y -ℤ pos 0 ≡ y +ℤ pos 0
unfolding ◌+ℤ◌ ◌-ℤ◌
level y = ground arith

draw_right-falling :
    (x y : ℤ) (a b : ℕ) → draw_right x y (x +ℤ pos a) (y -ℤ pos b) ≡ falling x y a b
unfolding draw_right falling plot
draw_right-falling x y a b =
    rw (under y b, loss y b, gain x a, longer a b, mirror_down y b)
      (elim (Bool-cases (ltb b a)) [
        | inl e ↦ rw e (
            bresenham_line-points 3 a b x y (x +ℤ pos a) (y +ℤ pos b) (omega (arith, ltb→lt b a e))
              (gain x a) (gain y b)
            ∙ points-path a 0 3 a b x y _
                (λ j. ap (λ (q : ℤ). (x +ℤ pos j, q) ∷ []) (mirror_up y (row a b j))))
        | inr e ↦ rw e (
            bresenham_line-points 4 b a y x (y +ℤ pos b) (x +ℤ pos a) (ground (arith, e)) (gain y b)
              (gain x a)
            ∙ points-path b 0 4 b a y x _
                (λ j. ap (λ (q : ℤ). (x +ℤ pos (row b a j), q) ∷ []) (mirror_up y j)))
      ])

draw_right-rising :
    (x y : ℤ) (a b : ℕ) → 0 < b → draw_right x y (x +ℤ pos a) (y +ℤ pos b) ≡ rising x y a b
unfolding draw_right rising plot
draw_right-rising x y a b h =
    rw (over y b, lt→ltb 0 b h, gain y b, gain x a, longer a b)
      (elim (Bool-cases (ltb b a)) [
        | inl e ↦ rw e (
            bresenham_line-points 1 a b x y (x +ℤ pos a) (y +ℤ pos b) (omega (arith, ltb→lt b a e))
              (gain x a) (gain y b)
            ∙ points-path a 0 1 a b x y _ (λ j. refl))
        | inr e ↦ rw e (
            bresenham_line-points 2 b a y x (y +ℤ pos b) (x +ℤ pos a) (ground (arith, e)) (gain y b)
              (gain x a)
            ∙ points-path b 0 2 b a y x _ (λ j. refl))
      ])

row_flat : (a k : ℕ) → 0 < a → row a 0 k ≡ 0
row_flat a k h = row_is a 0 k 0 (omega arith) (omega arith)

rising-falling : (x y : ℤ) (a : ℕ) → 0 < a → falling x y a 0 ≡ rising x y a 0
unfolding rising falling
rising-falling x y a h =
    rw (lt→ltb 0 a h) (
      ap (path a 0)
        (fun_ext (λ k. rw (row_flat a k h) (ap (λ (q : ℤ). (x +ℤ pos k, q)) (level y)))))

draw_right-right :
    (x y : ℤ) (a b : ℕ) → 0 < a → draw_right x y (x +ℤ pos a) (y +ℤ pos b) ≡ rising x y a b
draw_right-right x y a zero h =
    ap (draw_right x y (x +ℤ pos a)) (sym (level y))
    ∙ draw_right-falling x y a 0
    ∙ rising-falling x y a h
draw_right-right x y a (suc b) h = draw_right-rising x y a (suc b) (omega arith)

-- `drawLine` between two points of different columns, where the right one is `b` rows above or below
-- the left one, in either order, sets the pixels of the line that division gives. The right point
-- itself is not among them, nor, of a steep line, the point of the last row. The coordinates of the
-- left point are at most 2 ^ 28 in size, and so are the differences, so that every `int` of the code,
-- at most 2 ^ 31 in size, is the integer here.
pub draw_line-rising :
    (x y : ℤ) (a b : ℕ)
    → 0 < a
    → pos_part x + neg_part x ≤ 2 ^ 28
    → pos_part y + neg_part y ≤ 2 ^ 28
    → a ≤ 2 ^ 28
    → b ≤ 2 ^ 28
    → (draw_line x y (x +ℤ pos a) (y +ℤ pos b) ≡ rising x y a b)
      × (draw_line (x +ℤ pos a) (y +ℤ pos b) x y ≡ rising x y a b)
      × (draw_line x y (x +ℤ pos a) (y -ℤ pos b) ≡ falling x y a b)
      × (draw_line (x +ℤ pos a) (y -ℤ pos b) x y ≡ falling x y a b)
unfolding draw_line
draw_line-rising x y a b h _ _ _ _ =
    let up = draw_right-right x y a b h in
    let down = draw_right-falling x y a b in
    (
      rw (right x a) up,
      rw (over x a, lt→ltb 0 a h) up,
      rw (right x a) down,
      rw (over x a, lt→ltb 0 a h) down,
    )
