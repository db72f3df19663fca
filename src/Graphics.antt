-- ===== src/Graphics.antt =====
-- driver/graphy.c: lines of pixels by Bresenham's method. The pixels are a list of coordinates;
-- `setpoint`, which sets one, is not in the repository. An `int` is an integer of ℤ: the
-- overflow of `int` is not modelled, which coordinates within 2 ^ 29 do not reach.
pub mod Line
pub mod Draw
mod Examples
use chouryos.Base.{ℕ, zero, suc, ◌==◌, if◌then◌else◌, List, [], ◌∷◌, ◌++◌}
use chouryos.Base.Int.{ℤ, pos, pos_part, ◌+ℤ◌, ◌-ℤ◌, ◌*ℤ◌, ltb_ℤ}

-- The `switch` on `mod`: the point that is set for `x` and `y`.
unfoldable pub plot : ℕ → ℤ → ℤ → ℤ → ℤ → List (ℤ × ℤ)
plot kind x1 y1 x y =
    if kind == 1
    then (x, y) ∷ []
    else if kind == 2
    then (y, x) ∷ []
    else if kind == 3
    then (x, y1 *ℤ 2 -ℤ y) ∷ []
    else if kind == 4
    then (y, x1 *ℤ 2 -ℤ x) ∷ []
    else []

-- The loop of `BresenhamLine`, with `left` rounds to go, as many as `x2 - x`.
unfoldable pub line_loop : ℕ → ℕ → ℤ → ℤ → ℤ → ℤ → ℤ → ℤ → ℤ → List (ℤ × ℤ)
line_loop zero kind x1 y1 dx dy x y p = []
line_loop (suc left) kind x1 y1 dx dy x y p =
    let up = if ltb_ℤ p (pos 0) then y else y +ℤ pos 1 in
    let next = if ltb_ℤ p (pos 0) then p +ℤ dy *ℤ 2 else p +ℤ (dy -ℤ dx) *ℤ 2 in
    plot kind x1 y1 x y ++ line_loop left kind x1 y1 dx dy (x +ℤ pos 1) up next

unfoldable pub bresenham_line : ℤ → ℤ → ℤ → ℤ → ℕ → List (ℤ × ℤ)
bresenham_line x1 y1 x2 y2 kind =
    let dx = x2 -ℤ x1 in
    let dy = y2 -ℤ y1 in line_loop (pos_part dx) kind x1 y1 dx dy x1 y1 (dy *ℤ 2 -ℤ dx)

-- `drawLine` with its points in the order of `x`.
unfoldable pub draw_right : ℤ → ℤ → ℤ → ℤ → List (ℤ × ℤ)
draw_right x1 y1 x2 y2 =
    if ltb_ℤ y1 y2
    then (if ltb_ℤ (y2 -ℤ y1) (x2 -ℤ x1)
        then bresenham_line x1 y1 x2 y2 1
        else bresenham_line y1 x1 y2 x2 2)
    else if ltb_ℤ (y1 -ℤ y2) (x2 -ℤ x1)
    then bresenham_line x1 y1 x2 (y1 *ℤ 2 -ℤ y2) 3
    else bresenham_line y1 x1 (y1 *ℤ 2 -ℤ y2) x2 4

unfoldable pub draw_line : ℤ → ℤ → ℤ → ℤ → List (ℤ × ℤ)
draw_line x1 y1 x2 y2 = if ltb_ℤ x2 x1 then draw_right x2 y2 x1 y1 else draw_right x1 y1 x2 y2
