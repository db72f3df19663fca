-- ===== src/Graphics/Examples.antt =====
-- A line of pixels, and the theorem at it.
use chouryos.Base.{◌≡◌, refl, [], ◌∷◌, arith}
use chouryos.Base.Int.{pos, ◌+ℤ◌, ◌-ℤ◌, ◌*ℤ◌}
use chouryos.Graphics.{plot, line_loop, bresenham_line, draw_right, draw_line}
use chouryos.Graphics.Draw.{rising, falling, draw_line-rising}

flat_line :
    draw_line (pos 0) (pos 0) (pos 5) (pos 2)
    ≡ (pos 0, pos 0) ∷ (pos 1, pos 0) ∷ (pos 2, pos 1) ∷ (pos 3, pos 1) ∷ (pos 4, pos 2) ∷ []
unfolding draw_line draw_right bresenham_line line_loop plot ◌+ℤ◌ ◌-ℤ◌ ◌*ℤ◌
flat_line = refl

draw_line-rising_example :
    (draw_line (pos 1) (pos 9) (pos 1 +ℤ pos 5) (pos 9 +ℤ pos 2) ≡ rising (pos 1) (pos 9) 5 2)
    × (draw_line (pos 1 +ℤ pos 5) (pos 9 +ℤ pos 2) (pos 1) (pos 9) ≡ rising (pos 1) (pos 9) 5 2)
    × (draw_line (pos 1) (pos 9) (pos 1 +ℤ pos 5) (pos 9 -ℤ pos 2) ≡ falling (pos 1) (pos 9) 5 2)
    × (draw_line (pos 1 +ℤ pos 5) (pos 9 -ℤ pos 2) (pos 1) (pos 9) ≡ falling (pos 1) (pos 9) 5 2)
draw_line-rising_example =
    draw_line-rising (pos 1) (pos 9) 5 2 (omega arith) (omega arith) (omega arith) (omega arith)
      (omega arith)
