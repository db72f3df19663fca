-- ===== src/Graphics/Line.antt =====
-- Bresenham's loop, which only adds, against the line by division.
use chouryos.Base.{
  ℕ, zero, suc, ◌+◌, ◌-◌, ◌*◌, ◌/◌, ◌≤◌, ◌<◌, ◌≡◌, refl, sym, ap, ◌∙◌, inl, inr, List, [], ◌++◌,
  arith, Bool-cases, ltb, ltb→lt,
}
use native.Mathlib.Nat.{div-eq_of_lt-le}
use chouryos.Base.Int.{ℤ, pos, pos_part, neg_part, sub_ℕ, ◌+ℤ◌, ◌-ℤ◌, ◌*ℤ◌, ltb_ℤ}
use chouryos.Graphics.{plot, line_loop, bresenham_line}

-- The row of column `k` of the line: its height there, `k * dy / dx`, to the nearest row.
abbrev pub row : ℕ → ℕ → ℕ → ℕ
row dx dy k = (2 * (k * dy) + dx) / (2 * dx)

-- The points of the columns from `k` on.
unfoldable pub points : ℕ → ℕ → ℕ → ℕ → ℕ → ℤ → ℤ → List (ℤ × ℤ)
points zero k kind dx dy x1 y1 = []
points (suc left) k kind dx dy x1 y1 =
    plot kind x1 y1 (x1 +ℤ pos k) (y1 +ℤ pos (row dx dy k)) ++ points left (k + 1) kind dx dy x1 y1

sub_ℕ-same : (a b c d : ℕ) → a + d ≡ c + b → sub_ℕ a b ≡ sub_ℕ c d
sub_ℕ-same a b c d h = ground arith

add_pos : (a : ℤ) (m n : ℕ) → a +ℤ pos m +ℤ pos n ≡ a +ℤ pos (m + n)
unfolding ◌+ℤ◌
add_pos a m n = ground arith

pos_sub : (a b : ℕ) → pos_part (sub_ℕ a b) ≡ a - b
pos_sub a b = ground arith

neg_sub : (a b : ℕ) → neg_part (sub_ℕ a b) ≡ b - a
neg_sub a b = ground arith

-- A round that stays in its row, and one that goes up.
stay : (a b dy : ℕ) → sub_ℕ a b +ℤ pos dy *ℤ 2 ≡ sub_ℕ (a + 2 * dy) b
unfolding ◌+ℤ◌ ◌*ℤ◌
stay a b dy = ground arith

rise :
    (a b dx dy : ℕ)
    → dy ≤ dx
    → sub_ℕ a b +ℤ (pos dy -ℤ pos dx) *ℤ 2 ≡ sub_ℕ (a + 2 * dy) (b + 2 * dx)
unfolding ◌+ℤ◌ ◌*ℤ◌ ◌-ℤ◌
rise a b dx dy h = ground arith

test : (a b : ℕ) → ltb_ℤ (sub_ℕ a b) (pos 0) ≡ ltb a b
test a b = ground arith

pub row_is :
    (dx dy k r : ℕ)
    → 2 * (r * dx) ≤ 2 * (k * dy) + dx
    → 2 * (k * dy) + dx < 2 * (r * dx) + 2 * dx
    → row dx dy k ≡ r
row_is dx dy k r lo hi = div-eq_of_lt-le (2 * dx) (omega arith) (omega arith)

-- The test value at column `k` and row `r`: twice the height of the next column over the middle of
-- the rows `r` and `r + 1`, times `dx`.
line_loop-points :
    (left k r kind dx dy : ℕ) (x1 y1 : ℤ)
    → dy ≤ dx
    → 2 * (r * dx) ≤ 2 * (k * dy) + dx
    → 2 * (k * dy) + dx < 2 * (r * dx) + 2 * dx
    → line_loop left kind x1 y1
        (pos dx)
        (pos dy)
        (x1 +ℤ pos k)
        (y1 +ℤ pos r)
        (sub_ℕ (2 * (k * dy) + 2 * dy) (2 * (r * dx) + dx))
      ≡ points left k kind dx dy x1 y1
unfolding line_loop points
line_loop-points zero k r kind dx dy x1 y1 flat lo hi = refl
line_loop-points (suc left) k r kind dx dy x1 y1 flat lo hi =
    let a = 2 * (k * dy) + 2 * dy in
    let b = 2 * (r * dx) + dx in
    let here : row dx dy k ≡ r = row_is dx dy k r lo hi in
    let next_a : a + 2 * dy ≡ 2 * ((k + 1) * dy) + 2 * dy = omega arith in
    let next_b : b + 2 * dx ≡ 2 * ((r + 1) * dx) + dx = omega arith in
    elim (Bool-cases (ltb a b)) [
      | inl e ↦
          rw (test a b, e, here, add_pos x1 k 1, stay a b dy, next_a)
            (ap (plot kind x1 y1 (x1 +ℤ pos k) (y1 +ℤ pos r) ++◌) (
              line_loop-points left (k + 1) r kind dx dy x1 y1 flat (omega arith)
                (let l : a < b = ltb→lt a b e in omega arith)))
      | inr e ↦
          rw
            (test a b, e, here, add_pos x1 k 1, add_pos y1 r 1, rise a b dx dy flat, next_a, next_b)
            (ap (plot kind x1 y1 (x1 +ℤ pos k) (y1 +ℤ pos r) ++◌) (
              line_loop-points left (k + 1) (r + 1) kind dx dy x1 y1 flat
                (let l : b ≤ a = ground (arith, e) in omega arith) (omega arith)))
    ]

first : (dx dy : ℕ) → pos dy *ℤ 2 -ℤ pos dx ≡ sub_ℕ (2 * (0 * dy) + 2 * dy) (2 * (0 * dx) + dx)
unfolding ◌*ℤ◌ ◌-ℤ◌
first dx dy = ground arith

nothing : (a : ℤ) → a +ℤ pos 0 ≡ a
unfolding ◌+ℤ◌
nothing a = ground arith

pub bresenham_line-points :
    (kind dx dy : ℕ) (x1 y1 x2 y2 : ℤ)
    → dy ≤ dx
    → x2 -ℤ x1 ≡ pos dx
    → y2 -ℤ y1 ≡ pos dy
    → bresenham_line x1 y1 x2 y2 kind ≡ points dx 0 kind dx dy x1 y1
unfolding bresenham_line line_loop points
bresenham_line-points kind zero dy x1 y1 x2 y2 flat ex ey = rw ex refl
bresenham_line-points kind (suc d) dy x1 y1 x2 y2 flat ex ey =
    let dx = suc d in
    let start : pos dy *ℤ 2 -ℤ pos dx ≡ sub_ℕ (2 * (0 * dy) + 2 * dy) (2 * (0 * dx) + dx) =
      first dx dy in
    rw (ex, ey)
      ((λ i.
          line_loop dx kind x1 y1 (pos dx) (pos dy) (sym (nothing x1) i) (sym (nothing y1) i)
            (start i))
        ∙ line_loop-points dx 0 0 kind dx dy x1 y1 flat (omega arith) (omega arith))
