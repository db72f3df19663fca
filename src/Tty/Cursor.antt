-- ===== src/Tty/Cursor.antt =====
-- Where the cursor of the screen goes, and what is seen.
use chouryos.Base.{
  ℕ, ◌+◌, ◌-◌, ◌≤◌, ◌<◌, ◌≡◌, refl, ap, ◌∙◌, inl, inr, false, ◌&&◌, List, [], ◌∷◌, arith, ◌==◌,
  Bool-cases, if◌then◌else◌,
}
use chouryos.Base.Int.{ℤ, pos, negsuc, ◌+ℤ◌, ◌-ℤ◌, ltb_ℤ}
use chouryos.Tty.{Screen, draw, wrap, scroll, put_char, put_chars, tty_write}

-- The cursor is at this line and column of the screen of 25 lines and 80 columns.
pub record IsAt (s : Screen) (l q : ℕ) : Type 0 where
  pub line_is : s.line ≡ pos l
  pub colume_is : s.colume ≡ pos q
  pub line_in : l < 25
  pub colume_in : q < 80

-- The next line, where the last line stays the last.
abbrev pub down : ℕ → ℕ
down l = if l == 24 then 24 else l + 1

-- Where a character that is no backspace at the first place moves the cursor.
abbrev pub move_line : ℕ → ℕ → ℕ → ℕ
move_line c l q =
    if c == b'\n'
    then down l
    else if c == 8
    then (if q == 0 then l - 1 else l)
    else (if q == 79 then down l else l)

abbrev pub move_colume : ℕ → ℕ → ℕ
move_colume c q =
    if c == b'\n'
    then 0
    else if c == 8
    then (if q == 0 then 79 else q - 1)
    else (if q == 79 then 0 else q + 1)

abbrev screen : ℕ → ℕ → (ℤ → ℕ) → Screen
screen l q m = record { line = pos l; colume = pos q; charbuff = m }

IsAt-screen : (s : Screen) (l q : ℕ) → IsAt s l q → s ≡ screen l q s.charbuff
IsAt-screen s l q v i = record { line = v.line_is i; colume = v.colume_is i; charbuff = s.charbuff }

pos_suc : (l : ℕ) → pos l +ℤ pos 1 ≡ pos (l + 1)
unfolding ◌+ℤ◌
pos_suc l = ground arith

pos_pred : (l : ℕ) → 1 ≤ l → pos l -ℤ pos 1 ≡ pos (l - 1)
unfolding ◌-ℤ◌
pos_pred l h = ground arith

below_zero : pos 0 -ℤ pos 1 ≡ negsuc 0
unfolding ◌-ℤ◌
below_zero = refl

not_below : (n : ℕ) → ltb_ℤ (pos n) (pos 0) ≡ false
not_below n = ground arith

scrolled :
    (s : Screen) (l q : ℕ) (m : ℤ → ℕ)
    → s ≡ screen l q m
    → scroll s ≡ screen (if l == 25 then 24 else l) q (scroll s).charbuff
scrolled s l q m e = elim (Bool-cases (l == 25)) [ inl h ↦ rw (e, h) refl | inr h ↦ rw (e, h) refl ]

wrapped :
    (s : Screen) (l q : ℕ) (m : ℤ → ℕ)
    → s ≡ screen l q m
    → wrap s ≡ screen (if q == 80 then l + 1 else l) (if q == 80 then 0 else q) m
wrapped s l q m e = elim (Bool-cases (q == 80)) [
  | inl h ↦ rw (e, h, pos_suc l) refl
  | inr h ↦ rw (e, h) refl
]

draw_line : ℕ → ℕ → ℕ → ℕ
draw_line c l q = if c == b'\n' then l + 1 else if (c == 8) && (q == 0) then l - 1 else l

draw_colume : ℕ → ℕ → ℕ
draw_colume c q = if c == b'\n' then 0 else if c == 8 then (if q == 0 then 79 else q - 1) else q + 1

drawn :
    (c l q : ℕ) (m : ℤ → ℕ)
    → (c == 8) && (l == 0) && (q == 0) ≡ false
    → let s = draw c (screen l q m) in s ≡ screen (draw_line c l q) (draw_colume c q) s.charbuff
unfolding draw_line draw_colume
drawn c l q m h = elim (Bool-cases (c == b'\n')) [
  | inl n ↦ rw (n, pos_suc l) refl
  | inr n ↦ elim (Bool-cases (c == 8)) [
    | inl r ↦ elim (Bool-cases (q == 0)) [
      | inl z ↦
          let first : q ≡ 0 = ground arith in
          rw (n, r, first, below_zero, pos_pred l (ground arith)) refl
      | inr z ↦ rw (n, r, z, pos_pred q (ground arith), not_below (q - 1)) refl
    ]
    | inr r ↦ rw (n, r, pos_suc q) refl
  ]
]

-- A character moves the cursor one place on or, a backspace, one back, and never off the screen,
-- but for a backspace at the first place.
pub put_char-move :
    (c l q : ℕ) (s : Screen)
    → IsAt s l q
    → (c == 8) && (l == 0) && (q == 0) ≡ false
    → IsAt (put_char c s) (move_line c l q) (move_colume c q)
unfolding put_char draw_line draw_colume
put_char-move c l q s v h =
    let s0 = screen l q s.charbuff in
    let e : put_char c s ≡ put_char c s0 = ap (put_char c) (IsAt-screen s l q v) in
    let d = draw c s0 in
    let l1 = draw_line c l q in
    let q1 = draw_colume c q in
    let w = wrapped d l1 q1 d.charbuff (drawn c l q s.charbuff h) in
    let r =
      e
      ∙ scrolled (wrap d) (if q1 == 80 then l1 + 1 else l1) (if q1 == 80 then 0 else q1) d.charbuff
          w in
    record {
      line_is = ap (λ (x : Screen). x.line) r ∙ ap pos (ground (arith, h, v.line_in, v.colume_in));
      colume_is = ap (λ (x : Screen). x.colume) r ∙ ap pos (ground (arith, v.colume_in));
      line_in = ground (arith, v.line_in, v.colume_in);
      colume_in = ground (arith, v.line_in, v.colume_in);
    }

abbrev pub NoBackspace : List ℕ → Type 0
NoBackspace [] = Unit
NoBackspace (c ∷ cs) = ((c == 8) ≡ false) × NoBackspace cs

put_chars-IsAt :
    (cs : List ℕ) (l q : ℕ) (s : Screen)
    → IsAt s l q
    → NoBackspace cs
    → (l' : ℕ) × (q' : ℕ) × IsAt (put_chars cs s) l' q'
unfolding put_chars
put_chars-IsAt [] l q s v h = (l, q, v)
put_chars-IsAt (c ∷ cs) l q s v (h, hs) =
    put_chars-IsAt cs (move_line c l q) (move_colume c q) (put_char c s)
      (put_char-move c l q s v (rw h)) hs

-- `tty_write` of a text without a backspace leaves the cursor on the screen.
pub tty_write-IsAt :
    (cs : List ℕ) (l q : ℕ) (s : Screen)
    → IsAt s l q
    → NoBackspace cs
    → (l' : ℕ) × (q' : ℕ) × IsAt (tty_write cs s) l' q'
unfolding tty_write
tty_write-IsAt cs l q s v h =
    let (l', q', w) = put_chars-IsAt cs l q s v h in
    (
      l',
      q',
      record {
        line_is = w.line_is;
        colume_is = w.colume_is;
        line_in = w.line_in;
        colume_in = w.colume_in;
      },
    )

-- An ordinary character and a backspace: the cursor is back where it was, also over the end of a
-- line, as long as the screen does not scroll.
pub put_char-back :
    (c l q : ℕ) (s : Screen)
    → IsAt s l q
    → (c == b'\n') ≡ false
    → (c == 8) ≡ false
    → (l == 24) && (q == 79) ≡ false
    → IsAt (put_char 8 (put_char c s)) l q
put_char-back c l q s v n r h =
    let l1 = move_line c l q in
    let q1 = move_colume c q in
    let one = put_char-move c l q s v (rw r) in
    let two = put_char-move 8 l1 q1 (put_char c s) one (ground (arith, v.line_in, v.colume_in)) in
    record {
      line_is = two.line_is ∙ ap pos (ground (arith, v.line_in, v.colume_in));
      colume_is = two.colume_is ∙ ap pos (ground (arith, v.line_in, v.colume_in));
      line_in = v.line_in;
      colume_in = v.colume_in;
    }
