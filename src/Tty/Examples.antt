-- ===== src/Tty/Examples.antt =====
-- Runs of the screen and of the line, and each theorem at an input.
use chouryos.Base.{◌≡◌, refl, some, [], ◌∷◌, arith}
use chouryos.Base.Int.{pos, negsuc, ◌+ℤ◌, ◌-ℤ◌, ◌*ℤ◌}
use chouryos.Tty.{Screen, put_char, put_chars, tty_write, read_line, tty_read}
use chouryos.Tty.Cursor.{IsAt, put_char-move}
use chouryos.Tty.Edit.{lines, edit, tty_read-edit}

program : Unit {0}
unfolding put_char put_chars tty_write read_line tty_read edit ◌+ℤ◌ ◌-ℤ◌ ◌*ℤ◌
program = tt

-- The cursor is at the last place of the screen, and the memory shows its own index.
abbrev full : Screen
full = record {
  line = pos 24;
  colume = pos 79;
  charbuff = λ i. elim i [ pos n ↦ n | negsuc n ↦ 0 ];
}

full-IsAt : IsAt full 24 79
full-IsAt = record {
  line_is = refl;
  colume_is = refl;
  line_in = omega arith;
  colume_in = omega arith;
}

scrolls : (put_char 65 full).charbuff (pos 1919) ≡ 0x0741
unfolding program
scrolls = refl

put_char-move_example : IsAt (put_char 65 full) 24 0
put_char-move_example = put_char-move 65 24 79 full full-IsAt refl

-- The end of a line that is not the last.
abbrev line_end : Screen
line_end = record full { line = pos 3 }

-- `a`, a backspace, `b` and a newline make a line with the last character first.
edits : edit 9 [] (97 ∷ 8 ∷ 98 ∷ 10 ∷ []) ≡ some (10 ∷ 98 ∷ [])
unfolding program
edits = refl

tty_read-edit_example :
    lines (tty_read 9 (λ i. 0) (97 ∷ 8 ∷ 98 ∷ 10 ∷ []) full) ≡ edit 9 [] (97 ∷ 8 ∷ 98 ∷ 10 ∷ [])
tty_read-edit_example = tty_read-edit 9 (λ i. 0) (97 ∷ 8 ∷ 98 ∷ 10 ∷ []) full
