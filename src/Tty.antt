-- ===== src/Tty.antt =====
-- kernel/tty.c: the text screen with its cursor, and the editing of a line that is read. The two
-- variables are an `int` each, which can become negative.
pub mod Cursor
pub mod Edit
mod Examples
use chouryos.Base.{
  ℕ, zero, suc, ◌+◌, ◌-◌, ◌*◌, ◌/◌, ◌^◌, bit_or, Bool, true, false, ◌&&◌, Option, none, some, List,
  [], ◌∷◌, ◌++◌, ◌==◌, ltb, leb, if◌then◌else◌, u8, u16, update,
}
use chouryos.Base.Int.{ℤ, pos, negsuc, ◌+ℤ◌, ◌-ℤ◌, ◌*ℤ◌, ltb_ℤ}

-- `line`, `colume`, and the video memory by its index from `charbuff`.
pub record Screen : Type 0 where
  pub line : ℤ
  pub colume : ℤ
  pub charbuff : ℤ → ℕ

abbrev pub eq_ℤ : ℤ → ℕ → Bool
eq_ℤ (pos a) b = a == b
eq_ℤ (negsuc a) b = false

abbrev pub same_ℤ : ℤ → ℤ → Bool
same_ℤ a (pos b) = eq_ℤ a b
same_ℤ (pos a) (negsuc b) = false
same_ℤ (negsuc a) (negsuc b) = a == b

abbrev pub index : Screen → ℤ
index s = s.line *ℤ 80 +ℤ s.colume

-- `charbuff[line * 80 + colume] = v`
abbrev pub poke : ℕ → Screen → Screen
poke v s = record s { charbuff = λ i. if same_ℤ i (index s) then u16 v else s.charbuff i }

-- A `char` is signed; the bits above the low 16 go when it is stored.
abbrev pub cell : ℕ → ℕ
cell c = bit_or (if ltb c 128 then c else c + 2 ^ 32 - 256) 0x0700

abbrev pub next_line : Screen → Screen
next_line s = record s { line = s.line +ℤ pos 1; colume = pos 0 }

-- The three cases of the character.
abbrev pub draw : ℕ → Screen → Screen
draw c s =
    if c == b'\n'
    then next_line s
    else if c == 8
    then (let b = record s { colume = s.colume -ℤ pos 1 } in
        poke 0x0720 (
          if ltb_ℤ b.colume (pos 0)
          then record b { line = b.line -ℤ pos 1; colume = pos 79 }
          else b))
    else (let p = poke (cell c) s in record p { colume = s.colume +ℤ pos 1 })

abbrev pub wrap : Screen → Screen
wrap s = if eq_ℤ s.colume 80 then next_line s else s

-- `memcpy` of 26 lines, from the second line to the first.
abbrev pub in_copy : ℤ → Bool
in_copy (pos i) = ltb i (80 * 26)
in_copy (negsuc i) = false

abbrev pub scroll : Screen → Screen
scroll s =
    if eq_ℤ s.line 25
    then record s {
      charbuff = λ i. if in_copy i then s.charbuff (i +ℤ pos 80) else s.charbuff i;
      line = pos 24;
    }
    else s

-- The body of the loop of `tty_write`.
unfoldable pub put_char : ℕ → Screen → Screen
put_char c s = scroll (wrap (draw c s))

unfoldable pub put_chars : List ℕ → Screen → Screen
put_chars [] s = s
put_chars (c ∷ cs) s = put_chars cs (put_char c s)

-- `tty_write`. The position of the cursor that goes to the ports is that of the result.
unfoldable pub tty_write : List ℕ → Screen → Screen
tty_write cs s = poke 0x0720 (put_chars cs s)

-- `printf("%c", a)`: a character 0 ends the string.
abbrev pub echo : ℕ → Screen → Screen
echo a s = if a == 0 then tty_write [] s else tty_write (a ∷ []) s

-- What `tty_read` returns, with the buffer, the screen, and the keys that are left.
pub record Line : Type 0 where
  pub count : ℕ
  pub buff : ℕ → ℕ
  pub screen : Screen
  pub keys : List ℕ

-- `tty_read` from the loop on, over the characters that `getone` gives; `none` where they run out
-- and the process blocks.
unfoldable pub read_line : List ℕ → ℕ → Line → Option Line
read_line [] len x = if ltb x.count len then none else some (record x { count = len; keys = [] })
read_line (a ∷ keys) len x =
    let rubbed = record x {
      count = x.count - 1;
      buff = update x.buff (x.count - 1) 32;
      screen = echo a x.screen;
      keys = keys;
    } in
    let typed = record x {
      count = x.count + 1;
      buff = update x.buff x.count a;
      screen = echo a x.screen;
      keys = keys;
    } in
    let next =
      if a == 8 then (if x.count == 0 then record x { keys = keys } else rubbed) else typed in
    let rest = read_line keys len next in
    if ltb x.count len
    then (if a == b'\n' then some typed else rest)
    else some (record x { count = len; keys = a ∷ keys })

unfoldable pub tty_read : ℕ → (ℕ → ℕ) → List ℕ → Screen → Option Line
tty_read len buff keys s =
    read_line keys len (record { count = 0; buff = buff; screen = s; keys = keys })
