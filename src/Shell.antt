-- ===== src/Shell.antt =====
-- init/main.c: how the shell takes a command line apart. The line is the bytes of `commad` up to the
-- final 0, and an argument is the index at which its pointer in `nargv` points.
pub mod Words
mod Examples
use chouryos.Base.{
  ℕ, ◌+◌, Bool, true, false, not, ◌&&◌, ◌==◌, if◌then◌else◌, List, [], ◌∷◌, length, ltb, Option,
  none, some,
}

abbrev pub blank : ℕ
blank = 32

-- The loop over the line from index `i` on: the line afterwards, and the pointers.
unfoldable pub split_loop : ℕ → Bool → List ℕ → List ℕ × List ℕ
split_loop i flag [] = ([], [])
split_loop i flag (c ∷ cs) =
    let starts = flag && not (c == blank) in
    let flag' = if starts then false else flag in
    let (line, nargv) = split_loop (i + 1) (if c == blank then true else flag') cs in
    ((if c == blank then 0 else c) ∷ line, if starts then i ∷ nargv else nargv)

-- `commad` has 100 bytes and `nargv` 20 pointers, of which a last one is to be null: a line that does
-- not fit them would be written past their ends.
unfoldable pub split_command : List ℕ → Option (List ℕ × List ℕ)
split_command command =
    let (line, nargv) = split_loop 0 true command in
    if ltb (length command) 100 && ltb (length nargv) 20 then some (line, nargv) else none
