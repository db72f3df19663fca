-- ===== src/Keyboard/Examples.antt =====
-- Runs of the keyboard's handler, and each theorem at an input.
use chouryos.Base.{ℕ, ◌≡◌, refl, List, [], ◌∷◌, map, arith, u8}
use chouryos.Keyboard.{Keyboard, put_key, getone}
use chouryos.Keyboard.Queue.{IsValid, put_keys, drain, last_nine, drain-put_keys}
use chouryos.Keyboard.Keys.{IsChar}

abbrev idle : Keyboard
idle = record { keyhead = 7; keytail = 7; keybuff = λ i. 0; flag = 0 }

idle-IsValid : IsValid idle
idle-IsValid = record { head_in = omega arith; tail_in = omega arith }

-- Nine characters, from index 3 round to index 1.
abbrev full : Keyboard
full = record { keyhead = 2; keytail = 3; keybuff = λ i. i; flag = 0 }

full-IsValid : IsValid full
full-IsValid = record { head_in = omega arith; tail_in = omega arith }

abbrev typing : List ℕ
typing = 1 ∷ 2 ∷ 3 ∷ 4 ∷ 5 ∷ 6 ∷ 7 ∷ 8 ∷ 9 ∷ 10 ∷ 11 ∷ []

reads_the_last : drain 10 (put_keys typing idle) ≡ 3 ∷ 4 ∷ 5 ∷ 6 ∷ 7 ∷ 8 ∷ 9 ∷ 10 ∷ 11 ∷ []
unfolding drain put_keys put_key getone
reads_the_last = refl

drain-put_keys_example : drain 10 (put_keys typing idle) ≡ last_nine (map u8 typing)
drain-put_keys_example = drain-put_keys typing idle idle-IsValid refl

q_key-IsChar : IsChar 0x10
q_key-IsChar = record {
  small = omega arith;
  not_shift = (omega arith, omega arith);
  not_alt = omega arith;
  not_ctrl = omega arith;
}
