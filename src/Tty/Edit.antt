-- ===== src/Tty/Edit.antt =====
-- The editing of a line against a stack of characters.
use chouryos.Base.{
  ℕ, zero, suc, ◌+◌, ◌-◌, ◌≤◌, ◌≡◌, refl, ap, ◌∙◌, Option, none, some, List, [], ◌∷◌, arith, ◌==◌,
  Bool-cases, inl, inr, ltb, if◌then◌else◌, update, update_self, update_ne, length,
}
use chouryos.Tty.{Screen, echo, Line, read_line, tty_read}

-- The first `n` characters of a buffer, the last one first.
abbrev pub last_first : ℕ → (ℕ → ℕ) → List ℕ
last_first zero b = []
last_first (suc n) b = b n ∷ last_first n b

abbrev pub line_of : Line → List ℕ
line_of x = last_first x.count x.buff

abbrev pub rub : List ℕ → List ℕ
rub [] = []
rub (b ∷ bs) = bs

-- The line that a sequence of keys makes, on a stack: a backspace takes the last character off, a
-- newline ends the line, and so does the character that fills it.
unfoldable pub edit : ℕ → List ℕ → List ℕ → Option (List ℕ)
edit len line [] = if ltb (length line) len then none else some line
edit len line (a ∷ keys) =
    let rest = edit len (if a == 8 then rub line else a ∷ line) keys in
    if ltb (length line) len then (if a == b'\n' then some (a ∷ line) else rest) else some line

abbrev pub lines : Option Line → Option (List ℕ)
lines none = none
lines (some x) = some (line_of x)

length-last_first : (n : ℕ) (b : ℕ → ℕ) → length (last_first n b) ≡ n
length-last_first zero b = refl
length-last_first (suc n) b = ap suc (length-last_first n b)

last_first-update : (n m v : ℕ) (b : ℕ → ℕ) → n ≤ m → last_first n (update b m v) ≡ last_first n b
last_first-update zero m v b h = refl
last_first-update (suc n) m v b h =
    rw (update_ne b m n v (omega arith), last_first-update n m v b (omega arith))

-- A backspace takes the last character off, if there is one.
last_first-rub :
    (n v : ℕ) (b : ℕ → ℕ) → last_first (n - 1) (update b (n - 1) v) ≡ rub (last_first n b)
last_first-rub zero v b = refl
last_first-rub (suc n) v b =
    let e : suc n - 1 ≡ n = omega arith in rw e (last_first-update n n v b (omega arith))

rubbed : ℕ → List ℕ → Line → Line
rubbed a keys x = record x {
  count = x.count - 1;
  buff = update x.buff (x.count - 1) 32;
  screen = echo a x.screen;
  keys = keys;
}

typed : ℕ → List ℕ → Line → Line
typed a keys x = record x {
  count = x.count + 1;
  buff = update x.buff x.count a;
  screen = echo a x.screen;
  keys = keys;
}

line_of-type : (a : ℕ) (keys : List ℕ) (x : Line) → line_of (typed a keys x) ≡ a ∷ line_of x
unfolding typed
line_of-type a keys x =
    let e : x.count + 1 ≡ suc x.count = omega arith in
    rw (e, update_self x.buff x.count a, last_first-update x.count x.count a x.buff (omega arith))

line_of-rubbed :
    (a : ℕ) (keys : List ℕ) (x : Line)
    → line_of (if x.count == 0 then record x { keys = keys } else rubbed a keys x) ≡ rub (line_of x)
unfolding rubbed
line_of-rubbed a keys x = elim (Bool-cases (x.count == 0)) [
  | inl z ↦ let none_typed : x.count ≡ 0 = ground arith in rw (z, none_typed)
  | inr z ↦ rw z (last_first-rub x.count 32 x.buff)
]

edited :
    (keys : List ℕ) (len : ℕ) (x : Line)
    → x.count ≤ len
    → lines (read_line keys len x) ≡ edit len (line_of x) keys
unfolding read_line edit rubbed typed
edited [] len x h = elim (Bool-cases (ltb x.count len)) [
  | inl l ↦ rw (length-last_first x.count x.buff, l)
  | inr l ↦
      let full : x.count ≡ len = ground arith in rw (length-last_first x.count x.buff, l, full)
]
edited (a ∷ keys) len x h = elim (Bool-cases (ltb x.count len)) [
  | inr l ↦
      let full : x.count ≡ len = ground arith in rw (length-last_first x.count x.buff, l, full)
  | inl l ↦ elim (Bool-cases (a == b'\n')) [
    | inl n ↦ rw (length-last_first x.count x.buff, l, n) (ap some (line_of-type a keys x))
    | inr n ↦ elim (Bool-cases (a == 8)) [
      | inl r ↦
          rw (length-last_first x.count x.buff, l, n, r)
            (edited keys len (if x.count == 0 then record x { keys = keys } else rubbed a keys x)
                (ground arith)
              ∙ ap (λ c. edit len c keys) (line_of-rubbed a keys x))
      | inr r ↦
          rw (length-last_first x.count x.buff, l, n, r)
            (edited keys len (typed a keys x) (ground arith)
              ∙ ap (λ c. edit len c keys) (line_of-type a keys x))
    ]
  ]
]

-- `tty_read` returns, in its buffer, the line that the keys make by editing a stack of characters,
-- and blocks exactly where the keys do not end the line.
pub tty_read-edit :
    (len : ℕ) (buff : ℕ → ℕ) (keys : List ℕ) (s : Screen)
    → lines (tty_read len buff keys s) ≡ edit len [] keys
unfolding tty_read
tty_read-edit len buff keys s = edited keys len _ (omega arith)
