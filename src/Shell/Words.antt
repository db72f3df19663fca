-- ===== src/Shell/Words.antt =====
-- The arguments that the shell finds are the words of the line.
use chouryos.Base.{
  ℕ, suc, ◌+◌, ◌≡◌, refl, sym, ap, ◌∙◌, inl, inr, Bool, true, false, not, ◌&&◌, ◌==◌, if◌then◌else◌,
  List, [], ◌∷◌, map, length, ltb, some, ◌<◌, drop, drop_one-drop, arith, Bool-cases,
}
use chouryos.Shell.{blank, split_loop, split_command}

-- The string that starts at the head: the bytes up to the first 0.
unfoldable pub c_string : List ℕ → List ℕ
c_string [] = []
c_string (c ∷ cs) = if c == 0 then [] else c ∷ c_string cs

abbrev keep : List ℕ → List (List ℕ) → List (List ℕ)
keep [] ws = ws
keep (c ∷ w) ws = (c ∷ w) ∷ ws

-- The word at the head of the line, up to the first space, and the words behind it.
unfoldable pub head_word : List ℕ → List ℕ
head_word [] = []
head_word (c ∷ cs) = if c == blank then [] else c ∷ head_word cs

unfoldable pub later_words : List ℕ → List (List ℕ)
later_words [] = []
later_words (c ∷ cs) = if c == blank then keep (head_word cs) (later_words cs) else later_words cs

-- The words of a line, which spaces separate.
unfoldable pub words : List ℕ → List (List ℕ)
words line = keep (head_word line) (later_words line)

length-map : (f : ℕ → List ℕ) (xs : List ℕ) → length (map f xs) ≡ length xs
length-map f [] = refl
length-map f (x ∷ xs) = ap suc (length-map f xs)

-- No byte of the line is 0.
unfoldable pub no_end : List ℕ → Bool
no_end [] = true
no_end (c ∷ cs) = not (c == 0) && no_end cs

no_end-head : (c : ℕ) (cs : List ℕ) → no_end (c ∷ cs) ≡ true → (c == 0) ≡ false
unfolding no_end
no_end-head c cs v = ground (arith, v)

no_end-tail : (c : ℕ) (cs : List ℕ) → no_end (c ∷ cs) ≡ true → no_end cs ≡ true
unfolding no_end
no_end-tail c cs v = ground (arith, v)

c_string-split :
    (i : ℕ) (flag : Bool) (line : List ℕ)
    → no_end line ≡ true
    → c_string (split_loop i flag line).0 ≡ head_word line
unfolding c_string split_loop head_word
c_string-split i flag [] v = refl
c_string-split i flag (c ∷ cs) v = elim (Bool-cases (c == blank)) [
  | inl e ↦ rw e refl
  | inr e ↦
      rw (e, no_end-head c cs v) (ap (c ∷◌) (c_string-split (i + 1) _ cs (no_end-tail c cs v)))
]

-- The pointers into the whole line, of which the part from `i` on is left.
arguments :
    (line : List ℕ) (i : ℕ) (flag : Bool) (whole : List ℕ)
    → no_end line ≡ true
    → drop i whole ≡ (split_loop i flag line).0
    → map (λ j. c_string (drop j whole)) (split_loop i flag line).1
      ≡ (if flag then words line else later_words line)
unfolding split_loop words head_word later_words
arguments [] i true whole v h = refl
arguments [] i false whole v h = refl
arguments (c ∷ cs) i flag whole v h = elim (Bool-cases (c == blank)) [
  | inl e ↦ elim (Bool-cases flag) [
    | inl t ↦ rw (t, e) (arguments cs (i + 1) true whole v' (next ∙ rw (t, e) refl))
    | inr f ↦ rw (f, e) (arguments cs (i + 1) true whole v' (next ∙ rw (f, e) refl))
  ]
  | inr e ↦ elim (Bool-cases flag) [
    | inl t ↦
        let word : c_string (drop i whole) ≡ c ∷ head_word cs =
          ap c_string h ∙ c_string-split i flag (c ∷ cs) v ∙ rw e refl in
        rw (t, e, word)
          (ap ((c ∷ head_word cs) ∷◌) (arguments cs (i + 1) false whole v' (next ∙ rw (t, e) refl)))
    | inr f ↦ rw (f, e) (arguments cs (i + 1) false whole v' (next ∙ rw (f, e) refl))
  ]
]
  where
    v' : no_end cs ≡ true
    v' = no_end-tail c cs v

    ahead : i + 1 ≡ suc i
    ahead = omega arith

    next : drop (i + 1) whole ≡ drop 1 (split_loop i flag (c ∷ cs)).0
    next = ap (λ (n : ℕ). drop n whole) ahead ∙ sym (drop_one-drop i whole) ∙ ap (drop 1) h

-- A command line of less than 100 bytes and less than 20 words, without a byte 0, fits the arrays, and
-- the strings that the pointers of `nargv` point at are its words, in their order, where words are
-- what spaces separate, any number of spaces, also at both ends.
pub split_command-words :
    (command : List ℕ)
    → no_end command ≡ true
    → length command < 100
    → length (words command) < 20
    → (line : List ℕ) × (nargv : List ℕ) × (split_command command ≡ some (line, nargv))
      × (map (λ i. c_string (drop i line)) nargv ≡ words command)
unfolding split_command
split_command-words command v short few =
    let (line, nargv) = split_loop 0 true command in
    let same = arguments command 0 true line v refl in
    let count : length nargv ≡ length (words command) =
      sym (length-map (λ i. c_string (drop i line)) nargv) ∙ ap length same in
    let fits : ltb (length command) 100 && ltb (length nargv) 20 ≡ true = ground (arith, count) in
    (line, nargv, rw fits refl, same)
