-- ===== src/Shell/Examples.antt =====
-- A command line, and the theorem at it.
use chouryos.Base.{ℕ, ◌≡◌, refl, List, [], ◌∷◌, map, drop, some, arith}
use chouryos.Shell.{split_loop, split_command}
use chouryos.Shell.Words.{c_string, words, head_word, later_words, no_end, split_command-words}

-- ` ls  -l`
abbrev list_files : List ℕ
list_files = 32 ∷ 108 ∷ 115 ∷ 32 ∷ 32 ∷ 45 ∷ 108 ∷ []

split_list : split_command list_files ≡ some (0 ∷ 108 ∷ 115 ∷ 0 ∷ 0 ∷ 45 ∷ 108 ∷ [], 1 ∷ 5 ∷ [])
unfolding split_command split_loop
split_list = refl

words_list : words list_files ≡ (108 ∷ 115 ∷ []) ∷ (45 ∷ 108 ∷ []) ∷ []
unfolding words head_word later_words
words_list = refl

split_command-words_example :
    (line : List ℕ) × (nargv : List ℕ) × (split_command list_files ≡ some (line, nargv))
    × (map (λ i. c_string (drop i line)) nargv ≡ words list_files)
unfolding no_end words head_word later_words
split_command-words_example = split_command-words list_files refl (omega arith) (omega arith)
