-- ===== src/Fat/Path.antt =====
-- kernel/fat.c: the names of files, from `getchecksum` to `splitpath`. A name has 8 characters and 3
-- more, with spaces behind the shorter ones; a path has no 0 in it.
pub mod Names
use chouryos.Base.{
  ℕ, ◌+◌, ◌-◌, ◌/◌, ◌%◌, Bool, true, false, ◌&&◌, List, [], ◌∷◌, ◌++◌, map, length, take, replicate,
  ◌==◌, ltb, leb, if◌then◌else◌, u8,
}
use chouryos.Hd.{Sector}

-- `getchecksum`
unfoldable pub sum_from : List ℕ → ℕ → ℕ
sum_from [] sum = sum
sum_from (c ∷ cs) sum = sum_from cs (u8 ((if sum % 2 == 1 then 0x80 else 0) + sum / 2 + c))

unfoldable pub getchecksum : List ℕ → ℕ
getchecksum name = sum_from name 0

-- `cmpname`: of a name with the characters in memory from `at` on.
unfoldable pub cmpname : List ℕ → Sector → ℕ → Bool
cmpname [] b at = true
cmpname (c ∷ cs) b at = let rest = cmpname cs b (at + 1) in if c == b at then rest else false

-- `toupper` of a letter that `islower`, any other character as it is.
abbrev pub upper : ℕ → ℕ
upper c = if leb 97 c && leb c 122 then c - 32 else c

-- What is before the first dot of a path, and what is behind it.
unfoldable pub before_dot : List ℕ → List ℕ
before_dot [] = []
before_dot (c ∷ cs) = let rest = before_dot cs in if c == b'.' then [] else c ∷ rest

unfoldable pub behind_dot : List ℕ → List ℕ
behind_dot [] = []
behind_dot (c ∷ cs) = let rest = behind_dot cs in if c == b'.' then cs else rest

-- Upper case, and spaces up to `n` characters.
abbrev pub padded : ℕ → List ℕ → List ℕ
padded n cs = map upper cs ++ replicate (n - length cs) b' '

abbrev pub short_name : List ℕ → List ℕ
short_name cs = if ltb 8 (length cs) then take 6 cs ++ (b'~' ∷ b'1' ∷ []) else padded 8 cs

unfoldable pub splitpath : List ℕ → List ℕ
splitpath path = short_name (before_dot path) ++ padded 3 (take 3 (behind_dot path))
