-- ===== src/Fat/Path/Names.antt =====
-- The name that `Fat_open` looks for, from a path with a dot.
use chouryos.Base.{
  ℕ, zero, suc, ◌+◌, ◌≤◌, ◌<◌, ◌≡◌, ◌≢◌, ◌↔◌, refl, sym, ap, ap₂, ne→==, ◌∙◌, arith, Bool-cases,
  inl, inr, true, false, List, [], ◌∷◌, ◌++◌, length, take, get_or, ◌==◌, ==_iff, ltb, ltb→lt,
  length-append, if◌then◌else◌, ◌&&◌, ◌-◌, replicate, length-replicate, map,
}
use mathlib.Core.Bool.{true≢false}
use chouryos.Hd.{Sector}
use chouryos.Fat.Path.{cmpname, before_dot, behind_dot, padded, upper, short_name, splitpath}

-- No character of a name is the dot.
abbrev pub IsDotless : List ℕ → Type 0
IsDotless [] = 0 ≤ 0
IsDotless (c ∷ cs) = (c ≢ b'.') × IsDotless cs

before_dot-append : (base ext : List ℕ) → IsDotless base → before_dot (base ++ (b'.' ∷ ext)) ≡ base
unfolding before_dot
before_dot-append [] ext h = refl
before_dot-append (c ∷ cs) ext (ne, h) =
    let other : (c == b'.') ≡ false = ne→== c b'.' ne in
    rw other (ap (λ x. c ∷ x) (before_dot-append cs ext h))

behind_dot-append : (base ext : List ℕ) → IsDotless base → behind_dot (base ++ (b'.' ∷ ext)) ≡ ext
unfolding behind_dot
behind_dot-append [] ext h = refl
behind_dot-append (c ∷ cs) ext (ne, h) =
    let other : (c == b'.') ≡ false = ne→== c b'.' ne in rw other (behind_dot-append cs ext h)

take_all : (n : ℕ) (cs : List ℕ) → length cs ≤ n → take n cs ≡ cs
take_all zero [] h = refl
take_all zero (c ∷ cs) h = absurd (omega arith)
take_all (suc n) [] h = refl
take_all (suc n) (c ∷ cs) h = ap (λ x. c ∷ x) (take_all n cs (omega arith))

short_name-padded : (base : List ℕ) → length base ≤ 8 → short_name base ≡ padded 8 base
short_name-padded base l = let short : ltb 8 (length base) ≡ false = ground arith in rw short refl

splitpath-append :
    (base ext : List ℕ)
    → IsDotless base
    → length base ≤ 8
    → length ext ≤ 3
    → splitpath (base ++ (b'.' ∷ ext)) ≡ padded 8 base ++ padded 3 ext
unfolding splitpath
splitpath-append base ext h l m =
    let short : short_name base ≡ padded 8 base = short_name-padded base l in
    ap₂ (λ x y. short_name x ++ padded 3 (take 3 y)) (before_dot-append base ext h)
      (behind_dot-append base ext h)
    ∙ ap₂ (λ x y. x ++ padded 3 y) short (take_all 3 ext m)

-- The bytes from `at` on are these.
abbrev pub HasName : List ℕ → Sector → ℕ → Type 0
HasName cs b at = (i : ℕ) → i < length cs → b (at + i) ≡ get_or cs i 0

HasName-cons :
    (c : ℕ) (cs : List ℕ) (b : Sector) (at : ℕ)
    → c ≡ b at
    → HasName cs b (at + 1)
    → HasName (c ∷ cs) b at
HasName-cons c cs b at e h zero l = ap b (omega arith) ∙ sym e
HasName-cons c cs b at e h (suc i) l = ap b (omega arith) ∙ h i (omega arith)

pub cmpname-HasName :
    (cs : List ℕ) (b : Sector) (at : ℕ) → (cmpname cs b at ≡ true) ↔ HasName cs b at
unfolding cmpname
cmpname-HasName [] b at = (λ e i l. absurd (omega arith), λ h. refl)
cmpname-HasName (c ∷ cs) b at =
    let rest = cmpname-HasName cs b (at + 1) in
    elim (Bool-cases (c == b at)) [
      | inl e ↦
          let same : cmpname (c ∷ cs) b at ≡ cmpname cs b (at + 1) = rw e refl in
          (
            λ p. HasName-cons c cs b at ((==_iff _ _).0 e) (rest.0 (sym same ∙ p)),
            λ h. same ∙ rest.1 (λ i l. ap b (omega arith) ∙ h (suc i) (omega arith)),
          )
      | inr e ↦
          let no : cmpname (c ∷ cs) b at ≡ false = rw e refl in
          (
            λ p. absurd (true≢false (sym p ∙ no)),
            λ h.
                let there : b (at + 0) ≡ c = h 0 (omega arith) in
                let here : b at ≡ b (at + 0) = ap b (omega arith) in absurd (ground arith),
          )
    ]

-- A letter of `a` to `z` as its capital, from the codes of ASCII: 97 is `a`, and 65 is `A`.
abbrev pub capital : ℕ → ℕ
capital c = if ltb 96 c && ltb c 123 then 65 + (c - 97) else c

-- The `n` bytes from `at` on are the characters in capitals, and 32, a space, behind them.
abbrev pub HasPart : ℕ → List ℕ → Sector → ℕ → Type 0
HasPart n cs b at =
    (i : ℕ) → i < n → b (at + i) ≡ (if ltb i (length cs) then capital (get_or cs i 0) else 32)

get_or-replicate : (n i c : ℕ) → i < n → get_or (replicate n c) i 0 ≡ c
get_or-replicate zero i c h = absurd (omega arith)
get_or-replicate (suc n) zero c h = refl
get_or-replicate (suc n) (suc i) c h = get_or-replicate n i c (omega arith)

padded-get_or :
    (cs : List ℕ) (n i : ℕ)
    → length cs ≤ n
    → i < n
    → get_or (padded n cs) i 0 ≡ (if ltb i (length cs) then capital (get_or cs i 0) else 32)
padded-get_or [] n i h l =
    let whole : n - 0 ≡ n = omega arith in
    let nothing : ltb i 0 ≡ false = ground arith in
    rw (whole, nothing) (get_or-replicate n i b' ' l)
padded-get_or (c ∷ cs) zero i h l = absurd (omega arith)
padded-get_or (c ∷ cs) (suc n) zero h l = ground arith
padded-get_or (c ∷ cs) (suc n) (suc i) h l =
    let rest = padded-get_or cs n i (omega arith) (omega arith) in
    let same : ltb (suc i) (length (c ∷ cs)) ≡ ltb i (length cs) = ground arith in
    let less : suc n - suc (length cs) ≡ n - length cs = omega arith in rw (same, less) rest

length-upper : (cs : List ℕ) → length (map upper cs) ≡ length cs
length-upper [] = refl
length-upper (c ∷ cs) = ap suc (length-upper cs)

pub length-padded : (cs : List ℕ) (n : ℕ) → length cs ≤ n → length (padded n cs) ≡ n
length-padded cs n h =
    let spaces : List ℕ = replicate (n - length cs) b' ' in
    let space : ℕ = b' ' in
    let fill : length spaces ≡ n - length cs = length-replicate (n - length cs) space in
    omega (arith, length-append (map upper cs) spaces, length-upper cs, fill)

get_or-append_left :
    (xs ys : List ℕ) (i : ℕ) → i < length xs → get_or (xs ++ ys) i 0 ≡ get_or xs i 0
get_or-append_left [] ys i h = absurd (omega arith)
get_or-append_left (x ∷ xs) ys zero h = refl
get_or-append_left (x ∷ xs) ys (suc i) h = get_or-append_left xs ys i (omega arith)

get_or-append_right : (xs ys : List ℕ) (i : ℕ) → get_or (xs ++ ys) (length xs + i) 0 ≡ get_or ys i 0
get_or-append_right [] ys i =
    let none_left : 0 + i ≡ i = omega arith in ap (λ n. get_or ys n 0) none_left
get_or-append_right (x ∷ xs) ys i =
    let carry : length (x ∷ xs) + i ≡ suc (length xs + i) = omega arith in
    ap (λ n. get_or (x ∷ (xs ++ ys)) n 0) carry ∙ get_or-append_right xs ys i

HasName-padded :
    (base ext : List ℕ) (b : Sector) (at : ℕ)
    → length base ≤ 8
    → length ext ≤ 3
    → HasName (padded 8 base ++ padded 3 ext) b at
      ↔ (HasPart 8 base b at × HasPart 3 ext b (at + 8))
HasName-padded base ext b at l m =
    let name = padded 8 base in
    let n8 = length-padded base 8 l in
    let n3 = length-padded ext 3 m in
    let whole : length (name ++ padded 3 ext) ≡ 11 =
      omega (arith, length-append name (padded 3 ext)) in
    let left : (i : ℕ)
        → i < 8
        → get_or (name ++ padded 3 ext) i 0
          ≡ (if ltb i (length base) then capital (get_or base i 0) else 32) =
      λ i h. get_or-append_left name (padded 3 ext) i (omega arith) ∙ padded-get_or base 8 i l h in
    let right : (i : ℕ)
        → i < 3
        → get_or (name ++ padded 3 ext) (8 + i) 0
          ≡ (if ltb i (length ext) then capital (get_or ext i 0) else 32) =
      λ i h.
        ap (λ n. get_or (name ++ padded 3 ext) (n + i) 0) (sym n8)
        ∙ get_or-append_right name (padded 3 ext) i
        ∙ padded-get_or ext 3 i m h in
    (
      λ h. (
        λ i p. h i (omega arith) ∙ left i p,
        λ i p. ap b (omega arith) ∙ h (8 + i) (omega arith) ∙ right i p,
      ),
      λ (p, q) i h. elim (Bool-cases (ltb i 8)) [
        | inl e ↦ p i (ltb→lt i 8 e) ∙ sym (left i (ltb→lt i 8 e))
        | inr e ↦
            let back : 8 + (i - 8) ≡ i = ground (arith, e) in
            let low : i - 8 < 3 = ground (arith, e) in
            ap b (omega (arith, back))
            ∙ q (i - 8) low
            ∙ sym (right (i - 8) low)
            ∙ ap (λ n. get_or (name ++ padded 3 ext) n 0) back
      ],
    )

-- A file that is opened by a path of up to 8 characters that are not dots, a dot and up to 3 more
-- characters, in upper or lower case: an entry of a directory has the name that is looked for exactly
-- where its first 8 bytes are the characters before the dot and the next 3 those behind it, with a
-- letter of `a` to `z` as its capital, any other character as it is, and spaces behind each part.
pub cmpname-splitpath :
    (base ext : List ℕ) (b : Sector) (at : ℕ)
    → IsDotless base
    → length base ≤ 8
    → length ext ≤ 3
    → (cmpname (splitpath (base ++ (b'.' ∷ ext))) b at ≡ true)
      ↔ (HasPart 8 base b at × HasPart 3 ext b (at + 8))
cmpname-splitpath base ext b at h l m =
    let name = splitpath-append base ext h l m in
    let (there, back) = cmpname-HasName (padded 8 base ++ padded 3 ext) b at in
    let (parts, bytes) = HasName-padded base ext b at l m in
    rw name (λ e. parts (there e), λ p. back (bytes p))
