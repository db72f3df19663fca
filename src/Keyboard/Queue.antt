-- ===== src/Keyboard/Queue.antt =====
-- The ring of the keyboard against a queue of at most nine characters that drops the oldest.
use chouryos.Base.{
  ℕ, zero, suc, ◌+◌, ◌-◌, ◌%◌, ◌≤◌, ◌<◌, ◌≡◌, refl, ap, ap₂, ◌∙◌, none, some, List, [], ◌∷◌, ◌++◌,
  arith, ◌==◌, if◌then◌else◌, u8, update, update_ne, length, drop, Bool-cases, ne→==, ◌⊎◌, map,
  append-nil, append_assoc, length-append, length-drop, drop-append, drop_one-drop, inl, inr,
}
use chouryos.Keyboard.{Keyboard, put_key, getone}

pub record IsValid (k : Keyboard) : Type 0 where
  pub head_in : k.keyhead < 10
  pub tail_in : k.keytail < 10

-- The `n` characters from index `t` on, going round at 10.
abbrev window : (ℕ → ℕ) → ℕ → ℕ → List ℕ
window buf t zero = []
window buf t (suc n) = buf t ∷ window buf ((t + 1) % 10) n

abbrev count : Keyboard → ℕ
count k = (k.keyhead + 10 - k.keytail) % 10

-- What the ring holds, oldest first.
abbrev pub contents : Keyboard → List ℕ
contents k = window k.keybuff k.keytail (count k)

-- The queue that the ring stands for.
unfoldable pub push : ℕ → List ℕ → List ℕ
push x q = if length q == 9 then drop 1 q ++ (x ∷ []) else q ++ (x ∷ [])

length-window : (buf : ℕ → ℕ) (t n : ℕ) → length (window buf t n) ≡ n
length-window buf t zero = refl
length-window buf t (suc n) = ap suc (length-window buf ((t + 1) % 10) n)

-- A write just past a window of fewer than ten extends it.
window-update :
    (buf : ℕ → ℕ) (x n t i : ℕ)
    → t < 10
    → n < 10
    → i ≡ (t + n) % 10
    → window (update buf i x) t (suc n) ≡ window buf t n ++ (x ∷ [])
window-update buf x zero t i ht hn e = ap (λ y. y ∷ []) (ground arith)
window-update buf x (suc n) t i ht hn e =
    ap₂ ◌∷◌ (update_ne buf i t x (ground arith))
      (window-update buf x n ((t + 1) % 10) i (omega arith) (omega arith) (omega arith))

pub put_key-IsValid : (a : ℕ) (k : Keyboard) → IsValid k → IsValid (put_key a k)
unfolding put_key
put_key-IsValid a k v = ground arith

contents-eq :
    (k : Keyboard) (t n : ℕ) → k.keytail ≡ t → count k ≡ n → contents k ≡ window k.keybuff t n
contents-eq k t n e c = ap₂ (window k.keybuff) e c

-- A character that is put into the ring goes to the end of its queue.
pub put_key-push :
    (a : ℕ) (k : Keyboard) → IsValid k → contents (put_key a k) ≡ push (u8 a) (contents k)
unfolding put_key push
put_key-push a k v = elim (Bool-cases ((k.keyhead + 1) % 10 == k.keytail)) [
  | inl full ↦
      let c : count k ≡ 9 = ground arith in
      contents-eq (put_key a k) ((k.keytail + 1) % 10) 9 (ground arith) (ground arith)
      ∙ window-update k.keybuff (u8 a) 8 ((k.keytail + 1) % 10) k.keyhead (omega arith)
          (omega arith) (ground arith)
      ∙ rw c
  | inr room ↦
      contents-eq (put_key a k) k.keytail (suc (count k)) (ground arith) (ground arith)
      ∙ window-update k.keybuff (u8 a) (count k) k.keytail k.keyhead v.tail_in (omega arith)
          (ground arith)
      ∙ rw (length-window, ne→== (count k) 9 (ground arith))
]

-- `getone` takes the oldest character, and blocks exactly on an empty ring.
pub getone-contents :
    (k : Keyboard)
    → IsValid k
    → ((contents k ≡ []) × (getone k ≡ none))
      ⊎ ((x : ℕ) × (k' : Keyboard) × (getone k ≡ some (x, k'))
          × IsValid k'
          × (contents k ≡ x ∷ contents k'))
unfolding getone
getone-contents k v = elim (Bool-cases (k.keyhead == k.keytail)) [
  | inl e ↦ let c : count k ≡ 0 = ground arith in inl (rw c, rw e)
  | inr e ↦
      let next : Keyboard = record k { keytail = (k.keytail + 1) % 10 } in
      let wrap : (if k.keytail + 1 == 10 then 0 else k.keytail + 1) ≡ (k.keytail + 1) % 10 =
        ground arith in
      let c : count k ≡ suc (count next) = ground arith in
      inr (k.keybuff k.keytail, next, rw (e, wrap), ground arith, rw c)
]

unfoldable pub put_keys : List ℕ → Keyboard → Keyboard
put_keys [] k = k
put_keys (x ∷ xs) k = put_keys xs (put_key x k)

-- Reading until the ring is empty, at most `fuel` times.
unfoldable pub drain : ℕ → Keyboard → List ℕ
drain zero k = []
drain (suc fuel) k = elim (getone k) [ none ↦ [] | some (x, k') ↦ x ∷ drain fuel k' ]

abbrev pub last_nine : List ℕ → List ℕ
last_nine xs = drop (length xs - 9) xs

push-last_nine : (x : ℕ) (p : List ℕ) → push x (last_nine p) ≡ last_nine (p ++ (x ∷ []))
unfolding push
push-last_nine x p = elim (Bool-cases (length (last_nine p) == 9)) [
  | inl e ↦
      let long : 9 ≤ length p = ground (arith, length-drop (length p - 9) p) in
      let n : length (p ++ (x ∷ [])) - 9 ≡ suc (length p - 9) =
        omega (arith, length-append p (x ∷ [])) in
      rw (
        e,
        n,
        drop-append (suc (length p - 9)) p (x ∷ []) (omega arith),
        drop_one-drop (length p - 9) p,
      )
  | inr e ↦
      let short : length p - 9 ≡ 0 = ground (arith, length-drop (length p - 9) p) in
      let n : length (p ++ (x ∷ [])) - 9 ≡ 0 =
        ground (arith, length-append p (x ∷ []), length-drop (length p - 9) p) in
      rw (e, n, short)
]

put_keys-contents :
    (xs p : List ℕ) (k : Keyboard)
    → IsValid k
    → contents k ≡ last_nine p
    → IsValid (put_keys xs k) × (contents (put_keys xs k) ≡ last_nine (p ++ map u8 xs))
unfolding put_keys
put_keys-contents [] p k v h = (v, rw append-nil h)
put_keys-contents (x ∷ xs) p k v h = rw (← append_assoc p (u8 x ∷ []) (map u8 xs)) (
    put_keys-contents xs (p ++ (u8 x ∷ [])) (put_key x k) (put_key-IsValid x k v)
      (put_key-push x k v ∙ ap (push (u8 x)) h ∙ push-last_nine (u8 x) p))

nil_of_length : (xs : List ℕ) → length xs ≤ 0 → [] ≡ xs
nil_of_length [] h = refl
nil_of_length (x ∷ xs) h = absurd (omega arith)

drain-contents :
    (fuel : ℕ) (k : Keyboard) → IsValid k → length (contents k) ≤ fuel → drain fuel k ≡ contents k
unfolding drain
drain-contents zero k v h = nil_of_length (contents k) h
drain-contents (suc fuel) k v h = elim (getone-contents k v) [
  | inl (e, g) ↦ rw (g, drain) (rw e)
  | inr (x, k', g, v', e) ↦
      rw (g, drain)
        (rw e (ap (λ l. x ∷ l) (drain-contents fuel k' v' (omega (arith, ap (length {A = ℕ}) e)))))
]

-- What is typed on an empty ring and then read is the last nine characters, in order, whatever the
-- position of the ring.
pub drain-put_keys :
    (xs : List ℕ) (k : Keyboard)
    → IsValid k
    → contents k ≡ []
    → drain 10 (put_keys xs k) ≡ last_nine (map u8 xs)
drain-put_keys xs k v e =
    let (v', c) = put_keys-contents xs [] k v e in
    drain-contents 10 (put_keys xs k) v' (
      omega (
        arith,
        length-window (put_keys xs k).keybuff (put_keys xs k).keytail (count (put_keys xs k)),
      ))
    ∙ c
