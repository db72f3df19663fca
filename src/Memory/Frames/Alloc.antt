-- ===== src/Memory/Frames/Alloc.antt =====
-- What `getmpage` and `freempage` do to the set of available frames.
use chouryos.Base.{
  ℕ, zero, suc, ◌+◌, ◌-◌, ◌≤◌, ◌<◌, ◌≡◌, ◌≢◌, ◌⊎◌, inl, inr, true, false, none, some, arith, ◌==◌,
  if◌then◌else◌, Bool-cases, Option-cases, subst, ap, sym,
}
use chouryos.Memory.Bitmap.{Bytes, IsBytes, unavl, isavl, isavl-setavl, isavl-unavl, unavl-IsBytes}
use chouryos.Memory.Frames.{res_page, max_page, scan, getmpage, freempage}

-- The number is the first available one of the range.
pub record IsFirst (mmap : Bytes) (lo hi i : ℕ) : Type 0 where
  pub from : lo ≤ i
  pub below : i < hi
  pub available : isavl mmap i ≡ true
  pub first : (j : ℕ) → lo ≤ j → j < i → isavl mmap j ≡ false

IsFirst-next :
    (mmap : Bytes) (lo hi i : ℕ)
    → isavl mmap lo ≡ false
    → IsFirst mmap (lo + 1) hi i
    → IsFirst mmap lo hi i
IsFirst-next mmap lo hi i e f = record {
  from = omega (arith, f.from);
  below = f.below;
  available = f.available;
  first = λ j h k. ground (arith, f.first j);
}

scan-IsFirst :
    (left lo : ℕ) (mmap : Bytes) {i : ℕ}
    → scan left lo mmap ≡ some i
    → IsFirst mmap lo (lo + left) i
unfolding scan
scan-IsFirst zero lo mmap h = cc
scan-IsFirst (suc left) lo mmap {i} h = elim (Bool-cases (isavl mmap lo)) [
  | inl hit ↦ record {
    from = ground arith;
    below = ground arith;
    available = ground arith;
    first = λ j a b. ground arith;
  }
  | inr miss ↦ IsFirst-next mmap lo (lo + suc left) i miss (
      subst (λ n. IsFirst mmap (lo + 1) n i) (omega arith)
        (scan-IsFirst left (lo + 1) mmap (ground arith)))
]

scan-none :
    (left lo : ℕ) (mmap : Bytes)
    → scan left lo mmap ≡ none
    → (j : ℕ) → lo ≤ j
    → j < lo + left
    → isavl mmap j ≡ false
unfolding scan
scan-none zero lo mmap h j a b = absurd (omega arith)
scan-none (suc left) lo mmap h j a b = elim (Bool-cases (isavl mmap lo)) [
  | inl hit ↦ ground arith
  | inr miss ↦ ground (arith, scan-none left (lo + 1) mmap (ground arith) j)
]

-- `getmpage` either takes the first available frame from 0x500 on, below 0x100000, or it fails,
-- leaves the bitmap as it is, and every frame of that range is in use.
pub getmpage-IsFirst :
    (mmap : Bytes)
    → ((i : ℕ) × (getmpage mmap ≡ (some i, unavl mmap i)) × IsFirst mmap res_page max_page i)
      ⊎ ((getmpage mmap ≡ (none, mmap))
          × ((j : ℕ) → res_page ≤ j → j < max_page → isavl mmap j ≡ false))
unfolding getmpage
getmpage-IsFirst mmap = elim (Option-cases (scan (max_page - res_page) res_page mmap)) [
  | inl e ↦ inr (rw e, scan-none (max_page - res_page) res_page mmap e)
  | inr (i, e) ↦ inl (i, rw e, scan-IsFirst (max_page - res_page) res_page mmap e)
]

pub getmpage-IsBytes : (mmap : Bytes) → IsBytes mmap → IsBytes (getmpage mmap).1
getmpage-IsBytes mmap hm = elim (getmpage-IsFirst mmap) [
  | inl (k, e, f) ↦ rw e (unavl-IsBytes mmap k hm)
  | inr (e, f) ↦ rw e hm
]

-- The bitmap after a successful `getmpage`: the frame was available and is not, and no other
-- number changes.
pub isavl-getmpage :
    (mmap : Bytes) (i : ℕ)
    → IsBytes mmap
    → (getmpage mmap).0 ≡ some i
    → (isavl mmap i ≡ true)
      × ((j : ℕ) → isavl (getmpage mmap).1 j ≡ (if i == j then false else isavl mmap j))
isavl-getmpage mmap i hm h = elim (getmpage-IsFirst mmap) [
  | inl (k, e, f) ↦
      let same : k ≡ i = ground (arith, ap (λ r. r.0) e) in
      (
        cc (f.available),
        λ j. rw e (
            subst (λ n. isavl (unavl mmap k) j ≡ (if n == j then false else isavl mmap j)) same
              (isavl-unavl mmap k j hm)),
      )
  | inr (e, f) ↦ ground (arith, ap (λ r. r.0) e)
]

-- Two calls of `getmpage` that both succeed never give the same frame.
pub getmpage-ne :
    (mmap : Bytes) (i j : ℕ)
    → IsBytes mmap
    → (getmpage mmap).0 ≡ some i
    → (getmpage (getmpage mmap).1).0 ≡ some j
    → i ≢ j
getmpage-ne mmap i j hm hi hj e =
    let first = isavl-getmpage mmap i hm hi in
    let second = isavl-getmpage (getmpage mmap).1 j (getmpage-IsBytes mmap hm) hj in
    ground (arith, first.1 j, second.0)

-- Freeing the frame that `getmpage` gave succeeds, and makes exactly the frames available that were
-- available before.
pub freempage-getmpage :
    (mmap : Bytes) (i : ℕ)
    → IsBytes mmap
    → (getmpage mmap).0 ≡ some i
    → ((freempage (getmpage mmap).1 i).0 ≡ true)
      × ((j : ℕ) → isavl (freempage (getmpage mmap).1 i).1 j ≡ isavl mmap j)
unfolding freempage
freempage-getmpage mmap i hm h =
    let taken = isavl-getmpage mmap i hm h in
    let m' : Bytes = (getmpage mmap).1 in
    let hm' : IsBytes m' = getmpage-IsBytes mmap hm in
    (
      ground (arith, taken.1 i),
      λ j. ground (arith, taken.0, taken.1 i, taken.1 j, isavl-setavl m' i j hm'),
    )

-- Freeing a frame twice: the first call makes it available, the second fails and changes nothing.
pub freempage_twice :
    (mmap : Bytes) (p : ℕ)
    → IsBytes mmap
    → let once = (freempage mmap p).1 in (isavl once p ≡ true) × (freempage once p ≡ (false, once))
unfolding freempage
freempage_twice mmap p hm = ground (arith, isavl-setavl mmap p p hm)

-- The bitmap after `k` calls of `getmpage`.
unfoldable pub after : ℕ → Bytes → Bytes
after zero mmap = mmap
after (suc k) mmap = after k (getmpage mmap).1

-- A frame in use stays in use, and one that was given is in use.
used-after :
    (k : ℕ) (mmap : Bytes) (x : ℕ)
    → IsBytes mmap
    → isavl mmap x ≡ false
    → isavl (after k mmap) x ≡ false
unfolding after
used-after zero mmap x hm h = h
used-after (suc k) mmap x hm h =
    used-after k (getmpage mmap).1 x (getmpage-IsBytes mmap hm) (elim (getmpage-IsFirst mmap) [
      | inl (i, e, f) ↦ rw e (ground (arith, isavl-unavl mmap i x hm))
      | inr (e, f) ↦ rw e h
    ])

after-IsBytes : (k : ℕ) (mmap : Bytes) → IsBytes mmap → IsBytes (after k mmap)
unfolding after
after-IsBytes zero mmap hm = hm
after-IsBytes (suc k) mmap hm = after-IsBytes k (getmpage mmap).1 (getmpage-IsBytes mmap hm)

-- A call of `getmpage` and a later one give different frames.
pub getmpage-after :
    (k : ℕ) (mmap : Bytes) (i j : ℕ)
    → IsBytes mmap
    → (getmpage mmap).0 ≡ some i
    → (getmpage (after k (getmpage mmap).1)).0 ≡ some j
    → i ≢ j
getmpage-after k mmap i j hm hi hj same =
    let rest = (getmpage mmap).1 in
    let gone : isavl rest i ≡ false = ground (arith, (isavl-getmpage mmap i hm hi).1 i) in
    let used : isavl (after k rest) i ≡ false =
      used-after k rest i (getmpage-IsBytes mmap hm) gone in
    let there : isavl (after k rest) j ≡ true =
      (isavl-getmpage (after k rest) j (after-IsBytes k rest (getmpage-IsBytes mmap hm)) hj).0 in
    ground (arith, used, subst (λ x. isavl (after k rest) x ≡ true) (sym same) there)
