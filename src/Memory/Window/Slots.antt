-- ===== src/Memory/Window/Slots.antt =====
-- Which slots `mappage` and `unmappage` use.
use chouryos.Base.{
  ℕ, zero, suc, ◌+◌, ◌%◌, ◌^◌, ◌≤◌, ◌<◌, ◌≡◌, refl, ◌≢◌, inl, inr, true, false, arith, ◌==◌,
  if◌then◌else◌, Bool-cases, ne→==,
}
use chouryos.Memory.Bitmap.{Bytes, IsBytes, isavl, isavl-setavl, isavl-unavl, unavl-IsBytes}
use chouryos.Memory.Window.{
  Window, map_index, getvmaddr, getpagec, getpagei, find_slot, mappage, unmappage,
}

-- The loop stops at the end of its range, or at an available slot.
find_slot_range :
    (left i : ℕ) (m : Bytes)
    → (i ≤ find_slot left i m)
      × (find_slot left i m ≤ i + left)
      × (find_slot left i m < i + left → isavl m (find_slot left i m) ≡ true)
unfolding find_slot
find_slot_range zero i m = (omega arith, omega arith, λ h. absurd (omega arith))
find_slot_range (suc left) i m = elim (Bool-cases (isavl m i)) [
  | inl h ↦ rw h (omega arith, omega arith, λ _. h)
  | inr h ↦
      let (lo, hi, found) = find_slot_range left (i + 1) m in
      rw h (omega arith, omega arith, λ k. found (omega arith))
]

find_slot_full :
    (left i : ℕ) (m : Bytes)
    → find_slot left i m ≡ i + left
    → (j : ℕ) → i ≤ j
    → j < i + left
    → isavl m j ≡ false
unfolding find_slot
find_slot_full zero i m e j a b = absurd (omega arith)
find_slot_full (suc left) i m e j a b = elim (Bool-cases (isavl m i)) [
  | inl h ↦ ground arith
  | inr h ↦ ground (arith, find_slot_full left (i + 1) m (ground arith) j)
]

-- With a slot free the loop finds one.
first_slot-lt : (m : Bytes) (j : ℕ) → isavl m j ≡ true → j < 1024 → find_slot 1024 0 m < 1024
first_slot-lt m j free hj = elim (Bool-cases (find_slot 1024 0 m == 1024)) [
  | inl e ↦
      absurd (ground (arith, find_slot_full 1024 0 m (ground arith) j (omega arith) (omega arith)))
  | inr e ↦ ground (arith, (find_slot_range 1024 0 m).1)
]

getpagei-getvmaddr : (i : ℕ) → i < 1024 → getpagei (getvmaddr map_index i) ≡ i
getpagei-getvmaddr i h = omega arith

getpagec-getvmaddr : (i : ℕ) → i < 1024 → getpagec (getvmaddr map_index i) ≡ map_index
getpagec-getvmaddr i h = omega arith

no_slot : (m : Bytes) → ((j : ℕ) → j < 1024 → isavl m j ≡ false) → find_slot 1024 0 m ≡ 1024
no_slot m h = elim (Bool-cases (find_slot 1024 0 m == 1024)) [
  | inl e ↦ ground arith
  | inr e ↦
      let (lo, hi, found) = find_slot_range 1024 0 m in
      ground (arith, found (ground arith), h (find_slot 1024 0 m) (ground arith))
]

-- `mappage` with a slot free: the address returned lies in the window, the entry behind it is
-- present and names the frame, the slot was available and is not, and no other slot or entry
-- changes.
pub mappage_slot :
    (page j : ℕ) (w : Window)
    → IsBytes w.mtmap
    → isavl w.mtmap j ≡ true
    → j < 1024
    → let (addr, w') = mappage page w in
      let i = getpagei addr in
      (getpagec addr ≡ map_index)
      × ((w'.tmpmap i).p ≡ 1)
      × ((w'.tmpmap i).base ≡ page % 2 ^ 20)
      × (isavl w.mtmap i ≡ true)
      × ((k : ℕ) → isavl w'.mtmap k ≡ (if i == k then false else isavl w.mtmap k))
      × ((k : ℕ) → i ≢ k → w'.tmpmap k ≡ w.tmpmap k)
unfolding mappage
mappage_slot page j w hm free hj =
    let i = find_slot 1024 0 w.mtmap in
    let bound : i < 1024 = first_slot-lt w.mtmap j free hj in
    let back : getpagei (getvmaddr map_index i) ≡ i = getpagei-getvmaddr i bound in
    let top : getpagec (getvmaddr map_index i) ≡ map_index = getpagec-getvmaddr i bound in
    let found : isavl w.mtmap i ≡ true = (find_slot_range 1024 0 w.mtmap).2 bound in
    rw (back, ne→== i 1024 (omega arith))
      (
        top,
        ground arith,
        ground arith,
        found,
        λ k. isavl-unavl w.mtmap i k hm,
        λ k ne. ground arith,
      )

-- `mappage` with no slot free: it writes entry 1024, past the end of the page table of the window,
-- takes no slot, and returns 0x40000000, where user space begins.
pub mappage_full :
    (page : ℕ) (w : Window)
    → ((j : ℕ) → j < 1024 → isavl w.mtmap j ≡ false)
    → let (addr, w') = mappage page w in
      (addr ≡ 0x40000000)
      × (w'.mtmap ≡ w.mtmap)
      × ((w'.tmpmap 1024).p ≡ 1)
      × ((w'.tmpmap 1024).base ≡ page % 2 ^ 20)
unfolding mappage
mappage_full page w none_free =
    let e : find_slot 1024 0 w.mtmap ≡ 1024 = no_slot w.mtmap none_free in
    rw e (refl, refl, ground arith, ground arith)

-- The bitmap after `unmappage` of slot `i`, whose number is cut to a byte.
isavl-unmappage :
    (i k : ℕ) (w : Window)
    → i < 1024
    → IsBytes w.mtmap
    → isavl (unmappage (getvmaddr map_index i) w).mtmap k
      ≡ (if i % 256 == k then true else isavl w.mtmap k)
unfolding unmappage
isavl-unmappage i k w hi hm = elim (Bool-cases (isavl w.mtmap (i % 256))) [
  | inl e ↦ rw (getpagei-getvmaddr i hi, getpagec-getvmaddr i hi, e) (ground arith)
  | inr e ↦
      rw (getpagei-getvmaddr i hi, getpagec-getvmaddr i hi, e) (isavl-setavl w.mtmap (i % 256) k hm)
]

entry-unmappage :
    (i : ℕ) (w : Window)
    → i < 256
    → isavl w.mtmap i ≡ false
    → ((unmappage (getvmaddr map_index i) w).tmpmap i).p ≡ 0
unfolding unmappage
entry-unmappage i w hi e =
    let small : i % 256 ≡ i = omega arith in
    rw (getpagei-getvmaddr i (omega arith), getpagec-getvmaddr i (omega arith), small, e)
      (ground arith)

mappage-IsBytes : (page : ℕ) (w : Window) → IsBytes w.mtmap → IsBytes (mappage page w).1.mtmap
unfolding mappage
mappage-IsBytes page w hm k =
    ground (arith, hm k, unavl-IsBytes w.mtmap (find_slot 1024 0 w.mtmap) hm k)

-- `mappage` with a slot free, by the slot's number.
mappage_at :
    (page : ℕ) (w : Window)
    → IsBytes w.mtmap
    → find_slot 1024 0 w.mtmap < 1024
    → ((mappage page w).0 ≡ getvmaddr map_index (find_slot 1024 0 w.mtmap))
      × (isavl w.mtmap (find_slot 1024 0 w.mtmap) ≡ true)
      × ((k : ℕ)
          → isavl (mappage page w).1.mtmap k
            ≡ (if find_slot 1024 0 w.mtmap == k then false else isavl w.mtmap k))
unfolding mappage
mappage_at page w hm h = (
  refl,
  (find_slot_range 1024 0 w.mtmap).2 h,
  λ k. rw (ne→== (find_slot 1024 0 w.mtmap) 1024 (omega arith)) (isavl-unavl w.mtmap _ k hm),
)

-- `unmappage` of what `mappage` returned gives the slot back, leaves all others as they were, and
-- its entry is no longer present, where the slot's number is below 256.
pub unmappage-mappage :
    (page : ℕ) (w : Window)
    → IsBytes w.mtmap
    → find_slot 1024 0 w.mtmap < 256
    → let (addr, w') = mappage page w in
      let w'' = unmappage addr w' in
      ((k : ℕ) → isavl w''.mtmap k ≡ isavl w.mtmap k) × ((w''.tmpmap (getpagei addr)).p ≡ 0)
unmappage-mappage page w hm h =
    let i = find_slot 1024 0 w.mtmap in
    let (at, found, taken) = mappage_at page w hm (omega arith) in
    let w' = (mappage page w).1 in
    rw (at, getpagei-getvmaddr i (omega arith))
      (
        λ k. ground (
          arith,
          isavl-unmappage i k w' (omega arith) (mappage-IsBytes page w hm),
          taken k,
          found,
        ),
        entry-unmappage i w' h (ground (arith, taken i)),
      )

-- `unmappage` keeps the slot's number in a byte: a slot from 256 on is not given back, and stays in
-- use.
pub not-unmappage-mappage :
    (page : ℕ) (w : Window)
    → IsBytes w.mtmap
    → 256 ≤ find_slot 1024 0 w.mtmap
    → find_slot 1024 0 w.mtmap < 1024
    → let (addr, w') = mappage page w in
      (isavl w.mtmap (getpagei addr) ≡ true)
      × (isavl (unmappage addr w').mtmap (getpagei addr) ≡ false)
not-unmappage-mappage page w hm lo hi =
    let i = find_slot 1024 0 w.mtmap in
    let (at, found, taken) = mappage_at page w hm hi in
    let w' = (mappage page w).1 in
    rw (at, getpagei-getvmaddr i hi)
      (found, ground (arith, isavl-unmappage i i w' hi (mappage-IsBytes page w hm), taken i))
