-- ===== src/Paging/Fault.antt =====
-- What a page fault does to the addresses of a process.
use chouryos.Base.{
  ℕ, ◌≤◌, ◌≡◌, ◌⊎◌, refl, ◌∙◌, Option, none, some, inl, inr, false, ◌||◌, ◌==◌, ◌%◌, arith,
  if◌then◌else◌, Bool-cases,
}
use chouryos.Memory.Window.{getpagec, getpagei}
use chouryos.Paging.{Paging, resumed, entry, absent, ensure, page_in, page_fault, defultinthandle}

-- The frame that the processor reaches at an address, through a page directory and a page table.
unfoldable pub translate : Paging → ℕ → ℕ → Option ℕ
translate s pde a =
    let frame = (entry s pde (getpagec a)).base in
    if absent s pde (getpagec a) || absent s frame (getpagei a)
    then none
    else some (entry s frame (getpagei a)).base

-- Every entry that is present stays as it is.
IsKept : Paging → Paging → Type 0
IsKept s s' = (f i : ℕ) → absent s f i ≡ false → entry s' f i ≡ entry s f i

ensure-IsKept : (us f i : ℕ) (s : Paging) → IsKept s (ensure us f i s)
unfolding IsKept ensure
ensure-IsKept us f i s g j h = ground (arith, h)

ensure-present : (us f i : ℕ) (s : Paging) → absent (ensure us f i s) f i ≡ false
unfolding ensure
ensure-present us f i s = ground arith

translate-IsKept :
    (s s' : Paging) (pde a f : ℕ)
    → IsKept s s'
    → translate s pde a ≡ some f
    → translate s' pde a ≡ some f
unfolding translate IsKept
translate-IsKept s s' pde a f k h = elim (Bool-cases (absent s pde (getpagec a))) [
  | inl e ↦ ground (arith, h, e)
  | inr e ↦
      let first = k pde (getpagec a) e in
      let frame = (entry s pde (getpagec a)).base in
      elim (Bool-cases (absent s frame (getpagei a))) [
        | inl e' ↦ ground (arith, h, e, e')
        | inr e' ↦ let second = k frame (getpagei a) e' in rw first (rw second h)
      ]
]

page_in-IsKept : (us pde a : ℕ) (s : Paging) → IsKept s (page_in us pde a s)
unfolding IsKept page_in
page_in-IsKept us pde a s f i h =
    let s1 = ensure us pde (getpagec a) s in
    let first : entry s1 f i ≡ entry s f i = ensure-IsKept us pde (getpagec a) s f i h in
    ensure-IsKept us (entry s1 pde (getpagec a)).base (getpagei a) s1 f i (rw first h) ∙ first

page_in-mapped :
    (us pde a : ℕ) (s : Paging) → (f : ℕ) × (translate (page_in us pde a s) pde a ≡ some f)
unfolding IsKept page_in translate
page_in-mapped us pde a s =
    let s1 = ensure us pde (getpagec a) s in
    let frame = (entry s1 pde (getpagec a)).base in
    let s2 = ensure us frame (getpagei a) s1 in
    let there : absent s1 pde (getpagec a) ≡ false = ensure-present us pde (getpagec a) s in
    let kept : entry s2 pde (getpagec a) ≡ entry s1 pde (getpagec a) =
      ensure-IsKept us frame (getpagei a) s1 pde (getpagec a) there in
    let here : absent s2 frame (getpagei a) ≡ false = ensure-present us frame (getpagei a) s1 in
    ((entry s2 frame (getpagei a)).base, rw (kept, there, here) refl)

-- A fault at an address of user space whose page is not present ends with the address mapped, and every address that was mapped stays mapped to its frame.
pub translate-defultinthandle :
    (fuel code cr2 pde : ℕ) (s : Paging)
    → 0x40000000 ≤ cr2
    → ((code % 16 ≡ 0) ⊎ (code % 16 ≡ 2)) ⊎ ((code % 16 ≡ 4) ⊎ (code % 16 ≡ 6))
    → (s' : Paging) × (defultinthandle fuel 14 code cr2 pde s ≡ resumed s')
      × ((f : ℕ) × (translate s' pde cr2 ≡ some f))
      × ((a f : ℕ) → translate s pde a ≡ some f → translate s' pde a ≡ some f)
unfolding defultinthandle page_fault
translate-defultinthandle fuel code cr2 pde s h c =
    let us = if (code % 16 == 0) || (code % 16 == 2) then 0 else 1 in
    (
      page_in us pde cr2 s,
      ground arith,
      page_in-mapped us pde cr2 s,
      λ a f. translate-IsKept s (page_in us pde cr2 s) pde a f (page_in-IsKept us pde cr2 s),
    )
