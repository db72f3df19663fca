-- ===== src/Memory/Examples.antt =====
-- Runs of the memory manager, and each theorem at an input.
use chouryos.Base.{
  ℕ, ◌+◌, ◌*◌, ◌≤◌, ◌<◌, ◌≡◌, refl, ◌⊎◌, false, ◌&&◌, none, some, List, [], ◌∷◌, arith, leb, ◌==◌,
  if◌then◌else◌,
}
use chouryos.Base.Bits.{zero-bit_and}
use chouryos.Memory.Copy.{Space, umemcpy, memcpy, own, umemcpy-memcpy}
use chouryos.Memory.Bitmap.{Bytes, IsBytes, setavl, unavl, isavl}
use chouryos.Memory.Frames.{
  res_page, max_page, scan, getmpage, freempage, MemMap, Tables, no_share, getmemmap,
}
use chouryos.Memory.Frames.Alloc.{IsFirst, getmpage-IsFirst}
use chouryos.Memory.Frames.Boot.{AllSane, covered, isavl-getmemmap}
use chouryos.Memory.Window.{Ptable, Window, getpagei, find_slot, mappage, unmappage}
use chouryos.Memory.Window.Slots.{unmappage-mappage}

program : Unit {0}
unfolding setavl unavl isavl scan getmpage freempage find_slot mappage unmappage
program = tt

-- Frames 0x501 and 0x502 are available.
abbrev two_frames : Bytes
two_frames i = if i == 160 then 6 else 0

two_frames-IsBytes : IsBytes two_frames
two_frames-IsBytes i = ground arith

takes : (getmpage two_frames).0 ≡ some 0x501
unfolding program
takes = refl

takes_again : (getmpage (getmpage two_frames).1).0 ≡ some 0x502
unfolding program
takes_again = refl

getmpage-IsFirst_example :
    ((i : ℕ) × (getmpage two_frames ≡ (some i, unavl two_frames i))
      × IsFirst two_frames res_page max_page i)
    ⊎ ((getmpage two_frames ≡ (none, two_frames))
        × ((j : ℕ) → res_page ≤ j → j < max_page → isavl two_frames j ≡ false))
getmpage-IsFirst_example = getmpage-IsFirst two_frames

-- A machine with 8 MiB: conventional memory, and what lies above the first MiB but for a hole.
abbrev boot_entries : List MemMap
boot_entries =
    record { base_addr = 0; length = 0x9fc00; type = 1 }
    ∷ record { base_addr = 0xf0000; length = 0x10000; type = 2 }
    ∷ record { base_addr = 0x100010; length = 0x6fff00; type = 1 }
    ∷ []

boot_entries-AllSane : AllSane boot_entries
boot_entries-AllSane = (
  λ e. record { low = omega arith; reaches = omega arith; from_zero = λ z. omega arith },
  (
    λ e. absurd (omega arith),
    (λ e. record { low = omega arith; reaches = omega arith; from_zero = λ z. omega arith }, tt),
  ),
)

abbrev cold : Tables
cold = record { mmap = λ i. 0xff; mtmap = λ i. 0; psl = λ i. no_share }

isavl-getmemmap_example :
    isavl (getmemmap 0x40 boot_entries cold).mmap 0x501
    ≡ leb res_page 0x501 && covered boot_entries 0x501
isavl-getmemmap_example =
    isavl-getmemmap 0x40 boot_entries cold 0x501 refl boot_entries-AllSane (λ i. omega arith)
      (omega arith)

abbrev blank : Ptable
blank = record {
  p = 0;
  r_w = 1;
  u_s = 0;
  pwt = 0;
  pcd = 0;
  a = 0;
  d = 0;
  pat = 0;
  g = 0;
  avl = 0;
  base = 0;
}

-- Slot 1 is the first that is free; then slot 256; then none.
abbrev second_free : Window
second_free = record { mtmap = λ i. if i == 0 then 2 else 0; tmpmap = λ i. blank }

abbrev late_free : Window
late_free = record { mtmap = λ i. if i == 32 then 1 else 0; tmpmap = λ i. blank }

abbrev none_free : Window
none_free = record { mtmap = λ i. 0; tmpmap = λ i. blank }

none_is_free : (j : ℕ) → j < 1024 → isavl none_free.mtmap j ≡ false
unfolding program
none_is_free j h = rw zero-bit_and

unmappage-mappage_example :
    let (addr, w') = mappage 0x700 second_free in
    let w'' = unmappage addr w' in
    ((k : ℕ) → isavl w''.mtmap k ≡ isavl second_free.mtmap k) × ((w''.tmpmap (getpagei addr)).p ≡ 0)
unfolding find_slot isavl
unmappage-mappage_example = unmappage-mappage 0x700 second_free (λ i. ground arith) (omega arith)

-- Each process has tables of its own.
abbrev pages : ℕ → ℕ → Ptable
pages f i = record {
  p = 1;
  r_w = 1;
  u_s = 1;
  pwt = 0;
  pcd = 0;
  a = 0;
  d = 0;
  pat = 0;
  g = 0;
  avl = 0;
  base = f * 8 + i;
}

abbrev space : Space
space = record { curpid = 1; pde = λ pid. pid; table = pages; bytes = λ f o. f + o }

umemcpy-memcpy_example :
    umemcpy 5000 2 4000 3 8000 5000 space
    ≡ some (memcpy (own space 2 4000) (own space 3 8000) 5000 space.bytes)
umemcpy-memcpy_example =
    umemcpy-memcpy space 5000 2 4000 3 8000 5000 (omega arith) (omega arith) (omega arith)
      (λ i h. (refl, refl)) (λ i h. (refl, refl)) (λ i h. (refl, refl))
