-- ===== src/Memory/Frames/Boot.antt =====
-- What `getmemmap` makes of the boot loader's memory map.
use chouryos.Base.{
  ℕ, zero, suc, ◌+◌, ◌-◌, ◌*◌, ◌/◌, ◌%◌, ◌^◌, ◌≤◌, ◌<◌, ◌≡◌, refl, Bool, true, false, ◌&&◌, ◌||◌,
  List, [], ◌∷◌, arith, ltb, leb, ◌==◌, if◌then◌else◌, u32, Bool-cases, inl, inr,
}
use chouryos.Memory.Bitmap.{
  Bytes, IsBytes, setavl, isavl, memset, isavl-setavl, setavl-IsBytes, isavl-memset, memset-IsBytes,
  isavl-memset_ones,
}
use chouryos.Memory.Frames.{
  page_size, res_page, max_page, MemMap, upto, start_page, set_run, add_region, add_regions,
  getmemmap, Tables,
}

set_run-IsBytes : (n p : ℕ) (m : Bytes) → IsBytes m → IsBytes (set_run n p m)
unfolding set_run
set_run-IsBytes zero p m hm = hm
set_run-IsBytes (suc n) p m hm =
    set_run-IsBytes n (p + 1) (setavl m (u32 p)) (setavl-IsBytes m (u32 p) hm)

isavl-set_run :
    (n p : ℕ) (m : Bytes) (j : ℕ)
    → IsBytes m
    → p + n ≤ 2 ^ 32
    → isavl (set_run n p m) j ≡ (leb p j && ltb j (p + n)) || isavl m j
unfolding set_run
isavl-set_run zero p m j hm h = ground arith
isavl-set_run (suc n) p m j hm h = ground (
  arith,
  isavl-set_run n (p + 1) (setavl m (u32 p)) j (setavl-IsBytes m (u32 p) hm),
  isavl-setavl m (u32 p) j hm,
)

-- A usable region that lies below 2 GiB and reaches its first page boundary.
pub record IsSane (e : MemMap) : Type 0 where
  pub low : e.base_addr + e.length < 2 ^ 31
  pub reaches : (e.base_addr + 0xfff) / page_size * page_size ≤ e.base_addr + e.length
  pub from_zero : e.base_addr ≡ 0 → page_size ≤ e.length

abbrev pub AllSane : List MemMap → Type 0
AllSane [] = Unit {0}
AllSane (e ∷ es) = (e.type ≡ 1 → IsSane e) × AllSane es

-- The whole of frame `j` lies in the region.
abbrev pub covers : MemMap → ℕ → Bool
covers e j =
    e.type == 1
    && (leb e.base_addr (j * page_size) && leb ((j + 1) * page_size) (e.base_addr + e.length))

abbrev pub covered : List MemMap → ℕ → Bool
covered [] j = false
covered (e ∷ es) j = covers e j || covered es j

-- The number of the first frame of a region that starts at `a`.
abbrev first_page : ℕ → ℕ
first_page a = if a == 0 then 1 else (a + 0xfff) / page_size

upto-page : (a : ℕ) → a < 2 ^ 31 → upto a page_size ≡ first_page a * page_size
unfolding upto
upto-page a h = ground arith

module _ (e : MemMap) (sane : IsSane e) where
  first_page-fits : first_page e.base_addr * page_size ≤ e.base_addr + e.length
  first_page-fits = ground (arith, sane.reaches, sane.from_zero)

  page_count : ℕ
  page_count = (e.base_addr + e.length - first_page e.base_addr * page_size) / page_size

  page_count_lem :
      u32 (e.length + 2 ^ 32 - u32 (upto e.base_addr page_size + 2 ^ 32 - e.base_addr)) / page_size
      ≡ page_count
  unfolding page_count
  page_count_lem =
      rw (upto-page e.base_addr (omega (arith, sane.low)))
        (ground (arith, first_page-fits, sane.low))

  start_page_lem : start_page (upto e.base_addr page_size) ≡ first_page e.base_addr
  unfolding start_page
  start_page_lem =
      rw (upto-page e.base_addr (omega (arith, sane.low)))
        (ground (arith, first_page-fits, sane.low))

  region_covers :
      (j : ℕ)
      → 1 ≤ j
      → leb (first_page e.base_addr) j && ltb j (first_page e.base_addr + page_count)
        ≡ leb e.base_addr (j * page_size) && leb ((j + 1) * page_size) (e.base_addr + e.length)
  unfolding page_count
  region_covers j hj = ground (arith, first_page-fits, sane.low)

  region_bound : first_page e.base_addr + page_count ≤ 2 ^ 32
  unfolding page_count
  region_bound = ground (arith, first_page-fits, sane.low)

  isavl-region :
      (m : Bytes) (j : ℕ)
      → IsBytes m
      → 1 ≤ j
      → e.type ≡ 1
      → isavl (add_region e m) j ≡ covers e j || isavl m j
  unfolding add_region
  isavl-region m j hm hj t = rw (
    t,
    page_count_lem,
    start_page_lem,
    isavl-set_run page_count (first_page e.base_addr) m j hm region_bound,
    region_covers j hj,
  )

isavl-add_region :
    (e : MemMap) (m : Bytes) (j : ℕ)
    → (e.type ≡ 1 → IsSane e)
    → IsBytes m
    → 1 ≤ j
    → isavl (add_region e m) j ≡ covers e j || isavl m j
isavl-add_region e m j sane hm hj = elim (Bool-cases (e.type == 1)) [
  | inl t ↦ isavl-region e (sane (ground arith)) m j hm hj (ground arith)
  | inr t ↦ unfold add_region in rw t
]

add_region-IsBytes : (e : MemMap) (m : Bytes) → IsBytes m → IsBytes (add_region e m)
add_region-IsBytes e m hm = elim (Bool-cases (e.type == 1)) [
  | inl t ↦ unfold add_region in rw t (set_run-IsBytes _ _ m hm)
  | inr t ↦ unfold add_region in rw t hm
]

isavl-add_regions :
    (es : List MemMap) (m : Bytes) (j : ℕ)
    → AllSane es
    → IsBytes m
    → 1 ≤ j
    → isavl (add_regions es m) j ≡ covered es j || isavl m j
unfolding add_regions
isavl-add_regions [] m j sane hm hj = refl
isavl-add_regions (e ∷ es) m j sane hm hj = ground (
  arith,
  isavl-add_regions es (add_region e m) j sane.1 (add_region-IsBytes e m hm) hj,
  isavl-add_region e m j sane.0 hm hj,
)

-- After `getmemmap` with bit 6 of the flags set, a frame is available exactly when it is at 0x500
-- or above and lies whole in a usable region, if every usable region ends below 2 GiB and reaches
-- its first page boundary.
pub isavl-getmemmap :
    (flags : ℕ) (es : List MemMap) (t : Tables) (j : ℕ)
    → flags / 64 % 2 ≡ 1
    → AllSane es
    → IsBytes t.mmap
    → j < max_page
    → isavl (getmemmap flags es t).mmap j ≡ leb res_page j && covered es j
unfolding getmemmap
isavl-getmemmap flags es t j hf sane hm hj = elim (Bool-cases (leb res_page j)) [
  | inl h ↦
      rw
        (
          hf,
          isavl-memset (res_page / 8) (add_regions es (memset (max_page / 8) 0 m)) j,
          isavl-add_regions es (memset (max_page / 8) 0 m) j sane
              (memset-IsBytes (max_page / 8) m hm) (ground arith),
          isavl-memset (max_page / 8) m j,
        )
        (ground arith)
  | inr h ↦
      rw (hf, isavl-memset (res_page / 8) (add_regions es (memset (max_page / 8) 0 m)) j)
        (ground arith)
]
  where
    m : Bytes
    m = t.mmap

-- Of the 1024 slots of the window `getmemmap` makes the first 32 available; every other stays as
-- the memory of the table was.
pub isavl-getmemmap_slots :
    (flags : ℕ) (es : List MemMap) (t : Tables) (j : ℕ)
    → isavl (getmemmap flags es t).mtmap j ≡ (if ltb j 32 then true else isavl t.mtmap j)
unfolding getmemmap
isavl-getmemmap_slots flags es t j = isavl-memset_ones 4 t.mtmap j
