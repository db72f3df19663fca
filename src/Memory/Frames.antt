-- ===== src/Memory/Frames.antt =====
-- `getmemmap`, `getmpage` and `freempage` of kernel/memory.c: the allocator of 4 KiB page frames.
-- A message that is printed to the console is left out.
pub mod Alloc
pub mod Boot
use chouryos.Base.{
  ℕ, zero, suc, ◌+◌, ◌-◌, ◌*◌, ◌/◌, ◌%◌, ◌^◌, ◌<◌, ◌≡◌, Bool, true, false, Option, none, some, List,
  [], ◌∷◌, arith, ltb, ◌==◌, if◌then◌else◌, u32, ◌>>>◌,
}
use chouryos.Memory.Bitmap.{Bytes, setavl, unavl, isavl, memset}

abbrev pub page_size : ℕ
page_size = 0x1000

abbrev pub res_page : ℕ
res_page = 0x500

abbrev pub max_page : ℕ
max_page = 0x100000

-- The `for` loop of `getmpage` at frame `i`, with `left` rounds to go.
unfoldable pub scan : ℕ → ℕ → Bytes → Option ℕ
scan zero i mmap = none
scan (suc left) i mmap = let rest = scan left (i + 1) mmap in if isavl mmap i then some i else rest

abbrev taken : Bytes → Option ℕ → Option ℕ × Bytes
taken mmap (some i) = (some i, unavl mmap i)
taken mmap none = (none, mmap)

-- The page, or `none` for the result -1, and the new `MMAP`.
unfoldable pub getmpage : Bytes → Option ℕ × Bytes
getmpage mmap = taken mmap (scan (max_page - res_page) res_page mmap)

-- True for the result 0, false for -1.
unfoldable pub freempage : Bytes → ℕ → Bool × Bytes
freempage mmap page = if isavl mmap page then (false, mmap) else (true, setavl mmap page)

-- An entry of the boot loader's memory map. Only the low halves of its 64-bit fields are used.
pub record MemMap : Type 0 where
  pub base_addr : ℕ
  pub length : ℕ
  pub type : ℕ

-- The remainder of `(long)x - 1` by `y`, plus 1: in C it has the sign of the dividend.
abbrev pub upto_rest : ℕ → ℕ → ℕ
upto_rest x y =
    if x == 0
    then 0
    else if ltb (x - 1) (2 ^ 31 - 1)
    then (x - 1) % y + 1
    else (2 ^ 32 - (2 ^ 32 - (x - 1)) % y + 1) % 2 ^ 32

-- The macro `upto`, in `uint32`.
unfoldable pub upto : ℕ → ℕ → ℕ
upto x y = u32 (x + y + 2 ^ 32 - upto_rest x y)

-- `(int)a / PAGESIZE`, which rounds towards 0, stored as a `size_t`.
unfoldable pub start_page : ℕ → ℕ
start_page a = if ltb a (2 ^ 31) then a / page_size else u32 (2 ^ 32 - (2 ^ 32 - a) / page_size)

-- The loop that makes `count` frames available, with `left` rounds to go.
unfoldable pub set_run : ℕ → ℕ → Bytes → Bytes
set_run zero p mmap = mmap
set_run (suc left) p mmap = set_run left (p + 1) (setavl mmap (u32 p))

-- The body of the loop over the memory map.
unfoldable pub add_region : MemMap → Bytes → Bytes
add_region e mmap =
    let tmpaddr = upto e.base_addr page_size in
    let length = u32 (e.length + 2 ^ 32 - u32 (tmpaddr + 2 ^ 32 - e.base_addr)) in
    if e.type == 1 then set_run (length / page_size) (start_page tmpaddr) mmap else mmap

unfoldable pub add_regions : List MemMap → Bytes → Bytes
add_regions [] mmap = mmap
add_regions (e ∷ es) mmap = add_regions es (add_region e mmap)

-- `pageshrlist`, an element of the table of shared pages.
pub record PageShrList : Type 0 where
  pub pagec : ℕ
  pub index : ℕ
  pub next : ℕ

-- The three tables of the memory manager that `getmemmap` sets up: `MMAP`, `MTMAP` and `PSL`.
pub record Tables : Type 0 where
  pub mmap : Bytes
  pub mtmap : Bytes
  pub psl : ℕ → PageShrList

abbrev pub no_share : PageShrList
no_share = record { pagec = 0; index = 0; next = 0 }

-- The loop over the map runs if bit 6 of the boot flags is set. The entries are read beforehand.
abbrev pub load_map : ℕ → List MemMap → Bytes → Bytes
load_map flags es mmap = if flags / 2 ^ 6 % 2 == 1 then add_regions es mmap else mmap

-- `MTMAP` has `1024 >> 8` bytes set, and `PSL` has 0x100000 bytes, of 8 to an element, cleared.
unfoldable pub getmemmap : ℕ → List MemMap → Tables → Tables
getmemmap flags es t = record {
  mmap = memset (res_page >>> 3) 0 (load_map flags es (memset (max_page >>> 3) 0 t.mmap));
  mtmap = memset (1024 >>> 8) 0xff t.mtmap;
  psl = λ i. if ltb i (0x100000 / 8) then no_share else t.psl i;
}
