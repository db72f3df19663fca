-- ===== src/Memory/Window.antt =====
-- `mappage` and `unmappage` of kernel/memory.c: the 4 MiB window through which the kernel reaches
-- any frame, with a bitmap of its slots (`MTMAP`) and their page table (`TMPMAP`). Flushing the TLB
-- and the messages printed to the console are left out.
pub mod Slots
use chouryos.Base.{
  ℕ, zero, suc, ◌+◌, ◌-◌, ◌*◌, ◌/◌, ◌%◌, ◌^◌, Bool, true, false, not, ◌==◌, if◌then◌else◌, u8, u32,
  ◌<<<◌, ◌>>>◌, update,
}
use chouryos.Memory.Bitmap.{Bytes, setavl, unavl, isavl}

-- `ptable`, a 32-bit page table entry: its flags, and the 20 bits of the frame's number.
pub record Ptable : Type 0 where
  pub p : ℕ
  pub r_w : ℕ
  pub u_s : ℕ
  pub pwt : ℕ
  pub pcd : ℕ
  pub a : ℕ
  pub d : ℕ
  pub pat : ℕ
  pub g : ℕ
  pub avl : ℕ
  pub base : ℕ

-- `MAPINDEX`, `USEPAGE-1`.
abbrev pub map_index : ℕ
map_index = 0x40000000 >>> 22 - 1

abbrev pub getvmaddr : ℕ → ℕ → ℕ
getvmaddr x y = u32 (x <<< 22 + y <<< 12)

abbrev pub getpagec : ℕ → ℕ
getpagec a = a >>> 22

-- The mask `0x3fffff` keeps the low 22 bits.
abbrev pub getpagei : ℕ → ℕ
getpagei a = (a % 2 ^ 22) >>> 12

pub record Window : Type 0 where
  pub mtmap : Bytes
  pub tmpmap : ℕ → Ptable

-- The `for` loop of `mappage` at slot `i`, with `left` rounds to go: the value of `i` after the loop.
unfoldable pub find_slot : ℕ → ℕ → Bytes → ℕ
find_slot zero i mtmap = i
find_slot (suc left) i mtmap =
    let rest = find_slot left (i + 1) mtmap in if isavl mtmap i then i else rest

-- The loop takes the slot it finds, and none where it runs to its end.
abbrev take_slot : ℕ → Bytes → Bytes
take_slot i mtmap = if i == 1024 then mtmap else unavl mtmap i

unfoldable pub mappage : ℕ → Window → ℕ × Window
mappage page w =
    let i = find_slot 1024 0 w.mtmap in
    (
      getvmaddr map_index i,
      record w {
        mtmap = take_slot i w.mtmap;
        tmpmap = update w.tmpmap i (record (w.tmpmap i) { base = page % 2 ^ 20; p = 1 });
      },
    )

unfoldable pub unmappage : ℕ → Window → Window
unmappage addr w =
    let index = u8 (getpagei addr) in
    if not (getpagec addr == map_index) then w else if isavl w.mtmap index then w else record w {
      mtmap = setavl w.mtmap index;
      tmpmap = update w.tmpmap index (record (w.tmpmap index) { base = 0; p = 0 });
    }
