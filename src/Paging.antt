-- ===== src/Paging.antt =====
-- The memory of processes: the page faults of kernel/init.c, `pagecpy` of kernel/memory.c, and what
-- kernel/exit.c and kernel/fork.c do to the page tables. A frame is reached directly; the code maps
-- it into the window of Memory/Window for the time of the call. The entries of page tables are kept
-- apart from the bytes of frames. Flushing the TLB is left out.
pub mod Fault
pub mod Write
pub mod Fork
pub mod Clean
pub mod Boot
mod Examples
use chouryos.Base.{
  ℕ, ◌-◌, ◌^◌, ◌%◌, ◌/◌, Bool, Option, none, some, ◌||◌, ◌==◌, if◌then◌else◌, ltb, update,
}
use chouryos.Memory.Bitmap.{Bytes}
use chouryos.Memory.Frames.{page_size, getmpage}
use chouryos.Memory.Window.{Ptable, getpagec, getpagei}
use chouryos.Memory.Share.{Sharing, devpage}

-- The page tables with `PSL`, the bitmap of frames, and the bytes of each frame.
pub record Paging : Type 0 where
  pub sharing : Sharing
  pub mmap : Bytes
  pub bytes : ℕ → ℕ → ℕ

-- `SETPT`: a page that is present and can be written.
abbrev pub setpt : ℕ → ℕ → Ptable
setpt base us = record {
  p = 1;
  r_w = 1;
  u_s = us;
  pwt = 0;
  pcd = 0;
  a = 0;
  d = 0;
  pat = 0;
  g = 0;
  avl = 0;
  base = base % 2 ^ 20;
}

abbrev pub entry : Paging → ℕ → ℕ → Ptable
entry s frame i = s.sharing.table frame i

abbrev pub set_entry : ℕ → ℕ → Ptable → Paging → Paging
set_entry frame i e s = record s {
  sharing = record s.sharing {
    table = update s.sharing.table frame (update (s.sharing.table frame) i e);
  };
}

abbrev pub absent : Paging → ℕ → ℕ → Bool
absent s frame i = (entry s frame i).p == 0

-- The result of `getmpage` as a `uint32`; -1 is not tested for.
abbrev pub page_number : Option ℕ → ℕ
page_number (some page) = page
page_number none = 2 ^ 32 - 1

abbrev pub new_page : Paging → ℕ × Paging
new_page s = let r = getmpage s.mmap in (page_number r.0, record s { mmap = r.1 })

-- `pagecpy`. An entry of a page table has four bytes.
abbrev pub pagecpy : ℕ → ℕ → Paging → Paging
pagecpy dest src s =
    let d = dest % 2 ^ 20 in
    let f = src % 2 ^ 20 in
    let t = s.sharing.table in
    record s {
      sharing = record s.sharing {
        table = update t d (λ i. if ltb i (page_size / 4) then t f i else t d i);
      };
      bytes = update s.bytes d (λ o. if ltb o page_size then s.bytes f o else s.bytes d o);
    }

-- `if (P == 0) SETPT(…, getmpage(), us)`.
unfoldable pub ensure : ℕ → ℕ → ℕ → Paging → Paging
ensure us frame i s =
    let r = new_page s in if absent s frame i then set_entry frame i (setpt r.0 us) r.1 else s

-- The page is not present: cases 0 and 2 with `us` 0, 4 and 6 with 1.
unfoldable pub page_in : ℕ → ℕ → ℕ → Paging → Paging
page_in us pde cr2 s =
    let s' = ensure us pde (getpagec cr2) s in
    ensure us (entry s' pde (getpagec cr2)).base (getpagei cr2) s'

abbrev pub with_sharing : Paging → Option Sharing → Option Paging
with_sharing s none = none
with_sharing s (some sharing) = some (record s { sharing = sharing })

-- An entry goes on with a copy of its page in another frame.
unfoldable pub move_to : ℕ → ℕ → ℕ → Paging → Paging
move_to page frame i s =
    let s' = pagecpy page (entry s frame i).base s in
    set_entry frame i (record (entry s' frame i) { base = page % 2 ^ 20 }) s'

abbrev pub own_page : ℕ → ℕ → Paging → Option Sharing → Option Paging
own_page frame i s none = none
own_page frame i s (some sharing) =
    let r = new_page (record s { sharing = sharing }) in some (move_to r.0 frame i r.1)

-- A process wrote to a page that is read-only: case 7.
unfoldable pub write_fault : ℕ → ℕ → ℕ → Paging → Option Paging
write_fault fuel pde cr2 s =
    let frame = (entry s pde (getpagec cr2)).base in
    let i = getpagei cr2 in
    if (entry s frame i).avl == 1
    then own_page frame i s (devpage fuel frame i s.sharing)
    else some s

-- How the handler ends: the process goes on, or the machine prints the interrupt and stops in an
-- endless loop. In `lost` a loop of `devpage` has not ended after the rounds that it is given.
pub data Handled : Type 0 where
  resumed : Paging → Handled
  stopped lost : Handled

abbrev pub resume : Option Paging → Handled
resume (some s) = resumed s
resume none = lost

-- The `switch` on `code & 0xf`.
unfoldable pub page_fault : ℕ → ℕ → ℕ → ℕ → Paging → Handled
page_fault fuel code cr2 pde s =
    let c = code % 16 in
    if (c == 0) || (c == 2)
    then resumed (page_in 0 pde cr2 s)
    else if (c == 4) || (c == 6)
    then resumed (page_in 1 pde cr2 s)
    else if c == 7
    then resume (write_fault fuel pde cr2 s)
    else stopped

-- `defultinthandle`, where `pde` is the page directory of the current process.
unfoldable pub defultinthandle : ℕ → ℕ → ℕ → ℕ → ℕ → Paging → Handled
defultinthandle fuel number code cr2 pde s =
    if number == 1
    then resumed s
    else if number == 14
    then (if ltb cr2 0x40000000 then stopped else page_fault fuel code cr2 pde s)
    else stopped
