-- ===== src/Paging/Boot.antt =====
-- The page tables of process 0 that `init` of kernel/init.c builds. The calls of `getmpage` stand
-- first, as no write to a table touches the bitmap, and a loop over the entries of a table is a
-- function of the index.
pub mod Link
pub mod Identity
use chouryos.Base.{ℕ, ◌+◌, ◌-◌, ◌%◌, ◌^◌, ◌==◌, if◌then◌else◌, ltb, update}
use chouryos.Memory.Frames.{getmpage}
use chouryos.Memory.Window.{Ptable, map_index}
use chouryos.Paging.{Paging, setpt, entry, set_entry, page_number}

-- `SETPT` of entry `i` of the directory, and a new table there, whose entries `e` gives.
unfoldable pub link : ℕ → ℕ → ℕ → ℕ → (ℕ → Ptable → Ptable) → Paging → Paging
link us pde i table e s =
    let s' = set_entry pde i (setpt table us) s in
    let pte = table % 2 ^ 20 in
    record s' {
      sharing = record s'.sharing {
        table = update s'.sharing.table pte (λ x. e x (entry s' pte x));
      };
    }

-- The first 4 MiB, at their own addresses; the tables of interrupts and segments are read-only.
abbrev pub low_entry : ℕ → Ptable → Ptable
low_entry x old =
    if x == 0 then record (setpt 0 0) { r_w = 0 } else if ltb x 1024 then setpt x 0 else old

-- The MiB behind them.
abbrev pub high_entry : ℕ → Ptable → Ptable
high_entry x old = if ltb x 256 then setpt (x + 1024) 0 else old

-- `memset(TMPMAP, 0, PAGESIZE)`
abbrev pub no_entry : ℕ → Ptable → Ptable
no_entry x old =
    if ltb x 1024
    then record {
      p = 0;
      r_w = 0;
      u_s = 0;
      pwt = 0;
      pcd = 0;
      a = 0;
      d = 0;
      pat = 0;
      g = 0;
      avl = 0;
      base = 0;
    }
    else old

-- The user space of process 0: a page of its own, and the kernel's memory behind it.
abbrev pub user_entry : ℕ → ℕ → Ptable → Ptable
user_entry page x old = if x == 0 then setpt page 1 else if ltb x 768 then setpt (x - 1) 1 else old

-- The system stack is the last page.
abbrev pub stack_entry : ℕ → ℕ → Ptable → Ptable
stack_entry page x old =
    if x == 1023 then setpt page 0 else if ltb x 1023 then record old { p = 0 } else old

-- `TMPMAP` is at 0x3000.
abbrev pub tmpmap : ℕ
tmpmap = 3

-- No table is present.
unfoldable pub clear : ℕ → Paging → Paging
clear pde s = record s {
  sharing = record s.sharing {
    table =
        update s.sharing.table pde
          (λ i. if ltb i 1024 then record (entry s pde i) { p = 0 } else entry s pde i);
  };
}

-- The page directory and the memory.
unfoldable pub init_pages : Paging → ℕ × Paging
init_pages s =
    let f0 = getmpage s.mmap in
    let f1 = getmpage f0.1 in
    let f2 = getmpage f1.1 in
    let f3 = getmpage f2.1 in
    let f4 = getmpage f3.1 in
    let f5 = getmpage f4.1 in
    let f6 = getmpage f5.1 in
    let pde = page_number f0.0 in
    let s1 = link 0 pde 0 (page_number f1.0) low_entry (clear pde (record s { mmap = f6.1 })) in
    let s2 = link 0 pde 1 (page_number f2.0) high_entry s1 in
    let s3 = link 0 pde map_index tmpmap no_entry s2 in
    let s4 = link 1 pde 256 (page_number f3.0) (user_entry (page_number f4.0)) s3 in
    (pde, link 1 pde 1023 (page_number f5.0) (stack_entry (page_number f6.0)) s4)
