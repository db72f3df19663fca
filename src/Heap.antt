-- ===== src/Heap.antt =====
-- lib/malloc.c: the kernel's heap, a row of blocks that start with a control block, from KHEAP up
-- to `last_valid_address`.
pub mod Chain
pub mod Alloc
mod Examples
use chouryos.Base.{
  ℕ, zero, suc, ◌+◌, ◌-◌, ◌^◌, Bool, true, false, Option, none, some, ◌==◌, leb, if◌then◌else◌, u32,
  update,
}

-- `struct mem_control_block`; `size` counts the control block's own 8 bytes.
pub record Mcb : Type 0 where
  pub is_available : Bool
  pub size : ℕ

abbrev pub mcb_size : ℕ
mcb_size = 8

-- The control block at an address, and the end of the memory that is managed.
-- `managed_memory_start` is 0 before the first call and KHEAP after it.
pub record Heap : Type 0 where
  pub has_initialized : Bool
  pub managed_memory_start : ℕ
  pub last_valid_address : ℕ
  pub mcb : ℕ → Mcb

abbrev pub kheap : ℕ
kheap = 0x10000

abbrev pub malloc_init : Heap → Heap
malloc_init h = record h {
  last_valid_address = kheap;
  managed_memory_start = kheap;
  has_initialized = true;
}

-- `free`
unfoldable pub free : ℕ → Heap → Heap
free firstbyte h =
    let a = firstbyte - mcb_size in
    record h { mcb = update h.mcb a (record (h.mcb a) { is_available = true }) }

-- How the loop ends: with a block that fits, at the end of the memory, or not in its rounds.
pub data Found : Type 0 where
  fits_at : ℕ → Found
  past lost : Found

-- The loop of `malloc` at `current_location`.
unfoldable pub first_fit : ℕ → ℕ → ℕ → Heap → Found
first_fit zero numbytes a h = lost
first_fit (suc fuel) numbytes a h =
    let rest = first_fit fuel numbytes (u32 (a + (h.mcb a).size)) h in
    if a == h.last_valid_address
    then past
    else if (h.mcb a).is_available
    then (if leb numbytes (h.mcb a).size then fits_at a else rest)
    else rest

-- The rest of `malloc`. A location of 0 counts as none, and no block is there.
abbrev pub take_block : ℕ → Heap → Found → Option (ℕ × Heap)
take_block numbytes h (fits_at a) =
    some
      (a + mcb_size, record h { mcb = update h.mcb a (record (h.mcb a) { is_available = false }) })
take_block numbytes h past =
    let a = h.last_valid_address in
    some (
      a + mcb_size,
      record h {
        last_valid_address = u32 (a + numbytes);
        mcb = update h.mcb a (record { is_available = false; size = numbytes });
      },
    )
take_block numbytes h lost = none

-- `malloc`, with at most `fuel` rounds of its loop: the address, and the new heap.
unfoldable pub malloc : ℕ → ℕ → Heap → Option (ℕ × Heap)
malloc fuel numbytes h0 =
    let h = if h0.has_initialized then h0 else malloc_init h0 in
    let n = u32 (numbytes + mcb_size) in take_block n h (first_fit fuel n h.managed_memory_start h)
