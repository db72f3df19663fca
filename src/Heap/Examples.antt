-- ===== src/Heap/Examples.antt =====
-- Runs of the heap, and each theorem at an input.
use chouryos.Base.{
  ℕ, ◌+◌, ◌≤◌, ◌≡◌, refl, ◌⊎◌, inl, true, false, Option, some, [], ◌∷◌, arith, ◌==◌, if◌then◌else◌,
}
use chouryos.Heap.{Heap, free, first_fit, malloc}
use chouryos.Heap.Chain.{IsHeap}
use chouryos.Heap.Alloc.{IsFreed, malloc-disjoint, malloc-free}

program : Unit {0}
unfolding free first_fit malloc
program = tt

-- A block of 24 bytes in use, and a free one of 16.
abbrev two_blocks : Heap
two_blocks = record {
  has_initialized = true;
  managed_memory_start = 0x10000;
  last_valid_address = 0x10028;
  mcb = λ a.
      if a == 0x10000
      then record { is_available = false; size = 24 }
      else record { is_available = true; size = 16 };
}

IsHeap-two_blocks : IsHeap two_blocks (24 ∷ 16 ∷ [])
IsHeap-two_blocks = record {
  ready = refl;
  start = refl;
  blocks = (refl, omega arith, (refl, omega arith, refl));
  in_memory = omega arith;
}

abbrev not_set_up : Heap
not_set_up = record {
  has_initialized = false;
  managed_memory_start = 0;
  last_valid_address = 0;
  mcb = λ a. record { is_available = false; size = 0 };
}

abbrev address : Option (ℕ × Heap) → ℕ
address (some (a, h)) = a
address _ = 0

first_call : address (malloc 1 5 not_set_up) ≡ 0x10008
unfolding program
first_call = refl

reuses : address (malloc 3 8 two_blocks) ≡ 0x10020
unfolding program
reuses = refl

abbrev after : Heap
after = record two_blocks {
  mcb = λ a. if 0x10018 == a then record { is_available = false; size = 16 } else two_blocks.mcb a;
}

reused_heap : malloc 3 8 two_blocks ≡ some (0x10020, after)
unfolding program
reused_heap = refl

malloc-disjoint_example : (0x10020 + 8 ≤ 0x10000) ⊎ (0x10000 + 24 + 8 ≤ 0x10020)
malloc-disjoint_example =
    malloc-disjoint 3 8 0x10020 two_blocks after (24 ∷ 16 ∷ []) 0x10000 IsHeap-two_blocks
      (omega arith) (omega arith) reused_heap (inl refl) refl

malloc-free_example :
    IsFreed two_blocks (free (0x10000 + 8) two_blocks) (24 ∷ 16 ∷ []) 0x10000
    × ((b : ℕ) × (h' : Heap) × (malloc 3 16 (free (0x10000 + 8) two_blocks) ≡ some (b + 8, h'))
        × (b ≤ 0x10000)
        × (h'.last_valid_address ≡ two_blocks.last_valid_address)
        × IsHeap h' (24 ∷ 16 ∷ []))
malloc-free_example =
    malloc-free 3 16 0x10000 two_blocks (24 ∷ 16 ∷ []) IsHeap-two_blocks (omega arith) (inl refl)
      (omega arith)
