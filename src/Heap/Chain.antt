-- ===== src/Heap/Chain.antt =====
-- The blocks of the heap as a row: each begins where the one before it ends.
use chouryos.Base.{
  ℕ, ◌+◌, ◌≤◌, ◌<◌, ◌^◌, ◌≡◌, ◌≢◌, ◌⊎◌, inl, inr, true, List, [], ◌∷◌, ◌++◌, arith, update,
}
use chouryos.Heap.{Mcb, Heap, kheap}

-- From `a` on there are blocks of these sizes, and the last ends at `e`.
abbrev pub Chain : (ℕ → Mcb) → ℕ → List ℕ → ℕ → Type 0
Chain mcb a [] e = a ≡ e
Chain mcb a (s ∷ ss) e = ((mcb a).size ≡ s) × (8 ≤ s) × Chain mcb (a + s) ss e

-- A block of the row that starts at `a` begins at `b`.
abbrev pub IsBlock : List ℕ → ℕ → ℕ → Type 0
IsBlock [] a b = ⊥
IsBlock (s ∷ ss) a b = (b ≡ a) ⊎ IsBlock ss (a + s) b

-- The state of the heap between calls.
pub record IsHeap (h : Heap) (ss : List ℕ) : Type 0 where
  pub ready : h.has_initialized ≡ true
  pub start : h.managed_memory_start ≡ kheap
  pub blocks : Chain h.mcb kheap ss h.last_valid_address
  pub in_memory : h.last_valid_address < 2 ^ 32

pub Chain-le : (mcb : ℕ → Mcb) (a : ℕ) (ss : List ℕ) (e : ℕ) → Chain mcb a ss e → a ≤ e
Chain-le mcb a [] e c = omega arith
Chain-le mcb a (s ∷ ss) e (p, q, c) = omega (arith, Chain-le mcb (a + s) ss e c)

-- A block lies between the row's two ends.
pub IsBlock_range :
    (mcb : ℕ → Mcb) (a : ℕ) (ss : List ℕ) (e b : ℕ)
    → Chain mcb a ss e
    → IsBlock ss a b
    → (a ≤ b) × (b + (mcb b).size ≤ e) × (8 ≤ (mcb b).size)
IsBlock_range mcb a [] e b c h = absurd h
IsBlock_range mcb a (s ∷ ss) e b (p, q, c) (inl h) =
    let le = Chain-le mcb (a + s) ss e c in rw (h, p) (omega arith, omega arith, q)
IsBlock_range mcb a (s ∷ ss) e b (p, q, c) (inr h) =
    let (x, y, z) = IsBlock_range mcb (a + s) ss e b c h in (omega arith, y, z)

-- Two blocks do not overlap.
pub IsBlock-disjoint :
    (mcb : ℕ → Mcb) (a : ℕ) (ss : List ℕ) (e b c : ℕ)
    → Chain mcb a ss e
    → IsBlock ss a b
    → IsBlock ss a c
    → b ≢ c
    → (b + (mcb b).size ≤ c) ⊎ (c + (mcb c).size ≤ b)
IsBlock-disjoint mcb a [] e b c w x y ne = absurd x
IsBlock-disjoint mcb a (s ∷ ss) e b c (p, q, w) (inl x) (inl y) ne = absurd (omega arith)
IsBlock-disjoint mcb a (s ∷ ss) e b c (p, q, w) (inl x) (inr y) ne =
    inl (rw (x, p) (IsBlock_range mcb (a + s) ss e c w y).0)
IsBlock-disjoint mcb a (s ∷ ss) e b c (p, q, w) (inr x) (inl y) ne =
    inr (rw (y, p) (IsBlock_range mcb (a + s) ss e b w x).0)
IsBlock-disjoint mcb a (s ∷ ss) e b c (p, q, w) (inr x) (inr y) ne =
    IsBlock-disjoint mcb (a + s) ss e b c w x y ne

-- A change of the mark of a block, or beyond the row, leaves the row.
pub Chain-update :
    (mcb : ℕ → Mcb) (a : ℕ) (ss : List ℕ) (e x : ℕ) (v : Mcb)
    → Chain mcb a ss e
    → (x < e → v.size ≡ (mcb x).size)
    → Chain (update mcb x v) a ss e
Chain-update mcb a [] e x v c h = c
Chain-update mcb a (s ∷ ss) e x v (p, q, c) h =
    let le = Chain-le mcb (a + s) ss e c in
    (ground (arith, h), q, Chain-update mcb (a + s) ss e x v c h)

-- A block is added at the end.
pub Chain-snoc :
    (mcb : ℕ → Mcb) (a : ℕ) (ss : List ℕ) (e s : ℕ)
    → Chain mcb a ss e
    → (mcb e).size ≡ s
    → 8 ≤ s
    → Chain mcb a (ss ++ (s ∷ [])) (e + s)
Chain-snoc mcb a [] e s c p q = (rw c p, q, omega arith)
Chain-snoc mcb a (x ∷ ss) e s (u, v, c) p q = (u, v, Chain-snoc mcb (a + x) ss e s c p q)

pub IsBlock-snoc :
    (mcb : ℕ → Mcb) (a : ℕ) (ss : List ℕ) (e s b : ℕ)
    → Chain mcb a ss e
    → (IsBlock ss a b ⊎ (b ≡ e))
    → IsBlock (ss ++ (s ∷ [])) a b
IsBlock-snoc mcb a [] e s b c (inl h) = absurd h
IsBlock-snoc mcb a [] e s b c (inr h) = inl (omega arith)
IsBlock-snoc mcb a (x ∷ ss) e s b (u, v, c) (inl (inl h)) = inl h
IsBlock-snoc mcb a (x ∷ ss) e s b (u, v, c) (inl (inr h)) =
    inr (IsBlock-snoc mcb (a + x) ss e s b c (inl h))
IsBlock-snoc mcb a (x ∷ ss) e s b (u, v, c) (inr h) =
    inr (IsBlock-snoc mcb (a + x) ss e s b c (inr h))
