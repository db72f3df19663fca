-- ===== src/Heap/Alloc.antt =====
-- What `malloc` returns, and what `free` gives back.
use chouryos.Base.{
  ℕ, zero, suc, ◌+◌, ◌-◌, ◌≤◌, ◌<◌, ◌^◌, ◌≡◌, ◌≢◌, refl, sym, ap, subst, ◌∙◌, ◌⊎◌, inl, inr, Bool,
  true, false, ◌&&◌, Option, some, List, [], ◌∷◌, ◌++◌, arith, ◌==◌, ==_iff, Bool-cases, leb,
  length, if◌then◌else◌, update, update_ne, u32,
}
use chouryos.Heap.{
  Mcb, Heap, kheap, free, Found, fits_at, past, first_fit, take_block, malloc, malloc_init,
}
use chouryos.Heap.Chain.{
  Chain, IsBlock, IsHeap, Chain-le, IsBlock_range, IsBlock-disjoint, Chain-update, Chain-snoc,
  IsBlock-snoc,
}

-- The block at `b` is free and has room.
abbrev pub fits : (ℕ → Mcb) → ℕ → ℕ → Bool
fits mcb n b = (mcb b).is_available && leb n (mcb b).size

-- The block is the first of the row that fits.
pub record IsFit (mcb : ℕ → Mcb) (n a : ℕ) (ss : List ℕ) (b : ℕ) : Type 0 where
  pub block : IsBlock ss a b
  pub fit : fits mcb n b ≡ true
  pub first : (x : ℕ) → IsBlock ss a x → x < b → fits mcb n x ≡ false

abbrev Outcome : (ℕ → Mcb) → ℕ → ℕ → List ℕ → Found → Type 0
Outcome mcb n a ss r =
    ((b : ℕ) × (r ≡ fits_at b) × IsFit mcb n a ss b)
    ⊎ ((r ≡ past) × ((x : ℕ) → IsBlock ss a x → fits mcb n x ≡ false))

Outcome-pass :
    (mcb : ℕ → Mcb) (n a s : ℕ) (ss : List ℕ) (r : Found)
    → fits mcb n a ≡ false
    → Outcome mcb n (a + s) ss r
    → Outcome mcb n a (s ∷ ss) r
Outcome-pass mcb n a s ss r h (inl (b, e, p)) =
    inl (b, e, record { block = inr p.block; fit = p.fit; first = first })
  where
    first : (x : ℕ) → IsBlock (s ∷ ss) a x → x < b → fits mcb n x ≡ false
    first x (inl q) l = rw q h
    first x (inr q) l = p.first x q l
Outcome-pass mcb n a s ss r h (inr (e, p)) = inr (e, none)
  where
    none : (x : ℕ) → IsBlock (s ∷ ss) a x → fits mcb n x ≡ false
    none x (inl q) = rw q h
    none x (inr q) = p x q

first_fit-Outcome :
    (fuel n a : ℕ) (ss : List ℕ) (h : Heap)
    → Chain h.mcb a ss h.last_valid_address
    → h.last_valid_address < 2 ^ 32
    → length ss < fuel
    → Outcome h.mcb n a ss (first_fit fuel n a h)
unfolding first_fit
first_fit-Outcome zero n a ss h c l f = absurd (omega arith)
first_fit-Outcome (suc fuel) n a [] h c l f =
    rw ((==_iff a h.last_valid_address).1 c) (inr (refl, λ x q. absurd q))
first_fit-Outcome (suc fuel) n a (s ∷ ss) h (p, q, c) l f =
    let le = Chain-le h.mcb (a + s) ss h.last_valid_address c in
    let inside : (a == h.last_valid_address) ≡ false = ground arith in
    let next : u32 (a + (h.mcb a).size) ≡ a + s = omega arith in
    let rest = first_fit-Outcome fuel n (a + s) ss h c l (ground arith) in
    elim (Bool-cases (h.mcb a).is_available) [
      | inl v ↦ elim (Bool-cases (leb n (h.mcb a).size)) [
        | inl w ↦
            rw (inside, v, w)
              (inl (
                a,
                refl,
                record {
                  block = inl refl;
                  fit = rw (v, w);
                  first = λ x b lt. absurd (
                      omega (
                        arith,
                        (IsBlock_range h.mcb a (s ∷ ss) h.last_valid_address x (p, q, c) b).0,
                      ));
                },
              ))
        | inr w ↦ rw (inside, v, w, next) (Outcome-pass h.mcb n a s ss _ (rw (v, w)) rest)
      ]
      | inr v ↦ rw (inside, v, next) (Outcome-pass h.mcb n a s ss _ (rw v) rest)
    ]

-- A block was found for `n` bytes: it is in use now, and was free if it was there before; no
-- other block changes.
pub record Allocated (h : Heap) (ss : List ℕ) (n a : ℕ) (h' : Heap) (ss' : List ℕ) : Type 0 where
  pub heap : IsHeap h' ss'
  pub block : IsBlock ss' kheap a
  pub used : (h'.mcb a).is_available ≡ false
  pub room : n + 8 ≤ (h'.mcb a).size
  pub was_free : IsBlock ss kheap a → (h.mcb a).is_available ≡ true
  pub others : (b : ℕ) → IsBlock ss kheap b → b ≢ a → IsBlock ss' kheap b × (h'.mcb b ≡ h.mcb b)

module _ (h : Heap) (ss : List ℕ) (n : ℕ) (v : IsHeap h ss) where
  reused :
      (a : ℕ)
      → IsFit h.mcb (n + 8) kheap ss a
      → Allocated h ss n a
          (record h { mcb = update h.mcb a (record (h.mcb a) { is_available = false }) })
          ss
  reused a f = record {
    heap = record {
      ready = v.ready;
      start = v.start;
      blocks = Chain-update h.mcb kheap ss h.last_valid_address a _ v.blocks (λ _. refl);
      in_memory = v.in_memory;
    };
    block = f.block;
    used = ground arith;
    room = ground (arith, f.fit);
    was_free = λ b. ground (arith, f.fit);
    others = λ b x ne.
        (x, rw (update_ne h.mcb a b (record (h.mcb a) { is_available = false }) (λ e. ne (sym e))));
  }

  appended :
      h.last_valid_address + n + 8 < 2 ^ 32
      → Allocated h ss n h.last_valid_address
          (record h {
            last_valid_address = u32 (h.last_valid_address + (n + 8));
            mcb = update h.mcb h.last_valid_address (record { is_available = false; size = n + 8 });
          })
          (ss ++ ((n + 8) ∷ []))
  appended l =
      let e = h.last_valid_address in
      let new = update h.mcb e (record { is_available = false; size = n + 8 }) in
      let inside =
        λ (b : ℕ) (x : IsBlock ss kheap b). IsBlock_range h.mcb kheap ss e b v.blocks x in
      let end : u32 (e + (n + 8)) ≡ e + (n + 8) = omega arith in
      let row : Chain new kheap ss e =
        Chain-update h.mcb kheap ss e e _ v.blocks (λ x. absurd (omega arith)) in
      record {
        heap = record {
          ready = v.ready;
          start = v.start;
          blocks = rw end (Chain-snoc new kheap ss e (n + 8) row (ground arith) (omega arith));
          in_memory = omega arith;
        };
        block = IsBlock-snoc new kheap ss e (n + 8) e row (inr refl);
        used = ground arith;
        room = ground arith;
        was_free = λ b. absurd (omega (arith, inside e b));
        others = λ b x ne. (
          IsBlock-snoc new kheap ss e (n + 8) b row (inl x),
          rw (
              update_ne h.mcb e b (record { is_available = false; size = n + 8 })
                (λ q. ne (sym q))),
        );
      }

-- `malloc` in a heap that is set up.
malloc-set_up :
    (fuel n : ℕ) (h : Heap)
    → h.has_initialized ≡ true
    → h.managed_memory_start ≡ kheap
    → n + 8 < 2 ^ 32
    → malloc fuel n h ≡ take_block (n + 8) h (first_fit fuel (n + 8) kheap h)
unfolding malloc
malloc-set_up fuel n h ready start l =
    let search = λ (x : Heap) (m a : ℕ). take_block m x (first_fit fuel m a x) in
    let set_up : (if h.has_initialized then h else malloc_init h) ≡ h =
      ap (λ b. if b then h else malloc_init h) ready in
    let size : u32 (n + 8) ≡ n + 8 = omega arith in
    ap (λ x. search x (u32 (n + 8)) x.managed_memory_start) set_up
    ∙ ap (λ m. search h m h.managed_memory_start) size
    ∙ ap (λ a. search h (n + 8) a) start

-- `malloc` in a heap whose row of blocks would end below 4 GiB: it returns the address behind the
-- control block of a block with room for the bytes, which is in use now and was not, the row of
-- blocks stays a row, and no other block changes; one round more than there are blocks is enough.
pub malloc-Allocated :
    (fuel n : ℕ) (h : Heap) (ss : List ℕ)
    → IsHeap h ss
    → length ss < fuel
    → h.last_valid_address + n + 8 < 2 ^ 32
    → (a : ℕ) × (h' : Heap) × (ss' : List ℕ) × (malloc fuel n h ≡ some (a + 8, h'))
      × Allocated h ss n a h' ss'
malloc-Allocated fuel n h ss v f l =
    let e = h.last_valid_address in
    let run = malloc-set_up fuel n h v.ready v.start (omega arith) in
    elim (first_fit-Outcome fuel (n + 8) kheap ss h v.blocks v.in_memory f) [
      | inl (a, q, p) ↦ (a, _, ss, run ∙ rw q, reused h ss n v a p)
      | inr (q, p) ↦ (e, _, _, run ∙ rw q, appended h ss n v l)
    ]

same_address :
    (a p : ℕ) (h h' : Heap)
    → ◌≡◌ {A = Option (ℕ × Heap)} (some (a + 8, h)) (some (p, h'))
    → a + 8 ≡ p
same_address a p h h' e = cc

in_use : {b : Bool} → b ≡ true → b ≡ false → ⊥
in_use p q = cc

-- The bytes that `malloc` returns do not meet any block that is in use, nor its control block, if the
-- heap with a new block behind it would end below 4 GiB.
pub malloc-disjoint :
    (fuel n p : ℕ) (h h' : Heap) (ss : List ℕ) (b : ℕ)
    → IsHeap h ss
    → length ss < fuel
    → h.last_valid_address + n + 8 < 2 ^ 32
    → malloc fuel n h ≡ some (p, h')
    → IsBlock ss kheap b
    → (h.mcb b).is_available ≡ false
    → (p + n ≤ b) ⊎ (b + (h.mcb b).size + 8 ≤ p)
malloc-disjoint fuel n p h h' ss b v f l q x used =
    let (a, h1, ss1, e, r) = malloc-Allocated fuel n h ss v f l in
    let address : a + 8 ≡ p = same_address a p h1 h' (sym e ∙ q) in
    let other : b ≢ a = λ w.
      in_use (r.was_free (subst (IsBlock ss kheap) w x))
        (subst (λ c. (h.mcb c).is_available ≡ false) w used) in
    let (y, same) = r.others b x other in
    elim (IsBlock-disjoint h1.mcb kheap ss1 h1.last_valid_address a b r.heap.blocks r.block y
      (λ w. other (sym w))) [
        | inl d ↦ inl (omega (arith, r.room))
        | inr d ↦ inr (omega (arith, ap (λ (m : Mcb). m.size) same))
      ]

-- Only the block at `a` has changed: it is available.
pub record IsFreed (h h' : Heap) (ss : List ℕ) (a : ℕ) : Type 0 where
  pub heap : IsHeap h' ss
  pub available : (h'.mcb a).is_available ≡ true
  pub size : (h'.mcb a).size ≡ (h.mcb a).size
  pub others : (b : ℕ) → a ≢ b → h'.mcb b ≡ h.mcb b
  pub end : h'.last_valid_address ≡ h.last_valid_address

-- `free` of a block makes it available with the size that it has, and keeps the row of blocks and
-- every other block; a `malloc` that fits into it then takes no new memory, and returns that block or
-- an earlier one. One round more than there are blocks is enough.
pub malloc-free :
    (fuel n a : ℕ) (h : Heap) (ss : List ℕ)
    → IsHeap h ss
    → length ss < fuel
    → IsBlock ss kheap a
    → n + 8 ≤ (h.mcb a).size
    → IsFreed h (free (a + 8) h) ss a
      × ((b : ℕ) × (h' : Heap) × (malloc fuel n (free (a + 8) h) ≡ some (b + 8, h'))
          × (b ≤ a)
          × (h'.last_valid_address ≡ h.last_valid_address)
          × IsHeap h' ss)
unfolding free
malloc-free fuel n a h ss v f x room =
    let e = h.last_valid_address in
    let r = IsBlock_range h.mcb kheap ss e a v.blocks x in
    let back : a + 8 - 8 ≡ a = omega arith in
    let h1 : Heap = record h { mcb = update h.mcb a (record (h.mcb a) { is_available = true }) } in
    let v1 : IsHeap h1 ss = record {
      ready = v.ready;
      start = v.start;
      blocks = Chain-update h.mcb kheap ss e a _ v.blocks (λ _. refl);
      in_memory = v.in_memory;
    } in
    let fit : fits h1.mcb (n + 8) a ≡ true = ground arith in
    let freed : IsFreed h h1 ss a = record {
      heap = v1;
      available = ground arith;
      size = ground arith;
      others = λ b ne. update_ne h.mcb a b (record (h.mcb a) { is_available = true }) ne;
      end = refl;
    } in
    rw back (
      freed,
      elim (first_fit-Outcome fuel (n + 8) kheap ss h1 v1.blocks v1.in_memory f) [
        | inl (b, q, p) ↦ (
          b,
          _,
          malloc-set_up fuel n h1 v.ready v.start (omega (arith, v.in_memory)) ∙ rw q,
          ground (arith, fit, p.first a x),
          refl,
          (reused h1 ss n v1 b p).heap,
        )
        | inr (q, p) ↦ absurd (cc (fit, p a x))
      ],
    )
