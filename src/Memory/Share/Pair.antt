-- ===== src/Memory/Share/Pair.antt =====
-- Two users of a frame: what sharing it sets up, and that taking it back leaves no trace.
pub mod Write
use chouryos.Base.{
  ℕ, zero, suc, ◌+◌, ◌-◌, ◌≤◌, ◌<◌, ◌^◌, ◌≡◌, ◌≢◌, refl, ap, some, arith, ◌==◌, ne→==, ==_iff,
  Bool-cases, inl, inr, if◌then◌else◌, u16, update,
}
use chouryos.Memory.Frames.{PageShrList}
use chouryos.Memory.Share.{
  Sharing, max_shrlc, find_pagec, find_from, put, set_next, mark, new_share, sharepage, unlist,
  end_share, devpage,
}

find_pagec-first :
    (left i x r : ℕ) (psl : ℕ → PageShrList)
    → i ≤ r
    → r < i + left
    → (psl r).pagec ≡ x
    → ((y : ℕ) → i ≤ y → y < r → (psl y).pagec ≢ x)
    → find_pagec left i x psl ≡ r
unfolding find_pagec
find_pagec-first zero i x r psl lo hi h before = absurd (omega arith)
find_pagec-first (suc left) i x r psl lo hi h before = elim (Bool-cases (i == r)) [
  | inl e ↦ let same : i ≡ r = ground arith in rw (same, h) (ground arith)
  | inr e ↦ rw (ne→== (psl i).pagec x (before i (omega arith) (ground arith))) (
      find_pagec-first left (i + 1) x r psl (ground arith) (omega arith) h
        (λ y a b. before y (omega arith) b))
]

-- The three free elements of `PSL` from 1 on that come first.
pub record IsFree (psl : ℕ → PageShrList) (i j k : ℕ) : Type 0 where
  pub order : (1 ≤ i) × (i < j) × (j < k) × (k < 2 ^ 16)
  pub free : ((psl i).pagec ≡ 0) × ((psl j).pagec ≡ 0) × ((psl k).pagec ≡ 0)
  pub first : (y : ℕ) → 1 ≤ y → y < k → y ≢ i → y ≢ j → (psl y).pagec ≢ 0

-- Two entries of different page tables map the same frame, which is not shared, and no element of
-- `PSL` names it.
pub record IsPair (s : Sharing) (a ia b ib : ℕ) : Type 0 where
  pub tables : (a ≢ 0) × (b ≢ 0) × (a ≢ b)
  pub indices : (ia < 1024) × (ib < 1024)
  pub frame : ((s.table a ia).base ≢ 0) × ((s.table b ib).base ≡ (s.table a ia).base)
  pub fresh : (s.table a ia).avl ≢ 1
  pub unnamed : (y : ℕ) → (s.psl y).pagec ≢ (s.table a ia).base

-- `PSL` with the list of the two users.
abbrev pub listed : ℕ → ℕ → ℕ → ℕ → ℕ → ℕ → ℕ → ℕ → (ℕ → PageShrList) → (ℕ → PageShrList)
listed base a ia b ib i j k psl y =
    if i == y
    then record { pagec = base; index = 2; next = j }
    else if j == y
    then record { pagec = a; index = ia; next = k }
    else if k == y
    then record { pagec = b; index = ib; next = 0 }
    else psl y

module _ (psl : ℕ → PageShrList) (i j k base a ia b ib : ℕ) (v : IsFree psl i j k) where
  find_i : find_from 1 0 psl ≡ i
  find_i =
      find_pagec-first (max_shrlc - 1) 1 0 i psl v.order.0 (omega (arith, v.order)) v.free.0
        (λ y lo hi. v.first y lo (omega (arith, v.order)) (omega arith) (omega (arith, v.order)))

  psl1 : ℕ → PageShrList
  psl1 = update psl i (record (psl i) { pagec = base; index = 2 })

  find_j : find_from (i + 1) 0 psl1 ≡ j
  unfolding psl1
  find_j =
      find_pagec-first (max_shrlc - (i + 1)) (i + 1) 0 j psl1 (omega (arith, v.order))
        (omega (arith, v.order)) (ground (arith, v.order, v.free))
        (λ y lo hi. ground (arith, v.order, v.first y))

  psl3 : ℕ → PageShrList
  psl3 =
      let psl2 = set_next i j psl1 in update psl2 j (record (psl2 j) { pagec = a; index = u16 ia })

  find_k : find_from (j + 1) 0 psl3 ≡ k
  unfolding psl1 psl3
  find_k =
      find_pagec-first (max_shrlc - (j + 1)) (j + 1) 0 k psl3 (omega (arith, v.order))
        (omega (arith, v.order)) (ground (arith, v.order, v.free))
        (λ y lo hi. ground (arith, v.order, v.first y))

  final : ℕ → PageShrList
  final = put k b ib 0 (set_next j k psl3)

  final_at : (y : ℕ) → ia < 1024 → ib < 1024 → final y ≡ listed base a ia b ib i j k psl y
  unfolding final psl1 psl3
  final_at y la lb = elim (Bool-cases (i == y)) [
    | inl p ↦ rw p (ground (arith, v.order))
    | inr p ↦ elim (Bool-cases (j == y)) [
      | inl q ↦ rw (p, q) (ground (arith, v.order))
      | inr q ↦ rw (p, q) (ground (arith, v.order))
    ]
  ]

  new_share-listed :
      ia < 1024 → ib < 1024 → new_share base a ia b ib psl ≡ listed base a ia b ib i j k psl
  unfolding psl1 psl3 final
  new_share-listed la lb = rw (find_i, find_j, find_k) (λ t y. final_at y la lb t)

-- Both entries are their process's own and can be written, and `PSL` has the free elements that it
-- had.
pub record IsOwned (s s' : Sharing) (a ia b ib : ℕ) : Type 0 where
  pub first_own : ((s'.table a ia).avl ≡ 0) × ((s'.table a ia).r_w ≡ 1)
  pub second_own : ((s'.table b ib).avl ≡ 0) × ((s'.table b ib).r_w ≡ 1)
  pub elements : (y : ℕ) → (s'.psl y).pagec ≡ (s.psl y).pagec

module _ (s : Sharing) (a ia b ib i j k f : ℕ) (v : IsFree s.psl i j k)
    (p : IsPair s a ia b ib) where
  base : ℕ
  base = (s.table a ia).base

  list : ℕ → PageShrList
  list = listed (s.table a ia).base a ia b ib i j k s.psl

  shared : Sharing
  shared = mark b ib 1 0 (mark a ia 1 0 (record s { psl = list }))

  sharepage-shared : sharepage f a ia b ib s ≡ some shared
  unfolding sharepage shared list
  sharepage-shared = rw (
    ne→== (s.table a ia).avl 1 p.fresh,
    new_share-listed s.psl i j k (s.table a ia).base a ia b ib v p.indices.0 p.indices.1,
  )

  bases : ((shared.table a ia).base ≡ base) × ((shared.table b ib).base ≡ base)
  unfolding shared base
  bases = (ground (arith, p.tables), ground (arith, p.tables, p.frame))

  list_i : list i ≡ record { pagec = base; index = 2; next = j }
  unfolding list base
  list_i = ground (arith, v.order)

  list_j : list j ≡ record { pagec = a; index = ia; next = k }
  unfolding list
  list_j = ground (arith, v.order)

  list_k : list k ≡ record { pagec = b; index = ib; next = 0 }
  unfolding list
  list_k = ground (arith, v.order)

  head_found : find_from 1 base list ≡ i
  unfolding list base
  head_found =
      find_pagec-first (max_shrlc - 1) 1 base i list v.order.0 (omega (arith, v.order))
        (ap (λ (e : PageShrList). e.pagec) list_i) (λ y lo hi. ground (arith, v.order, p.unnamed y))

  shared_i : shared.psl i ≡ record { pagec = base; index = 2; next = j }
  unfolding shared
  shared_i = list_i

  shared_j : shared.psl j ≡ record { pagec = a; index = ia; next = k }
  unfolding shared
  shared_j = list_j

  shared_k : shared.psl k ≡ record { pagec = b; index = ib; next = 0 }
  unfolding shared
  shared_k = list_k

  shared_found : find_from 1 base shared.psl ≡ i
  unfolding shared
  shared_found = head_found

  second_entry : PageShrList
  second_entry = record { pagec = b; index = ib; next = 0 }

  first_entry : PageShrList
  first_entry = record { pagec = a; index = ia; next = k }

  end_share-second : end_share i b shared ≡ unlist i j k first_entry shared
  unfolding end_share first_entry
  end_share-second = rw (shared_i, shared_j, ne→== a b p.tables.2, shared_j)

  end_share-first : end_share i a shared ≡ unlist i j k second_entry shared
  unfolding end_share second_entry
  end_share-first = rw (shared_i, shared_j, (==_iff a a).1 refl, shared_k)

  owned : ℕ → ℕ → PageShrList → Sharing
  owned x xi other = mark x xi 0 1 (unlist i j k other shared)

  devpage-second : devpage f b ib shared ≡ some (owned b ib first_entry)
  unfolding devpage owned
  devpage-second = rw (bases.1, shared_found, shared_i, end_share-second)

  devpage-first : devpage f a ia shared ≡ some (owned a ia second_entry)
  unfolding devpage owned
  devpage-first = rw (bases.0, shared_found, shared_i, end_share-first)

  elements_at :
      (x xi y : ℕ) (other : PageShrList) → ((owned x xi other).psl y).pagec ≡ (s.psl y).pagec
  unfolding owned unlist shared list
  elements_at x xi y other = ground (arith, v.free, v.order)

  owned_entries :
      IsOwned s (owned b ib first_entry) a ia b ib × IsOwned s (owned a ia second_entry) a ia b ib
  unfolding owned unlist first_entry second_entry
  owned_entries = (
    record {
      first_own = ground (arith, p.tables);
      second_own = ground (arith, p.tables);
      elements = λ y. elements_at b ib y first_entry;
    },
    record {
      first_own = ground (arith, p.tables);
      second_own = ground (arith, p.tables);
      elements = λ y. elements_at a ia y second_entry;
    },
  )

-- A frame that one page table maps is shared with another: either of the two can take it back, and
-- then both entries are their process's own and can be written, and `PSL` has the free elements
-- that it had. The first three of these lie below 2 ^ 16.
pub devpage-sharepage :
    (s : Sharing) (a ia b ib i j k f : ℕ)
    → IsFree s.psl i j k
    → IsPair s a ia b ib
    → (s1 : Sharing) × (s2 : Sharing) × (s3 : Sharing) × (sharepage f a ia b ib s ≡ some s1)
      × (devpage f b ib s1 ≡ some s2)
      × (devpage f a ia s1 ≡ some s3)
      × IsOwned s s2 a ia b ib
      × IsOwned s s3 a ia b ib
devpage-sharepage s a ia b ib i j k f v p =
    let (second, first) = owned_entries s a ia b ib i j k f v p in
    (
      _,
      _,
      _,
      sharepage-shared s a ia b ib i j k f v p,
      devpage-second s a ia b ib i j k f v p,
      devpage-first s a ia b ib i j k f v p,
      second,
      first,
    )
