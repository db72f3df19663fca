-- ===== src/Fat/Chain/Release.antt =====
-- `releaseclus` frees a chain of clusters, and `Fat_cut` all but its first.
use chouryos.Base.{
  ℕ, zero, suc, ◌≤◌, ◌<◌, ◌≡◌, ◌≢◌, ◌⊎◌, refl, Bool, true, false, ◌||◌, some, List, [], ◌∷◌, arith,
  ◌==◌, leb, if◌then◌else◌, Bool-cases, le→leb, inl, inr, update, length, fun_ext,
}
use chouryos.Hd.{Disk, WriteHd, IsDriver}
use chouryos.Fat.{Filetype, Geometry, Volume}
use chouryos.Fat.Table.{is_no_clus, writenextclus}
use chouryos.Fat.Table.Entry.{InTable}
use chouryos.Fat.Table.Map.{HasTable, getnextclus-HasTable, writenextclus-HasTable}
use chouryos.Fat.Table.Write.Store.{FitsEntry}
use chouryos.Fat.Chain.{release_from, releaseclus, fat_cut}

abbrev pub elem : ℕ → List ℕ → Bool
elem x [] = false
elem x (c ∷ cs) = (c == x) || elem x cs

-- From `a` on the table runs through these clusters, none of them twice, and on to a number past
-- the last cluster.
abbrev pub IsChain : Geometry → (ℕ → ℕ) → ℕ → List ℕ → Type 0
IsChain g t a [] = g.max_clus < a
IsChain g t a (c ∷ cs) =
    (a ≡ c) × (c ≤ g.max_clus) × InTable g c × (elem c cs ≡ false) × IsChain g t (t c) cs

-- The table with the clusters freed.
abbrev pub freed : (ℕ → ℕ) → List ℕ → ℕ → ℕ
freed t cs x = if elem x cs then 0 else t x

IsChain-update :
    (g : Geometry) (t : ℕ → ℕ) (c n a : ℕ) (cs : List ℕ)
    → elem c cs ≡ false
    → IsChain g t a cs
    → IsChain g (update t c n) a cs
IsChain-update g t c n a [] e h = h
IsChain-update g t c n a (b ∷ cs) e (p, q, r, s, h) =
    let other : c ≢ b = ground arith in
    let same : update t c n b ≡ t b = ground arith in
    (p, q, r, s, rw same (IsChain-update g t c n (t b) cs (ground arith) h))

freed-update : (t : ℕ → ℕ) (c : ℕ) (cs : List ℕ) → freed (update t c 0) cs ≡ freed t (c ∷ cs)
freed-update t c cs = fun_ext λ x. elim (Bool-cases (c == x)) [
  | inl e ↦ elim (Bool-cases (elem x cs)) [ inl m ↦ rw (e, m) | inr m ↦ rw (e, m) ]
  | inr e ↦ elim (Bool-cases (elem x cs)) [ inl m ↦ rw (e, m) | inr m ↦ rw (e, m) ]
]

zero-FitsEntry : (ft : Filetype) → FitsEntry ft 0 ⊎ (ft ≡ Filetype.fat12)
zero-FitsEntry Filetype.fat12 = inr refl
zero-FitsEntry Filetype.fat16 = inl (omega arith)
zero-FitsEntry Filetype.fat32 = inl (omega arith)

module _ (k : WriteHd) (g : Geometry) (d : Disk) (drv : IsDriver k) where
  free_one :
      (t : ℕ → ℕ) (v : Volume) (c : ℕ)
      → HasTable g t d v
      → InTable g c
      → (v' : Volume) × (writenextclus k g c 0 v ≡ (true, v')) × HasTable g (update t c 0) d v'
  free_one t v c h p = elim (zero-FitsEntry g.ft) [
    | inl fits ↦ writenextclus-HasTable k g t d v c 0 drv h p fits
    | inr narrow ↦ absurd (h.wide narrow)
  ]

  release_from-freed :
      (fuel : ℕ) (cs : List ℕ) (t : ℕ → ℕ) (v : Volume) (a : ℕ)
      → HasTable g t d v
      → IsChain g t a cs
      → length cs < fuel
      → (v' : Volume) × (release_from k g fuel a v ≡ some v') × HasTable g (freed t cs) d v'
  unfolding release_from
  release_from-freed zero cs t v a h chain l = absurd (omega arith)
  release_from-freed (suc fuel) [] t v a h chain l =
      let past : leb a g.max_clus ≡ false = ground arith in (v, rw past, h)
  release_from-freed (suc fuel) (c ∷ cs) t v a h (p, q, r, s, chain) l =
      let (v1, e1, h1) = getnextclus-HasTable g t d v c h r in
      let (v2, e2, h2) = free_one t v1 c h1 r in
      let (v3, e3, h3) =
        release_from-freed fuel cs (update t c 0) v2 (t c) h2
          (IsChain-update g t c 0 (t c) cs s chain) (omega arith) in
      (v3, rw (p, le→leb c g.max_clus q, e1, e2) e3, rw (← freed-update t c cs) h3)

-- `Fat_cut` on a FAT16 or FAT32 volume ends a file's chain at its first cluster: the entry becomes
-- the end of the chain, every cluster behind it is free, and no other entry of the table changes;
-- one round more than there are clusters to free is enough. The disk driver stores the sectors that
-- it is given, the chain ends and has no cluster twice, and sectors have 512 bytes and numbers below
-- 2 ^ 32. The clusters of the chain have entries in the table whose bit position is below 2 ^ 32: on
-- FAT32 they are clusters below 2 ^ 27, since behind them the position wraps and the code takes
-- another entry.
pub fat_cut-freed :
    (k : WriteHd) (g : Geometry) (d : Disk) (fuel : ℕ) (cs : List ℕ) (t : ℕ → ℕ) (v : Volume)
    (a : ℕ)
    → IsDriver k
    → HasTable g t d v
    → InTable g a
    → FitsEntry g.ft g.eoc
    → elem a cs ≡ false
    → IsChain g t (t a) cs
    → length cs < fuel
    → (v' : Volume) × (fat_cut k g fuel a v ≡ some v')
      × HasTable g (freed (update t a g.eoc) cs) d v'
unfolding fat_cut releaseclus
fat_cut-freed k g d fuel cs t v a drv h p fits fresh chain l =
    let (v1, e1, h1) = getnextclus-HasTable g t d v a h p in
    let (v2, e2, h2) = writenextclus-HasTable k g t d v1 a g.eoc drv h1 p fits in
    let (v3, e3, h3) =
      release_from-freed k g d drv fuel cs (update t a g.eoc) v2 (t a) h2
        (IsChain-update g t a g.eoc (t a) cs fresh chain) l in
    let clus : is_no_clus g a ≡ false = ground (arith, p.range) in (v3, rw (clus, e1, e2) e3, h3)
