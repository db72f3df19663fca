-- ===== src/Fat/Chain/Blank.antt =====
-- Free clusters: `getblankclus`, and what `Fat_expand` makes of two calls of it.
use chouryos.Base.{
  ℕ, zero, suc, ◌+◌, ◌-◌, ◌≤◌, ◌<◌, ◌≡◌, ◌≢◌, ap, ◌∙◌, Bool, some, arith, ◌==◌, Bool-cases, ne→==,
  ==_iff, inl, inr, update,
}
use chouryos.Base.Int.{pos}
use chouryos.Hd.{Disk, WriteHd, IsDriver}
use chouryos.Fat.{Geometry, Volume}
use chouryos.Fat.Table.Entry.{InTable}
use chouryos.Fat.Table.Map.{HasTable, getnextclus-HasTable, writenextclus-HasTable}
use chouryos.Fat.Table.Write.Store.{FitsEntry}
use chouryos.Fat.Chain.{find_entry, getblankclus, expand_from, fat_expand}

-- The first cluster of the table with this entry.
pub record IsFirst (g : Geometry) (t : ℕ → ℕ) (x n : ℕ) : Type 0 where
  pub range : (2 ≤ n) × (n ≤ g.max_clus)
  pub hit : t n ≡ x
  pub before : (y : ℕ) → 2 ≤ y → y < n → t y ≢ x
  pub tables : (y : ℕ) → 2 ≤ y → y ≤ n → InTable g y

find_entry-first :
    (left i n x : ℕ) (g : Geometry) (t : ℕ → ℕ) (d : Disk) (v : Volume)
    → HasTable g t d v
    → IsFirst g t x n
    → 2 ≤ i
    → i ≤ n
    → n < i + left
    → (v' : Volume) × (find_entry g left i x v ≡ (some n, v')) × HasTable g t d v'
unfolding find_entry
find_entry-first zero i n x g t d v h f lo hi e = absurd (omega arith)
find_entry-first (suc left) i n x g t d v h f lo hi e =
    let (v1, q, h1) = getnextclus-HasTable g t d v i h (f.tables i lo hi) in
    elim (Bool-cases (i == n)) [
      | inl s ↦
          let same : i ≡ n = (==_iff _ _).0 s in
          (v1, rw (q, (==_iff (t i) x).1 (ap t same ∙ f.hit), same), h1)
      | inr s ↦
          let (v2, r, h2) =
            find_entry-first left (i + 1) n x g t d v1 h1 f (omega arith) (ground arith)
              (omega arith) in
          (v2, rw (q, ne→== (t i) x (f.before i lo (ground arith))) r, h2)
    ]

-- `getblankclus` gives the first free cluster and makes the entry of `clus` point to it; it writes
-- nothing else.
pub getblankclus-HasTable :
    (k : WriteHd) (g : Geometry) (t : ℕ → ℕ) (d : Disk) (v : Volume) (clus n : ℕ)
    → IsDriver k
    → HasTable g t d v
    → IsFirst g t 0 n
    → InTable g clus
    → FitsEntry g.ft n
    → (v' : Volume) × (getblankclus k g clus v ≡ (n, v')) × HasTable g (update t clus n) d v'
unfolding getblankclus
getblankclus-HasTable k g t d v clus n drv h f p fits =
    let (v1, q, h1) =
      find_entry-first (g.max_clus - 1) 2 n 0 g t d v h f (omega arith) f.range.0
        (omega (arith, f.range)) in
    let (v2, r, h2) = writenextclus-HasTable k g t d v1 clus n drv h1 p fits in
    (v2, rw (q, ne→== clus 0 (omega (arith, p.range)), r), h2)

-- A cluster that `getblankclus` gives is still free: `Fat_expand` by two clusters takes the same one
-- twice, and leaves a chain that runs round in it.
pub fat_expand-two :
    (k : WriteHd) (fuel : ℕ) (g : Geometry) (t : ℕ → ℕ) (d : Disk) (v : Volume) (clus n : ℕ)
    (flag : Bool)
    → IsDriver k
    → HasTable g t d v
    → IsFirst g t 0 n
    → InTable g clus
    → n ≢ g.eoc
    → FitsEntry g.ft n
    → t clus ≢ 0
    → (v' : Volume) × (fat_expand k g fuel clus 2 flag v ≡ some (pos n, v'))
      × HasTable g (update (update t clus n) n n) d v'
unfolding fat_expand expand_from
fat_expand-two k fuel g t d v clus n flag drv h f p ne fits used =
    let (v1, q1, h1) = getblankclus-HasTable k g t d v clus n drv h f p fits in
    let f1 : IsFirst g (update t clus n) 0 n = record {
      range = f.range;
      hit = ground (arith, f.hit);
      before = λ y lo hi. ground (arith, f.range, f.before y lo hi);
      tables = f.tables;
    } in
    let (v2, q2, h2) =
      getblankclus-HasTable k g (update t clus n) d v1 n n drv h1 f1
        (f.tables n f.range.0 (omega arith)) fits in
    (v2, rw (q1, ne→== n g.eoc ne, q2, ne→== n g.eoc ne), h2)
