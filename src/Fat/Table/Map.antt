-- ===== src/Fat/Table/Map.antt =====
-- The file allocation table of a FAT16 or FAT32 volume as a map from clusters to numbers.
use chouryos.Base.{ℕ, ◌+◌, ◌*◌, ◌≤◌, ◌<◌, ◌≡◌, ◌≢◌, ap, ◌∙◌, true, ◌==◌, if◌then◌else◌, update}
use chouryos.Hd.{Disk, WriteHd, IsDriver}
use chouryos.Fat.{fat12, bits, Geometry, Volume}
use chouryos.Fat.Table.{getnextclus, writenextclus}
use chouryos.Fat.Table.Entry.{entry, IsGeometry, InTable, IsCoherent}
use chouryos.Fat.Table.Next.{getnextclus-entry}
use chouryos.Fat.Table.Write.Store.{FitsEntry, writenextclus-HasEntry}

-- The volume has this table, and this disk behind the tables.
pub record HasTable (g : Geometry) (t : ℕ → ℕ) (d : Disk) (v : Volume) : Type 0 where
  pub geometry : IsGeometry g
  pub wide : g.ft ≢ fat12
  pub coherent : IsCoherent g v
  pub entries : (x : ℕ) → 2 ≤ x → (x + 1) * bits g.ft ≤ g.fat_sec_sz * 4096 → entry g v.disk x ≡ t x
  pub sectors :
      (z i : ℕ)
      → i < 512
      → g.partition_sec + g.rsvd_sec_cnt + 2 * g.fat_sec_sz ≤ z
      → v.disk z i ≡ d z i

pub getnextclus-HasTable :
    (g : Geometry) (t : ℕ → ℕ) (d : Disk) (v : Volume) (c : ℕ)
    → HasTable g t d v
    → InTable g c
    → (v' : Volume) × (getnextclus g c v ≡ (t c, v')) × HasTable g t d v'
getnextclus-HasTable g t d v c h p =
    let (value, disk, coherent) =
      getnextclus-entry g c v h.geometry p (λ e. absurd (h.wide e)) h.coherent in
    let v' = (getnextclus g c v).1 in
    (
      v',
      (λ i. ((value ∙ h.entries c p.range.0 p.inside) i, v')),
      record {
        geometry = h.geometry;
        wide = h.wide;
        coherent = coherent;
        entries = λ x lo hi. ap (λ e. entry g e x) disk ∙ h.entries x lo hi;
        sectors = λ z i lt le. ap (λ (e : Disk). e z i) disk ∙ h.sectors z i lt le;
      },
    )

pub writenextclus-HasTable :
    (k : WriteHd) (g : Geometry) (t : ℕ → ℕ) (d : Disk) (v : Volume) (c n : ℕ)
    → IsDriver k
    → HasTable g t d v
    → InTable g c
    → FitsEntry g.ft n
    → (v' : Volume) × (writenextclus k g c n v ≡ (true, v')) × HasTable g (update t c n) d v'
writenextclus-HasTable k g t d v c n drv h p fits =
    let (v', e, w) = writenextclus-HasEntry k g c n v drv h.geometry p h.coherent fits in
    (
      v',
      e,
      record {
        geometry = h.geometry;
        wide = h.wide;
        coherent = w.coherent;
        entries =
            λ x lo hi. w.entries x lo hi ∙ ap (λ m. if c == x then n else m) (h.entries x lo hi);
        sectors = λ z i lt le. w.sectors z i lt le ∙ h.sectors z i lt le;
      },
    )
