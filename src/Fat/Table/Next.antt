-- ===== src/Fat/Table/Next.antt =====
-- What `getnextclus` reads.
use chouryos.Base.{
  ℕ, ◌+◌, ◌*◌, ◌/◌, ◌%◌, ◌^◌, ◌≤◌, ◌<◌, ◌≡◌, refl, ap, subst, ◌∙◌, inl, inr, false, ◌==◌,
  Bool-cases, ==_iff, u32, arith,
}
use chouryos.Fat.{Filetype, fat12, fat16, fat32, bits, Geometry, Volume, read_sector, get16, get32}
use chouryos.Fat.Table.{is_no_clus, byte12, next12, next_by, entry_sec, getnextclus}
use chouryos.Fat.Table.Entry.{
  byte_at, entry_by, entry, IsGeometry, InTable, IsCoherent, IsDisk, HasRead, read_sector-HasRead,
  HasRead-IsCoherent, HasRead-byte_at, entry_sec-eq,
}

-- A value that is read, from a volume that keeps its disk.
abbrev Reads : Geometry → Volume → ℕ → ℕ × Volume → Type 0
Reads g v n r = (r.0 ≡ n) × (r.1.disk ≡ v.disk) × IsCoherent g r.1

module _ (g : Geometry) (c : ℕ) (v v' : Volume) (w : IsGeometry g) where
  next16-Reads :
      (c + 1) * 16 ≤ g.fat_sec_sz * 4096
      → HasRead g (u32 (c * 16 / 8 / 512 + g.rsvd_sec_cnt)) v v'
      → Reads g v (entry_by fat16 g v.disk c) (next_by fat16 g c v')
  next16-Reads h r =
      let at : (i b : ℕ)
          → i ≡ b % 512
          → b / 512 ≡ c * 2 / 512
          → v'.buffer_fat i ≡ byte_at g v.disk b =
        λ i b p q. HasRead-byte_at g _ b i v v' w r (omega (arith, w.room)) (omega arith) p in
      let o : 2 * (c % (g.bytes_per_sec / 2)) ≡ c * 2 % 512 =
        ap (λ n. 2 * (c % (n / 2))) w.sector ∙ omega arith in
      (
        ap (get16 v'.buffer_fat) o
            ∙ rw (
              at (c * 2 % 512) (c * 2) refl refl,
              at (c * 2 % 512 + 1) (c * 2 + 1) (omega arith) (omega arith),
            ),
        r.same_disk,
        HasRead-IsCoherent g _ v v' r,
      )

  next32-Reads :
      (c + 1) * 32 ≤ g.fat_sec_sz * 4096
      → HasRead g (u32 (c * 32 / 8 / 512 + g.rsvd_sec_cnt)) v v'
      → Reads g v (entry_by fat32 g v.disk c) (next_by fat32 g c v')
  next32-Reads h r =
      let at : (i b : ℕ)
          → i ≡ b % 512
          → b / 512 ≡ c * 4 / 512
          → v'.buffer_fat i ≡ byte_at g v.disk b =
        λ i b p q. HasRead-byte_at g _ b i v v' w r (omega (arith, w.room)) (omega arith) p in
      let o : 4 * (c % (g.bytes_per_sec / 4)) ≡ c * 4 % 512 =
        ap (λ n. 4 * (c % (n / 4))) w.sector ∙ omega arith in
      (
        ap (get32 v'.buffer_fat) o
            ∙ rw (
              at (c * 4 % 512) (c * 4) refl refl,
              at (c * 4 % 512 + 1) (c * 4 + 1) (omega arith) (omega arith),
              at (c * 4 % 512 + 2) (c * 4 + 2) (omega arith) (omega arith),
              at (c * 4 % 512 + 3) (c * 4 + 3) (omega arith) (omega arith),
            ),
        r.same_disk,
        HasRead-IsCoherent g _ v v' r,
      )

odd_half : (lo hi : ℕ) → lo / 16 + hi * 16 ≡ (lo + hi * 256) / 16
odd_half lo hi = omega arith

even_half : (lo hi : ℕ) → lo < 256 → lo + hi % 16 * 256 ≡ (lo + hi * 256) % 4096
even_half lo hi h = omega arith

module _ (g : Geometry) (c : ℕ) (v v' : Volume) (w : IsGeometry g) where
  next12-Reads :
      IsDisk v.disk
      → g.rsvd_sec_cnt ≡ 1
      → c * 12 < 2 ^ 32
      → (c + 1) * 12 ≤ g.fat_sec_sz * 4096
      → HasRead g (u32 (c * 12 / 8 / 512 + g.rsvd_sec_cnt)) v v'
      → Reads g v (entry_by fat12 g v.disk c) (next_by fat12 g c v')
  unfolding next12
  next12-Reads dk one l h r =
      let b : ℕ = c * 12 / 8 in
      let eb : byte12 c ≡ b = omega arith in
      let first : v'.buffer_fat (b % 512) ≡ byte_at g v.disk b =
        HasRead-byte_at g _ b (b % 512) v v' w r (omega (arith, w.room)) (omega arith) refl in
      let coherent = HasRead-IsCoherent g _ v v' r in
      elim (Bool-cases (b % 512 == 511)) [
        | inr no_split ↦
            let second : v'.buffer_fat (b % 512 + 1) ≡ byte_at g v.disk (b + 1) =
              HasRead-byte_at g _ (b + 1) (b % 512 + 1) v v' w r (ground (arith, w.room))
                (omega arith) (ground arith) in
            elim (Bool-cases (c % 2 == 1)) [
              | inl odd ↦ rw (eb, no_split, odd, first, second) (refl, r.same_disk, coherent)
              | inr even ↦ rw (eb, no_split, even, first, second) (refl, r.same_disk, coherent)
            ]
        | inl split ↦
            let last : b % 512 ≡ 511 = (==_iff _ _).0 split in
            let v2 = read_sector g (u32 (b / 512 + 2)) v' in
            let r2 : HasRead g (u32 (b / 512 + 2)) v' v2 = read_sector-HasRead g _ v' coherent in
            let low : v'.buffer_fat 511 ≡ byte_at g v.disk b = rw (← last) first in
            let high : v2.buffer_fat 0 ≡ byte_at g v.disk (b + 1) =
              HasRead-byte_at g _ (b + 1) 0 v' v2 w r2 (omega (arith, w.room)) (omega arith)
                (omega arith)
              ∙ ap (λ d. byte_at g d (b + 1)) r.same_disk in
            let kept : v2.disk ≡ v.disk = r2.same_disk ∙ r.same_disk in
            let coherent2 = HasRead-IsCoherent g _ v' v2 r2 in
            elim (Bool-cases (c % 2 == 1)) [
              | inl odd ↦ rw (eb, split, odd, low, high) (odd_half _ _, kept, coherent2)
              | inr even ↦ rw (eb, split, even, low, high) (even_half _ _ (dk _ _), kept, coherent2)
            ]
      ]

next_by-Reads :
    (ft : Filetype) (g : Geometry) (c : ℕ) (v : Volume)
    → g.ft ≡ ft
    → IsGeometry g
    → InTable g c
    → (g.ft ≡ fat12 → IsDisk v.disk)
    → IsCoherent g v
    → Reads g v (entry_by ft g v.disk c) (next_by ft g c (read_sector g (entry_sec g c) v))
next_by-Reads ft g c v e w t dk h =
    let small : c * bits ft < 2 ^ 32 = subst (λ x. c * bits x < 2 ^ 32) e t.small in
    let inside : (c + 1) * bits ft ≤ g.fat_sec_sz * 4096 =
      subst (λ x. (c + 1) * bits x ≤ g.fat_sec_sz * 4096) e t.inside in
    let r =
      subst (λ s. HasRead g s v (read_sector g (entry_sec g c) v))
        (entry_sec-eq g ft c w e small inside) (read_sector-HasRead g (entry_sec g c) v h) in
    by_type ft e small inside r
  where
    by_type :
        (ft : Filetype)
        → g.ft ≡ ft
        → c * bits ft < 2 ^ 32
        → (c + 1) * bits ft ≤ g.fat_sec_sz * 4096
        → HasRead g
            (u32 (c * bits ft / 8 / 512 + g.rsvd_sec_cnt))
            v
            (read_sector g (entry_sec g c) v)
        → Reads g v (entry_by ft g v.disk c) (next_by ft g c (read_sector g (entry_sec g c) v))
    by_type fat12 e small inside r = next12-Reads g c v _ w (dk e) (w.reserved e) small inside r
    by_type fat16 e small inside r = next16-Reads g c v _ w inside r
    by_type fat32 e small inside r = next32-Reads g c v _ w inside r

-- `getnextclus` gives the entry of the cluster in the first table, for each of the three file types
-- and also where a FAT12 entry is split between sectors; the disk is not changed, and the buffer goes
-- on to hold the sector that it is said to hold. Sectors have 512 bytes, and those of the tables numbers
-- below 2 ^ 32; the cluster has an entry in
-- the table, with a bit position below 2 ^ 32 (on FAT32 a cluster below 2 ^ 27; behind it the code's
-- position wraps); a FAT12 volume has exactly one reserved sector, for which alone the code's second
-- sector of a split entry is right, and a disk of bytes; and the buffer holds its sector at first.
pub getnextclus-entry :
    (g : Geometry) (c : ℕ) (v : Volume)
    → IsGeometry g
    → InTable g c
    → (g.ft ≡ fat12 → IsDisk v.disk)
    → IsCoherent g v
    → ((getnextclus g c v).0 ≡ entry g v.disk c)
      × ((getnextclus g c v).1.disk ≡ v.disk)
      × IsCoherent g (getnextclus g c v).1
unfolding getnextclus entry
getnextclus-entry g c v w t dk h =
    let clus : is_no_clus g c ≡ false = ground (arith, t.range) in
    rw clus (next_by-Reads g.ft g c v refl w t dk h)
