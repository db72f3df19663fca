-- ===== src/Fat/Data/Clusters.antt =====
-- `ReadClus` gives the bytes of the cluster's sectors.
use chouryos.Base.{
  ℕ, zero, suc, ◌+◌, ◌-◌, ◌*◌, ◌/◌, ◌%◌, ◌^◌, ◌≤◌, ◌<◌, ◌≡◌, ◌⊎◌, inl, inr, refl, ap, ◌∙◌, u32,
  arith, Bool-cases, ltb,
}
use native.Mathlib.Nat.{suc-mul}
use chouryos.Hd.{Sector, Disk, copy}
use chouryos.Fat.{
  Geometry, Volume, read_sector, read_sectors, read_clus, data_start_sec, clus_sec, clus_end,
}
use chouryos.Fat.Table.Entry.{entry, IsCoherent, read_sector-HasRead, HasRead-IsCoherent}
use chouryos.Fat.Table.Map.{HasTable}

pub copy_in :
    (src dest : Sector) (from to n i : ℕ)
    → to ≤ i
    → i < to + n
    → copy src from dest to n i ≡ src (from + (i - to))
copy_in src dest from to n i h l = ground arith

pub copy_out :
    (src dest : Sector) (from to n i : ℕ)
    → (i < to) ⊎ (to + n ≤ i)
    → copy src from dest to n i ≡ dest i
copy_out src dest from to n i h = ground arith

-- The first sector of a cluster.
abbrev pub data_sec : Geometry → ℕ → ℕ
data_sec g c = data_start_sec g + (c - 2) * g.sec_per_clus

-- A cluster that lies behind the tables and in reach of a 32-bit sector number.
pub record InData (g : Geometry) (c : ℕ) : Type 0 where
  pub first : 2 ≤ c
  pub whole : c < 2 ^ 32
  pub room : g.partition_sec + data_sec g c + g.sec_per_clus < 2 ^ 32
  pub behind : g.rsvd_sec_cnt + 2 * g.fat_sec_sz ≤ data_start_sec g

-- What a read of sectors from `sec` on does.
pub record HasSectors (g : Geometry) (sec left off : ℕ) (buff : Sector) (v : Volume)
    (r : Sector × Volume) : Type 0 where
  pub same_disk : r.1.disk ≡ v.disk
  pub coherent : IsCoherent g r.1
  pub before : (i : ℕ) → i < off → r.0 i ≡ buff i
  pub bytes :
      (i : ℕ) → i < left * 512 → r.0 (off + i) ≡ v.disk (g.partition_sec + sec + i / 512) (i % 512)

read_sectors-HasSectors :
    (g : Geometry) (left sec off : ℕ) (buff : Sector) (v : Volume)
    → g.bytes_per_sec ≡ 512
    → IsCoherent g v
    → g.partition_sec + sec + left < 2 ^ 32
    → HasSectors g sec left off buff v (read_sectors g left sec off buff v)
unfolding read_sectors
read_sectors-HasSectors g zero sec off buff v e h l = record {
  same_disk = refl;
  coherent = h;
  before = λ i p. refl;
  bytes = λ i p. absurd (omega arith);
}
read_sectors-HasSectors g (suc left) sec off buff v e h l =
    let v' = read_sector g sec v in
    let r = read_sector-HasRead g sec v h in
    let b = copy v'.buffer_fat 0 buff off g.bytes_per_sec in
    let rest =
      read_sectors-HasSectors g left (sec + 1) (off + g.bytes_per_sec) b v' e
        (HasRead-IsCoherent g sec v v' r) (omega arith) in
    record {
      same_disk = rest.same_disk ∙ r.same_disk;
      coherent = rest.coherent;
      before = λ i p.
          rest.before i (omega (arith, e))
          ∙ copy_out v'.buffer_fat buff 0 off g.bytes_per_sec i (inl p);
      bytes = λ i p. elim (Bool-cases (ltb i 512)) [
        | inl lt ↦
            let small : i < 512 = ground arith in
            let place : u32 (sec + g.partition_sec) ≡ g.partition_sec + sec + i / 512 =
              omega arith in
            let same : 0 + (off + i - off) ≡ i = omega arith in
            let back : i ≡ i % 512 = omega arith in
            rest.before (off + i) (omega (arith, e))
            ∙ copy_in v'.buffer_fat buff 0 off g.bytes_per_sec (off + i) (omega arith)
                (omega (arith, e))
            ∙ ap v'.buffer_fat same
            ∙ r.bytes i small
            ∙ (λ t. v.disk (place t) (back t))
        | inr ge ↦
            let large : 512 ≤ i = ground arith in
            let split : off + i ≡ off + g.bytes_per_sec + (i - 512) = omega (arith, e) in
            let place : g.partition_sec + (sec + 1) + (i - 512) / 512
                ≡ g.partition_sec + sec + i / 512 =
              omega arith in
            let inner : (i - 512) % 512 ≡ i % 512 = omega arith in
            ap (read_sectors g left (sec + 1) (off + g.bytes_per_sec) b v').0 split
            ∙ rest.bytes (i - 512) (omega arith)
            ∙ ap (λ (d : Disk). d (g.partition_sec + (sec + 1) + (i - 512) / 512) ((i - 512) % 512))
                r.same_disk
            ∙ (λ t. v.disk (place t) (inner t))
      ];
    }

-- A cluster's sectors, by number.
clus_sec-data_sec :
    (g : Geometry) (c : ℕ)
    → InData g c
    → (clus_sec g c ≡ data_sec g c) × (clus_end g c - clus_sec g c ≡ g.sec_per_clus)
clus_sec-data_sec g c h =
    let a : u32 (c + 2 ^ 32 - 2) ≡ c - 2 = omega (arith, h.first, h.whole) in
    let b : u32 (c + 2 ^ 32 - 1) ≡ suc (c - 2) = omega (arith, h.first, h.whole) in
    let from : clus_sec g c ≡ data_sec g c =
      ap (λ m. u32 (data_start_sec g + m * g.sec_per_clus)) a ∙ omega (arith, h.room) in
    let to : clus_end g c ≡ data_sec g c + g.sec_per_clus =
      ap (λ m. u32 (data_start_sec g + m * g.sec_per_clus)) b
      ∙ omega (arith, h.room, suc-mul (c - 2) g.sec_per_clus) in
    (from, omega (arith, from, to))

-- What a read of a cluster does on a volume with a table, and a disk behind it.
pub read_clus-HasTable :
    (g : Geometry) (t : ℕ → ℕ) (d : Disk) (v : Volume) (c : ℕ) (buff : Sector)
    → HasTable g t d v
    → InData g c
    → HasTable g t d ((read_clus g c buff v).1)
      × ((i : ℕ)
          → i < g.sec_per_clus * 512
          → (read_clus g c buff v).0 i ≡ d (g.partition_sec + data_sec g c + i / 512) (i % 512))
unfolding read_clus
read_clus-HasTable g t d v c buff h p =
    let (from, count) = clus_sec-data_sec g c p in
    let got = (read_sectors g (clus_end g c - clus_sec g c) (clus_sec g c) 0 buff v).0 in
    let s : HasSectors g (data_sec g c) g.sec_per_clus 0 buff v
        (read_sectors g (clus_end g c - clus_sec g c) (clus_sec g c) 0 buff v) =
      rw (count, from)
        (read_sectors-HasSectors g g.sec_per_clus (data_sec g c) 0 buff v h.geometry.sector
          h.coherent p.room) in
    (
      record {
        geometry = h.geometry;
        wide = h.wide;
        coherent = s.coherent;
        entries = λ x lo hi. ap (λ (e : Disk). entry g e x) s.same_disk ∙ h.entries x lo hi;
        sectors = λ z i lt le. ap (λ (e : Disk). e z i) s.same_disk ∙ h.sectors z i lt le;
      },
      λ i l.
          ap got (omega arith)
          ∙ s.bytes i l
          ∙ h.sectors (g.partition_sec + data_sec g c + i / 512) (i % 512) (omega arith)
              (omega (arith, p.behind)),
    )
