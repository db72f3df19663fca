-- ===== src/Fat/Table/Entry.antt =====
-- The entries of the first table on the disk, and how a sector of it is read.
use chouryos.Base.{
  ℕ, ◌+◌, ◌*◌, ◌/◌, ◌%◌, ◌^◌, ◌≤◌, ◌<◌, ◌≡◌, refl, sym, ap, ◌∙◌, ◌⊎◌, inl, inr, ◌==◌, if◌then◌else◌,
  Bool-cases, ==_iff, u32, arith,
}
use chouryos.Hd.{Disk, read_hd}
use chouryos.Fat.{Filetype, fat12, fat16, fat32, bits, Geometry, Volume, read_sector}
use chouryos.Fat.Table.{entry_sec}

-- Byte `b` of the first table.
abbrev pub byte_at : Geometry → Disk → ℕ → ℕ
byte_at g d b = d (g.partition_sec + g.rsvd_sec_cnt + b / 512) (b % 512)

-- The entry of a cluster in the first table, by the file type.
abbrev pub entry_by : Filetype → Geometry → Disk → ℕ → ℕ
entry_by fat12 g d c =
    let b = c * 12 / 8 in
    let w = byte_at g d b + byte_at g d (b + 1) * 256 in if c % 2 == 1 then w / 16 else w % 4096
entry_by fat16 g d c = byte_at g d (c * 2) + byte_at g d (c * 2 + 1) * 256
entry_by fat32 g d c =
    byte_at g d (c * 4)
    + byte_at g d (c * 4 + 1) * 256
    + byte_at g d (c * 4 + 2) * 65536
    + byte_at g d (c * 4 + 3) * 16777216

unfoldable pub entry : Geometry → Disk → ℕ → ℕ
entry g d c = entry_by g.ft g d c

-- Sectors of 512 bytes, and tables in reach of a 32-bit sector number. A FAT12 volume has one
-- reserved sector.
pub record IsGeometry (g : Geometry) : Type 0 where
  pub sector : g.bytes_per_sec ≡ 512
  pub room : g.partition_sec + g.rsvd_sec_cnt + 2 * g.fat_sec_sz < 2 ^ 32
  pub reserved : g.ft ≡ fat12 → g.rsvd_sec_cnt ≡ 1

-- A cluster with an entry in the table. `clus * 32` of the code is to be less than 2 ^ 32.
pub record InTable (g : Geometry) (c : ℕ) : Type 0 where
  pub range : (2 ≤ c) × (c < g.beoc)
  pub inside : (c + 1) * bits g.ft ≤ g.fat_sec_sz * 4096
  pub small : c * bits g.ft < 2 ^ 32

-- The sector in the buffer is that of the disk.
abbrev pub IsCoherent : Geometry → Volume → Type 0
IsCoherent g v =
    (i : ℕ) → i < 512 → v.buffer_fat i ≡ v.disk (u32 (v.last_access + g.partition_sec)) i

-- What the type `uint8` promises of the disk.
abbrev pub IsDisk : Disk → Type 0
IsDisk d = (x i : ℕ) → d x i < 256

-- What a read of a sector does.
pub record HasRead (g : Geometry) (sec : ℕ) (v v' : Volume) : Type 0 where
  pub same_disk : v'.disk ≡ v.disk
  pub at_sector : v'.last_access ≡ sec
  pub bytes : (i : ℕ) → i < 512 → v'.buffer_fat i ≡ v.disk (u32 (sec + g.partition_sec)) i

pub read_sector-HasRead :
    (g : Geometry) (sec : ℕ) (v : Volume) → IsCoherent g v → HasRead g sec v (read_sector g sec v)
unfolding read_sector read_hd
read_sector-HasRead g sec v h = elim (Bool-cases (sec == v.last_access)) [
  | inl e ↦
      let same : sec ≡ v.last_access = (==_iff _ _).0 e in
      rw e (record {
        same_disk = refl;
        at_sector = sym same;
        bytes = λ i l. h i l ∙ ap (λ s. v.disk (u32 (s + g.partition_sec)) i) (sym same);
      })
  | inr e ↦ rw e (record { same_disk = refl; at_sector = refl; bytes = λ i l. ground arith })
]

pub HasRead-IsCoherent :
    (g : Geometry) (sec : ℕ) (v v' : Volume) → HasRead g sec v v' → IsCoherent g v'
HasRead-IsCoherent g sec v v' r i l = rw (r.same_disk, r.at_sector) (r.bytes i l)

-- The bytes of a sector of the table, once it is read.
pub HasRead-byte_at :
    (g : Geometry) (sec b i : ℕ) (v v' : Volume)
    → IsGeometry g
    → HasRead g sec v v'
    → sec ≡ g.rsvd_sec_cnt + b / 512
    → b < g.fat_sec_sz * 512
    → i ≡ b % 512
    → v'.buffer_fat i ≡ byte_at g v.disk b
HasRead-byte_at g sec b i v v' w r p h q =
    let place : u32 (sec + g.partition_sec) ≡ g.partition_sec + g.rsvd_sec_cnt + b / 512 =
      omega (arith, w.room) in
    r.bytes i (omega arith) ∙ λ t. v.disk (place t) (q t)

pub entry_sec-eq :
    (g : Geometry) (t : Filetype) (c : ℕ)
    → IsGeometry g
    → g.ft ≡ t
    → c * bits t < 2 ^ 32
    → (c + 1) * bits t ≤ g.fat_sec_sz * 4096
    → entry_sec g c ≡ u32 (c * bits t / 8 / 512 + g.rsvd_sec_cnt)
entry_sec-eq g t c w e l h =
    let e1 : u32 (c * bits g.ft) ≡ c * bits t = ap (λ k. u32 (c * bits k)) e ∙ omega arith in
    ap (λ n. u32 (n / 8 / g.bytes_per_sec + g.rsvd_sec_cnt)) e1
    ∙ ap (λ n. u32 (c * bits t / 8 / n + g.rsvd_sec_cnt)) w.sector

pub Filetype-cases : (t : Filetype) → (t ≡ fat12) ⊎ ((t ≡ fat16) ⊎ (t ≡ fat32))
Filetype-cases fat12 = inl refl
Filetype-cases fat16 = inr (inl refl)
Filetype-cases fat32 = inr (inr refl)
