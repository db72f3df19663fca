-- ===== src/Fat/Table/Write.antt =====
-- What `writenextclus` writes, for FAT16 and FAT32: a patch within one sector of the table.
pub mod Store
use chouryos.Base.{
  ℕ, zero, suc, ◌+◌, ◌-◌, ◌*◌, ◌/◌, ◌%◌, ◌^◌, ◌≤◌, ◌<◌, ◌≡◌, ◌≢◌, refl, sym, ap, subst, ◌∙◌, ◌⊎◌,
  inl, inr, Bool, true, false, not, ◌==◌, ltb, leb, if◌then◌else◌, Bool-cases, ne→==, ==_iff, u8,
  u16, u32, update, arith,
}
use chouryos.Hd.{Sector, Disk, WriteHd, IsDriver}
use chouryos.Fat.{Filetype, fat12, fat16, fat32, bits, Geometry, Volume, read_sector, write_sector}
use chouryos.Fat.Table.{
  is_no_clus, set16, set32, write_at, poke, write16, write32, write_by, writenextclus,
}
use chouryos.Fat.Table.Entry.{
  byte_at, entry_by, entry, IsGeometry, InTable, IsCoherent, HasRead, read_sector-HasRead,
  HasRead-byte_at,
}

-- The buffer `b` went to the sectors `x` and `y` of the disk, the second of which it now holds.
pub record HasWritten (g : Geometry) (x y : ℕ) (b : Sector) (v v' : Volume) : Type 0 where
  pub disk_is :
      (z i : ℕ)
      → i < 512
      → v'.disk z i ≡ (if y == z then b i else if x == z then b i else v.disk z i)
  pub coherent : IsCoherent g v'

write_at-HasWritten :
    (w : WriteHd) (g : Geometry) (s s' : ℕ) (f : Sector → Sector) (v v1 : Volume)
    → IsDriver w
    → HasRead g s v v1
    → HasWritten g
        (u32 (s + g.partition_sec))
        (u32 (s' + g.partition_sec))
        (f v1.buffer_fat)
        v
        (write_at w g s s' (poke w g f v1))
unfolding write_sector
write_at-HasWritten w g s s' f v v1 k r = record {
  disk_is = λ z i h.
      k.stores (u32 (s' + g.partition_sec)) (f v1.buffer_fat) _ z i h
      ∙ ap (λ (n : ℕ). if u32 (s' + g.partition_sec) == z then f v1.buffer_fat i else n)
          (k.stores (u32 (s + g.partition_sec)) (f v1.buffer_fat) v1.disk z i h
            ∙ ap (λ (d : Disk). if u32 (s + g.partition_sec) == z then f v1.buffer_fat i else d z i)
                r.same_disk);
  coherent = λ i h. sym (
      k.stores (u32 (s' + g.partition_sec)) (f v1.buffer_fat) _ (u32 (s' + g.partition_sec)) i h
      ∙ rw ((==_iff (u32 (s' + g.partition_sec)) (u32 (s' + g.partition_sec))).1 refl));
}

module _ (g : Geometry) (s p : ℕ) (v v1 v' : Volume) (w : IsGeometry g) (r : HasRead g s v v1)
    (at : s ≡ g.rsvd_sec_cnt + p / 512) (inside : p < g.fat_sec_sz * 512) where
  -- The bytes of the table afterwards, of a patch that stays within the sector of byte `p`.
  written_bytes :
      (f : Sector → Sector) (patch : Sector → Sector)
      → ((b : ℕ)
          → b / 512 ≡ p / 512
          → v1.buffer_fat (b % 512) ≡ byte_at g v.disk b
          → f v1.buffer_fat (b % 512) ≡ patch (byte_at g v.disk) b)
      → ((b : ℕ) → b / 512 ≢ p / 512 → patch (byte_at g v.disk) b ≡ byte_at g v.disk b)
      → HasWritten g
          (u32 (s + g.partition_sec))
          (u32 (s + g.fat_sec_sz + g.partition_sec))
          (f v1.buffer_fat)
          v
          v'
      → (b : ℕ) → b < g.fat_sec_sz * 512
      → byte_at g v'.disk b ≡ patch (byte_at g v.disk) b
  written_bytes f patch here there q b h =
      let x : u32 (s + g.partition_sec) ≡ g.partition_sec + g.rsvd_sec_cnt + p / 512 =
        omega (arith, w.room) in
      let y : u32 (s + g.fat_sec_sz + g.partition_sec)
          ≡ g.partition_sec + g.rsvd_sec_cnt + p / 512 + g.fat_sec_sz =
        omega (arith, w.room) in
      q.disk_is _ (b % 512) (omega arith) ∙ elim (Bool-cases (b / 512 == p / 512)) [
        | inl e ↦
            let same : b / 512 ≡ p / 512 = (==_iff _ _).0 e in
            ground (
              arith,
              x,
              y,
              here b same (HasRead-byte_at g s b (b % 512) v v1 w r (omega arith) h refl),
            )
        | inr e ↦ ground (arith, x, y, there b (ground arith))
      ]

  other_sectors :
      (b : Sector)
      → HasWritten g (u32 (s + g.partition_sec)) (u32 (s + g.fat_sec_sz + g.partition_sec)) b v v'
      → (z i : ℕ) → i < 512
      → g.partition_sec + g.rsvd_sec_cnt + 2 * g.fat_sec_sz ≤ z
      → v'.disk z i ≡ v.disk z i
  other_sectors b q z i h k = q.disk_is z i h ∙ ground (arith, w.room)

-- The volume after a write of entry `c`: the entry has the number, every other entry of the table
-- and every sector behind the tables is as before.
pub record HasEntry (g : Geometry) (c n : ℕ) (v v' : Volume) : Type 0 where
  pub entries :
      (x : ℕ)
      → 2 ≤ x
      → (x + 1) * bits g.ft ≤ g.fat_sec_sz * 4096
      → entry g v'.disk x ≡ (if c == x then n else entry g v.disk x)
  pub sectors :
      (z i : ℕ)
      → i < 512
      → g.partition_sec + g.rsvd_sec_cnt + 2 * g.fat_sec_sz ≤ z
      → v'.disk z i ≡ v.disk z i
  pub coherent : IsCoherent g v'

module _ (k : WriteHd) (d : IsDriver k) (g : Geometry) (v : Volume) (w : IsGeometry g)
    (h : IsCoherent g v) where
  -- A patch of the sector with byte `p` of the table.
  pub patched : (Sector → Sector) → ℕ → Volume
  patched f p =
      let s = g.rsvd_sec_cnt + p / 512 in
      write_at k g s (s + g.fat_sec_sz) (poke k g f (read_sector g s v))

  module _ (f patch : Sector → Sector) (p : ℕ) (inside : p < g.fat_sec_sz * 512)
      (here : (v1 : Sector) (b : ℕ)
        → b / 512 ≡ p / 512
        → v1 (b % 512) ≡ byte_at g v.disk b
        → f v1 (b % 512) ≡ patch (byte_at g v.disk) b)
      (there : (b : ℕ) → b / 512 ≢ p / 512 → patch (byte_at g v.disk) b ≡ byte_at g v.disk b) where
    pub v1 : Volume
    v1 = read_sector g (g.rsvd_sec_cnt + p / 512) v

    v1-HasRead : HasRead g (g.rsvd_sec_cnt + p / 512) v v1
    unfolding v1
    v1-HasRead = read_sector-HasRead g (g.rsvd_sec_cnt + p / 512) v h

    pub patched-HasWritten :
        HasWritten g
          (u32 (g.rsvd_sec_cnt + p / 512 + g.partition_sec))
          (u32 (g.rsvd_sec_cnt + p / 512 + g.fat_sec_sz + g.partition_sec))
          (f v1.buffer_fat)
          v
          (patched f p)
    unfolding patched v1
    patched-HasWritten = write_at-HasWritten k g _ _ f v v1 d v1-HasRead

    pub patched_bytes :
        (b : ℕ)
        → b < g.fat_sec_sz * 512
        → byte_at g (patched f p).disk b ≡ patch (byte_at g v.disk) b
    patched_bytes =
        written_bytes g (g.rsvd_sec_cnt + p / 512) p v v1 (patched f p) w v1-HasRead refl inside f
          patch (here v1.buffer_fat) there patched-HasWritten

    pub patched_sectors :
        (z i : ℕ)
        → i < 512
        → g.partition_sec + g.rsvd_sec_cnt + 2 * g.fat_sec_sz ≤ z
        → (patched f p).disk z i ≡ v.disk z i
    patched_sectors =
        other_sectors g (g.rsvd_sec_cnt + p / 512) p v v1 (patched f p) w v1-HasRead refl inside
          (f v1.buffer_fat) patched-HasWritten
