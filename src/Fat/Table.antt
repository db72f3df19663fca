-- ===== src/Fat/Table.antt =====
-- kernel/fat.c: the entries of the file allocation table, `getnextclus` and `writenextclus`. Where
-- the code joins bits that do not overlap by `|`, the sum stands for it.
pub mod Entry
pub mod Next
pub mod Write
pub mod Map
use chouryos.Base.{
  ℕ, ◌+◌, ◌-◌, ◌*◌, ◌/◌, ◌%◌, ◌^◌, bit_and, bit_or, Bool, true, false, not, ◌||◌, ◌==◌, ltb, leb,
  if◌then◌else◌, u8, u16, u32, update,
}
use chouryos.Hd.{Sector, WriteHd}
use chouryos.Fat.{
  Filetype, fat12, fat16, fat32, bits, Geometry, Volume, read_sector, write_sector, get16, get32,
}

abbrev pub set16 : Sector → ℕ → ℕ → Sector
set16 b i x = update (update b i (u8 x)) (i + 1) (u8 (x / 256))

abbrev pub set32 : Sector → ℕ → ℕ → Sector
set32 b i x = set16 (set16 b i x) (i + 2) (x / 65536)

-- No cluster has this number: it is reserved, or an end of a chain.
abbrev pub is_no_clus : Geometry → ℕ → Bool
is_no_clus g clus = ltb clus 2 || leb g.beoc clus

-- Where a FAT12 entry begins, in bytes from the start of the table.
abbrev pub byte12 : ℕ → ℕ
byte12 clus = u32 (clus * 12) / 8

-- The part of `getnextclus` after the first sector is read, by the file type. A FAT12 entry at the
-- last byte of a sector goes on in the next.
unfoldable pub next12 : Geometry → ℕ → Volume → ℕ × Volume
next12 g clus v =
    let o = byte12 clus % 512 in
    let w = get16 v.buffer_fat o in
    let v' = read_sector g (u32 (byte12 clus / 512 + 2)) v in
    if not (o == 511)
    then (if clus % 2 == 1 then (w / 16, v) else (w % 4096, v))
    else if clus % 2 == 1
    then (v.buffer_fat 511 / 16 + v'.buffer_fat 0 * 16, v')
    else (v.buffer_fat 511 + v'.buffer_fat 0 % 16 * 256, v')

abbrev pub next_by : Filetype → Geometry → ℕ → Volume → ℕ × Volume
next_by fat12 g clus v = next12 g clus v
next_by fat16 g clus v = (get16 v.buffer_fat (2 * (clus % (g.bytes_per_sec / 2))), v)
next_by fat32 g clus v = (get32 v.buffer_fat (4 * (clus % (g.bytes_per_sec / 4))), v)

-- The sector of the first table that holds the entry.
abbrev pub entry_sec : Geometry → ℕ → ℕ
entry_sec g clus = u32 (u32 (clus * bits g.ft) / 8 / g.bytes_per_sec + g.rsvd_sec_cnt)

unfoldable pub getnextclus : Geometry → ℕ → Volume → ℕ × Volume
getnextclus g clus v =
    if is_no_clus g clus
    then (g.eoc, v)
    else next_by g.ft g clus (read_sector g (entry_sec g clus) v)

module _ (write_hd : WriteHd) (g : Geometry) where
  -- The sector in the buffer goes to two places.
  abbrev pub write_at : ℕ → ℕ → Volume → Volume
  write_at sec sec' v = write_sector write_hd g sec' (write_sector write_hd g sec v)

  abbrev pub poke : (Sector → Sector) → Volume → Volume
  poke f v = record v { buffer_fat = f v.buffer_fat }

  -- A FAT12 entry. For one that is split between two sectors the places are those of the code.
  unfoldable pub write12 : ℕ → ℕ → Volume → Volume
  write12 clus nextclus v =
      let o = byte12 clus % 512 in
      let s = byte12 clus / 512 in
      let r = s + g.rsvd_sec_cnt in
      let whole = λ (v : Volume).
        let t = get16 v.buffer_fat o in
        let x =
          if clus % 2 == 1 then t % 16 + nextclus * 16 else t / 4096 * 4096 + nextclus % 4096 in
        write_at (u32 r) (u32 (r + g.fat_sec_sz)) (poke (λ b. set16 b o x) v) in
      let odd = λ (v : Volume).
        let low =
          write_at (u32 (s + 1)) (u32 (s + 10))
            (poke (λ b. update b 511 (bit_or (b 511 % 16) (nextclus % 16))) v) in
        write_at (u32 (r + 1)) (u32 (r + g.fat_sec_sz + 1))
          (poke (λ b. update b 0 (u8 (nextclus / 16))) (read_sector g (u32 (r + 1)) low)) in
      let even = λ (v : Volume).
        let low =
          write_at (u32 r) (u32 (r + g.fat_sec_sz)) (poke (λ b. update b 511 (nextclus % 256)) v) in
        write_at (u32 (r + 1)) (u32 (r + g.fat_sec_sz + 1)) (
          poke (λ b. update b 0 (u8 (bit_or (b 0 / 16 * 16) (nextclus / 256))))
            (read_sector g (u32 (r + 1)) low)) in
      let v' = read_sector g (u32 r) v in
      if not (o == 511) then whole v' else if clus % 2 == 1 then odd v' else even v'

  unfoldable pub write16 : ℕ → ℕ → Volume → Volume
  write16 clus nextclus v =
      let s = u32 (clus * 2) / g.bytes_per_sec + g.rsvd_sec_cnt in
      write_at (u32 s) (u32 (s + g.fat_sec_sz)) (
        poke (λ b. set16 b (2 * (clus % (g.bytes_per_sec / 2))) nextclus) (read_sector g (u32 s) v))

  unfoldable pub write32 : ℕ → ℕ → Volume → Volume
  write32 clus nextclus v =
      let s = u32 (clus * 4) / g.bytes_per_sec + g.rsvd_sec_cnt in
      write_at (u32 s) (u32 (s + g.fat_sec_sz)) (
        poke (λ b. set32 b (4 * (clus % (g.bytes_per_sec / 4))) nextclus) (read_sector g (u32 s) v))

  abbrev pub write_by : Filetype → ℕ → ℕ → Volume → Volume
  write_by fat12 = write12
  write_by fat16 = write16
  write_by fat32 = write32

  -- `writenextclus`: false for the result -1.
  unfoldable pub writenextclus : ℕ → ℕ → Volume → Bool × Volume
  writenextclus clus nextclus v =
      if is_no_clus g clus then (false, v) else (true, write_by g.ft clus nextclus v)
