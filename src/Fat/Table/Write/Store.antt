-- ===== src/Fat/Table/Write/Store.antt =====
-- `writenextclus` for FAT16 and FAT32 writes one entry of the table.
use chouryos.Base.{
  ℕ, ◌+◌, ◌*◌, ◌/◌, ◌%◌, ◌^◌, ◌≤◌, ◌<◌, ◌≡◌, ◌≢◌, refl, sym, ap, subst, ◌∙◌, true, false, ◌==◌,
  if◌then◌else◌, u32, arith,
}
use chouryos.Hd.{Sector, WriteHd, IsDriver}
use chouryos.Fat.{Filetype, fat12, fat16, fat32, bits, Geometry, Volume, read_sector}
use chouryos.Fat.Table.{
  is_no_clus, set16, set32, write_at, poke, write16, write32, write_by, writenextclus,
}
use chouryos.Fat.Table.Entry.{byte_at, entry_by, entry, IsGeometry, InTable, IsCoherent}
use chouryos.Fat.Table.Write.{HasEntry, patched, patched_bytes, patched_sectors, patched-HasWritten}

set16_here :
    (p n : ℕ) (v1 old : Sector) (b : ℕ)
    → p % 512 < 511
    → b / 512 ≡ p / 512
    → v1 (b % 512) ≡ old b
    → set16 v1 (p % 512) n (b % 512) ≡ set16 old p n b
set16_here p n v1 old b h e q = ground arith

set16_there :
    (p n : ℕ) (old : Sector) (b : ℕ) → p % 512 < 511 → b / 512 ≢ p / 512 → set16 old p n b ≡ old b
set16_there p n old b h e = ground arith

set32_here :
    (p n : ℕ) (v1 old : Sector) (b : ℕ)
    → p % 512 < 509
    → b / 512 ≡ p / 512
    → v1 (b % 512) ≡ old b
    → set32 v1 (p % 512) n (b % 512) ≡ set32 old p n b
set32_here p n v1 old b h e q = ground arith

set32_there :
    (p n : ℕ) (old : Sector) (b : ℕ) → p % 512 < 509 → b / 512 ≢ p / 512 → set32 old p n b ≡ old b
set32_there p n old b h e = ground arith

entry16_set :
    (old : Sector) (c n x : ℕ)
    → n < 2 ^ 16
    → set16 old (c * 2) n (x * 2) + set16 old (c * 2) n (x * 2 + 1) * 256
      ≡ (if c == x then n else old (x * 2) + old (x * 2 + 1) * 256)
entry16_set old c n x h = ground arith

entry32_set :
    (old : Sector) (c n x : ℕ)
    → n < 2 ^ 32
    → (let s = set32 old (c * 4) n in
        s (x * 4) + s (x * 4 + 1) * 256 + s (x * 4 + 2) * 65536 + s (x * 4 + 3) * 16777216)
      ≡ (if c == x
          then n
          else old (x * 4)
            + old (x * 4 + 1) * 256
            + old (x * 4 + 2) * 65536
            + old (x * 4 + 3) * 16777216)
entry32_set old c n x h = ground arith

module _ (k : WriteHd) (d : IsDriver k) (g : Geometry) (v : Volume) (w : IsGeometry g)
    (h : IsCoherent g v) where
  module _ (c n : ℕ) where
    write16-patched :
        c * 16 < 2 ^ 32
        → (c + 1) * 16 ≤ g.fat_sec_sz * 4096
        → write16 k g c n v ≡ patched k d g v w h (λ b. set16 b (c * 2 % 512) n) (c * 2)
    unfolding write16 patched
    write16-patched small inside =
        let go =
          λ (s s' o : ℕ). write_at k g s s' (poke k g (λ b. set16 b o n) (read_sector g s v)) in
        let s0 = λ (b : ℕ). u32 (c * 2) / b + g.rsvd_sec_cnt in
        ap (λ b. go (u32 (s0 b)) (u32 (s0 b + g.fat_sec_sz)) (2 * (c % (b / 2)))) w.sector ∙ λ i.
        let e1 : u32 (s0 512) ≡ g.rsvd_sec_cnt + c * 2 / 512 = omega (arith, w.room) in
        let e2 : u32 (s0 512 + g.fat_sec_sz) ≡ g.rsvd_sec_cnt + c * 2 / 512 + g.fat_sec_sz =
          omega (arith, w.room) in
        let e3 : 2 * (c % (512 / 2)) ≡ c * 2 % 512 = omega arith in go (e1 i) (e2 i) (e3 i)

    write32-patched :
        c * 32 < 2 ^ 32
        → (c + 1) * 32 ≤ g.fat_sec_sz * 4096
        → write32 k g c n v ≡ patched k d g v w h (λ b. set32 b (c * 4 % 512) n) (c * 4)
    unfolding write32 patched
    write32-patched small inside =
        let go =
          λ (s s' o : ℕ). write_at k g s s' (poke k g (λ b. set32 b o n) (read_sector g s v)) in
        let s0 = λ (b : ℕ). u32 (c * 4) / b + g.rsvd_sec_cnt in
        ap (λ b. go (u32 (s0 b)) (u32 (s0 b + g.fat_sec_sz)) (4 * (c % (b / 4)))) w.sector ∙ λ i.
        let e1 : u32 (s0 512) ≡ g.rsvd_sec_cnt + c * 4 / 512 = omega (arith, w.room) in
        let e2 : u32 (s0 512 + g.fat_sec_sz) ≡ g.rsvd_sec_cnt + c * 4 / 512 + g.fat_sec_sz =
          omega (arith, w.room) in
        let e3 : 4 * (c % (512 / 4)) ≡ c * 4 % 512 = omega arith in go (e1 i) (e2 i) (e3 i)

    store16 :
        g.ft ≡ fat16
        → (c + 1) * 16 ≤ g.fat_sec_sz * 4096
        → n < 2 ^ 16
        → HasEntry g c n v (patched k d g v w h (λ b. set16 b (c * 2 % 512) n) (c * 2))
    unfolding entry
    store16 e inside fits =
        let f = λ (b : Sector). set16 b (c * 2 % 512) n in
        let patch = λ (b : Sector). set16 b (c * 2) n in
        let here =
          λ (v1 : Sector) (b : ℕ). set16_here (c * 2) n v1 (byte_at g v.disk) b (omega arith) in
        let there = λ (b : ℕ). set16_there (c * 2) n (byte_at g v.disk) b (omega arith) in
        let inside' : c * 2 < g.fat_sec_sz * 512 = omega arith in
        let v' = patched k d g v w h f (c * 2) in
        let at = patched_bytes k d g v w h f patch (c * 2) inside' here there in
        record {
          entries = λ x lo hi.
              let hi' : (x + 1) * 16 ≤ g.fat_sec_sz * 4096 =
                subst (λ t. (x + 1) * bits t ≤ g.fat_sec_sz * 4096) e hi in
              ap (λ t. entry_by t g v'.disk x) e
              ∙ (λ i. at (x * 2) (omega arith) i + at (x * 2 + 1) (omega arith) i * 256)
              ∙ entry16_set (byte_at g v.disk) c n x fits
              ∙ ap (λ t. if c == x then n else entry_by t g v.disk x) (sym e);
          sectors = patched_sectors k d g v w h f patch (c * 2) inside' here there;
          coherent = (patched-HasWritten k d g v w h f patch (c * 2) inside' here there).coherent;
        }

    store32 :
        g.ft ≡ fat32
        → (c + 1) * 32 ≤ g.fat_sec_sz * 4096
        → n < 2 ^ 32
        → HasEntry g c n v (patched k d g v w h (λ b. set32 b (c * 4 % 512) n) (c * 4))
    unfolding entry
    store32 e inside fits =
        let f = λ (b : Sector). set32 b (c * 4 % 512) n in
        let patch = λ (b : Sector). set32 b (c * 4) n in
        let here =
          λ (v1 : Sector) (b : ℕ). set32_here (c * 4) n v1 (byte_at g v.disk) b (omega arith) in
        let there = λ (b : ℕ). set32_there (c * 4) n (byte_at g v.disk) b (omega arith) in
        let inside' : c * 4 < g.fat_sec_sz * 512 = omega arith in
        let v' = patched k d g v w h f (c * 4) in
        let at = patched_bytes k d g v w h f patch (c * 4) inside' here there in
        record {
          entries = λ x lo hi.
              let hi' : (x + 1) * 32 ≤ g.fat_sec_sz * 4096 =
                subst (λ t. (x + 1) * bits t ≤ g.fat_sec_sz * 4096) e hi in
              ap (λ t. entry_by t g v'.disk x) e
              ∙ (λ i.
                  at (x * 4) (omega arith) i
                  + at (x * 4 + 1) (omega arith) i * 256
                  + at (x * 4 + 2) (omega arith) i * 65536
                  + at (x * 4 + 3) (omega arith) i * 16777216)
              ∙ entry32_set (byte_at g v.disk) c n x fits
              ∙ ap (λ t. if c == x then n else entry_by t g v.disk x) (sym e);
          sectors = patched_sectors k d g v w h f patch (c * 4) inside' here there;
          coherent = (patched-HasWritten k d g v w h f patch (c * 4) inside' here there).coherent;
        }

-- A number fits into an entry of FAT16 or FAT32; FAT12 is left out.
abbrev pub FitsEntry : Filetype → ℕ → Type 0
FitsEntry fat12 n = ⊥
FitsEntry fat16 n = n < 2 ^ 16
FitsEntry fat32 n = n < 2 ^ 32

-- `writenextclus` on a FAT16 or FAT32 volume with a driver that writes sectors: the entry of the
-- cluster in the first table is the number that is given, every other entry and every sector behind
-- the tables is as before, and the buffer holds the sector that it is said to hold.
pub writenextclus-HasEntry :
    (k : WriteHd) (g : Geometry) (c n : ℕ) (v : Volume)
    → IsDriver k
    → IsGeometry g
    → InTable g c
    → IsCoherent g v
    → FitsEntry g.ft n
    → (v' : Volume) × (writenextclus k g c n v ≡ (true, v')) × HasEntry g c n v v'
unfolding writenextclus
writenextclus-HasEntry k g c n v d w t h fits =
    let clus : is_no_clus g c ≡ false = ground (arith, t.range) in
    (_, rw clus, by_type g.ft refl t.small t.inside fits)
  where
    by_type :
        (ft : Filetype)
        → g.ft ≡ ft
        → c * bits ft < 2 ^ 32
        → (c + 1) * bits ft ≤ g.fat_sec_sz * 4096
        → FitsEntry ft n
        → HasEntry g c n v (write_by k g ft c n v)
    by_type fat12 e small inside f = absurd f
    by_type fat16 e small inside f =
        subst (HasEntry g c n v) (sym (write16-patched k d g v w h c n small inside))
          (store16 k d g v w h c n e inside f)
    by_type fat32 e small inside f =
        subst (HasEntry g c n v) (sym (write32-patched k d g v w h c n small inside))
          (store32 k d g v w h c n e inside f)
