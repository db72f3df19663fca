-- ===== src/Fat/Examples.antt =====
-- A FAT16 volume with clusters of one sector, and inputs for the theorems.
use chouryos.Base.{
  ◌↔◌, ◌++◌, ℕ, zero, suc, ◌+◌, ◌*◌, ◌/◌, ◌%◌, ◌≤◌, ◌<◌, ◌≡◌, ◌≢◌, inr, refl, ap, ap₂, ◌∙◌, arith,
  true, false, some, [], ◌∷◌, ◌==◌, if◌then◌else◌, update,
}
use chouryos.Base.Int.{pos}
use chouryos.Hd.{Sector, Disk, WriteHd, IsDriver}
use chouryos.Filedes.{Filedes, nomal_file}
use chouryos.Fat.{fat12, fat16, bits, Geometry, Volume, data_start_sec}
use chouryos.Fat.Table.{getnextclus, writenextclus}
use chouryos.Fat.Table.Entry.{entry, byte_at, IsGeometry, InTable, IsCoherent}
use chouryos.Fat.Table.Next.{getnextclus-entry}
use chouryos.Fat.Table.Map.{HasTable}
use chouryos.Fat.Table.Write.{HasEntry}
use chouryos.Fat.Table.Write.Store.{writenextclus-HasEntry}
use chouryos.Fat.Chain.{fat_cut}
use chouryos.Fat.Chain.Blank.{IsFirst}
use chouryos.Fat.Chain.Release.{freed, fat_cut-freed}
use chouryos.Fat.Data.{Reading, fat_read}
use chouryos.Fat.Data.Clusters.{InData}
use chouryos.Fat.Data.Read.{node, HasNodes, IsClustered, IsAt, file_byte, fat_read-file_byte}
use chouryos.Fat.Dir.{open_entry, close_entry, close_times, put16, stamp}
use chouryos.Fat.Dir.Times.{IsStamp, close_entry-open_entry}
use chouryos.Fat.Path.{cmpname, splitpath}
use chouryos.Fat.Path.Names.{HasPart, cmpname-splitpath}
use chouryos.Times.{Tm}

-- A driver that writes its sectors.
abbrev pub store_hd : WriteHd
store_hd sec b d x i = if sec == x then b i else d x i

pub store_hd-IsDriver : IsDriver store_hd
store_hd-IsDriver = record { stores = λ sec b d x i l. refl }

abbrev pub volume16 : Geometry
volume16 = record {
  partition_sec = 0;
  bytes_per_sec = 512;
  sec_per_clus = 1;
  rsvd_sec_cnt = 1;
  num_fats = 2;
  root_ent_cnt = 16;
  tot_sec = 200;
  fat_sec_sz = 1;
  root_dir_clu = 0;
  clus_bytes = 512;
  max_clus = 0xFFEF;
  beoc = 0xFFF8;
  eoc = 0xFFFF;
  ft = fat16;
}

-- A file in the clusters 2, 5 and 6.
abbrev pub table16 : ℕ → ℕ
table16 c = if c == 2 then 5 else if c == 5 then 6 else if c == 6 then 0xFFFF else 0

abbrev pub table_byte : ℕ → ℕ
table_byte i = if i % 2 == 0 then table16 (i / 2) % 256 else table16 (i / 2) / 256

-- The table in its first sector, and data behind it.
abbrev pub disk16 : Disk
disk16 x i = if x == 1 then table_byte i else (x + i) % 256

abbrev pub start16 : Volume
start16 = record { buffer_fat = disk16 0; last_access = 0; disk = disk16 }

table16-lt : (c : ℕ) → table16 c < 65536
table16-lt c = ground arith

fat16≢fat12 : fat16 ≢ fat12
fat16≢fat12 e = let b : bits fat16 ≡ bits fat12 = ap bits e in omega (arith, b)

volume16-IsGeometry : IsGeometry volume16
volume16-IsGeometry = record { sector = refl; room = omega arith; reserved = λ e. refl }

disk16-entry : (x : ℕ) → (x + 1) * 16 ≤ 4096 → entry volume16 disk16 x ≡ table16 x
unfolding entry
disk16-entry x h =
    let sec : (1 + x * 2 / 512 == 1) ≡ true = ground arith in
    let even : (x * 2 % 512 % 2 == 0) ≡ true = ground arith in
    let half : x * 2 % 512 / 2 ≡ x = omega arith in
    let sec' : (1 + (x * 2 + 1) / 512 == 1) ≡ true = ground arith in
    let odd : ((x * 2 + 1) % 512 % 2 == 0) ≡ false = ground arith in
    let half' : (x * 2 + 1) % 512 / 2 ≡ x = omega arith in
    let lo : byte_at volume16 disk16 (x * 2) ≡ table16 x % 256 = rw (sec, even, half) refl in
    let hi : byte_at volume16 disk16 (x * 2 + 1) ≡ table16 x / 256 = rw (sec', odd, half') refl in
    let small = table16-lt x in ap₂ (λ a b. a + b * 256) lo hi ∙ omega arith

pub start16-HasTable : HasTable volume16 table16 disk16 start16
start16-HasTable = record {
  geometry = volume16-IsGeometry;
  wide = λ e. fat16≢fat12 e;
  coherent = λ i l. refl;
  entries = λ x lo hi. disk16-entry x hi;
  sectors = λ z i l h. refl;
}

in_table16 : (c : ℕ) → 2 ≤ c → c < 256 → InTable volume16 c
in_table16 c lo hi = record { range = (lo, omega arith); inside = omega arith; small = omega arith }

in_data16 : (c : ℕ) → 2 ≤ c → c < 256 → InData volume16 c
unfolding data_start_sec
in_data16 c lo hi = record {
  first = lo;
  whole = omega arith;
  room = omega arith;
  behind = omega arith;
}

getnextclus-entry_example :
    ((getnextclus volume16 2 start16).0 ≡ entry volume16 disk16 2)
    × ((getnextclus volume16 2 start16).1.disk ≡ disk16)
    × IsCoherent volume16 (getnextclus volume16 2 start16).1
getnextclus-entry_example =
    getnextclus-entry volume16 2 start16 volume16-IsGeometry
      (in_table16 2 (omega arith) (omega arith)) (λ e. absurd (fat16≢fat12 e)) (λ i l. refl)

writenextclus-HasEntry_example :
    (v : Volume) × (writenextclus store_hd volume16 6 9 start16 ≡ (true, v))
    × HasEntry volume16 6 9 start16 v
writenextclus-HasEntry_example =
    writenextclus-HasEntry store_hd volume16 6 9 start16 store_hd-IsDriver volume16-IsGeometry
      (in_table16 6 (omega arith) (omega arith)) (λ i l. refl) (omega arith)

-- Cluster 3 is the first that is free.
third : IsFirst volume16 table16 0 3
third = record {
  range = (omega arith, omega arith);
  hit = refl;
  before = λ y lo hi. ground arith;
  tables = λ y lo hi. in_table16 y lo (omega arith);
}

fat_cut-freed_example :
    (v : Volume) × (fat_cut store_hd volume16 3 2 start16 ≡ some v)
    × HasTable volume16 (freed (update table16 2 0xFFFF) (5 ∷ 6 ∷ [])) disk16 v
fat_cut-freed_example =
    fat_cut-freed store_hd volume16 disk16 3 (5 ∷ 6 ∷ []) table16 start16 2 store_hd-IsDriver
      start16-HasTable (in_table16 2 (omega arith) (omega arith)) (omega arith) refl
      (
        refl,
        omega arith,
        in_table16 5 (omega arith) (omega arith),
        refl,
        (refl, omega arith, in_table16 6 (omega arith) (omega arith), refl, omega arith),
      )
      (omega arith)

-- The file in the clusters 2, 5 and 6, at its start.
abbrev pub file16 : Filedes
file16 = record {
  isused = true;
  filetype = nomal_file;
  target = 0;
  flags = 0;
  dirnode = 6;
  indexno = 0;
  offset = 0;
  startnode = 2;
  curnode = 2;
  nodebytes = 512;
  length = 1200;
  createtime = 0;
  accesstime = 0;
  updatetime = 0;
}

pub volume16-IsClustered : IsClustered volume16
volume16-IsClustered = record { size = refl; some_bytes = omega arith }

node16-bounds : (i : ℕ) → i < 3 → (2 ≤ node table16 2 i) × (node table16 2 i < 256)
node16-bounds zero h = (omega arith, omega arith)
node16-bounds (suc zero) h = (omega arith, omega arith)
node16-bounds (suc (suc zero)) h = (omega arith, omega arith)
node16-bounds (suc (suc (suc i))) h = absurd (omega arith)

pub file16-HasNodes : HasNodes volume16 table16 2 3
file16-HasNodes i h = let (lo, hi) = node16-bounds i h in (in_table16 _ lo hi, in_data16 _ lo hi)

start-IsAt : IsAt volume16 table16 2 0 file16
start-IsAt = record { curnode = refl; above = inr (refl, refl); below = omega arith }

fat_read-file_byte_example :
    (r : Reading) × (fat_read volume16 600 (λ i. 0) file16 (λ i. 0) 600 start16 ≡ some (pos 600, r))
    × ((i : ℕ) → i < 600 → r.ptr i ≡ file_byte volume16 table16 disk16 2 (0 + i))
    × (r.file ≡ record file16 { curnode = r.file.curnode; offset = 600 })
    × ((k : ℕ) × IsAt volume16 table16 2 k r.file)
    × HasTable volume16 table16 disk16 r.volume
fat_read-file_byte_example =
    fat_read-file_byte volume16 table16 disk16 start16 3 0 600 600 (λ i. 0) (λ i. 0) file16
      volume16-IsClustered start16-HasTable file16-HasNodes start-IsAt (omega arith) (omega arith)
      (omega arith) (omega arith) (omega arith)

-- An entry of 29 February 2012, 23:59:58.
abbrev leap_entry : Sector
leap_entry i =
    if i == 14
    then 125
    else if i == 15
    then 191
    else if i == 16
    then 93
    else if i == 17
    then 64
    else if i == 22
    then 125
    else if i == 23
    then 191
    else if i == 24
    then 93
    else if i == 25
    then 64
    else 0

leap-IsStamp : IsStamp 16477 49021
leap-IsStamp = record {
  date_in = omega arith;
  time_in = omega arith;
  is_date = record { year_in = omega arith; month_in = omega arith; day_in = ground arith };
  is_time = record { hour_in = omega arith; min_in = omega arith; sec_in = omega arith };
}

close_entry-open_entry_example :
    (create : Tm) × (access : Tm) × (change : Tm) × (close_times 3
        (record (open_entry volume16 6 0 leap_entry file16) { accesstime = stamp 16477 49021 })
      ≡ some (create, access, change))
    × (close_entry (open_entry volume16 6 0 leap_entry file16) create access change 0 leap_entry
        ≡ put16 18 16477 leap_entry)
close_entry-open_entry_example =
    close_entry-open_entry volume16 0 6 0 16477 49021 leap_entry file16 (λ x. ground arith)
      leap-IsStamp leap-IsStamp leap-IsStamp

-- The path "ab.c".
cmpname-splitpath_example :
    (cmpname (splitpath ((97 ∷ 98 ∷ []) ++ (b'.' ∷ 99 ∷ []))) leap_entry 0 ≡ true)
    ↔ (HasPart 8 (97 ∷ 98 ∷ []) leap_entry 0 × HasPart 3 (99 ∷ []) leap_entry (0 + 8))
cmpname-splitpath_example =
    cmpname-splitpath (97 ∷ 98 ∷ []) (99 ∷ []) leap_entry 0
      (ground arith, (ground arith, omega arith)) (omega arith) (omega arith)
