-- ===== src/Fat.antt =====
-- kernel/fat.c: the FAT file system. This file has the volume: the geometry that ReadBPB reads, the
-- sector that is kept in BUFFER_FAT, and clusters; the modules below it have the rest of the file.
pub mod Table
pub mod Chain
pub mod Path
pub mod Dir
pub mod Data
pub mod Examples
use chouryos.Base.{
  ℕ, zero, suc, ◌+◌, ◌-◌, ◌*◌, ◌/◌, ◌%◌, ◌^◌, Bool, true, false, ◌&&◌, ◌==◌, ltb, leb,
  if◌then◌else◌, u16, u32,
}
use chouryos.Hd.{Sector, Disk, WriteHd, read_hd, copy}

-- `enum Filetype`
pub data Filetype : Type 0 where
  fat12 fat16 fat32 : Filetype

abbrev pub bits : Filetype → ℕ
bits fat12 = 12
bits fat16 = 16
bits fat32 = 32

-- The variables that `FAT_Init` and `ReadBPB` set.
pub record Geometry : Type 0 where
  pub partition_sec : ℕ
  pub bytes_per_sec : ℕ
  pub sec_per_clus : ℕ
  pub rsvd_sec_cnt : ℕ
  pub num_fats : ℕ
  pub root_ent_cnt : ℕ
  pub tot_sec : ℕ
  pub fat_sec_sz : ℕ
  pub root_dir_clu : ℕ
  pub clus_bytes : ℕ
  pub max_clus : ℕ
  pub beoc : ℕ
  pub eoc : ℕ
  pub ft : Filetype

-- `BUFFER_FAT`, `LastAccess`, and the disk behind them. `LastAccess` is an `int` that is compared
-- with a `uint32`, so that -1 is 2 ^ 32 - 1.
pub record Volume : Type 0 where
  pub buffer_fat : Sector
  pub last_access : ℕ
  pub disk : Disk

unfoldable pub read_sector : Geometry → ℕ → Volume → Volume
read_sector g sec v = if sec == v.last_access then v else record v {
  buffer_fat = read_hd (u32 (sec + g.partition_sec)) 1 v.disk 0 v.buffer_fat;
  last_access = sec;
}

unfoldable pub write_sector : WriteHd → Geometry → ℕ → Volume → Volume
write_sector write_hd g sec v = record v {
  disk = write_hd (u32 (sec + g.partition_sec)) v.buffer_fat v.disk;
  last_access = sec;
}

-- A number of 16 or 32 bits in memory, the low byte first.
abbrev pub get16 : Sector → ℕ → ℕ
get16 b i = b i + b (i + 1) * 256

abbrev pub get32 : Sector → ℕ → ℕ
get32 b i = b i + b (i + 1) * 256 + b (i + 2) * 65536 + b (i + 3) * 16777216

-- The limits of a file type: `MaxClus`, `BEOC` and `EOC`.
abbrev pub limits : Filetype → ℕ × ℕ × ℕ
limits fat32 = (0xFFFFFEF, 0xFFFFFF8, 0xFFFFFFF)
limits fat16 = (0xFFEF, 0xFFF8, 0xFFFF)
limits fat12 = (0xFEF, 0xFF8, 0xFFF)

abbrev pub filetype_of : ℕ → Filetype
filetype_of clusters =
    if ltb 0xFFFF clusters then fat32 else if ltb 0xFFF clusters then fat16 else fat12

-- `ReadBPB`, from the block in `BUFFER_FAT`. Only FAT32 sets `BPB_RootDirClu`, which is 0 before.
unfoldable pub parse_bpb : ℕ → Sector → Geometry
parse_bpb partition_sec b =
    let tot = if get16 b 19 == 0 then get32 b 32 else get16 b 19 in
    let ft = filetype_of (tot / b 13) in
    let (max_clus, beoc, eoc) = limits ft in
    record {
      partition_sec = partition_sec;
      bytes_per_sec = get16 b 11;
      sec_per_clus = b 13;
      rsvd_sec_cnt = get16 b 14;
      num_fats = b 16;
      root_ent_cnt = get16 b 17;
      tot_sec = tot;
      fat_sec_sz = if get16 b 22 == 0 then get32 b 36 else get16 b 22;
      root_dir_clu = elim ft [ fat32 ↦ get32 b 44 | _ ↦ 0 ];
      clus_bytes = b 13 * get16 b 11;
      max_clus = max_clus;
      beoc = beoc;
      eoc = eoc;
      ft = ft;
    }

-- The geometry before `ReadBPB`, of which only the partition's start is used.
abbrev unread : ℕ → Geometry
unread partition_sec = record {
  partition_sec = partition_sec;
  bytes_per_sec = 0;
  sec_per_clus = 0;
  rsvd_sec_cnt = 0;
  num_fats = 0;
  root_ent_cnt = 0;
  tot_sec = 0;
  fat_sec_sz = 0;
  root_dir_clu = 0;
  clus_bytes = 0;
  max_clus = 0;
  beoc = 0;
  eoc = 0;
  ft = fat12;
}

-- `FAT_Init`: the start of the first partition is at byte 454 of the master boot record.
unfoldable pub fat_init : Volume → Geometry × Volume
fat_init v =
    let partition_sec = get32 (read_hd 0 1 v.disk 0 v.buffer_fat) 454 in
    let v' = read_sector (unread partition_sec) 0 (record v { last_access = 2 ^ 32 - 1 }) in
    (parse_bpb partition_sec v'.buffer_fat, v')

unfoldable pub dir_start_sec : Geometry → ℕ
dir_start_sec g =
    let fats = g.rsvd_sec_cnt + g.num_fats * g.fat_sec_sz in
    elim g.ft [ fat32 ↦ u32 (fats + g.root_dir_clu * g.sec_per_clus) | _ ↦ u32 fats ]

unfoldable pub data_start_sec : Geometry → ℕ
data_start_sec g =
    let fats = g.rsvd_sec_cnt + g.num_fats * g.fat_sec_sz in
    elim g.ft [ fat32 ↦ u32 fats | _ ↦ u32 (fats + u32 (g.root_ent_cnt * 32) / 512) ]

-- `bsec` and `esec` of a cluster.
abbrev pub clus_sec : Geometry → ℕ → ℕ
clus_sec g clus = u32 (data_start_sec g + u32 (clus + 2 ^ 32 - 2) * g.sec_per_clus)

abbrev pub clus_end : Geometry → ℕ → ℕ
clus_end g clus = u32 (data_start_sec g + u32 (clus + 2 ^ 32 - 1) * g.sec_per_clus)

-- The loop of `ReadClus`, with `left` sectors to go: the bytes from `off` on, and the volume.
unfoldable pub read_sectors : Geometry → ℕ → ℕ → ℕ → Sector → Volume → Sector × Volume
read_sectors g zero sec off buff v = (buff, v)
read_sectors g (suc left) sec off buff v =
    let v' = read_sector g sec v in
    read_sectors g left (sec + 1) (off + g.bytes_per_sec)
      (copy v'.buffer_fat 0 buff off g.bytes_per_sec) v'

unfoldable pub read_clus : Geometry → ℕ → Sector → Volume → Sector × Volume
read_clus g clus buff v =
    read_sectors g (clus_end g clus - clus_sec g clus) (clus_sec g clus) 0 buff v

unfoldable pub write_sectors : WriteHd → Geometry → ℕ → ℕ → ℕ → Sector → Volume → Volume
write_sectors write_hd g zero sec off buff v = v
write_sectors write_hd g (suc left) sec off buff v =
    write_sectors write_hd g left (sec + 1) (off + g.bytes_per_sec) buff (
      write_sector write_hd g sec
        (record v { buffer_fat = copy buff off v.buffer_fat 0 g.bytes_per_sec }))

unfoldable pub write_clus : WriteHd → Geometry → ℕ → Sector → Volume → Volume
write_clus write_hd g clus buff v =
    write_sectors write_hd g (clus_end g clus - clus_sec g clus) (clus_sec g clus) 0 buff v
