-- ===== src/Fat/Dir.antt =====
-- kernel/fat.c and include/fat.h: entries of a directory, `Fat_open` and `Fat_close`.
pub mod Times
pub mod Search
use chouryos.Base.{
  ◌>>=◌, ℕ, zero, suc, ◌+◌, ◌-◌, ◌*◌, ◌/◌, ◌%◌, ◌^◌, Bool, true, false, Option, none, some, List,
  ◌==◌, leb, if◌then◌else◌, update, u16, u32,
}
use chouryos.Base.Int.{ℤ, pos, negsuc, ◌+ℤ◌, ◌-ℤ◌, quot}
use chouryos.Hd.{Sector, WriteHd}
use chouryos.Fat.{
  Filetype, fat12, fat16, fat32, Geometry, Volume, read_sector, write_sector, get16, get32,
  dir_start_sec, data_start_sec, read_clus, write_clus,
}
use chouryos.Fat.Table.{getnextclus}
use chouryos.Fat.Path.{cmpname, splitpath}
use chouryos.Filedes.{Filedes}
use chouryos.Times.{Tm, kernel_mktime, time_to_tm}

-- A `DIR` has 32 bytes. Its times and dates are in the words at 14, 16, 18, 22 and 24.
abbrev pub dir_bytes : ℕ
dir_bytes = 32

-- `kernel_mktime` of a date and a time of an entry.
abbrev pub stamp : ℕ → ℕ → ℕ
stamp date time =
    kernel_mktime (date / 512 + 1980) (date / 32 % 16) (date % 32) (time / 2048) (time / 32 % 64)
      (time % 32 * 2)

-- What `Fat_open` sets, from the entry `j` of a buffer.
unfoldable pub open_entry : Geometry → ℕ → ℕ → Sector → Filedes → Filedes
open_entry g dirnode j b file =
    let at = j * dir_bytes in
    record file {
      nodebytes = g.clus_bytes;
      dirnode = u32 dirnode;
      indexno = j;
      startnode = get16 b (at + 20) * 65536 + get16 b (at + 26);
      length = get32 b (at + 28);
      createtime = stamp (get16 b (at + 16)) (get16 b (at + 14));
      updatetime = stamp (get16 b (at + 24)) (get16 b (at + 22));
    }

-- The loop over the entries of a buffer, from `j` on.
unfoldable pub find_name : List ℕ → Sector → ℕ → ℕ → Option ℕ
find_name name b zero j = none
find_name name b (suc left) j =
    let rest = find_name name b left (j + 1) in
    if cmpname name b (j * dir_bytes) then some j else rest

-- The loop over the sectors of the root directory of FAT12 and FAT16, from `i` on.
unfoldable pub open_root : Geometry → List ℕ → ℕ → ℕ → Filedes → Volume → Bool × Filedes × Volume
open_root g name zero i file v = (false, file, v)
open_root g name (suc left) i file v =
    let v' = read_sector g i v in
    let rest = open_root g name left (i + 1) file v' in
    elim (find_name name v'.buffer_fat (g.bytes_per_sec / dir_bytes) 0) [
      | some j ↦ (true, open_entry g (i + dir_start_sec g) j v'.buffer_fat file, v')
      | none ↦ rest
    ]

-- The loop over the clusters of the root directory of FAT32, at most `fuel` rounds, with the buffer.
unfoldable pub open_chain :
    Geometry → List ℕ → ℕ → ℕ → Sector → Filedes → Volume → Option (Bool × Filedes × Volume)
open_chain g name zero i b file v = none
open_chain g name (suc fuel) i b file v =
    let (b', v1) = read_clus g i b v in
    let (n, v2) = getnextclus g i v1 in
    let rest = open_chain g name fuel n b' file v2 in
    let here : Option (Bool × Filedes × Volume) =
      elim (find_name name b' (g.clus_bytes / dir_bytes) 0) [
        | some j ↦ some (true, open_entry g i j b' file, v1)
        | none ↦ rest
      ] in
    if leb i g.max_clus then here else some (false, file, v)

-- `Fat_open`, with the bytes `b` in the memory of `malloc`; `false` is the result -1.
abbrev pub open_by :
    Filetype → Geometry → ℕ → Sector → Filedes → List ℕ → Volume → Option (Bool × Filedes × Volume)
open_by fat32 g fuel b file name v = open_chain g name fuel g.root_dir_clu b file v
open_by _ g fuel b file name v =
    let start = dir_start_sec g in some (open_root g name (data_start_sec g - start) start file v)

unfoldable pub fat_open :
    Geometry → ℕ → Sector → Filedes → List ℕ → Volume → Option (Bool × Filedes × Volume)
fat_open g fuel b file path v = open_by g.ft g fuel b file (splitpath path) v

-- The low bits of an `int`: its residue modulo `m`, a power of 2.
abbrev pub low : ℕ → ℤ → ℕ
low m (pos n) = n % m
low m (negsuc n) = m - 1 - n % m

-- The bit-fields of a time and of a date.
abbrev pub pack_time : Tm → ℕ
pack_time t = low 32 (quot t.tm_sec 2) + low 64 t.tm_min * 32 + low 32 t.tm_hour * 2048

abbrev pub pack_date : Tm → ℕ
pack_date t =
    low 32 t.tm_mday + low 16 (t.tm_mon +ℤ pos 1) * 32 + low 128 (t.tm_year -ℤ pos 80) * 512

abbrev pub put16 : ℕ → ℕ → Sector → Sector
put16 i v b = update (update b i (v % 256)) (i + 1) (v / 256 % 256)

-- What `Fat_close` writes into the entry at `at` of a buffer.
unfoldable pub close_entry : Filedes → Tm → Tm → Tm → ℕ → Sector → Sector
close_entry file create access change at b = put16 (at + 30) (file.length / 65536) (
    put16 (at + 28) file.length (
      put16 (at + 26) file.startnode (
        put16 (at + 20) (file.startnode / 65536) (
          put16 (at + 24) (pack_date change) (
            put16 (at + 22) (pack_time change) (
              put16 (at + 18) (pack_date access)
                (put16 (at + 16) (pack_date create) (put16 (at + 14) (pack_time create) b))))))))

-- The three calls of `time_to_tm`, at most `fuel` rounds of its loops.
unfoldable pub close_times : ℕ → Filedes → Option (Tm × Tm × Tm)
close_times fuel file = do
  create ← time_to_tm fuel (pos file.createtime)
  access ← time_to_tm fuel (pos file.accesstime)
  change ← time_to_tm fuel (pos file.updatetime)
  some (create, access, change)

abbrev pub close_at : WriteHd → Geometry → Sector → Filedes → Tm × Tm × Tm → Volume → Volume
close_at write_hd g b file (create, access, change) v =
    let put = close_entry file create access change (file.indexno * dir_bytes) in
    let v1 = read_sector g file.dirnode v in
    let (b', v2) = read_clus g file.dirnode b v in
    elim g.ft [
      | fat32 ↦ write_clus write_hd g file.dirnode (put b') v2
      | _ ↦ write_sector write_hd g file.dirnode (record v1 { buffer_fat = put v1.buffer_fat })
    ]

-- `Fat_close`, whose result is 0.
unfoldable pub fat_close : WriteHd → Geometry → ℕ → Sector → Filedes → Volume → Option Volume
fat_close write_hd g fuel b file v = elim (close_times fuel file) [
  | none ↦ none
  | some times ↦ some (close_at write_hd g b file times v)
]
