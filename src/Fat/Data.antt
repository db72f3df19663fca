-- ===== src/Fat/Data.antt =====
-- kernel/fat.c: the bytes of a file, `Fat_read` and `Fat_write`.
pub mod Clusters
pub mod Read
use chouryos.Base.{
  ℕ, zero, suc, ◌+◌, ◌-◌, ◌*◌, ◌/◌, ◌%◌, Bool, true, false, not, ◌&&◌, Option, none, some, ◌==◌,
  ltb, if◌then◌else◌, u16, u32,
}
use chouryos.Base.Int.{ℤ, negsuc, to_int}
use chouryos.Hd.{Sector, WriteHd, copy}
use chouryos.Fat.{Geometry, Volume, data_start_sec, read_clus, write_clus}
use chouryos.Fat.Table.{getnextclus}
use chouryos.Filedes.{Filedes}

-- The start of a round: the file goes on to the next cluster where the offset is at the end of one.
abbrev pub next_node : Geometry → Filedes → Volume → Filedes × Volume
next_node g file v =
    let (n, v') = getnextclus g file.curnode v in
    if (file.offset % g.clus_bytes == 0) && not (file.offset == 0)
    then (record file { curnode = n }, v')
    else (file, v)

-- `c`: the bytes of a round.
abbrev pub chunk : Geometry → Filedes → ℕ → ℕ
chunk g file len =
    let room = g.clus_bytes - file.offset % g.clus_bytes in if ltb room len then room else len

-- What a read has so far: `readlen`, `ptr`, the buffer of a cluster, the file and the volume.
pub record Reading : Type 0 where
  pub readlen : ℕ
  pub ptr : Sector
  pub buff : Sector
  pub file : Filedes
  pub volume : Volume

-- One round of the loop of `Fat_read`.
unfoldable pub read_round : Geometry → ℕ → Reading → Reading
read_round g len r =
    let (file, v1) = next_node g r.file r.volume in
    let (buff, v2) = read_clus g file.curnode r.buff v1 in
    let c = chunk g r.file len in
    record {
      readlen = r.readlen + c;
      ptr = copy buff (r.file.offset % g.clus_bytes) r.ptr r.readlen c;
      buff = buff;
      file = record file { offset = u32 (r.file.offset + c) };
      volume = v2;
    }

-- The loop, at most `fuel` rounds.
unfoldable pub read_from : Geometry → ℕ → ℕ → Reading → Option Reading
read_from g zero len r = if len == 0 then some r else none
read_from g (suc fuel) len r =
    let rest = read_from g fuel (len - chunk g r.file len) (read_round g len r) in
    if len == 0 then some r else rest

-- `Fat_read`, with the bytes `buff` in the memory of `malloc`: its result, and what has been read.
-- `readlen` and `writelen` are sums of numbers here, and an `int` where they are given back.
unfoldable pub fat_read :
    Geometry → ℕ → Sector → Filedes → Sector → ℕ → Volume → Option (ℤ × Reading)
fat_read g fuel buff file ptr len v =
    let r : Reading = record { readlen = 0; ptr = ptr; buff = buff; file = file; volume = v } in
    if ltb file.length (u32 (file.offset + len))
    then some (negsuc 0, r)
    else elim (read_from g fuel len r) [
      | none ↦ none
      | some r' ↦ some (to_int (u32 r'.readlen), r')
    ]

-- What a write has so far.
pub record Writing : Type 0 where
  pub writelen : ℕ
  pub buff : Sector
  pub file : Filedes
  pub volume : Volume

-- One round of the loop of `Fat_write`; `DataSec` is a `uint16`.
unfoldable pub write_round : WriteHd → Geometry → Sector → ℕ → Writing → Writing
write_round write_hd g ptr len w =
    let (file, v1) = next_node g w.file w.volume in
    let clus = u32 (u16 (data_start_sec g) + file.curnode) in
    let (buff, v2) = read_clus g clus w.buff v1 in
    let c = chunk g w.file len in
    let buff' = copy ptr w.writelen buff (w.file.offset % g.clus_bytes) c in
    record {
      writelen = w.writelen + c;
      buff = buff';
      file = record file { offset = u32 (w.file.offset + c) };
      volume = write_clus write_hd g clus buff' v2;
    }

unfoldable pub write_from : WriteHd → Geometry → Sector → ℕ → ℕ → Writing → Option Writing
write_from write_hd g ptr zero len w = if len == 0 then some w else none
write_from write_hd g ptr (suc fuel) len w =
    let rest =
      write_from write_hd g ptr fuel (len - chunk g w.file len)
        (write_round write_hd g ptr len w) in
    if len == 0 then some w else rest

unfoldable pub fat_write :
    WriteHd → Geometry → ℕ → Sector → Filedes → Sector → ℕ → Volume → Option (ℤ × Writing)
fat_write write_hd g fuel buff file ptr len v =
    let w : Writing = record { writelen = 0; buff = buff; file = file; volume = v } in
    if ltb file.length (u32 (file.offset + len))
    then some (negsuc 0, w)
    else elim (write_from write_hd g ptr fuel len w) [
      | none ↦ none
      | some w' ↦ some (to_int (u32 w'.writelen), w')
    ]
