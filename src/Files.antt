-- ===== src/Files.antt =====
-- kernel/file.c: an open file of the file system. A result is an `int` or an `off_t`.

pub mod Calls
pub mod Seek
mod Examples
use chouryos.Base.{
  ℕ, zero, suc, ◌+◌, ◌-◌, ◌*◌, ◌/◌, ◌%◌, ◌^◌, bit_and, Bool, true, false, not, Option, none, some,
  List, ◌==◌, ltb, leb, if◌then◌else◌, u32,
}
use chouryos.Base.Int.{ℤ, pos, negsuc, ltb_ℤ, to_int, to_u32, neg_part}
use chouryos.Hd.{Sector, WriteHd}
use chouryos.Fat.{Geometry, Volume}
use chouryos.Fat.Chain.{fat_cut, fat_expand, fat_seek}
use chouryos.Fat.Dir.{fat_open, fat_close}
use chouryos.Fat.Data.{Reading, fat_read, Writing, fat_write}
use chouryos.Filedes.{Filedes, Filetype, nomal_file}

abbrev pub enoent : ℕ
enoent = 2

abbrev pub einval : ℕ
einval = 22

abbrev pub enospc : ℕ
enospc = 28

-- `SEEK_SET`, `SEEK_CUR`, `SEEK_END`, and any other number.
pub data Whence : Type 0 where
  seek_set seek_cur seek_end other : Whence

abbrev pub o_append : ℕ
o_append = 0x0008

abbrev pub o_trunc : ℕ
o_trunc = 0x0400

-- What the calls work on besides the file: the volume, and `errno`.
pub record Store : Type 0 where
  pub volume : Volume
  pub errno : ℕ

abbrev pub minus_one : ℤ
minus_one = negsuc 0

-- A call that fails, with `errno` set.
abbrev pub fails : {A : Type 0} → ℕ → A → Store → Option (ℤ × A × Store)
fails e file s = some (minus_one, file, record s { errno = e })

-- `upto` of file.c, over `uint32`.
abbrev pub upto : ℕ → ℕ → ℕ
upto x y = u32 (x + y + 2 ^ 32 - (u32 (x + 2 ^ 32 - 1) % y + 1))

-- The offset that `file_lseek` computes first; as an `off_t` it can be negative.
abbrev pub seek_offset : Filedes → ℤ → Whence → ℤ
seek_offset file offset seek_cur = to_int (u32 (to_u32 offset + file.offset))
seek_offset file offset seek_end = to_int (u32 (to_u32 offset + file.length))
seek_offset file offset _ = offset

-- The difference of two quotients, in `unsigned long`, and then an `off_t`.
abbrev pub steps : ℕ → ℕ → ℕ → ℤ
steps nodebytes to from = to_int (u32 (to / nodebytes + 2 ^ 32 - from / nodebytes))

-- The end of `file_lseek`, from the result of `Fat_seek` on.
abbrev pub moved : Filedes → ℤ → ℕ → Option (ℤ × Volume) → Option (ℤ × Filedes × Store)
moved file offset errno none = none
moved file offset errno (some (tmpnode, v)) =
    let to = to_u32 offset in
    if ltb_ℤ (pos 0) tmpnode
    then some (
      to_int to,
      record file {
        curnode = to_u32 tmpnode;
        offset = to;
        length = if ltb file.length to then to else file.length;
      },
      record { volume = v; errno = errno },
    )
    else some (minus_one, file, record { volume = v; errno = enospc })

module _ (write_hd : WriteHd) (g : Geometry) (fuel : ℕ) where
  -- The call of `Fat_seek` in `file_lseek`.
  abbrev seek_node : Filedes → ℤ → Whence → Volume → Option (ℤ × Volume)
  seek_node file to seek_set v =
      fat_seek write_hd g fuel file.startnode (to_int (to_u32 to / file.nodebytes)) v
  seek_node file to _ v =
      fat_seek write_hd g fuel file.curnode (steps file.nodebytes (to_u32 to) file.offset) v

  abbrev known : Whence → Bool
  known other = false
  known _ = true

  unfoldable pub file_lseek : Filedes → ℤ → Whence → Store → Option (ℤ × Filedes × Store)
  file_lseek file offset whence s =
      let to = seek_offset file offset whence in
      if not (known whence)
      then fails einval file s
      else if ltb_ℤ to (pos 0)
      then fails einval file s
      else moved file to s.errno (seek_node file to whence s.volume)

  -- `file_read`. A read from behind the end of the file has its length wrapped around.
  unfoldable pub file_read : Sector → Filedes → Sector → ℕ → Volume → Option (ℤ × Reading)
  file_read buff file ptr len v =
      let len' =
        if ltb file.length (u32 (len + file.offset))
        then u32 (file.length + 2 ^ 32 - file.offset)
        else len in
      fat_read g fuel buff file ptr len' v

  -- The new length in `file_write`, from the result of `Fat_expand`.
  abbrev grown : Filedes → ℕ → ℤ → Filedes
  grown file len c =
      if ltb_ℤ (pos 0) c then record file { length = u32 (file.offset + len) } else record file {
        length = u32 (upto file.length file.nodebytes + neg_part c * file.nodebytes);
      }

  -- The part of `file_write` for a write past the end: the file goes to its last cluster, and takes
  -- more.
  unfoldable pub grow : Filedes → ℕ → Volume → Option (Filedes × Volume)
  grow file len v =
      let more =
        u32 (u32 (file.offset + len) / file.nodebytes + 2 ^ 32 - file.length / file.nodebytes) in
      elim (fat_seek write_hd g fuel file.curnode (steps file.nodebytes file.length file.offset)
        v) [
          | none ↦ none
          | some (tmpnode, v1) ↦ elim (fat_expand write_hd g fuel (to_u32 tmpnode) more false v1) [
            | none ↦ none
            | some (c, v2) ↦ some (grown file len c, v2)
          ]
        ]

  -- `file_write`, at the time `now`.
  unfoldable pub file_write : ℕ → Sector → Filedes → Sector → ℕ → Volume → Option (ℤ × Writing)
  file_write now buff file ptr len v =
      let file' = record file { updatetime = now } in
      let past : Option (ℤ × Writing) = elim (grow file' len v) [
        | none ↦ none
        | some (longer, v') ↦ fat_write write_hd g fuel buff longer ptr len v'
      ] in
      if ltb file.length (u32 (len + file.offset))
      then past
      else fat_write write_hd g fuel buff file' ptr len v

  -- `file_open` once the entry is found, at the times `now` and `later`.
  abbrev pub opened : ℕ → ℕ → Filedes → ℕ → Filedes
  opened now later file flags =
      let file' = record file {
        isused = true;
        offset = 0;
        curnode = file.startnode;
        filetype = nomal_file;
        flags = flags;
        accesstime = now;
      } in
      if bit_and flags o_trunc == 0 then file' else record file' { length = 0; updatetime = later }

  abbrev appended : ℕ → Filedes → Store → Option (ℤ × Filedes × Store)
  appended flags file s =
      let done = some (pos 0, file, s) in
      if bit_and flags o_append == 0 then done else elim (file_lseek file (pos 0) seek_end s) [
        | none ↦ none
        | some (_, file', s') ↦ some (pos 0, file', s')
      ]

  abbrev truncated : ℕ → Filedes → Volume → Option Volume
  truncated flags file v =
      if bit_and flags o_trunc == 0 then some v else fat_cut write_hd g fuel file.curnode v

  -- The rest of `file_open`, from the result of `Fat_open` on.
  abbrev pub open_found : ℕ → ℕ → ℕ → Bool × Filedes × Volume → Store → Option (ℤ × Filedes × Store)
  open_found now later flags (false, file, v) s = fails enoent file (record s { volume = v })
  open_found now later flags (true, file, v) s =
      let file' = opened now later file flags in
      elim (truncated flags file' v) [
        | none ↦ none
        | some v' ↦ appended flags file' (record s { volume = v' })
      ]

  -- `file_open`, with the bytes `buff` in the memory of `malloc`.
  unfoldable pub file_open :
      ℕ → ℕ → Sector → Filedes → List ℕ → ℕ → Store → Option (ℤ × Filedes × Store)
  file_open now later buff file path flags s = elim (fat_open g fuel buff file path s.volume) [
    | none ↦ none
    | some found ↦ open_found now later flags found s
  ]

  unfoldable pub file_close : Sector → Filedes → Volume → Option (ℤ × Volume)
  file_close buff file v = elim (fat_close write_hd g fuel buff file v) [
    | none ↦ none
    | some v' ↦ some (pos 0, v')
  ]
