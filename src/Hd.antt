-- ===== src/Hd.antt =====
-- driver/hd.c as the file system sees it: sectors of 512 bytes that `readHd` reads. The device
-- itself is left out.
use chouryos.Base.{ℕ, zero, suc, ◌+◌, ◌-◌, ◌≡◌, ◌<◌, ◌&&◌, ◌==◌, ltb, leb, if◌then◌else◌}

-- Bytes by their offset, of a sector or of another buffer.
abbrev pub Sector : Type 0
Sector = ℕ → ℕ

-- The sectors of a disk by their number.
abbrev pub Disk : Type 0
Disk = ℕ → Sector

-- `memcpy` of `n` bytes from `src + from` to `dest + to`.
abbrev pub copy : Sector → ℕ → Sector → ℕ → ℕ → Sector
copy src from dest to n i = if leb to i && ltb i (to + n) then src (from + (i - to)) else dest i

-- `readHd` of `n` sectors into the buffer, from `off` on.
unfoldable pub read_hd : ℕ → ℕ → Disk → ℕ → Sector → Sector
read_hd sec zero disk off buff = buff
read_hd sec (suc n) disk off buff =
    read_hd (sec + 1) n disk (off + 512) (copy (disk sec) 0 buff off 512)

-- What a driver does to write one sector from a buffer.
abbrev pub WriteHd : Type 0
WriteHd = ℕ → Sector → Disk → Disk

-- `writeHd` has an empty body.
unfoldable pub write_hd : WriteHd
write_hd sec buff disk = disk

-- What the file system expects of a driver: a sector that is written has the bytes of the buffer,
-- and no other sector changes.
pub record IsDriver (w : WriteHd) : Type 0 where
  pub stores :
      (sec : ℕ) (b : Sector) (d : Disk) (x i : ℕ)
      → i < 512
      → w sec b d x i ≡ (if sec == x then b i else d x i)
