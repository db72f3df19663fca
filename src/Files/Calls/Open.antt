-- ===== src/Files/Calls/Open.antt =====
-- `sys_open` of a file in the root directory of a FAT12 or FAT16 volume.
use chouryos.Base.{
  ℕ, ◌+◌, ◌-◌, ◌≤◌, length, arith, ◌<◌, ◌≡◌, ◌≢◌, ◌⊎◌, inl, inr, refl, sym, ap, subst, ◌∙◌, Bool,
  Bool-cases, ==_iff, some, List, true, false, ◌==◌, bit_and, update, update_self, update_ne,
}
use mathlib.Core.Bool.{true≢false}
use chouryos.Base.Int.{ℤ, pos}
use chouryos.Hd.{Sector, Disk, WriteHd}
use chouryos.Filedes.{Filedes, nomal_file, max_fd}
use chouryos.Fat.{Filetype, fat12, fat16, fat32, Geometry, Volume, dir_start_sec, data_start_sec}
use chouryos.Fat.Table.Entry.{IsCoherent}
use chouryos.Fat.Dir.Search.{IsFound, IsMissing, Searched, length-splitpath, open_root-Searched}
use chouryos.Fat.Path.{splitpath}
use chouryos.Fat.Dir.{open_root, open_by, fat_open}
use chouryos.Files.{minus_one, file_open, open_found, opened, o_trunc, o_append, enoent}
use chouryos.Files.Calls.{Kernel, emfile, set_errno, set_file, opened_at, sys_open}
use chouryos.Files.Calls.Descriptors.{IsLowest, free_fd-IsLowest}

-- The sectors of the root directory.
Searched-range :
    (g : Geometry) (d : Disk) (name : List ℕ) (lo hi : ℕ) (file : Filedes)
    (x : Bool × Filedes × Volume)
    → Searched g d name lo (lo + (hi - lo)) file x
    → Searched g d name lo hi file x
Searched-range g d name lo hi file x (inl (t, (i, j, a, l, m, h, o))) =
    inl (t, (i, j, a, omega arith, m, h, o))
Searched-range g d name lo hi file x (inr (t, same, missing)) =
    inr (t, same, λ i j a l. missing i j a (omega arith))

-- What the search of the root directory comes to.
abbrev InRoot : Geometry → Volume → List ℕ → Filedes → Bool × Filedes × Volume → Type 0
InRoot g v name = Searched g v.disk name (dir_start_sec g) (data_start_sec g)

open_by-InRoot :
    (t : Filetype) (g : Geometry) (fuel : ℕ) (buff : Sector) (file : Filedes) (name : List ℕ)
    (v : Volume)
    → t ≢ fat32
    → g.bytes_per_sec ≡ 512
    → length name ≤ 11
    → IsCoherent g v
    → (x : Bool × Filedes × Volume) × (open_by t g fuel buff file name v ≡ some x)
      × InRoot g v name file x
open_by-InRoot fat12 g fuel buff file name v ne sector short h =
    let lo = dir_start_sec g in
    (
      open_root g name (data_start_sec g - lo) lo file v,
      refl,
      Searched-range g v.disk name lo (data_start_sec g) file
          (open_root g name (data_start_sec g - lo) lo file v)
          (open_root-Searched g v.disk name (data_start_sec g - lo) lo file v sector short refl h),
    )
open_by-InRoot fat16 g fuel buff file name v ne sector short h =
    let lo = dir_start_sec g in
    (
      open_root g name (data_start_sec g - lo) lo file v,
      refl,
      Searched-range g v.disk name lo (data_start_sec g) file
          (open_root g name (data_start_sec g - lo) lo file v)
          (open_root-Searched g v.disk name (data_start_sec g - lo) lo file v sector short refl h),
    )
open_by-InRoot fat32 g fuel buff file name v ne sector short h = absurd (ne refl)

-- An open file, of which nothing is read yet.
pub record IsOpened (flags : ℕ) (f : Filedes) : Type 0 where
  pub in_use : f.isused ≡ true
  pub at_start : f.offset ≡ 0
  pub first_node : f.curnode ≡ f.startnode
  pub with_flags : f.flags ≡ flags

-- What comes of an open of the descriptor `fd`.
abbrev Outcome : Geometry → List ℕ → ℕ → ℕ → Kernel → ℤ × Kernel → Type 0
Outcome g name flags fd k (r, k') =
    let d = k.store.volume.disk in
    (IsMissing g d name (dir_start_sec g) (data_start_sec g)
      × (r ≡ minus_one)
      × (k'.store.errno ≡ enoent)
      × ((x : ℕ) → (k'.file x).isused ≡ (k.file x).isused))
    ⊎ (IsFound g d name (dir_start_sec g) (data_start_sec g) (k'.file fd)
        × (r ≡ pos fd)
        × IsOpened flags (k'.file fd)
        × ((x : ℕ) → fd ≢ x → k'.file x ≡ k.file x))

file_open_then :
    (write_hd : WriteHd) (g : Geometry) (fuel now later flags fd : ℕ) (buff : Sector)
    (path : List ℕ) (k : Kernel) (x : Bool × Filedes × Volume)
    → fat_open g fuel buff (k.file fd) path k.store.volume ≡ some x
    → opened_at fd (file_open write_hd g fuel now later buff (k.file fd) path flags k.store) k
      ≡ opened_at fd (open_found write_hd g fuel now later flags x k.store) k
unfolding file_open
file_open_then write_hd g fuel now later flags fd buff path k x e =
    let reached : file_open write_hd g fuel now later buff (k.file fd) path flags k.store
        ≡ open_found write_hd g fuel now later flags x k.store =
      rw (e, file_open) refl in
    ap (λ o. opened_at fd o k) reached

file_open-Outcome :
    (write_hd : WriteHd) (g : Geometry) (fuel now later flags fd : ℕ) (buff : Sector)
    (path name : List ℕ) (k : Kernel) (x : Bool × Filedes × Volume)
    → (bit_and flags o_trunc == 0) ≡ true
    → (bit_and flags o_append == 0) ≡ true
    → fat_open g fuel buff (k.file fd) path k.store.volume ≡ some x
    → InRoot g k.store.volume name (k.file fd) x
    → (y : ℤ × Kernel) × (opened_at fd
          (file_open write_hd g fuel now later buff (k.file fd) path flags k.store)
          k
        ≡ some y)
      × Outcome g name flags fd k y
file_open-Outcome write_hd g fuel now later flags fd buff path name k (true, f, v) p q e
      (inl (z, found)) =
    let reached = file_open_then write_hd g fuel now later flags fd buff path k (true, f, v) e in
    let f' = record f {
      isused = true;
      offset = 0;
      curnode = f.startnode;
      filetype = nomal_file;
      flags = flags;
      accesstime = now;
    } in
    let same : opened write_hd g fuel now later f flags ≡ f' = rw p refl in
    let plain : open_found write_hd g fuel now later flags (true, f, v) k.store
        ≡ some (pos 0, f', record (k.store) { volume = v }) =
      rw (p, q, open_found) (ap (λ y. some (pos 0, y, record (k.store) { volume = v })) same) in
    let k' = set_file fd f' (record k { store = record (k.store) { volume = v } }) in
    let now_open : update k.file fd f' fd ≡ f' = update_self k.file fd f' in
    (
      (pos fd, k'),
      reached ∙ ap (λ o. opened_at fd o k) plain,
      inr (
        subst (IsFound g k.store.volume.disk name (dir_start_sec g) (data_start_sec g))
            (sym now_open) found,
        refl,
        subst (IsOpened flags) (sym now_open)
            (record { in_use = refl; at_start = refl; first_node = refl; with_flags = refl }),
        λ x ne. update_ne k.file fd x f' ne,
      ),
    )
file_open-Outcome write_hd g fuel now later flags fd buff path name k (true, f, v) p q e
      (inr (z, same, missing)) =
    absurd (true≢false z)
file_open-Outcome write_hd g fuel now later flags fd buff path name k (false, f, v) p q e
      (inl (z, found)) =
    absurd (true≢false (sym z))
file_open-Outcome write_hd g fuel now later flags fd buff path name k (false, f, v) p q e
      (inr (z, same, missing)) =
    let reached = file_open_then write_hd g fuel now later flags fd buff path k (false, f, v) e in
    let k' = set_file fd f (record k { store = record (k.store) { volume = v; errno = enoent } }) in
    (
      (minus_one, k'),
      reached,
      inl (
        missing,
        refl,
        refl,
        λ x. elim (Bool-cases (fd == x)) [
          | inl h ↦
              let at : fd ≡ x = (==_iff _ _).0 h in
              rw h (ap (λ (y : Filedes). y.isused) same ∙ ap (λ y. (k.file y).isused) at)
          | inr h ↦ rw h refl
        ],
      ),
    )

-- `sys_open` on a FAT12 or FAT16 volume of sectors of 512 bytes, with neither O_TRUNC nor O_APPEND, gives
-- a result: -1 with EMFILE where all ten descriptors are in use; -1 with ENOENT, and the same
-- descriptors in use, where no entry of the root directory on the disk has the name that the path
-- gives; or the lowest free descriptor where an entry has it, which then is open at offset 0 with the
-- first cluster and the length of that entry, while the other descriptors are as they were. The
-- buffer holds its sector of the disk at first.
pub sys_open-IsOpened :
    (write_hd : WriteHd) (g : Geometry) (fuel now later flags : ℕ) (buff : Sector) (path : List ℕ)
    (k : Kernel)
    → g.ft ≢ fat32
    → g.bytes_per_sec ≡ 512
    → IsCoherent g k.store.volume
    → (bit_and flags o_trunc == 0) ≡ true
    → (bit_and flags o_append == 0) ≡ true
    → (r : ℤ) × (k' : Kernel) × (sys_open write_hd g fuel buff now later path flags k
        ≡ some (r, k'))
      × ((((i : ℕ) → i < max_fd → (k.file i).isused ≡ true)
            × (r ≡ minus_one)
            × (k' ≡ set_errno emfile k))
          ⊎ ((IsMissing g k.store.volume.disk (splitpath path) (dir_start_sec g) (data_start_sec g)
                × (r ≡ minus_one)
                × (k'.store.errno ≡ enoent)
                × ((x : ℕ) → (k'.file x).isused ≡ (k.file x).isused))
              ⊎ ((fd : ℕ) × IsLowest k.file fd
                  × IsFound g k.store.volume.disk
                      (splitpath path)
                      (dir_start_sec g)
                      (data_start_sec g)
                      (k'.file fd)
                  × (r ≡ pos fd)
                  × IsOpened flags (k'.file fd)
                  × ((x : ℕ) → fd ≢ x → k'.file x ≡ k.file x))))
unfolding sys_open fat_open
sys_open-IsOpened write_hd g fuel now later flags buff path k h sector coherent plain plain' =
    elim (free_fd-IsLowest k.file) [
      | inl (e, used) ↦
          (minus_one, set_errno emfile k, rw (e, sys_open) refl, inl (used, refl, refl))
      | inr (fd, e, low) ↦
          let name = splitpath path in
          let (x, opened, found) =
            open_by-InRoot g.ft g fuel buff (k.file fd) name k.store.volume h sector
              (length-splitpath path) coherent in
          let (y, e', outcome) =
            file_open-Outcome write_hd g fuel now later flags fd buff path name k x plain plain'
              opened found in
          (
            y.0,
            y.1,
            rw (e, sys_open) e',
            inr (elim outcome [
              | inl gone ↦ inl gone
              | inr (o, p, q, r) ↦ inr (fd, low, o, p, q, r)
            ]),
          )
    ]
