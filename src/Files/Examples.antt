-- ===== src/Files/Examples.antt =====
-- Open files on the volume of Fat.Examples, and inputs for the theorems.
use chouryos.Base.{
  ℕ, ◌+◌, ◌<◌, ◌≡◌, ◌≢◌, ◌⊎◌, inr, refl, ap, arith, true, false, none, some, [], ◌∷◌, ◌==◌,
  if◌then◌else◌, update,
}
use chouryos.Base.Int.{ℤ, pos}
use chouryos.Filedes.{Filedes, tty, max_fd}
use chouryos.Fat.{fat16, fat32, bits, dir_start_sec, data_start_sec}
use chouryos.Fat.Path.{splitpath}
use chouryos.Fat.Dir.Search.{IsFound, IsMissing}
use chouryos.Fat.Data.Read.{file_byte}
use chouryos.Fat.Examples.{
  store_hd, volume16, table16, disk16, start16, file16, start16-HasTable, volume16-IsClustered,
  file16-HasNodes,
}
use chouryos.Files.{Store, minus_one, seek_set, enoent}
use chouryos.Files.Seek.{Range, SeekReads, fat_read-file_lseek, fat_read-file_lseek_boundary}
use chouryos.Files.Calls.{
  Kernel, ebadf, emfile, set_errno, sys_open, sys_close, sys_lseek, sys_read, sys_write, sys_isatty,
}
use chouryos.Files.Calls.Descriptors.{IsLowest, sys_close-sys_close}
use chouryos.Files.Calls.Open.{IsOpened, sys_open-IsOpened}
use chouryos.Process.{ready, unuse, Dev}

abbrev store16 : Store
store16 = record { volume = start16; errno = 0 }

range16 : Range volume16 file16 700 100 3
range16 = record {
  nodes = refl;
  some_bytes = omega arith;
  clusters = omega arith;
  inside = omega arith;
  bound = omega arith;
  word = omega arith;
  count = omega arith;
}

fat_read-file_lseek_example :
    SeekReads store_hd volume16 0 700 100
      (λ i. 0)
      (λ i. 0)
      file16
      store16
      (λ i. file_byte volume16 table16 disk16 2 (700 + i))
fat_read-file_lseek_example =
    fat_read-file_lseek store_hd volume16 table16 disk16 0 700 100 3 (λ i. 0) (λ i. 0) file16
      store16 volume16-IsClustered start16-HasTable range16 file16-HasNodes (inr (ground arith))

boundary16 : Range volume16 file16 512 100 2
boundary16 = record {
  nodes = refl;
  some_bytes = omega arith;
  clusters = omega arith;
  inside = omega arith;
  bound = omega arith;
  word = omega arith;
  count = omega arith;
}

fat_read-file_lseek_boundary_example :
    SeekReads store_hd volume16 0 512 100
      (λ i. 0)
      (λ i. 0)
      file16
      store16
      (λ i. file_byte volume16 table16 disk16 2 (512 + i + 512))
fat_read-file_lseek_boundary_example =
    fat_read-file_lseek_boundary store_hd volume16 table16 disk16 0 0 100 2 (λ i. 0) (λ i. 0) file16
      store16 volume16-IsClustered start16-HasTable boundary16 file16-HasNodes

-- Process 1 with a file, the terminal, and eight descriptors that are free.
abbrev files16 : ℕ → Filedes
files16 i =
    if i == 0
    then file16
    else if i == 1
    then record file16 { filetype = tty }
    else record file16 { isused = false }

abbrev kernel16 : Kernel
kernel16 = record {
  table = record {
    curpid = 1;
    protable = λ i. record {
      pid = i;
      ppid = 0;
      status = if i == 3 then unuse else ready;
      ret = 0;
      waitfor = Dev.tty;
      signals = [];
    };
  };
  file = files16;
  store = store16;
  screen = record { line = pos 0; colume = pos 0; charbuff = λ i. 0 };
  keys = [];
}

abbrev closed16 : Kernel
closed16 = record kernel16 {
  file = update files16 1 (record file16 { filetype = tty; isused = false });
}

closes_tty : sys_close store_hd volume16 0 (λ i. 0) (pos 1) kernel16 ≡ some (pos 0, closed16)
unfolding sys_close
closes_tty = refl

sys_close-sys_close_example :
    (sys_close store_hd volume16 0 (λ i. 0) (pos 1) closed16
      ≡ some (minus_one, set_errno ebadf closed16))
    × (sys_lseek store_hd volume16 0 (λ i. 0) (pos 1) (pos 4) seek_set closed16
        ≡ some (minus_one, set_errno ebadf closed16))
    × (sys_read store_hd volume16 0 (λ i. 0) (λ pid b len flags k. none) (pos 1) (λ i. 0) 5 closed16
        ≡ some (minus_one, λ i. 0, set_errno ebadf closed16))
    × (sys_write store_hd volume16 0
          (λ i. 0)
          (λ pid b len flags k. none)
          9
          (pos 1)
          (λ i. 0)
          5
          closed16
        ≡ some (minus_one, set_errno ebadf closed16))
    × (sys_isatty (pos 1) closed16 ≡ (pos 0, set_errno ebadf closed16))
sys_close-sys_close_example =
    sys_close-sys_close store_hd volume16 0 0 9 5 (λ i. 0) (λ i. 0) (λ pid b len flags k. none)
      (λ pid b len flags k. none) (pos 1) (pos 4) (pos 0) seek_set kernel16 closed16 closes_tty

fat16≢fat32 : fat16 ≢ fat32
fat16≢fat32 e = let b : bits fat16 ≡ bits fat32 = ap bits e in omega (arith, b)

-- The path "a.b".
sys_open-IsOpened_example :
    (r : ℤ) × (k : Kernel) × (sys_open store_hd volume16 0
        (λ i. 0)
        5
        6
        (97 ∷ 46 ∷ 98 ∷ [])
        0
        kernel16
      ≡ some (r, k))
    × ((((i : ℕ) → i < max_fd → (files16 i).isused ≡ true)
          × (r ≡ minus_one)
          × (k ≡ set_errno emfile kernel16))
        ⊎ ((IsMissing volume16 disk16
                (splitpath (97 ∷ 46 ∷ 98 ∷ []))
                (dir_start_sec volume16)
                (data_start_sec volume16)
              × (r ≡ minus_one)
              × (k.store.errno ≡ enoent)
              × ((x : ℕ) → (k.file x).isused ≡ (files16 x).isused))
            ⊎ ((fd : ℕ) × IsLowest files16 fd
                × IsFound volume16 disk16
                    (splitpath (97 ∷ 46 ∷ 98 ∷ []))
                    (dir_start_sec volume16)
                    (data_start_sec volume16)
                    (k.file fd)
                × (r ≡ pos fd)
                × IsOpened 0 (k.file fd)
                × ((x : ℕ) → fd ≢ x → k.file x ≡ files16 x))))
sys_open-IsOpened_example =
    sys_open-IsOpened store_hd volume16 0 5 6 0 (λ i. 0) (97 ∷ 46 ∷ 98 ∷ []) kernel16 fat16≢fat32
      refl start16-HasTable.coherent refl refl
