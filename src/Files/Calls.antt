-- ===== src/Files/Calls.antt =====
-- The system calls of one process on its descriptors: kernel/open.c, close.c, read.c, write.c,
-- lseek.c, fstat.c and sbrk.c, the calls in kernel/syscall.c, and `sys_message` of kernel/msg.c. A
-- call that blocks, or runs out of fuel, is `none`.
pub mod Descriptors
pub mod Open
use chouryos.Base.{
  ℕ, zero, suc, ◌+◌, ◌-◌, ◌*◌, ◌^◌, Bool, true, false, not, ◌||◌, Option, none, some, List, [], ◌∷◌,
  ◌==◌, ltb, leb, if◌then◌else◌, update, u32,
}
use chouryos.Base.Int.{ℤ, pos, negsuc, to_int, to_u32}
use chouryos.Hd.{Sector, WriteHd}
use chouryos.Fat.{Geometry, Volume}
use chouryos.Fat.Data.{Reading, Writing}
use chouryos.Filedes.{Filedes, Filetype, nomal_file, tty, msg, max_fd}
use chouryos.Files.{
  Store, Whence, minus_one, file_open, file_read, file_write, file_lseek, file_close,
}
use chouryos.Process.{Table, is_unuse, status_of}
use chouryos.Tty.{Screen, Line, tty_read, tty_write}

abbrev pub esrch : ℕ
esrch = 3

abbrev pub ebadf : ℕ
ebadf = 9

abbrev pub emfile : ℕ
emfile = 24

abbrev pub enotty : ℕ
enotty = 25

abbrev pub espipe : ℕ
espipe = 29

-- What the calls of the current process work on: the process table, the field `file` of the
-- process, the volume with `errno`, and the terminal with the characters that are typed.
pub record Kernel : Type 0 where
  pub table : Table
  pub file : ℕ → Filedes
  pub store : Store
  pub screen : Screen
  pub keys : List ℕ

abbrev pub set_errno : ℕ → Kernel → Kernel
set_errno e k = record k { store = record (k.store) { errno = e } }

abbrev pub set_file : ℕ → Filedes → Kernel → Kernel
set_file fd f k = record k { file = update k.file fd f }

-- The test with which the calls begin.
abbrev pub is_bad : ℤ → Kernel → Bool
is_bad (negsuc n) k = true
is_bad (pos fd) k = leb max_fd fd || not ((k.file fd).isused)

abbrev pub fd_of : ℤ → ℕ
fd_of (pos fd) = fd
fd_of (negsuc n) = 0

-- The loop of `sys_open` and of `sys_message` for the first descriptor that is not in use.
unfoldable pub free_fd : ℕ → ℕ → (ℕ → Filedes) → Option ℕ
free_fd zero i file = none
free_fd (suc left) i file =
    let rest = free_fd left (i + 1) file in if (file i).isused then rest else some i

-- The bytes that a call writes.
abbrev pub bytes_of : Sector → ℕ → ℕ → List ℕ
bytes_of ptr i zero = []
bytes_of ptr i (suc len) = ptr i ∷ bytes_of ptr (i + 1) len

unfoldable pub sys_isatty : ℤ → Kernel → ℤ × Kernel
sys_isatty fd k =
    if is_bad fd k
    then (pos 0, set_errno ebadf k)
    else elim ((k.file (fd_of fd)).filetype) [ tty ↦ (pos 1, k) | _ ↦ (pos 0, set_errno enotty k) ]

-- What `sys_fstat` sets in a `struct stat`.
pub record Stat : Type 0 where
  pub st_size : ℕ
  pub st_ino : ℕ
  pub st_mode : ℕ
  pub st_uid : ℕ
  pub st_gid : ℕ

-- `S_IFREG | 0444`
abbrev pub regular_mode : ℕ
regular_mode = 0x8000 + 0x124

-- `sys_fstat`, which does not test `fd`; its result is 0.
unfoldable pub sys_fstat : ℕ → Kernel → Stat
sys_fstat fd k = record {
  st_size = (k.file fd).length;
  st_ino = (k.file fd).startnode;
  st_mode = regular_mode;
  st_uid = 0;
  st_gid = 0;
}

-- `sys_sbrk` of a process with this heap.
unfoldable pub sys_sbrk : ℕ → ℤ → ℕ
sys_sbrk heap incr = u32 (heap + to_u32 incr)

unfoldable pub sys_getpid : Kernel → ℕ
sys_getpid k = k.table.curpid

unfoldable pub sys_getppid : Kernel → ℕ
sys_getppid k = (k.table.protable k.table.curpid).ppid

abbrev pub message_file : ℕ → ℕ → Filedes → Filedes
message_file pid flags f = record f { isused = true; filetype = msg; flags = flags; target = pid }

unfoldable pub sys_message : ℕ → ℕ → Kernel → ℤ × Kernel
sys_message pid flags k = elim (free_fd max_fd 0 k.file) [
  | none ↦ (minus_one, set_errno emfile k)
  | some fd ↦
      if is_unuse (status_of k.table pid)
      then (minus_one, set_errno esrch k)
      else (pos fd, set_file fd (message_file pid flags (k.file fd)) k)
]

-- How a call of a file goes on: its result, the file and the volume.
abbrev pub stored : ℕ → Option (ℤ × Filedes × Store) → Kernel → Option (ℤ × Kernel)
stored fd none k = none
stored fd (some (r, f, s)) k = some (r, set_file fd f (record k { store = s }))

abbrev pub set_volume : Volume → Kernel → Kernel
set_volume v k = record k { store = record (k.store) { volume = v } }

abbrev pub opened_at : ℕ → Option (ℤ × Filedes × Store) → Kernel → Option (ℤ × Kernel)
opened_at fd none k = none
opened_at fd (some (negsuc n, f, s)) k = some (minus_one, set_file fd f (record k { store = s }))
opened_at fd (some (pos n, f, s)) k = some (pos fd, set_file fd f (record k { store = s }))

abbrev pub closed : Option (ℤ × Volume) → Kernel → Option (ℤ × Kernel)
closed none k = none
closed (some (r, v)) k = some (r, set_volume v k)

abbrev pub written : ℕ → Option (ℤ × Writing) → Kernel → Option (ℤ × Kernel)
written fd none k = none
written fd (some (r, w)) k = some (r, set_file fd w.file (set_volume w.volume k))

abbrev pub was_read : ℕ → Option (ℤ × Reading) → Kernel → Option (ℤ × Sector × Kernel)
was_read fd none k = none
was_read fd (some (r, x)) k = some (r, x.ptr, set_file fd x.file (set_volume x.volume k))

abbrev pub typed : Option Line → Kernel → Option (ℤ × Sector × Kernel)
typed none k = none
typed (some l) k = some (pos l.count, l.buff, record k { screen = l.screen; keys = l.keys })

-- `buff` has the bytes in the memory that `malloc` gives, and `msg_read` and `msg_write` are the
-- calls for a file of messages.
module _ (write_hd : WriteHd) (g : Geometry) (fuel : ℕ) (buff : Sector) where
  unfoldable pub sys_open : ℕ → ℕ → List ℕ → ℕ → Kernel → Option (ℤ × Kernel)
  sys_open now later path flags k = elim (free_fd max_fd 0 k.file) [
    | none ↦ some (minus_one, set_errno emfile k)
    | some fd ↦
        opened_at fd (file_open write_hd g fuel now later buff (k.file fd) path flags k.store) k
  ]

  -- The end of `sys_close`, by the type of the file.
  abbrev pub close_by : Filetype → Filedes → Kernel → Option (ℤ × Kernel)
  close_by nomal_file f k = closed (file_close write_hd g fuel buff f k.store.volume) k
  close_by _ f k = some (pos 0, k)

  unfoldable pub sys_close : ℤ → Kernel → Option (ℤ × Kernel)
  sys_close fd k =
      let f = record (k.file (fd_of fd)) { isused = false } in
      if is_bad fd k
      then some (minus_one, set_errno ebadf k)
      else close_by f.filetype f (set_file (fd_of fd) f k)

  unfoldable pub sys_lseek : ℤ → ℤ → Whence → Kernel → Option (ℤ × Kernel)
  sys_lseek fd offset whence k =
      let f = k.file (fd_of fd) in
      let done : Option (ℤ × Kernel) = elim f.filetype [
        | nomal_file ↦ stored (fd_of fd) (file_lseek write_hd g fuel f offset whence k.store) k
        | _ ↦ some (minus_one, set_errno espipe k)
      ] in
      if is_bad fd k then some (minus_one, set_errno ebadf k) else done

  unfoldable pub sys_read :
      (ℕ → Sector → ℕ → ℕ → Kernel → Option (ℤ × Sector × Kernel))
      → ℤ
      → Sector
      → ℕ
      → Kernel
      → Option (ℤ × Sector × Kernel)
  sys_read msg_read fd ptr len k =
      let f = k.file (fd_of fd) in
      let done : Option (ℤ × Sector × Kernel) = elim f.filetype [
        | tty ↦ typed (tty_read len ptr k.keys k.screen) k
        | msg ↦ msg_read f.target ptr len f.flags k
        | nomal_file ↦
            was_read (fd_of fd) (file_read write_hd g fuel buff f ptr len k.store.volume) k
      ] in
      if is_bad fd k then some (minus_one, ptr, set_errno ebadf k) else done

  unfoldable pub sys_write :
      (ℕ → Sector → ℕ → ℕ → Kernel → Option (ℤ × Kernel))
      → ℕ
      → ℤ
      → Sector
      → ℕ
      → Kernel
      → Option (ℤ × Kernel)
  sys_write msg_write now fd ptr len k =
      let f = k.file (fd_of fd) in
      let shown = tty_write (bytes_of ptr 0 len) k.screen in
      let done : Option (ℤ × Kernel) = elim f.filetype [
        | tty ↦ some (to_int (u32 len), record k { screen = shown })
        | msg ↦ msg_write f.target ptr len f.flags k
        | nomal_file ↦
            written (fd_of fd) (file_write write_hd g fuel now buff f ptr len k.store.volume) k
      ] in
      if is_bad fd k then some (minus_one, set_errno ebadf k) else done
