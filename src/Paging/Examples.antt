-- ===== src/Paging/Examples.antt =====
-- Small memories, and each theorem at one of them.
use chouryos.Base.{
  ◌+◌, ◌*◌, ◌/◌, ℕ, zero, suc, ◌%◌, ◌≤◌, ◌<◌, ◌≡◌, ◌⊎◌, inl, inr, refl, Bool, true, false, some, [],
  arith, ◌==◌, ◌||◌, if◌then◌else◌,
}
use chouryos.Memory.Bitmap.{Bytes, IsBytes, isavl, unavl}
use chouryos.Memory.Frames.{getmpage, scan, no_share}
use chouryos.Memory.Share.{Sharing, sharepage}
use chouryos.Memory.Share.Pair.{IsFree, IsPair}
use chouryos.Process.{running, unuse, tty, is_unuse, status_of, max_process}
use chouryos.Filedes.{nomal_file}
use chouryos.Paging.{Paging, resumed, setpt, absent, defultinthandle}
use chouryos.Paging.Fault.{translate, translate-defultinthandle}
use chouryos.Paging.Write.{IsWrite, IsSplit, defultinthandle-sharepage}
use chouryos.Paging.Fork.{Registers, Tasks, refused, eagain, fork_memory, copy_process, sys_fork}
use chouryos.Paging.Fork.Slot.{IsSlot, Outcome, sys_fork-IsSlot}
use chouryos.Memory.Frames.Alloc.{after}
use chouryos.Paging.Boot.{init_pages}
use chouryos.Paging.Boot.Identity.{translate-init_pages}
use chouryos.Paging.Clean.{cleanup}
use chouryos.Paging.Clean.Step.{IsOwn}
use chouryos.Paging.Clean.Space.{IsExited, cleanup-IsExited}

-- Frames 0x502 and 0x503 are available.
abbrev two_frames : Bytes
two_frames i = if i == 0xa0 then 12 else 0

two_frames-IsBytes : IsBytes two_frames
two_frames-IsBytes i = ground arith

-- In frames 0x510 and 0x511 a page directory, of which the entries of `dir` are present. Entry 256 has the
-- table in frame 0x600, the others one in frame 0x601; every table has frame 0x501 in each entry.
abbrev memory : (ℕ → Bool) → Paging
memory dir = record {
  sharing = record {
    psl = λ i. no_share;
    table = λ frame i.
        if (frame == 0x510) || (frame == 0x511)
        then record (setpt (if i == 256 then 0x600 else 0x601) 1) { p = if dir i then 1 else 0 }
        else setpt 0x501 1;
  };
  mmap = two_frames;
  bytes = λ frame o. o % 256;
}

translate-defultinthandle_example :
    (s' : Paging) × (defultinthandle 0 14 6 0x40002004 0x510 (memory (λ i. false)) ≡ resumed s')
    × ((f : ℕ) × (translate s' 0x510 0x40002004 ≡ some f))
    × ((a f : ℕ) → translate (memory (λ i. false)) 0x510 a ≡ some f → translate s' 0x510 a ≡ some f)
translate-defultinthandle_example =
    translate-defultinthandle 0 6 0x40002004 0x510 (memory (λ i. false)) (omega arith)
      (inr (inr refl))

IsFree-memory : IsFree (memory (λ i. true)).sharing.psl 1 2 3
IsFree-memory = record {
  order = (omega arith, omega arith, omega arith, omega arith);
  free = (refl, refl, refl);
  first = λ y lo hi a b. absurd (omega arith);
}

IsPair-memory : IsPair (memory (λ i. true)).sharing 0x600 2 0x700 2
IsPair-memory = record {
  tables = (omega arith, omega arith, omega arith);
  indices = (omega arith, omega arith);
  frame = (omega arith, refl);
  fresh = omega arith;
  unnamed = λ y. omega arith;
}

IsWrite-memory : IsWrite (memory (λ i. true)) 0x510 0x40002004 0x600 2 0x700 2 0x502
unfolding getmpage scan isavl
IsWrite-memory = record {
  address = (omega arith, refl);
  directory = (omega arith, omega arith, refl);
  next = refl;
  used = (refl, refl, refl);
  width = omega arith;
}

defultinthandle-sharepage_example :
    (s1 : Sharing) × (s' : Paging) × (sharepage 0 0x600 2 0x700 2 (memory (λ i. true)).sharing
      ≡ some s1)
    × (defultinthandle 0 14 7 0x40002004 0x510 (record (memory (λ i. true)) { sharing = s1 })
        ≡ resumed s')
    × IsSplit (memory (λ i. true)) s' 0x600 2 0x700 2 0x502
defultinthandle-sharepage_example =
    defultinthandle-sharepage (memory (λ i. true)) 0 7 0x510 0x40002004 0x600 2 0x700 2 1 2 3 0x502
      IsFree-memory IsPair-memory IsWrite-memory refl

-- Frames 0x500 to 0x507 are available.
abbrev eight_frames : Bytes
eight_frames i = if i == 0xa0 then 255 else 0

eight_frames-IsBytes : IsBytes eight_frames
eight_frames-IsBytes i = ground arith

eight_frames-frames : (k : ℕ) → k < 7 → (n : ℕ) × ((getmpage (after k eight_frames)).0 ≡ some n)
unfolding getmpage scan isavl unavl after
eight_frames-frames zero h = (0x500, refl)
eight_frames-frames (suc zero) h = (0x501, refl)
eight_frames-frames (suc (suc zero)) h = (0x502, refl)
eight_frames-frames (suc (suc (suc zero))) h = (0x503, refl)
eight_frames-frames (suc (suc (suc (suc zero)))) h = (0x504, refl)
eight_frames-frames (suc (suc (suc (suc (suc zero))))) h = (0x505, refl)
eight_frames-frames (suc (suc (suc (suc (suc (suc zero)))))) h = (0x506, refl)
eight_frames-frames (suc (suc (suc (suc (suc (suc (suc k))))))) h = absurd (omega arith)

abbrev at_boot : Paging
at_boot = record (memory (λ i. false)) { mmap = eight_frames }

translate-init_pages_example :
    let (pde, s') = init_pages at_boot in
    ((a : ℕ) → a < 0x500000 → translate s' pde a ≡ some (a / 4096))
    × ((a : ℕ) → a < 767 * 4096 → translate s' pde (0x40001000 + a) ≡ some (a / 4096))
translate-init_pages_example = translate-init_pages at_boot eight_frames-IsBytes eight_frames-frames

-- Of the tables from entry 257 on only that one is present.
abbrev one_table : Paging
one_table = memory (λ i. i == 257)

-- The first table of user space is present, and that of the stack.
abbrev first_and_last : Paging
first_and_last = memory (λ i. (i == 256) || (i == 1023))

either : (i : ℕ) → absent first_and_last 0x510 i ≡ false → (i ≡ 256) ⊎ (i ≡ 1023)
either i p = ground (arith, p)

IsOwn-two : IsOwn first_and_last 0x510 256 1024
IsOwn-two = record {
  bytes = two_frames-IsBytes;
  off = λ i lo hi p. elim (either i p) [ inl e ↦ rw e (omega arith) | inr e ↦ rw e (omega arith) ];
  apart = λ i k lo a hi p q. ground (arith, either i p, either k q);
  unshared = λ i x lo hi p l. elim (either i p) [ inl e ↦ rw e refl | inr e ↦ rw e refl ];
}

cleanup-IsExited_example :
    (s' : Paging) × (cleanup 0 0x510 first_and_last ≡ some s') × IsExited first_and_last s' 0x510
cleanup-IsExited_example = cleanup-IsExited first_and_last 0 0x510 IsOwn-two refl

abbrev no_registers : Registers
no_registers = record {
  gs = 0;
  fs = 0;
  es = 0;
  ds = 0;
  edi = 0;
  esi = 0;
  ebp = 0;
  esp = 0;
  ebx = 0;
  edx = 0;
  ecx = 0;
  eax = 6;
  eip = 0x40001000;
  cs = 0;
  eflags = 0x202;
  oesp = 0;
  ss = 0;
}

-- Process 1 runs, and the slots from 2 on are free.
abbrev one_task : Tasks
one_task = record {
  processes = record {
    curpid = 1;
    protable = λ i. record {
      pid = i;
      ppid = 0;
      status = if i == 1 then running else unuse;
      ret = 0;
      waitfor = tty;
      signals = [];
    };
  };
  reg = λ i. no_registers;
  pde = λ i. 0x510;
  heap = λ i. 0x40002000;
  file = λ i fd. record {
    isused = false;
    filetype = nomal_file;
    target = 0;
    flags = 0;
    dirnode = 0;
    indexno = 0;
    offset = 0;
    startnode = 0;
    curnode = 0;
    nodebytes = 0;
    length = 0;
    createtime = 0;
    accesstime = 0;
    updatetime = 0;
  };
  paging = first_and_last;
  errno = 0;
  interrupts = true;
}

sys_fork-IsSlot_example :
    ((sys_fork 9 no_registers one_task
        ≡ refused (record one_task { errno = eagain; interrupts = false }))
      × ((j : ℕ) → 1 ≤ j → j < max_process → is_unuse (status_of one_task.processes j) ≡ false))
    ⊎ ((new : ℕ) × IsSlot one_task.processes 1 max_process new
        × Outcome one_task no_registers new
            (fork_memory 9 new (copy_process new no_registers one_task))
            (sys_fork 9 no_registers one_task))
sys_fork-IsSlot_example = sys_fork-IsSlot 9 no_registers one_task
