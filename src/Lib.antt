-- ===== src/Lib.antt =====
-- A verification library for chouryos, a small x86 kernel: the parts of it that keep state of their
-- own or compute something, as definitions that run, with theorems about them.
--
-- The parts, and where they are:
--   Memory      kernel/memory.c, include/memory.h
--     Memory/Bitmap     the macros setavl, unavl and isavl over an array of bytes
--     Memory/Frames     getmpage, freempage, and getmemmap over the boot loader's memory map
--     Memory/Window     mappage and unmappage: the window through which the kernel sees a frame
--     Memory/Share      sharepage and devpage: frames that processes share until one writes
--     Memory/Copy       umemcpy: a copy between the memories of two processes
--   Paging      kernel/init.c: defultinthandle, the page faults, over the page tables and frames
--     Paging/Fork       kernel/fork.c: sys_fork, the child's slot, page tables and stack
--     Paging/Boot       kernel/init.c: the first page tables, of process 0
--     Paging/Clean      kernel/exit.c: cleanup and cleanchild on the memory of a process
--   Heap        lib/malloc.c: malloc and free over the control blocks of a row of blocks
--   Process     include/process.h, kernel/schedule.c, and the handlers' loops that wake processes
--     Process/Lifecycle kernel/exit.c and kernel/kill.c on the process table
--   Keyboard    driver/keyboad.c: the scan codes, the ring of characters, getone
--   Interrupts  driver/keyboad.c, driver/hd.c and kernel/schedule.c: the handlers of keyboard, disk
--               and timer, over Keyboard and Process
--   Tty         kernel/tty.c: the screen and its cursor, and the line that tty_read edits
--   Hd          driver/hd.c: the sectors that readHd reads
--   Fat         kernel/fat.c: the volume, sectors and clusters
--     Fat/Table         getnextclus and writenextclus: the entries of the file allocation table
--     Fat/Chain         chains of clusters, from getpreclus to releaseclus, Fat_cut, Fat_expand, Fat_seek
--     Fat/Path          the names: getchecksum, cmpname, splitpath
--     Fat/Dir           directory entries: Fat_open, Fat_close
--     Fat/Data          Fat_read and Fat_write
--   Filedes     include/file.h: an open file
--   Files       kernel/file.c: file_open, file_lseek, file_read, file_write, file_close, over Fat
--     Files/Calls       kernel/open.c, close.c, read.c, write.c, lseek.c, fstat.c, sbrk.c, syscall.c and
--                       sys_message: the calls on the descriptors of a process
--   Times       lib/times.c: kernel_mktime and time_to_tm
--     Times/Clock       lib/times.c: read_rtc
--   Message     kernel/msg.c: msg_read and msg_write over the requests that wait
--   Graphics    driver/graphy.c: lines of pixels
--   Shell       init/main.c: the words of a command line
--   Base        what they share: tests and lists over the native numbers, words of 8, 16 and 32
--               bits, updates of a function, integers
-- A component's module has its definitions, the modules below it its theorems, and its Examples
-- runs and inputs for the theorems.
--
-- How the code is read. A global or static variable is a field of the component's record, and an
-- operation takes the record and gives the new one. An array is a function of the index, so that an
-- access past its end reaches what lies behind it, as in C. An unsigned number has its wrap-around
-- written out; a number that is negative in C, as in time_to_tm, is an integer of Base/Int. The
-- overflow of an `int` is left out in Graphics, whose theorem is for coordinates that do not reach it.
-- A line that does not fit the arrays of the shell gives `none` in Shell. An
-- operation that blocks ends where the process is switched away from, and goes on as another
-- operation. The interrupt handlers of the keyboard and the disk wake processes with one loop,
-- `wake` of Process, and the keyboard's kills the current process through `sys_kill`.
--
-- Loops that do not count have a number of rounds as an argument, and end in `none` without it.
-- The searches of `schedule` need 10 rounds, as many as the table has slots; the loops of
-- time_to_tm need 3, since the days of a year from 1970 to 2037 are found in at most two
-- corrections; the search of malloc needs one round more than there are blocks, and the loop of
-- read_rtc needs one round more than there are readings that do not agree. In the file system the
-- release of a chain needs one round more than it has clusters, and a read and umemcpy need a round for each byte; the
-- searches through the table count.
--
-- The disk behind the file system is a function from sectors to bytes. What writes a sector is an
-- argument: writeHd of the source does nothing, and theorems about writing take a driver that stores
-- its sectors, `IsDriver` of Hd. A FAT16 or FAT32 volume refines a map from clusters to numbers,
-- `HasTable` of Fat/Table/Map, on which the theorems about chains and files stand. Memory that malloc
-- gives to the file system has bytes that are an argument, and the time of day is one too. The calls
-- take what reads and writes a file of messages as an argument, and Message takes the copy between the
-- memories of two processes.
--
-- Memory/Share, Memory/Copy and Paging reach a frame directly, where the code maps it into the
-- window first. A page fault in the midst of umemcpy is left out, whose theorem is for pages that are
-- present. Paging keeps the entries of page tables apart from the bytes of frames, so that a copy
-- of a page copies both. The loops along the users of a shared frame have a number of rounds; the
-- theorems are about frames of one user or of two, where no round is needed. The loops over page
-- tables count.
--
-- What is left out: messages that are printed, port accesses, the TLB, and the switch of the
-- stacks. Not modelled are execve, the table of handlers and process 0's slot in `init`, the
-- dispatch of system calls by number, loadable modules, the floppy driver and the boot code; the
-- formatting of lib/vsprintf.c and the headers of newlib are taken over from other projects.
pub mod Base
pub mod Memory
pub mod Heap
pub mod Process
pub mod Interrupts
pub mod Keyboard
pub mod Tty
pub mod Hd
pub mod Filedes
pub mod Fat
pub mod Files
pub mod Message
pub mod Times
pub mod Paging
pub mod Graphics
pub mod Shell
