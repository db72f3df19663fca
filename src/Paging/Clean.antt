-- ===== src/Paging/Clean.antt =====
-- `cleanup` and `cleanchild` of kernel/exit.c on the memory of a process: it gives its frames back.
pub mod Table
pub mod Step
pub mod Space
use chouryos.Base.{ℕ, zero, suc, ◌+◌, ◌%◌, ◌^◌, Option, none, some, ◌==◌, if◌then◌else◌, ◌>>=◌}
use chouryos.Memory.Frames.{freempage}
use chouryos.Memory.Share.{devpage}
use chouryos.Paging.{Paging, entry, set_entry, absent, with_sharing}

abbrev pub free_frame : ℕ → Paging → Paging
free_frame page s = record s { mmap = (freempage s.mmap page).1 }

-- `P = 0`
abbrev pub unset : ℕ → ℕ → Paging → Paging
unset frame i s = set_entry frame i (record (entry s frame i) { p = 0 }) s

-- The body of the loop over a page table: a page that is shared goes to its other users.
unfoldable pub clean_page : ℕ → ℕ → ℕ → Paging → Option Paging
clean_page fuel frame j s = if absent s frame j then some s else (do
  s' ←
      if (entry s frame j).avl == 0
      then some (free_frame (entry s frame j).base s)
      else with_sharing s (devpage fuel frame j s.sharing)
  some (unset frame j s'))

unfoldable pub clean_pages : ℕ → ℕ → ℕ → ℕ → Paging → Option Paging
clean_pages fuel zero j frame s = some s
clean_pages fuel (suc left) j frame s = do
  s' ← clean_page fuel frame j s
  clean_pages fuel left (j + 1) frame s'

-- A page table with its pages, and its frame.
unfoldable pub clean_table : ℕ → ℕ → ℕ → Paging → Option Paging
clean_table fuel i pde s = if absent s pde i then some s else (do
  s' ← clean_pages fuel 1024 0 (entry s pde i).base s
  some (unset pde i (free_frame (entry s' pde i).base s')))

unfoldable pub clean_tables : ℕ → ℕ → ℕ → ℕ → Paging → Option Paging
clean_tables fuel zero i pde s = some s
clean_tables fuel (suc left) i pde s = do
  s' ← clean_table fuel i pde s
  clean_tables fuel left (i + 1) pde s'

-- `cleanup` without the list of signals, where `pde` is the frame of the process's page directory.
-- The last page of the last table is the system stack.
unfoldable pub cleanup : ℕ → ℕ → Paging → Option Paging
cleanup fuel pde s = do
  s' ← clean_tables fuel 767 256 pde s
  clean_pages fuel 1023 0 (entry s' pde 1023).base s'

-- `cleanchild` on the memory: the system stack and the page directory.
unfoldable pub cleanchild : ℕ → Paging → Paging
cleanchild pde s =
    let frame = (entry s (pde % 2 ^ 20) 1023).base in
    free_frame pde (unset frame 1023 (free_frame (entry s frame 1023).base s))
