-- ===== src/Paging/Fork.antt =====
-- kernel/fork.c, `sys_fork`: the new process in the table, its page tables, and its stack.
pub mod Slot
pub mod Runs
pub mod Pages
pub mod Space
pub mod Round
pub mod Tables
use chouryos.Base.{
  ℕ, zero, suc, ◌+◌, ◌-◌, ◌%◌, ◌^◌, Bool, true, false, Option, none, some, [], ◌&&◌, ◌==◌,
  if◌then◌else◌, update, ◌>>=◌,
}
use chouryos.Process.{Process, Table, max_process, waiting, ready, is_unuse, status_of, set_status}
use chouryos.Filedes.{Filedes}
use chouryos.Memory.Share.{sharepage, devpage}
use chouryos.Paging.{Paging, entry, set_entry, absent, new_page, pagecpy, with_sharing}

-- `register_status`
pub record Registers : Type 0 where
  pub gs : ℕ
  pub fs : ℕ
  pub es : ℕ
  pub ds : ℕ
  pub edi : ℕ
  pub esi : ℕ
  pub ebp : ℕ
  pub esp : ℕ
  pub ebx : ℕ
  pub edx : ℕ
  pub ecx : ℕ
  pub eax : ℕ
  pub eip : ℕ
  pub cs : ℕ
  pub eflags : ℕ
  pub oesp : ℕ
  pub ss : ℕ

-- `PROTABLE` with all its fields, the memory, `errno`, and whether interrupts are enabled.
pub record Tasks : Type 0 where
  pub processes : Table
  pub reg : ℕ → Registers
  pub pde : ℕ → ℕ
  pub heap : ℕ → ℕ
  pub file : ℕ → ℕ → Filedes
  pub paging : Paging
  pub errno : ℕ
  pub interrupts : Bool

-- The loop for a slot that is not in use at `i`, with `left` rounds to go: the value of `i` after it.
unfoldable pub find_unuse : ℕ → ℕ → Table → ℕ
find_unuse zero i k = i
find_unuse (suc left) i k =
    let rest = find_unuse left (i + 1) k in if is_unuse (status_of k i) then i else rest

-- A copy of the current process in slot `new`, with the registers `prs` from its system stack, up to
-- where interrupts are enabled.
unfoldable pub copy_process : ℕ → Registers → Tasks → Tasks
copy_process new prs t =
    let cur = t.processes.curpid in
    let r = new_page t.paging in
    let pde = update t.pde new r.0 in
    let child = record (t.processes.protable cur) {
      status = waiting;
      pid = new;
      ppid = cur;
      signals = [];
    } in
    record t {
      processes = record t.processes { protable = update t.processes.protable new child };
      reg = update t.reg new (record prs { eax = 0 });
      pde = pde;
      heap = update t.heap new (t.heap cur);
      file = update t.file new (t.file cur);
      paging = pagecpy (pde new) (pde cur) r.1;
      interrupts = true;
    }

-- Entry `i` of the child's table gets a new frame, with a copy of the page that the parent's maps.
unfoldable pub clone : ℕ → ℕ → ℕ → Paging → Paging
clone cur new i s =
    let r = new_page s in
    let s' = set_entry new i (record (entry r.1 new i) { base = r.0 % 2 ^ 20 }) r.1 in
    pagecpy (entry s' new i).base (entry s' cur i).base s'

-- The body of the loop over the entries of a table. The first page of user space is not shared.
unfoldable pub fork_page : ℕ → ℕ → ℕ → ℕ → ℕ → Paging → Option Paging
fork_page fuel i j cur new s =
    if (i == 256) && (j == 0)
    then some (clone cur new 0 s)
    else if absent s cur j
    then some s
    else with_sharing s (sharepage fuel cur j new j s.sharing)

unfoldable pub fork_pages : ℕ → ℕ → ℕ → ℕ → ℕ → ℕ → Paging → Option Paging
fork_pages fuel zero i j cur new s = some s
fork_pages fuel (suc left) i j cur new s = do
  s' ← fork_page fuel i j cur new s
  fork_pages fuel left i (j + 1) cur new s'

-- A page table of the parent, through the page directories of both.
unfoldable pub fork_table : ℕ → ℕ → ℕ → ℕ → Paging → Option Paging
fork_table fuel i pde_cur pde_new s =
    let s' = clone pde_cur pde_new i s in
    fork_pages fuel 1024 i 0 (entry s' pde_cur i).base (entry s' pde_new i).base s'

unfoldable pub fork_tables : ℕ → ℕ → ℕ → ℕ → ℕ → Paging → Option Paging
fork_tables fuel zero i pde_cur pde_new s = some s
fork_tables fuel (suc left) i pde_cur pde_new s = do
  s' ← if absent s pde_cur i then some s else fork_table fuel i pde_cur pde_new s
  fork_tables fuel left (i + 1) pde_cur pde_new s'

-- The page of the system stack, the last of the address space.
unfoldable pub fork_stack : ℕ → ℕ → ℕ → Paging → Option Paging
fork_stack fuel pde_cur pde_new s = do
  let cks = (entry s pde_cur 1023).base
  let nks = (entry s pde_new 1023).base
  s' ← with_sharing s (devpage fuel nks 1023 s.sharing)
  some (clone cks nks 1023 s')

-- `fork` gives the number of the child, or -1.
pub data Forked : Type 0 where
  forked : ℕ → Tasks → Forked
  refused : Tasks → Forked
  lost : Forked

abbrev pub run_child : ℕ → Tasks → Option Paging → Forked
run_child new t none = lost
run_child new t (some s) =
    forked new (record t { processes = set_status new ready t.processes; paging = s })

-- `EAGAIN`
abbrev pub eagain : ℕ
eagain = 11

-- The memory of the new process: its page tables, and then its stack.
unfoldable pub fork_memory : ℕ → ℕ → Tasks → Option Paging
fork_memory fuel new t = do
  let cur = t.pde t.processes.curpid % 2 ^ 20
  let pde = t.pde new % 2 ^ 20
  s ← fork_tables fuel 768 256 cur pde t.paging
  fork_stack fuel cur pde s

-- `sys_fork`, with at most `fuel` rounds of each loop along a list of shared pages.
unfoldable pub sys_fork : ℕ → Registers → Tasks → Forked
sys_fork fuel prs t =
    let new = find_unuse (max_process - 1) 1 t.processes in
    let t' = copy_process new prs t in
    if new == max_process
    then refused (record t { errno = eagain; interrupts = false })
    else run_child new t' (fork_memory fuel new t')
