-- ===== src/Process/Lifecycle.antt =====
-- kernel/exit.c and kernel/kill.c as far as the process table is concerned: `sys_exit` after the
-- files are closed and the memory is given back, `sys_wait` but for the memory of the child, and
-- `sys_kill`.
pub mod Exit
pub mod Wait
use chouryos.Base.{
  ℕ, zero, suc, ◌+◌, Bool, true, false, ◌&&◌, Option, none, some, List, [], ◌∷◌, ◌++◌, ◌==◌,
  if◌then◌else◌, update,
}
use chouryos.Process.{
  Status, unuse, deaded, is_unuse, is_waiting, is_deaded, dev_eq, child, max_process, Process,
  Table, status_of, set_status, schedule, unblock,
}

-- Whether process `p` blocks in `sys_wait`.
abbrev pub waits_for_child : Table → ℕ → Bool
waits_for_child k p = is_waiting (status_of k p) && dev_eq (k.protable p).waitfor child

-- A process becomes a child of process 1, which is woken if it waits and the process is dead.
unfoldable pub adopt : ℕ → Table → Table
adopt i k =
    let k' = record k { protable = update k.protable i (record (k.protable i) { ppid = 1 }) } in
    if is_deaded (status_of k' i) && waits_for_child k' 1 then unblock 1 k' else k'

-- The loop of `sys_exit` at slot `i`: the children of the current process go to process 1.
unfoldable pub reparent : ℕ → ℕ → Table → Table
reparent zero i k = k
reparent (suc left) i k =
    reparent left (i + 1) (if (k.protable i).ppid == k.curpid then adopt i k else k)

unfoldable pub bury : ℕ → Table → Table
bury status k =
    let p = record (k.protable k.curpid) { ret = status; status = deaded } in
    record k { protable = update k.protable k.curpid p }

unfoldable pub wake_parent : Table → Table
wake_parent k =
    let parent = (k.protable k.curpid).ppid in
    if waits_for_child k parent then unblock parent k else k

-- `sys_exit` after the call of `cleanup`, up to that of `schedule`.
unfoldable pub exit_table : ℕ → Table → Table
exit_table status k = reparent max_process 0 (wake_parent (bury status k))

-- Process 0 does not exit. `none` is a search of `schedule` that has not ended.
unfoldable pub sys_exit : ℕ → ℕ → Table → Option Table
sys_exit fuel status k = if k.curpid == 0 then some k else schedule fuel (exit_table status k)

-- What a pass of `sys_wait` over the table comes to.
pub data Pass : Type 0 where
  reaped : ℕ → ℕ → Table → Pass
  has_child no_child : Pass

-- The first loop at slot `i`; `seen` is `haschild`. The child's slot is free after `cleanchild`.
unfoldable pub wait_pass : ℕ → ℕ → Bool → Table → Pass
wait_pass zero i seen k = if seen then has_child else no_child
wait_pass (suc left) i seen k =
    let later = wait_pass left (i + 1) true k in
    let on = wait_pass left (i + 1) seen k in
    if (k.protable i).ppid == k.curpid
    then (if is_deaded (status_of k i)
        then reaped i (k.protable i).ret (set_status i unuse k)
        else later)
    else on

-- The outcome of `sys_wait` up to the point where it blocks: the child's number and its exit
-- status, a block to wait for a child, or the error ECHILD.
unfoldable pub sys_wait : Table → Pass
sys_wait k = wait_pass max_process 0 false k

-- The pass after the process has run again; a child that has not ended is ECHILD here.
unfoldable pub wait_again : Table → Option (ℕ × ℕ × Table)
wait_again k = elim (wait_pass max_process 0 false k) [ reaped i r k' ↦ some (i, r, k') | _ ↦ none ]

pub data KillResult : Type 0 where
  esrch einval : KillResult
  sent : Table → KillResult

abbrev pub sigterm : ℕ
sigterm = 15

-- `sys_kill`: the only signal that is accepted is SIGTERM, and it goes to the end of the list.
unfoldable pub sys_kill : ℕ → ℕ → Table → KillResult
sys_kill pid sig k =
    if is_unuse (status_of k pid)
    then esrch
    else if sig == sigterm
    then (let p = record (k.protable pid) { signals = (k.protable pid).signals ++ (sig ∷ []) } in
        sent (record k { protable = update k.protable pid p }))
    else einval
