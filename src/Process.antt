-- ===== src/Process.antt =====
-- The process table of include/process.h, with the scheduler of kernel/schedule.c, the part of
-- kernel/exit.c and kernel/kill.c that works on the table, and the interrupt handlers that wake
-- processes.
pub mod Schedule
pub mod Invariant
pub mod Wake
pub mod Lifecycle
mod Examples
use chouryos.Base.{
  ℕ, zero, suc, ◌+◌, Bool, true, false, not, ◌&&◌, ◌||◌, Option, none, some, List, [], ◌∷◌, ◌++◌,
  ◌==◌, ◌-◌, if◌then◌else◌, update,
}

abbrev pub max_process : ℕ
max_process = 10

-- `pstatus`
pub data Status : Type 0 where
  unuse ready running waiting deaded : Status

abbrev pub is_unuse : Status → Bool
is_unuse unuse = true
is_unuse _ = false

abbrev pub is_ready : Status → Bool
is_ready ready = true
is_ready _ = false

abbrev pub is_running : Status → Bool
is_running running = true
is_running _ = false

abbrev pub is_waiting : Status → Bool
is_waiting waiting = true
is_waiting _ = false

abbrev pub is_deaded : Status → Bool
is_deaded deaded = true
is_deaded _ = false

-- `DEV`
pub data Dev : Type 0 where
  floopy hard_disk tty msg time child : Dev

abbrev pub dev_eq : Dev → Dev → Bool
dev_eq floopy floopy = true
dev_eq hard_disk hard_disk = true
dev_eq tty tty = true
dev_eq msg msg = true
dev_eq time time = true
dev_eq child child = true
dev_eq _ _ = false

-- `process`, without the saved registers, the memory and the open files. The list of signals is
-- in the order of `sighead`.
pub record Process : Type 0 where
  pub pid : ℕ
  pub ppid : ℕ
  pub status : Status
  pub ret : ℕ
  pub waitfor : Dev
  pub signals : List ℕ

-- `curpid` and `PROTABLE`. An index from 10 on reads the memory behind the table.
pub record Table : Type 0 where
  pub curpid : ℕ
  pub protable : ℕ → Process

abbrev pub status_of : Table → ℕ → Status
status_of k i = (k.protable i).status

abbrev pub set_status : ℕ → Status → Table → Table
set_status i s k = record k {
  protable = update k.protable i (record (k.protable i) { status = s });
}

-- `switch_to` up to the switch of the stacks, at which the other process goes on.
unfoldable pub switch_to : ℕ → Table → Table
switch_to pid k =
    if pid == k.curpid
    then k
    else (let k' = if is_running (status_of k k.curpid) then set_status k.curpid ready k else k in
        set_status pid running (record k' { curpid = pid }))

-- How a search through the table ends. In `lost` the loop of the source has not ended after the
-- rounds that the model gives it.
pub data Search : Type 0 where
  found : ℕ → Search
  around lost : Search

-- The loop of `schedule` for process 0, at `i`, with `left` rounds to go.
unfoldable pub search_up : ℕ → ℕ → Table → Search
search_up zero i k = around
search_up (suc left) i k =
    let rest = search_up left (i + 1) k in if is_ready (status_of k i) then found i else rest

-- The loop for another process: the test `i != curpid`, the body, and `++i`.
unfoldable pub search_round : ℕ → ℕ → Table → Search
search_round zero i k = lost
search_round (suc fuel) i k =
    let rest = search_round fuel ((if i == max_process - 1 then 0 else i) + 1) k in
    if i == k.curpid then around else if is_ready (status_of k i) then found i else rest

unfoldable pub search_next : ℕ → Table → Search
search_next fuel k =
    if k.curpid == 0 then search_up (max_process - 1) 1 k else search_round fuel (k.curpid + 1) k

-- The end of `schedule`; `none` is a loop that has not ended.
abbrev pub dispatch : Table → Search → Option Table
dispatch k (found i) = some (switch_to i k)
dispatch k around = if is_running (status_of k k.curpid) then some k else some (switch_to 0 k)
dispatch k lost = none

-- `schedule`, with at most `fuel` rounds of its second loop.
unfoldable pub schedule : ℕ → Table → Option Table
schedule fuel k = dispatch k (search_next fuel k)

unfoldable pub block : ℕ → ℕ → Dev → Table → Option Table
block fuel pid waitfor k =
    if (pid == 0) || is_unuse (status_of k pid)
    then some k
    else (let p = record (k.protable pid) { waitfor = waitfor; status = waiting } in
        schedule fuel (record k { protable = update k.protable pid p }))

unfoldable pub unblock : ℕ → Table → Table
unblock pid k = if is_unuse (status_of k pid) then k else set_status pid ready k

-- The loop that ends `KeyBoadHandler` and `HdIntHandler`: every process that waits for the device
-- becomes ready.
unfoldable pub wake_from : ℕ → ℕ → Dev → Table → Table
wake_from zero i dev k = k
wake_from (suc left) i dev k =
    wake_from left (i + 1) dev
      (if is_waiting (status_of k i) && dev_eq (k.protable i).waitfor dev then unblock i k else k)

unfoldable pub wake : Dev → Table → Table
wake dev k = wake_from max_process 0 dev k
