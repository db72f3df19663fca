-- ===== src/Interrupts.antt =====
-- The interrupt handlers: KeyBoadHandler of driver/keyboad.c, on the state of the keyboard and the
-- process table, HdIntHandler of driver/hd.c, and TimerInitHandler of kernel/schedule.c. The ports
-- are left out.
pub mod Keys
pub mod Signals
mod Examples
use chouryos.Base.{ℕ, Bool, true, false, not, ◌&&◌, List, [], ◌∷◌, ◌==◌, if◌then◌else◌, update}
use chouryos.Process.{Table, tty, hard_disk, wake}
use chouryos.Process.Lifecycle.{KillResult, sent, sigterm, sys_kill, exit_table}
use chouryos.Keyboard.{Keyboard, handle_code}

-- The call `kill(curpid, SIGTERM)`, whose result is not used.
abbrev pub killed : Table → KillResult → Table
killed t (sent t') = t'
killed t _ = t

abbrev pub kill_current : Table → Table
kill_current t = killed t (sys_kill t.curpid sigterm t)

-- `KeyBoadHandler` for the scan code `a`.
unfoldable pub keyboad_handler : ℕ → Keyboard × Table → Keyboard × Table
keyboad_handler a (k, t) =
    let (k', term) = handle_code a k in (k', wake tty (if term then kill_current t else t))

-- `HdIntHandler`: `hdstats`, and the process table.
unfoldable pub hd_int_handler : ℕ × Table → ℕ × Table
hd_int_handler (hdstats, t) = (0xff, wake hard_disk t)

-- What a process does behind the call of `schedule` in TimerInitHandler, when it runs again: it goes
-- on, or it has called `_exit`, with the table that `sys_exit` leaves for `schedule`.
pub data Delivered : Type 0 where
  goes_on ended : Table → Delivered

abbrev pub set_signals : List ℕ → Table → Table
set_signals signals k =
    let p = record (k.protable k.curpid) { signals = signals } in
    record k { protable = update k.protable k.curpid p }

-- The loop over the list of signals. Process 0 comes back from `sys_exit`.
unfoldable pub deliver : List ℕ → Table → Delivered
deliver [] k = goes_on k
deliver (sig ∷ rest) k =
    let on = deliver rest (set_signals rest k) in
    if (sig == sigterm) && not (k.curpid == 0) then ended (exit_table 1 k) else on

unfoldable pub timer_signals : Table → Delivered
timer_signals k = deliver (k.protable k.curpid).signals k
