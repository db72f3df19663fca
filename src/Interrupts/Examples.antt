-- ===== src/Interrupts/Examples.antt =====
-- A keyboard interrupt, and the theorem at an input.
use chouryos.Base.{◌≡◌, refl, [], ◌∷◌, arith, ◌==◌, if◌then◌else◌}
use chouryos.Process.{running, waiting, tty, Table, status_of}
use chouryos.Keyboard.{Keyboard}
use chouryos.Process.Lifecycle.{sent, sigterm, sys_kill}
use chouryos.Interrupts.{keyboad_handler, ended, timer_signals}
use chouryos.Interrupts.Signals.{IsEnded, timer_signals-sys_kill}
use chouryos.Interrupts.Keys.{keyboad_handler_lem}

-- Ctrl is held.
abbrev ctrl_held : Keyboard
ctrl_held = record { keyhead = 0; keytail = 0; keybuff = λ i. 0; flag = 2 }

-- Process 1 runs, and the others wait for the terminal.
abbrev one_runs : Table
one_runs = record {
  curpid = 1;
  protable = λ i. record {
    pid = i;
    ppid = 0;
    status = if i == 1 then running else waiting;
    ret = 0;
    waitfor = tty;
    signals = [];
  };
}

-- Process 2, a child of process 1, runs.
abbrev two_runs : Table
two_runs = record {
  curpid = 2;
  protable = λ i. record {
    pid = i;
    ppid = 1;
    status = if i == 2 then running else waiting;
    ret = 0;
    waitfor = tty;
    signals = [];
  };
}

timer_signals-sys_kill_example :
    (k' : Table) × (t : Table) × (sys_kill 2 sigterm two_runs ≡ sent k')
    × (timer_signals k' ≡ ended t)
    × IsEnded t 2 1
timer_signals-sys_kill_example =
    timer_signals-sys_kill two_runs
      (record { number = (omega arith, omega arith); parent = omega arith }) refl

keyboad_handler_lem_example :
    (status_of (keyboad_handler 0x2e (ctrl_held, one_runs)).1 1 ≡ running)
    × ((((keyboad_handler 0x2e (ctrl_held, one_runs)).1).protable 1).signals ≡ 15 ∷ [])
keyboad_handler_lem_example = keyboad_handler_lem 0x2e ctrl_held one_runs 1 (omega arith)
