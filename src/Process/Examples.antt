-- ===== src/Process/Examples.antt =====
-- Runs of the scheduler and of the process table, and each theorem at an input.
use chouryos.Base.{
  ℕ, ◌≤◌, ◌-◌, ◌<◌, ◌≡◌, refl, ◌⊎◌, true, false, ◌&&◌, none, some, [], arith, ◌==◌, if◌then◌else◌,
}
use chouryos.Process.{
  Status, unuse, ready, running, waiting, deaded, Dev, tty, child, is_ready, is_deaded, Process,
  Table, status_of, switch_to, search_up, search_round, search_next, schedule, unblock, wake_from,
  wake, set_status,
}
use chouryos.Process.Schedule.{IsSlot, IsNext, NoneReady, schedule-IsNext, not-schedule-last}
use chouryos.Process.Invariant.{OneRunning, Settled, schedule-Settled, schedules, schedules_reach}
use chouryos.Process.Lifecycle.{
  waits_for_child, adopt, reparent, bury, wake_parent, exit_table, reaped, has_child, no_child,
  wait_pass, sys_wait,
}
use chouryos.Process.Lifecycle.Exit.{exit_table_lem}
use chouryos.Process.Lifecycle.Wait.{is_child, IsReaped, sys_wait_lem}

program : Unit {0}
unfolding switch_to search_up search_round search_next schedule unblock wake_from wake adopt
    reparent bury wake_parent exit_table wait_pass sys_wait
program = tt

abbrev proc : ℕ → ℕ → Status → Dev → Process
proc i p s d = record { pid = i; ppid = p; status = s; ret = 7; waitfor = d; signals = [] }

-- Process 2 runs, 1 waits for a child, 3 for the keyboard, 5 is ready, and the rest is free.
abbrev slots : ℕ → Process
slots i =
    if i == 0
    then proc 0 0 ready tty
    else if i == 1
    then proc 1 0 waiting child
    else if i == 2
    then proc 2 1 running tty
    else if i == 3
    then proc 3 2 waiting tty
    else if i == 5
    then proc 5 2 ready tty
    else proc i 0 unuse tty

abbrev five : Table
five = record { curpid = 2; protable = slots }

one_running : OneRunning five
one_running i h = ground arith

IsSlot-five : IsSlot five 5
IsSlot-five = (omega arith, omega arith, omega arith)

chooses_five : schedule 10 five ≡ some (switch_to 5 five)
unfolding program
chooses_five = refl

schedule-IsNext_example :
    ((j : ℕ) × (schedule 10 five ≡ some (switch_to j five)) × IsNext five 1 j)
    ⊎ ((schedule 10 five ≡ some five) × NoneReady five 1)
schedule-IsNext_example = schedule-IsNext 10 five (omega arith) (omega arith)

schedule-Settled_example : (k' : Table) × (schedule 10 five ≡ some k') × Settled five k'
schedule-Settled_example = schedule-Settled 10 five (omega arith) (omega arith) one_running

schedules_reach_example :
    (n : ℕ) × (n ≤ 5 - five.curpid)
    × (k' : Table) × (schedules 10 n five ≡ some k')
    × (k'.curpid ≡ 5)
schedules_reach_example = schedules_reach 10 5 five (omega arith) (omega arith) (omega arith) refl

-- Process 9 has run until it blocks.
abbrev last : Table
last = record { curpid = 9; protable = λ i. if i == 9 then proc 9 1 waiting tty else slots i }

not-schedule-last_example : schedule 1000 last ≡ none
not-schedule-last_example = not-schedule-last 1000 last refl (λ j h. ground arith)

exit_table_lem_example :
    let k' = exit_table 4 five in
    (is_deaded (status_of k' 2) ≡ true)
    × ((k'.protable 2).ret ≡ 4)
    × ((j : ℕ)
        → j < 10
        → (k'.protable j).ppid
          ≡ (if (five.protable j).ppid == 2 then 1 else (five.protable j).ppid))
    × (waits_for_child five 1 ≡ true → is_ready (status_of k' 1) ≡ true)
exit_table_lem_example = exit_table_lem 4 five (omega arith) (omega arith)

-- Process 1 after the only child of it has ended.
abbrev parent : Table
parent = record { curpid = 1; protable = λ i. if i == 2 then proc 2 1 deaded tty else slots i }

sys_wait_lem_example :
    ((i : ℕ) × (sys_wait parent ≡ reaped i (parent.protable i).ret (set_status i unuse parent))
      × IsReaped parent 0 i)
    ⊎ (((sys_wait parent ≡ has_child)
          × ((i : ℕ) × (i < 10) × (is_child parent i ≡ true))
          × ((j : ℕ) → j < 10 → (is_child parent j && is_deaded (status_of parent j)) ≡ false))
        ⊎ ((sys_wait parent ≡ no_child) × ((i : ℕ) → i < 10 → is_child parent i ≡ false)))
sys_wait_lem_example = sys_wait_lem parent

reaps : sys_wait parent ≡ reaped 2 7 (set_status 2 unuse parent)
unfolding program
reaps = refl
