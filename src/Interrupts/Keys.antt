-- ===== src/Interrupts/Keys.antt =====
-- What an interrupt of the keyboard does to the processes.
use chouryos.Base.{
  ℕ, zero, suc, ◌+◌, ◌<◌, ◌≡◌, refl, ◌∙◌, Bool, true, false, not, ◌&&◌, List, [], ◌∷◌, ◌++◌, arith,
  ◌==◌, Bool-cases, inl, inr, if◌then◌else◌, update,
}
use chouryos.Process.{
  ready, is_unuse, tty, Dev, Table, max_process, status_of, unblock, wake_from, wake,
}
use chouryos.Process.Wake.{waits_for, wake_lem}
use chouryos.Process.Lifecycle.{sys_kill, sent, esrch}
use chouryos.Keyboard.{Keyboard, key_ctrl, has_flag}
use chouryos.Keyboard.Keys.{handle_code-sigterm}
use chouryos.Interrupts.{kill_current, keyboad_handler}

signals-unblock :
    (p j : ℕ) (k : Table) → ((unblock p k).protable j).signals ≡ (k.protable j).signals
unfolding unblock
signals-unblock p j k = ground arith

signals-wake_one :
    (b : Bool) (i j : ℕ) (k : Table)
    → ((if b then unblock i k else k).protable j).signals ≡ (k.protable j).signals
signals-wake_one true i j k = signals-unblock i j k
signals-wake_one false i j k = refl

signals-wake_from :
    (left i : ℕ) (dev : Dev) (k : Table) (j : ℕ)
    → ((wake_from left i dev k).protable j).signals ≡ (k.protable j).signals
unfolding wake_from
signals-wake_from zero i dev k j = refl
signals-wake_from (suc left) i dev k j =
    signals-wake_from left (i + 1) dev _ j ∙ signals-wake_one (waits_for dev k i) i j k

signals-wake :
    (dev : Dev) (k : Table) (j : ℕ) → ((wake dev k).protable j).signals ≡ (k.protable j).signals
unfolding wake
signals-wake dev k j = signals-wake_from max_process 0 dev k j

-- SIGTERM goes to the end of the signals of the current process, if its slot is in use.
abbrev pub with_sigterm : Table → ℕ → List ℕ
with_sigterm t j =
    if (t.curpid == j) && not (is_unuse (status_of t t.curpid))
    then (t.protable j).signals ++ (15 ∷ [])
    else (t.protable j).signals

kill_current_lem :
    (t : Table) (j : ℕ)
    → (((kill_current t).protable j).signals ≡ with_sigterm t j)
      × (status_of (kill_current t) j ≡ status_of t j)
      × (((kill_current t).protable j).waitfor ≡ (t.protable j).waitfor)
kill_current_lem t j = elim (Bool-cases (is_unuse (status_of t t.curpid))) [
  | inl h ↦
      let none_there : sys_kill t.curpid 15 t ≡ esrch = unfold sys_kill in rw h in
      rw (none_there, h) (ground arith, refl, refl)
  | inr h ↦
      let p = record (t.protable t.curpid) {
        signals = (t.protable t.curpid).signals ++ (15 ∷ []);
      } in
      let there : sys_kill t.curpid 15 t
          ≡ sent (record t { protable = update t.protable t.curpid p }) =
        unfold sys_kill in rw h in
      rw (there, h) (ground arith, ground arith, ground arith)
]

-- An interrupt of the keyboard makes every process of the table ready that waits for the terminal,
-- whatever the scan code, and leaves the status of every other; the signals of a process change
-- only where Ctrl is held and `c` is pressed, and then the current process, if its slot is in use,
-- has SIGTERM at the end.
pub keyboad_handler_lem :
    (a : ℕ) (k : Keyboard) (t : Table) (j : ℕ)
    → j < 10
    → (status_of (keyboad_handler a (k, t)).1 j
        ≡ (if waits_for tty t j then ready else status_of t j))
      × ((((keyboad_handler a (k, t)).1).protable j).signals ≡ (
          if has_flag key_ctrl k && (a == 0x2e) then with_sigterm t j else (t.protable j).signals))
unfolding keyboad_handler
keyboad_handler_lem a k t j h = elim (Bool-cases (has_flag key_ctrl k && (a == 0x2e))) [
  | inl c ↦
      let (x, y, z) = kill_current_lem t j in
      rw (handle_code-sigterm a k, c)
        (wake_lem tty (kill_current t) j h ∙ rw (y, z), signals-wake tty (kill_current t) j ∙ x)
  | inr c ↦ rw (handle_code-sigterm a k, c) (wake_lem tty t j h, signals-wake tty t j)
]
