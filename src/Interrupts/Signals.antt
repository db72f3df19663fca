-- ===== src/Interrupts/Signals.antt =====
-- A signal from `sys_kill` to the timer's handler.
use chouryos.Base.{
  ℕ, ◌≡◌, ◌≢◌, refl, inl, inr, true, false, not, ◌&&◌, List, [], ◌∷◌, ◌++◌, ◌==◌, arith, Bool-cases,
  ne→==,
}
use chouryos.Process.{Table, status_of, is_unuse, is_deaded}
use chouryos.Process.Lifecycle.{sent, sigterm, sys_kill, exit_table}
use chouryos.Process.Lifecycle.Exit.{exit_table_lem}
use chouryos.Interrupts.{ended, deliver, set_signals, timer_signals}

-- The current process is neither process 0 nor 1, nor its own parent.
pub record IsUser (k : Table) : Type 0 where
  pub number : (k.curpid ≢ 0) × (k.curpid ≢ 1)
  pub parent : (k.protable k.curpid).ppid ≢ k.curpid

-- The table says that process `pid` ended with status `ret`.
pub record IsEnded (k : Table) (pid ret : ℕ) : Type 0 where
  pub dead : is_deaded (status_of k pid) ≡ true
  pub status : (k.protable pid).ret ≡ ret

set_signals-IsUser : (l : List ℕ) (k : Table) → IsUser k → IsUser (set_signals l k)
set_signals-IsUser l k u = record { number = u.number; parent = ground (arith, u.parent) }

deliver-IsEnded :
    (before : List ℕ) (k : Table)
    → IsUser k
    → (t : Table) × (deliver (before ++ (15 ∷ [])) k ≡ ended t) × IsEnded t k.curpid 1
unfolding deliver
deliver-IsEnded [] k u =
    let e = exit_table_lem 1 k u.number.1 u.parent in
    (exit_table 1 k, rw (ne→== k.curpid 0 u.number.0) refl, record { dead = e.0; status = e.1 })
deliver-IsEnded (sig ∷ before) k u = elim (Bool-cases ((sig == 15) && not (k.curpid == 0))) [
  | inl h ↦
      let e = exit_table_lem 1 k u.number.1 u.parent in
      (exit_table 1 k, rw h refl, record { dead = e.0; status = e.1 })
  | inr h ↦
      let rest = before ++ (15 ∷ []) in
      let (t, e, d) = deliver-IsEnded before (set_signals rest k) (set_signals-IsUser rest k u) in
      (t, rw h e, d)
]

-- SIGTERM to the current process, whatever signals it has already: `sys_kill` takes it, and when the
-- timer next lets the process go on, it ends with status 1. This holds for a process in use, other
-- than 0 and 1, that is not its own parent.
pub timer_signals-sys_kill :
    (k : Table)
    → IsUser k
    → is_unuse (status_of k k.curpid) ≡ false
    → (k' : Table) × (t : Table) × (sys_kill k.curpid sigterm k ≡ sent k')
      × (timer_signals k' ≡ ended t)
      × IsEnded t k.curpid 1
unfolding sys_kill timer_signals
timer_signals-sys_kill k u h =
    let signals = (k.protable k.curpid).signals in
    let k' : Table = set_signals (signals ++ (15 ∷ [])) k in
    let (t, e, d) = deliver-IsEnded signals k' (set_signals-IsUser (signals ++ (15 ∷ [])) k u) in
    let list : (k'.protable k'.curpid).signals ≡ signals ++ (15 ∷ []) = ground arith in
    (k', t, rw h refl, rw list e, d)
