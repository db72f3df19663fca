-- ===== src/Process/Invariant.antt =====
-- One running process, and how long a ready one waits, over calls of `schedule`.
use chouryos.Base.{
  ◌>>=◌, ℕ, zero, suc, refl, ◌∙◌, ◌-◌, ==_iff, Option, ◌≤◌, ◌<◌, ◌≡◌, ◌≢◌, ◌⊎◌, inl, inr, true,
  false, some, arith, ne→==, Bool-cases, ◌==◌, if◌then◌else◌,
}
use chouryos.Process.{is_ready, is_running, Table, status_of, switch_to, schedule}
use chouryos.Process.Schedule.{ahead, IsSlot, IsNext, schedule-IsNext}

-- No process but the current one is running.
abbrev pub OneRunning : Table → Type 0
OneRunning k = (i : ℕ) → i ≢ k.curpid → is_running (status_of k i) ≡ false

switch_to-OneRunning :
    (j : ℕ) (k : Table)
    → OneRunning k
    → j ≢ k.curpid
    → OneRunning (switch_to j k) × (is_running (status_of (switch_to j k) j) ≡ true)
unfolding switch_to
switch_to-OneRunning j k one ne = elim (Bool-cases (is_running (status_of k k.curpid))) [
  | inl q ↦ rw (ne→== j k.curpid ne, q) (λ i h. ground (arith, one i), ground arith)
  | inr q ↦ rw (ne→== j k.curpid ne, q) (λ i h. ground (arith, one i), ground arith)
]

-- What holds after a call of `schedule`.
pub record Settled (k k' : Table) : Type 0 where
  pub one : OneRunning k'
  pub current : (is_running (status_of k' k'.curpid) ≡ true) ⊎ (k'.curpid ≡ 0)
  pub in_table : k'.curpid ≤ 9

curpid-switch_to : (j : ℕ) (k : Table) → (switch_to j k).curpid ≡ j
unfolding switch_to
curpid-switch_to j k = ground arith

switch_to-Settled :
    (j : ℕ) (k : Table) → OneRunning k → j ≢ k.curpid → j ≤ 9 → Settled k (switch_to j k)
switch_to-Settled j k one ne h =
    let (rest, now) = switch_to-OneRunning j k one ne in
    let c = curpid-switch_to j k in
    record { one = rest; current = inl (rw c now); in_table = omega arith }

-- The fall-back of `schedule`: a running process goes on, and otherwise process 0 is next.
idle-Settled :
    (k : Table)
    → OneRunning k
    → k.curpid ≤ 9
    → Settled k (if is_running (status_of k k.curpid) then k else switch_to 0 k)
idle-Settled k one h = elim (Bool-cases (is_running (status_of k k.curpid))) [
  | inl q ↦ rw q (record { one = one; current = inl q; in_table = h })
  | inr q ↦ elim (Bool-cases (k.curpid == 0)) [
    | inl z ↦
        let same : switch_to 0 k ≡ k = unfold switch_to in ground arith in
        rw (q, same) (record { one = one; current = inr (ground arith); in_table = h })
    | inr z ↦ rw q (switch_to-Settled 0 k one (ground arith) (omega arith))
  ]
]

-- In a process below 9 with no other process running, `schedule` ends in a process of the table
-- such that no other is running, and the process is itself running or is process 0.
pub schedule-Settled :
    (fuel : ℕ) (k : Table)
    → k.curpid ≤ 8
    → 10 ≤ fuel
    → OneRunning k
    → (k' : Table) × (schedule fuel k ≡ some k') × Settled k k'
schedule-Settled fuel k c h one = elim (schedule-IsNext fuel k c h) [
  | inl (j, e, n) ↦ (switch_to j k, e, switch_to-Settled j k one n.slot.2 n.slot.1)
  | inr (e, n) ↦ (_, e, idle-Settled k one (omega arith))
]

ready-switch_to :
    (i j : ℕ) (k : Table)
    → i ≢ j
    → i ≢ k.curpid
    → is_ready (status_of (switch_to j k) i) ≡ is_ready (status_of k i)
unfolding switch_to
ready-switch_to i j k a b = ground arith

-- One call of `schedule` and the slots ahead.
schedule-ahead :
    (fuel i : ℕ) (k : Table)
    → k.curpid ≤ 8
    → 10 ≤ fuel
    → IsSlot k i
    → is_ready (status_of k i) ≡ true
    → (k' : Table) × (schedule fuel k ≡ some k')
      × ((k'.curpid ≡ i)
          ⊎ ((is_ready (status_of k' i) ≡ true)
              × (ahead k'.curpid i < ahead k.curpid i)
              × (k'.curpid ≤ 9)))
schedule-ahead fuel i k c h s r = elim (schedule-IsNext fuel k c h) [
  | inl (j, e, n) ↦ (switch_to j k, e, chosen j n)
  | inr (e, n) ↦ (
    k,
    absurd (ground (arith, n i s (ground arith))),
    inl (absurd (ground (arith, n i s (ground arith)))),
  )
]
  where
    chosen :
        (j : ℕ)
        → IsNext k 1 j
        → ((switch_to j k).curpid ≡ i)
          ⊎ ((is_ready (status_of (switch_to j k) i) ≡ true)
              × (ahead (switch_to j k).curpid i < ahead k.curpid i)
              × ((switch_to j k).curpid ≤ 9))
    chosen j n = elim (Bool-cases (i == j)) [
      | inl q ↦ inl (ground (arith, curpid-switch_to j k))
      | inr q ↦ inr (
        ground (arith, ready-switch_to i j k),
        rw (curpid-switch_to j k) (ground (arith, n.slot, n.first i s (ground arith))),
        rw (curpid-switch_to j k) n.slot.1,
      )
    ]

-- `n` calls of `schedule`, one behind the other.
unfoldable pub schedules : ℕ → ℕ → Table → Option Table
schedules fuel zero k = some k
schedules fuel (suc n) k = do k' ← schedule fuel k; schedules fuel n k'

schedules_one :
    (fuel n : ℕ) (k k' : Table)
    → schedule fuel k ≡ some k'
    → schedules fuel (suc n) k ≡ schedules fuel n k'
unfolding schedules
schedules_one fuel n k k' e = rw e refl

nearer : (c d i : ℕ) → c < i → i ≤ 9 → d ≤ 9 → ahead d i < ahead c i → (d == i) ≡ false → d < i
nearer c d i l s low less ne = ground arith

schedules_within :
    (left fuel i : ℕ) (k : Table)
    → ahead k.curpid i ≤ left
    → k.curpid < i
    → i ≤ 9
    → 10 ≤ fuel
    → is_ready (status_of k i) ≡ true
    → (n : ℕ) × (n ≤ left) × (k' : Table) × (schedules fuel n k ≡ some k') × (k'.curpid ≡ i)
schedules_within zero fuel i k a c s h r = absurd (ground arith)
schedules_within (suc left) fuel i k a c s h r =
    let slot : IsSlot k i = (omega arith, s, omega arith) in
    let (k', e, next) = schedule-ahead fuel i k (omega arith) h slot r in
    elim next [
      | inl now ↦ (1, omega arith, k', unfold schedules in rw e refl, now)
      | inr (r', less, low) ↦ elim (Bool-cases (k'.curpid == i)) [
        | inl q ↦ (1, omega arith, k', unfold schedules in rw e refl, (==_iff _ _).0 q)
        | inr q ↦
            let before = nearer k.curpid k'.curpid i c s low less q in
            let (n, few, k'', e', now) =
              schedules_within left fuel i k' (omega (arith, less)) before s h r' in
            (suc n, omega (arith, few), k'', schedules_one fuel n k k' e ∙ e', now)
      ]
    ]

-- While `schedule` alone changes the table, a ready process of a slot behind the current one, up to
-- 9, becomes the current one within as many calls as it is slots behind it. Ten rounds of the search
-- are enough in each call.
pub schedules_reach :
    (fuel i : ℕ) (k : Table)
    → k.curpid < i
    → i ≤ 9
    → 10 ≤ fuel
    → is_ready (status_of k i) ≡ true
    → (n : ℕ) × (n ≤ i - k.curpid) × (k' : Table) × (schedules fuel n k ≡ some k') × (k'.curpid ≡ i)
schedules_reach fuel i k c s h r = schedules_within (i - k.curpid) fuel i k (ground arith) c s h r
