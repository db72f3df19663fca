-- ===== src/Process/Schedule.antt =====
-- What `schedule` chooses, how long a ready process waits, and where the search does not end.
use chouryos.Base.{
  ℕ, zero, suc, ◌+◌, ◌-◌, ◌%◌, ◌≤◌, ◌<◌, ◌≡◌, ◌≢◌, refl, ap, ◌∙◌, ◌⊎◌, inl, inr, Bool, true, false,
  none, some, arith, ◌==◌, ne→==, if◌then◌else◌, Bool-cases, ==_iff, subst,
}
use chouryos.Process.{
  is_ready, is_running, Table, Search, found, around, lost, max_process, status_of, switch_to,
  search_up, search_round, search_next, schedule,
}

-- How far slot `i` is ahead of the current process, going round through 1 to 9.
abbrev pub ahead : ℕ → ℕ → ℕ
ahead c i = if c == 0 then i else (i + 9 - c) % 9

abbrev pub IsSlot : Table → ℕ → Type 0
IsSlot k i = (1 ≤ i) × (i ≤ 9) × (i ≢ k.curpid)

-- Slot `j` is the first ready one after the current process, from `lo` on.
pub record IsNext (k : Table) (lo j : ℕ) : Type 0 where
  pub slot : IsSlot k j
  pub is_ready_there : is_ready (status_of k j) ≡ true
  pub from : lo ≤ ahead k.curpid j
  pub first :
      (i : ℕ)
      → IsSlot k i
      → lo ≤ ahead k.curpid i
      → ahead k.curpid i < ahead k.curpid j
      → is_ready (status_of k i) ≡ false

abbrev pub NoneReady : Table → ℕ → Type 0
NoneReady k lo = (i : ℕ) → IsSlot k i → lo ≤ ahead k.curpid i → is_ready (status_of k i) ≡ false

abbrev Outcome : Table → ℕ → Search → Type 0
Outcome k lo r = ((j : ℕ) × (r ≡ found j) × IsNext k lo j) ⊎ ((r ≡ around) × NoneReady k lo)

-- One slot that is not ready is passed.
Outcome-pass :
    (k : Table) (lo i : ℕ) (r : Search)
    → ((j : ℕ) → IsSlot k j → ahead k.curpid j ≡ lo → j ≡ i)
    → is_ready (status_of k i) ≡ false
    → Outcome k (suc lo) r
    → Outcome k lo r
Outcome-pass k lo i r only not_ready (inl (j, e, n)) = inl (
  j,
  e,
  record {
    slot = n.slot;
    is_ready_there = n.is_ready_there;
    from = omega (arith, n.from);
    first = λ x s a b. elim (Bool-cases (ahead k.curpid x == lo)) [
      | inl q ↦ ap (λ y. is_ready (status_of k y)) (only x s ((==_iff _ _).0 q)) ∙ not_ready
      | inr q ↦ n.first x s (ground arith) b
    ];
  },
)
Outcome-pass k lo i r only not_ready (inr (e, none_ready)) = inr (
  e,
  λ x s a. elim (Bool-cases (ahead k.curpid x == lo)) [
    | inl q ↦ ap (λ y. is_ready (status_of k y)) (only x s ((==_iff _ _).0 q)) ∙ not_ready
    | inr q ↦ none_ready x s (ground arith)
  ],
)

Outcome-hit :
    (k : Table) (lo i : ℕ)
    → IsSlot k i
    → ahead k.curpid i ≡ lo
    → is_ready (status_of k i) ≡ true
    → Outcome k lo (found i)
Outcome-hit k lo i s a h = inl (
  i,
  refl,
  record {
    slot = s;
    is_ready_there = h;
    from = omega arith;
    first = λ x sx b c. absurd (omega arith);
  },
)

search_up-Outcome :
    (left i : ℕ) (k : Table)
    → k.curpid ≡ 0
    → 1 ≤ i
    → i + left ≡ 10
    → Outcome k i (search_up left i k)
unfolding search_up
search_up-Outcome zero i k c h e = inr (refl, λ x s a. absurd (ground arith))
search_up-Outcome (suc left) i k c h e = elim (Bool-cases (is_ready (status_of k i))) [
  | inl q ↦ rw q (Outcome-hit k i i (omega arith, omega arith, omega arith) (ground arith) q)
  | inr q ↦ rw q (
      Outcome-pass k i i (search_up left (i + 1) k) (λ j s a. ground arith) q
        (subst (λ n. Outcome k n (search_up left (i + 1) k)) (omega arith)
          (search_up-Outcome left (i + 1) k c (omega arith) (omega arith))))
]

-- Slots left until the search comes round to the current process.
abbrev to_go : Table → ℕ → ℕ
to_go k i = (k.curpid + 9 - i) % 9

abbrev next_slot : ℕ → ℕ
next_slot i = (if i == max_process - 1 then 0 else i) + 1

module _ (k : Table) (i : ℕ) (c : 1 ≤ k.curpid) (d : k.curpid ≤ 9) (lo : 1 ≤ i) (hi : i ≤ 9) where
  next_slot_range : (1 ≤ next_slot i) × (next_slot i ≤ 9)
  next_slot_range = ground arith

  to_go-next_slot : i ≢ k.curpid → to_go k i ≡ suc (to_go k (next_slot i))
  to_go-next_slot ne = ground arith

  ahead-to_go : i ≢ k.curpid → ahead k.curpid i + to_go k i ≡ 9
  ahead-to_go ne = ground arith

  ahead_inj : (j : ℕ) → IsSlot k j → i ≢ k.curpid → ahead k.curpid j ≡ ahead k.curpid i → j ≡ i
  ahead_inj j s ne e = ground arith

search_round-Outcome :
    (fuel i : ℕ) (k : Table)
    → 1 ≤ k.curpid
    → k.curpid ≤ 9
    → 1 ≤ i
    → i ≤ 9
    → to_go k i < fuel
    → Outcome k (9 - to_go k i) (search_round fuel i k)
unfolding search_round
search_round-Outcome zero i k c d lo hi h = absurd (omega arith)
search_round-Outcome (suc fuel) i k c d lo hi h = elim (Bool-cases (i == k.curpid)) [
  | inl e ↦ rw e (inr (refl, λ x s a. absurd (ground arith)))
  | inr e ↦
      let ne : i ≢ k.curpid = ground arith in
      let at : 9 - to_go k i ≡ ahead k.curpid i = omega (arith, ahead-to_go k i c d lo hi ne) in
      elim (Bool-cases (is_ready (status_of k i))) [
        | inl q ↦ rw (e, q) (Outcome-hit k (9 - to_go k i) i (lo, hi, ne) (omega arith) q)
        | inr q ↦
            rw (e, q)
              (Outcome-pass k (9 - to_go k i) i (search_round fuel (next_slot i) k)
                (λ j s a. ahead_inj k i c d lo hi j s ne (omega arith)) q
                (subst (λ n. Outcome k n (search_round fuel (next_slot i) k))
                  (omega (arith, to_go-next_slot k i c d lo hi ne))
                  (search_round-Outcome fuel (next_slot i) k c d (next_slot_range k i c d lo hi).0
                    (next_slot_range k i c d lo hi).1
                    (omega (arith, to_go-next_slot k i c d lo hi ne)))))
      ]
]

search_next_first :
    (fuel : ℕ) (k : Table)
    → search_next fuel k
      ≡ (if k.curpid == 0 then search_up 9 1 k else search_round fuel (k.curpid + 1) k)
unfolding search_next
search_next_first fuel k = refl

search_next-zero : (fuel : ℕ) (k : Table) → k.curpid ≡ 0 → search_next fuel k ≡ search_up 9 1 k
search_next-zero fuel k e = search_next_first fuel k ∙ rw e

search_next-suc :
    (fuel : ℕ) (k : Table) → k.curpid ≢ 0 → search_next fuel k ≡ search_round fuel (k.curpid + 1) k
search_next-suc fuel k e = search_next_first fuel k ∙ rw (ne→== k.curpid 0 e)

search_next-Outcome :
    (fuel : ℕ) (k : Table) → k.curpid ≤ 8 → 10 ≤ fuel → Outcome k 1 (search_next fuel k)
search_next-Outcome fuel k c h = elim (Bool-cases (k.curpid == 0)) [
  | inl e ↦
      rw (search_next-zero fuel k (ground arith))
        (search_up-Outcome 9 1 k (ground arith) (omega arith) (omega arith))
  | inr e ↦ rw (search_next-suc fuel k (ground arith)) (
      subst (λ n. Outcome k n (search_round fuel (k.curpid + 1) k)) (ground arith)
        (search_round-Outcome fuel (k.curpid + 1) k (ground arith) (omega arith) (omega arith)
          (omega arith) (ground arith)))
]

settle : (b : Bool) (x y : Table) → (if b then some x else some y) ≡ some (if b then x else y)
settle true x y = refl
settle false x y = refl

-- `schedule` in a process below 9 ends, and switches to the first ready process in cyclic order
-- among 1 to 9; if no other process is ready it stays in a running process, and otherwise goes to
-- process 0.
pub schedule-IsNext :
    (fuel : ℕ) (k : Table)
    → k.curpid ≤ 8
    → 10 ≤ fuel
    → ((j : ℕ) × (schedule fuel k ≡ some (switch_to j k)) × IsNext k 1 j)
      ⊎ ((schedule fuel k ≡ some (if is_running (status_of k k.curpid) then k else switch_to 0 k))
          × NoneReady k 1)
unfolding schedule
schedule-IsNext fuel k c h = elim (search_next-Outcome fuel k c h) [
  | inl (j, e, n) ↦ inl (j, rw e, n)
  | inr (e, n) ↦ inr (rw e (settle (is_running (status_of k k.curpid)) k (switch_to 0 k)), n)
]

-- Behind slot 9 the search of process 9 leaves the table.
search_round_past :
    (fuel i : ℕ) (k : Table)
    → k.curpid ≡ 9
    → 10 ≤ i
    → ((j : ℕ) → 10 ≤ j → is_ready (status_of k j) ≡ false)
    → search_round fuel i k ≡ lost
unfolding search_round
search_round_past zero i k c h none_ready = refl
search_round_past (suc fuel) i k c h none_ready =
    let next : (if i == 9 then 0 else i) + 1 ≡ i + 1 = ground arith in
    rw (ne→== i k.curpid (omega arith), none_ready i h, next)
      (search_round_past fuel (i + 1) k c (omega arith) none_ready)

-- In process 9, the last slot, `schedule` searches the memory behind the table and does not end,
-- whatever processes of the table are ready, as long as nothing behind it looks ready.
pub not-schedule-last :
    (fuel : ℕ) (k : Table)
    → k.curpid ≡ 9
    → ((j : ℕ) → 10 ≤ j → is_ready (status_of k j) ≡ false)
    → schedule fuel k ≡ none
unfolding schedule
not-schedule-last fuel k c none_ready = rw (
  search_next-suc fuel k (omega arith),
  search_round_past fuel (k.curpid + 1) k c (omega arith) none_ready,
)
