-- ===== src/Process/Lifecycle/Wait.antt =====
-- What `sys_wait` finds.
use chouryos.Base.{
  ℕ, zero, suc, ◌+◌, ◌≤◌, ◌<◌, ◌≡◌, ◌≢◌, refl, ◌⊎◌, inl, inr, Bool, true, false, ◌&&◌, arith,
  Bool-cases, ◌==◌, ==_iff, subst, sym, ◌∙◌,
}
use chouryos.Process.{is_deaded, is_unuse, unuse, Table, status_of, set_status}
use chouryos.Process.Lifecycle.{Pass, reaped, has_child, no_child, wait_pass, sys_wait}

-- Slot `i` names the current process as its parent.
abbrev pub is_child : Table → ℕ → Bool
is_child k i = (k.protable i).ppid == k.curpid

-- The child reaped is the lowest of the table that is dead.
pub record IsReaped (k : Table) (lo i : ℕ) : Type 0 where
  pub from : lo ≤ i
  pub in_table : i < 10
  pub child : is_child k i ≡ true
  pub dead : is_deaded (status_of k i) ≡ true
  pub first : (j : ℕ) → lo ≤ j → j < i → (is_child k j && is_deaded (status_of k j)) ≡ false

abbrev NoneDead : Table → ℕ → Type 0
NoneDead k lo = (j : ℕ) → lo ≤ j → j < 10 → (is_child k j && is_deaded (status_of k j)) ≡ false

abbrev Outcome : Table → ℕ → Bool → Pass → Type 0
Outcome k lo seen r =
    ((i : ℕ) × (r ≡ reaped i (k.protable i).ret (set_status i unuse k)) × IsReaped k lo i)
    ⊎ (((r ≡ has_child)
          × NoneDead k lo
          × ((seen ≡ true) ⊎ ((i : ℕ) × (lo ≤ i) × (i < 10) × (is_child k i ≡ true))))
        ⊎ ((r ≡ no_child) × (seen ≡ false) × ((i : ℕ) → lo ≤ i → i < 10 → is_child k i ≡ false)))

module _ (k : Table) (i : ℕ) (seen seen' : Bool) (r : Pass) (inside : i < 10) where
  -- A slot that is passed: what it adds to what the rest of the loop finds.
  Outcome-pass :
      (is_child k i && is_deaded (status_of k i)) ≡ false
      → (seen' ≡ true → (seen ≡ true) ⊎ (is_child k i ≡ true))
      → (seen' ≡ false → (seen ≡ false) × (is_child k i ≡ false))
      → Outcome k (i + 1) seen' r
      → Outcome k i seen r
  Outcome-pass alive up down (inl (j, e, p)) = inl (
    j,
    e,
    record {
      from = omega (arith, p.from);
      in_table = p.in_table;
      child = p.child;
      dead = p.dead;
      first = λ x a b. elim (Bool-cases (i == x)) [
        | inl q ↦
            subst (λ y. (is_child k y && is_deaded (status_of k y)) ≡ false) ((==_iff _ _).0 q)
              alive
        | inr q ↦ p.first x (ground arith) b
      ];
    },
  )
  Outcome-pass alive up down (inr (inl (e, none_dead, why))) = inr (inl (e, rest, found why))
    where
      rest : NoneDead k i
      rest x a b = elim (Bool-cases (i == x)) [
        | inl q ↦
            subst (λ y. (is_child k y && is_deaded (status_of k y)) ≡ false) ((==_iff _ _).0 q)
              alive
        | inr q ↦ none_dead x (ground arith) b
      ]

      found :
          ((seen' ≡ true) ⊎ ((j : ℕ) × (i + 1 ≤ j) × (j < 10) × (is_child k j ≡ true)))
          → (seen ≡ true) ⊎ ((j : ℕ) × (i ≤ j) × (j < 10) × (is_child k j ≡ true))
      found (inl h) = elim (up h) [ inl a ↦ inl a | inr b ↦ inr (i, omega arith, inside, b) ]
      found (inr (j, a, b, c)) = inr (j, omega arith, b, c)
  Outcome-pass alive up down (inr (inr (e, h, no_children))) = inr (inr (e, (down h).0, rest))
    where
      rest : (x : ℕ) → i ≤ x → x < 10 → is_child k x ≡ false
      rest x a b = elim (Bool-cases (i == x)) [
        | inl q ↦ subst (λ y. is_child k y ≡ false) ((==_iff _ _).0 q) (down h).1
        | inr q ↦ no_children x (ground arith) b
      ]

wait_pass-Outcome :
    (left i : ℕ) (seen : Bool) (k : Table)
    → i + left ≡ 10
    → Outcome k i seen (wait_pass left i seen k)
unfolding wait_pass
wait_pass-Outcome zero i true k e = inr (inl (refl, λ j a b. absurd (omega arith), inl refl))
wait_pass-Outcome zero i false k e = inr (inr (refl, refl, λ j a b. absurd (omega arith)))
wait_pass-Outcome (suc left) i seen k e = elim (Bool-cases (is_child k i)) [
  | inl c ↦ elim (Bool-cases (is_deaded (status_of k i))) [
    | inl d ↦
        rw (c, d)
          (inl (
            i,
            refl,
            record {
              from = omega arith;
              in_table = omega arith;
              child = c;
              dead = d;
              first = λ j a b. absurd (omega arith);
            },
          ))
    | inr d ↦
        rw (c, d)
          (Outcome-pass k i seen true (wait_pass left (i + 1) true k) (omega arith) (rw (c, d))
            (λ _. inr c) (λ h. cc) (wait_pass-Outcome left (i + 1) true k (omega arith)))
  ]
  | inr c ↦ rw c (
      Outcome-pass k i seen seen (wait_pass left (i + 1) seen k) (omega arith) (rw c) (λ h. inl h)
        (λ h. (h, c)) (wait_pass-Outcome left (i + 1) seen k (omega arith)))
]

-- `sys_wait` gives the lowest child of the table that is dead, with its exit status, and frees its
-- slot; without a dead child it blocks if some slot names the current process as its parent, and
-- fails otherwise.
pub sys_wait_lem :
    (k : Table)
    → ((i : ℕ) × (sys_wait k ≡ reaped i (k.protable i).ret (set_status i unuse k)) × IsReaped k 0 i)
      ⊎ (((sys_wait k ≡ has_child)
            × ((i : ℕ) × (i < 10) × (is_child k i ≡ true))
            × ((j : ℕ) → j < 10 → (is_child k j && is_deaded (status_of k j)) ≡ false))
          ⊎ ((sys_wait k ≡ no_child) × ((i : ℕ) → i < 10 → is_child k i ≡ false)))
unfolding sys_wait
sys_wait_lem k = elim (wait_pass-Outcome 10 0 false k refl) [
  | inl found ↦ inl found
  | inr (inl (e, alive, inl h)) ↦ absurd (cc h)
  | inr (inl (e, alive, inr (i, a, b, c))) ↦
      inr (inl (e, (i, b, c), λ j h. alive j (omega arith) h))
  | inr (inr (e, h, none)) ↦ inr (inr (e, λ i h'. none i (omega arith) h'))
]

stale_blocks :
    (i : ℕ) (k : Table)
    → IsReaped k 0 i
    → ((j : ℕ) → j < 10 → j ≢ i → is_child k j ≡ false)
    → sys_wait (set_status i unuse k) ≡ has_child
stale_blocks i k p alone = elim (sys_wait_lem (set_status i unuse k)) [
  | inl (x, e, q) ↦ elim (Bool-cases (i == x)) [
    | inl same ↦ absurd (ground (arith, q.dead))
    | inr other ↦ absurd (ground (arith, q.child, alone x q.in_table))
  ]
  | inr (inl (e, some_child, alive)) ↦ e
  | inr (inr (e, no_children)) ↦ absurd (ground (arith, no_children i p.in_table, p.child))
]

reaped_parts : (i j r r' : ℕ) (k k' : Table) → reaped i r k ≡ reaped j r' k' → (i ≡ j) × (k ≡ k')
reaped_parts i j r r' k k' e = (cc, cc)

-- A slot keeps its parent's number when it is freed. So a process that has reaped a child never
-- gets ECHILD while the slot stays free: with no dead child it blocks, also where it has no child
-- at all.
pub sys_wait-stale :
    (i r : ℕ) (k k' : Table)
    → sys_wait k ≡ reaped i r k'
    → ((j : ℕ) → j < 10 → j ≢ i → is_child k j ≡ false)
    → (is_unuse (status_of k' i) ≡ true) × (sys_wait k' ≡ has_child)
sys_wait-stale i r k k' h alone = elim (sys_wait_lem k) [
  | inl (j, e, p) ↦
      let (ij, kk) = reaped_parts j i _ r _ k' (sym e ∙ h) in
      rw (← kk) (ground arith, stale_blocks j k p (λ x a b. alone x a (rw (← ij) b)))
  | inr (inl (e, some_child, alive)) ↦ absurd (cc (sym e ∙ h))
  | inr (inr (e, rest)) ↦ absurd (cc (sym e ∙ h))
]
