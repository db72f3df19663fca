-- ===== src/Process/Lifecycle/Exit.antt =====
-- What `sys_exit` leaves in the process table.
use chouryos.Base.{
  ℕ, zero, suc, ◌+◌, ◌<◌, ◌≡◌, ◌≢◌, refl, sym, ◌∙◌, true, ◌&&◌, arith, Bool-cases, ◌==◌, leb, ltb,
  if◌then◌else◌, inl, inr, update, subst,
}
use chouryos.Process.{is_deaded, is_ready, is_waiting, Table, status_of, unblock}
use chouryos.Process.Lifecycle.{waits_for_child, adopt, reparent, bury, wake_parent, exit_table}

unblock-keeps :
    (p : ℕ) (k : Table) (j : ℕ)
    → ((unblock p k).curpid ≡ k.curpid)
      × (((unblock p k).protable j).ppid ≡ (k.protable j).ppid)
      × (((unblock p k).protable j).ret ≡ (k.protable j).ret)
      × (p ≢ j → status_of (unblock p k) j ≡ status_of k j)
unfolding unblock
unblock-keeps p k j = ground arith

unblock-ready :
    (p j : ℕ) (k : Table)
    → is_ready (status_of k j) ≡ true
    → is_ready (status_of (unblock p k) j) ≡ true
unfolding unblock
unblock-ready p j k h = ground arith

unblock-now :
    (p : ℕ) (k : Table)
    → is_waiting (status_of k p) ≡ true
    → is_ready (status_of (unblock p k) p) ≡ true
unfolding unblock
unblock-now p k h = ground arith

-- What a step of the loop keeps of slot `j`, and what becomes of its parent.
record Keeps (k k' : Table) (j parent : ℕ) : Type 0 where
  current : k'.curpid ≡ k.curpid
  ppid_is : (k'.protable j).ppid ≡ parent
  same_ret : (k'.protable j).ret ≡ (k.protable j).ret
  same_status : 1 ≢ j → status_of k' j ≡ status_of k j
  stays_ready : is_ready (status_of k j) ≡ true → is_ready (status_of k' j) ≡ true

adopt-Keeps :
    (i : ℕ) (k : Table) (j : ℕ) → Keeps k (adopt i k) j (if i == j then 1 else (k.protable j).ppid)
unfolding adopt
adopt-Keeps i k j = elim (Bool-cases (is_deaded (status_of k1 i) && waits_for_child k1 1)) [
  | inl q ↦
      let (a, b, c, d) = unblock-keeps 1 k1 j in
      rw q (record {
        current = a;
        ppid_is = ground arith;
        same_ret = ground arith;
        same_status = λ ne. ground (arith, d ne);
        stays_ready = λ h. unblock-ready 1 j k1 (ground arith);
      })
  | inr q ↦ rw q (record {
    current = refl;
    ppid_is = ground arith;
    same_ret = ground arith;
    same_status = λ ne. ground arith;
    stays_ready = λ h. ground arith;
  })
]
  where
    k1 : Table
    k1 = record k { protable = update k.protable i (record (k.protable i) { ppid = 1 }) }

-- The parent of slot `j` after the loop has gone over the slots from `i` up to `i + left`.
abbrev new_parent : ℕ → ℕ → Table → ℕ → ℕ
new_parent left i k j =
    if (leb i j && ltb j (i + left)) && ((k.protable j).ppid == k.curpid)
    then 1
    else (k.protable j).ppid

Keeps-trans : (k k1 k2 : Table) (j p q : ℕ) → Keeps k k1 j p → Keeps k1 k2 j q → Keeps k k2 j q
Keeps-trans k k1 k2 j p q a b = record {
  current = b.current ∙ a.current;
  ppid_is = b.ppid_is;
  same_ret = b.same_ret ∙ a.same_ret;
  same_status = λ ne. b.same_status ne ∙ a.same_status ne;
  stays_ready = λ h. b.stays_ready (a.stays_ready h);
}

reparent-Keeps :
    (left i : ℕ) (k : Table) (j : ℕ)
    → k.curpid ≢ 1
    → Keeps k (reparent left i k) j (new_parent left i k j)
unfolding reparent
reparent-Keeps zero i k j ne = record {
  current = refl;
  ppid_is = ground arith;
  same_ret = refl;
  same_status = λ h. refl;
  stays_ready = λ h. h;
}
reparent-Keeps (suc left) i k j ne = elim (Bool-cases ((k.protable i).ppid == k.curpid)) [
  | inl q ↦
      let one = adopt-Keeps i k j in
      let rest = reparent-Keeps left (i + 1) (adopt i k) j (ground (arith, one.current)) in
      rw q (
        subst (Keeps k (reparent left (i + 1) (adopt i k)) j)
          (ground (arith, one.current, one.ppid_is))
          (Keeps-trans k (adopt i k) (reparent left (i + 1) (adopt i k)) j _ _ one rest))
  | inr q ↦ rw q (
      subst (Keeps k (reparent left (i + 1) k) j) (ground arith)
        (reparent-Keeps left (i + 1) k j ne))
]

bury_lem :
    (status : ℕ) (k : Table) (j : ℕ)
    → ((bury status k).curpid ≡ k.curpid)
      × (((bury status k).protable j).ppid ≡ (k.protable j).ppid)
      × (((bury status k).protable k.curpid).ret ≡ status)
      × (is_deaded (status_of (bury status k) k.curpid) ≡ true)
      × (j ≢ k.curpid → waits_for_child (bury status k) j ≡ waits_for_child k j)
unfolding bury
bury_lem status k j = (refl, ground arith, ground arith, ground arith, λ h. ground arith)

wake_parent_lem :
    (k : Table) (j : ℕ)
    → let p = (k.protable k.curpid).ppid in
      ((wake_parent k).curpid ≡ k.curpid)
      × (((wake_parent k).protable j).ppid ≡ (k.protable j).ppid)
      × (((wake_parent k).protable j).ret ≡ (k.protable j).ret)
      × (p ≢ j → status_of (wake_parent k) j ≡ status_of k j)
      × (waits_for_child k p ≡ true → is_ready (status_of (wake_parent k) p) ≡ true)
unfolding wake_parent
wake_parent_lem k j =
    let p = (k.protable k.curpid).ppid in
    elim (Bool-cases (waits_for_child k p)) [
      | inl q ↦
          let (a, b, c, d) = unblock-keeps p k j in
          rw q (a, b, c, d, λ w. unblock-now p k (ground arith))
      | inr q ↦ rw q (refl, refl, refl, λ h. refl, λ w. cc)
    ]

-- The table that `sys_exit` leaves for `schedule`, in a process other than 1 that is not its own
-- parent: the process is dead with its exit status, every child of it in the table has process 1
-- for its parent and every other process the parent that it had, and its parent, if it waits for a
-- child, is ready.
pub exit_table_lem :
    (status : ℕ) (k : Table)
    → k.curpid ≢ 1
    → (k.protable k.curpid).ppid ≢ k.curpid
    → let k' = exit_table status k in
      (is_deaded (status_of k' k.curpid) ≡ true)
      × ((k'.protable k.curpid).ret ≡ status)
      × ((j : ℕ)
          → j < 10
          → (k'.protable j).ppid
            ≡ (if (k.protable j).ppid == k.curpid then 1 else (k.protable j).ppid))
      × (waits_for_child k (k.protable k.curpid).ppid ≡ true
          → is_ready (status_of k' (k.protable k.curpid).ppid) ≡ true)
unfolding exit_table
exit_table_lem status k ne own =
    let c = k.curpid in
    let p = (k.protable c).ppid in
    let k1 = bury status k in
    let k2 = wake_parent k1 in
    let b = λ (j : ℕ). bury_lem status k j in
    let w = λ (j : ℕ). wake_parent_lem k1 j in
    let cur1 : k1.curpid ≡ c = (b 0).0 in
    let parent : (k1.protable k1.curpid).ppid ≡ p = rw cur1 (b c).1 in
    let cur2 : k2.curpid ≡ c = (w 0).0 ∙ cur1 in
    let r = λ (j : ℕ). reparent-Keeps 10 0 k2 j (λ e. ne (sym cur2 ∙ e)) in
    (
      rw ((r c).same_status (λ e. ne (sym e)), (w c).3 (λ e. own (sym parent ∙ e))) (b c).3,
      (r c).same_ret ∙ (w c).2 ∙ (b c).2,
      λ j h. (r j).ppid_is ∙ ground (arith, (w j).1, (b j).1, cur2),
      λ waits. (r p).stays_ready (
          subst (λ q. is_ready (status_of k2 q) ≡ true) parent
            ((w p).4 (rw parent ((b p).4 own ∙ waits)))),
    )
