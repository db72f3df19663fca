-- ===== src/Paging/Fork/Slot.antt =====
-- Which slot `sys_fork` takes, and when there is none.
use chouryos.Base.{
  ℕ, zero, suc, ◌+◌, ◌≤◌, ◌<◌, ◌≡◌, ◌≢◌, ◌⊎◌, refl, inl, inr, true, false, Option, none, some, ◌==◌,
  arith, [], Bool-cases, ne→==,
}
use chouryos.Process.{Table, is_unuse, status_of, max_process, ready}
use chouryos.Paging.{Paging}
use chouryos.Paging.Fork.{
  Registers, Tasks, Forked, forked, refused, lost, find_unuse, run_child, eagain, copy_process,
  fork_memory, sys_fork,
}

-- The slot is the first from `lo` on that is not in use.
pub record IsSlot (k : Table) (lo hi new : ℕ) : Type 0 where
  pub range : (lo ≤ new) × (new < hi)
  pub free : is_unuse (status_of k new) ≡ true
  pub first : (j : ℕ) → lo ≤ j → j < new → is_unuse (status_of k j) ≡ false

find_unuse-IsSlot :
    (left i : ℕ) (k : Table)
    → ((find_unuse left i k ≡ i + left)
        × ((j : ℕ) → i ≤ j → j < i + left → is_unuse (status_of k j) ≡ false))
      ⊎ IsSlot k i (i + left) (find_unuse left i k)
unfolding find_unuse
find_unuse-IsSlot zero i k = inl (omega arith, λ j a b. absurd (omega arith))
find_unuse-IsSlot (suc left) i k = elim (Bool-cases (is_unuse (status_of k i))) [
  | inl e ↦ inr (
      rw e (record {
        range = (omega arith, omega arith);
        free = e;
        first = λ j a b. absurd (omega arith);
      }))
  | inr e ↦ rw e (elim (find_unuse-IsSlot left (i + 1) k) [
    | inl (h, g) ↦ inl (
      omega (arith, h),
      λ j a b. elim (Bool-cases (i == j)) [
        | inl q ↦ let at : i ≡ j = ground arith in rw (← at) e
        | inr q ↦ g j (ground arith) (omega arith)
      ],
    )
    | inr r ↦ inr (record {
      range = (omega (arith, r.range), omega (arith, r.range));
      free = r.free;
      first = λ j a b. elim (Bool-cases (i == j)) [
        | inl q ↦ let at : i ≡ j = ground arith in rw (← at) e
        | inr q ↦ r.first j (ground arith) b
      ];
    })
  ])
]

-- The child in slot `new`, a copy of the current process but for its number, its parent, its signals
-- and what `fork` gives in its registers, with the memory `s`; every other slot is as it was.
pub record IsCopied (t t' : Tasks) (prs : Registers) (new : ℕ) (s : Paging) : Type 0 where
  pub process : t'.processes.protable new ≡ record (t.processes.protable t.processes.curpid) {
    pid = new;
    ppid = t.processes.curpid;
    status = ready;
    signals = [];
  }
  pub registers : t'.reg new ≡ record prs { eax = 0 }
  pub files : (t'.file new ≡ t.file t.processes.curpid) × (t'.heap new ≡ t.heap t.processes.curpid)
  pub others :
      (j : ℕ)
      → new ≢ j
      → (t'.processes.protable j ≡ t.processes.protable j)
        × (t'.reg j ≡ t.reg j)
        × (t'.pde j ≡ t.pde j)
        × (t'.file j ≡ t.file j)
        × (t'.heap j ≡ t.heap j)
  pub current : t'.processes.curpid ≡ t.processes.curpid
  pub memory : t'.paging ≡ s
  pub enabled : (t'.interrupts ≡ true) × (t'.errno ≡ t.errno)

-- What comes of the child in slot `new`, by what comes of its memory.
abbrev pub Outcome : Tasks → Registers → ℕ → Option Paging → Forked → Type 0
Outcome t prs new (some s) r = (t' : Tasks) × (r ≡ forked new t') × IsCopied t t' prs new s
Outcome t prs new none r = r ≡ lost

run_child-Outcome :
    (new : ℕ) (prs : Registers) (t : Tasks) (o : Option Paging)
    → Outcome t prs new o (run_child new (copy_process new prs t) o)
unfolding copy_process
run_child-Outcome new prs t none = refl
run_child-Outcome new prs t (some s) =
    let self : (new == new) ≡ true = ground arith in
    (
      _,
      refl,
      record {
        process = rw self refl;
        registers = rw self refl;
        files = (rw self refl, rw self refl);
        others = λ j ne.
            let other : (new == j) ≡ false = ne→== new j ne in
            (rw other refl, rw other refl, rw other refl, rw other refl, rw other refl);
        current = refl;
        memory = refl;
        enabled = (refl, refl);
      },
    )

-- `sys_fork` fails exactly if the slots 1 to 9 of the process table are all in use, with `EAGAIN`, and
-- nothing else changes than that interrupts are disabled. Otherwise the child is in the first slot that
-- is not in use: `sys_fork` gives its number, and it is a ready copy of the current process, a child of
-- it without signals and with 0 in `eax`, with the memory that the copy of the page tables made, while
-- all other slots are as they were. The result is lost only if that copy itself does not end.
pub sys_fork-IsSlot :
    (fuel : ℕ) (prs : Registers) (t : Tasks)
    → ((sys_fork fuel prs t ≡ refused (record t { errno = eagain; interrupts = false }))
        × ((j : ℕ) → 1 ≤ j → j < max_process → is_unuse (status_of t.processes j) ≡ false))
      ⊎ ((new : ℕ) × IsSlot t.processes 1 max_process new
          × Outcome t prs new (fork_memory fuel new (copy_process new prs t)) (sys_fork fuel prs t))
unfolding sys_fork
sys_fork-IsSlot fuel prs t = elim (find_unuse-IsSlot 9 1 t.processes) [
  | inl (h, g) ↦ inl (rw h refl, g)
  | inr r ↦
      let new = find_unuse 9 1 t.processes in
      let child = copy_process new prs t in
      let some_slot : (new == max_process) ≡ false =
        ne→== new 10 (λ q. absurd (omega (arith, r.range, q))) in
      inr (new, r, rw some_slot (run_child-Outcome new prs t (fork_memory fuel new child)))
]
