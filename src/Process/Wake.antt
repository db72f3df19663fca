-- ===== src/Process/Wake.antt =====
-- Whom the interrupt handlers wake.
use chouryos.Base.{
  ℕ, zero, suc, ◌+◌, ◌<◌, ◌≡◌, ◌∙◌, ==_iff, lt→ltb, le→leb, refl, Bool, true, false, ◌&&◌, arith,
  ◌==◌, leb, ltb, if◌then◌else◌, Bool-cases, inl, inr,
}
use chouryos.Process.{
  Status, ready, is_waiting, Dev, dev_eq, max_process, Table, status_of, unblock, wake_from, wake,
}

-- Process `j` waits for the device.
abbrev pub waits_for : Dev → Table → ℕ → Bool
waits_for dev k j = is_waiting (status_of k j) && dev_eq (k.protable j).waitfor dev

wake_one : Dev → ℕ → Table → Table
wake_one dev i k = if waits_for dev k i then unblock i k else k

wake_one_def :
    (dev : Dev) (i : ℕ) (k : Table)
    → (if is_waiting (status_of k i) && dev_eq (k.protable i).waitfor dev then unblock i k else k)
      ≡ wake_one dev i k
unfolding wake_one
wake_one_def dev i k = refl

wake_one_lem :
    (dev : Dev) (i j : ℕ) (k : Table)
    → (status_of (wake_one dev i k) j
        ≡ (if (i == j) && waits_for dev k j then ready else status_of k j))
      × (((wake_one dev i k).protable j).waitfor ≡ (k.protable j).waitfor)
unfolding wake_one unblock
wake_one_lem dev i j k = elim (Bool-cases (i == j)) [
  | inl q ↦ rw ((==_iff i j).0 q) (ground arith)
  | inr q ↦ rw q (ground arith)
]

waits_for-wake_one :
    (dev : Dev) (i j : ℕ) (k : Table)
    → waits_for dev (wake_one dev i k) j
      ≡ (if (i == j) && waits_for dev k j then false else waits_for dev k j)
waits_for-wake_one dev i j k =
    let (s, w) = wake_one_lem dev i j k in rw (s, w) (woken ((i == j) && waits_for dev k j))
  where
    woken :
        (b : Bool)
        → is_waiting (if b then ready else status_of k j) && dev_eq (k.protable j).waitfor dev
          ≡ (if b then false else waits_for dev k j)
    woken true = refl
    woken false = refl

-- One slot more, for a process that waits (`b`) or not.
merge :
    (i j left : ℕ) (b : Bool) (s : Status)
    → (if (leb (i + 1) j && ltb j (i + 1 + left)) && (if (i == j) && b then false else b)
        then ready
        else (if (i == j) && b then ready else s))
      ≡ (if (leb i j && ltb j (i + suc left)) && b then ready else s)
merge i j left true s = ground arith
merge i j left false s = ground arith

wake_from_lem :
    (left i : ℕ) (dev : Dev) (k : Table) (j : ℕ)
    → status_of (wake_from left i dev k) j
      ≡ (if (leb i j && ltb j (i + left)) && waits_for dev k j then ready else status_of k j)
unfolding wake_from
wake_from_lem zero i dev k j = ground arith
wake_from_lem (suc left) i dev k j = rw (wake_one_def dev i k) (
    wake_from_lem left (i + 1) dev (wake_one dev i k) j
    ∙ rw (waits_for-wake_one dev i j k, (wake_one_lem dev i j k).0)
        (merge i j left (waits_for dev k j) (status_of k j)))

-- An interrupt of a device makes every process of the table ready that waits for it, and leaves
-- the status of every other.
pub wake_lem :
    (dev : Dev) (k : Table) (j : ℕ)
    → j < 10
    → status_of (wake dev k) j ≡ (if waits_for dev k j then ready else status_of k j)
unfolding wake
wake_lem dev k j h =
    wake_from_lem max_process 0 dev k j ∙ rw (le→leb 0 j (omega arith), lt→ltb j 10 h)
