-- ===== src/Memory/Share/Pair/Write.antt =====
-- Two users of a frame, of which the first takes it back: what becomes of the entries.
use chouryos.Base.{ℕ, ◌≡◌, ◌≢◌, some, arith}
use chouryos.Memory.Share.{Sharing, sharepage, unlist, devpage}
use chouryos.Memory.Share.Pair.{
  IsFree, IsPair, IsOwned, shared, second_entry, owned, owned_entries, base, bases,
  sharepage-shared, devpage-first,
}

-- The entries while the frame is shared, in `s1`, and after the first user took it back, in `s2`.
pub record IsTaken (s s1 s2 : Sharing) (a ia b ib : ℕ) : Type 0 where
  pub marked : (s1.table a ia).avl ≡ 1
  pub apart : (f i : ℕ) → f ≢ a → f ≢ b → s1.table f i ≡ s.table f i
  pub bases :
      ((s2.table a ia).base ≡ (s.table a ia).base) × ((s2.table b ib).base ≡ (s.table a ia).base)
  pub owners : IsOwned s s2 a ia b ib

module _ (s : Sharing) (a ia b ib i j k f : ℕ) (v : IsFree s.psl i j k)
    (p : IsPair s a ia b ib) where
  taken : Sharing
  taken = owned s a ia b ib i j k f v p a ia (second_entry s a ia b ib i j k f v p)

  taken_bases :
      ((taken.table a ia).base ≡ (s.table a ia).base)
      × ((taken.table b ib).base ≡ (s.table a ia).base)
  unfolding taken owned second_entry unlist base
  taken_bases =
      let kept = bases s a ia b ib i j k f v p in
      (ground (arith, p.tables, kept.0), ground (arith, p.tables, kept.1))

  taken_entries : IsTaken s (shared s a ia b ib i j k f v p) taken a ia b ib
  unfolding taken shared
  taken_entries = record {
    marked = ground (arith, p.tables);
    apart = λ f i na nb. ground arith;
    bases = taken_bases;
    owners = (owned_entries s a ia b ib i j k f v p).1;
  }

  pub devpage-IsTaken :
      (s1 : Sharing) × (s2 : Sharing) × (sharepage f a ia b ib s ≡ some s1)
      × (devpage f a ia s1 ≡ some s2)
      × IsTaken s s1 s2 a ia b ib
  unfolding taken
  devpage-IsTaken = (
    _,
    taken,
    sharepage-shared s a ia b ib i j k f v p,
    devpage-first s a ia b ib i j k f v p,
    taken_entries,
  )
