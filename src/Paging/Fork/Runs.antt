-- ===== src/Paging/Fork/Runs.antt =====
-- The loop of `sys_fork` over the entries of one page table.
use chouryos.Base.{
  ℕ, zero, suc, ◌+◌, ◌≤◌, ◌<◌, ◌≡◌, ◌≢◌, refl, sym, ◌∙◌, some, inl, inr, Bool, true, false, ◌&&◌,
  ◌==◌, leb, ltb, arith, if◌then◌else◌, Bool-cases, ne→==, ==_iff, subst,
}
use chouryos.Memory.Window.{Ptable}
use chouryos.Memory.Share.{Sharing, sharepage, mark, new_share}
use chouryos.Paging.{Paging, entry, absent}
use chouryos.Paging.Fork.{fork_page, fork_pages}

-- An entry of which both processes have a copy: a page that is present can be written by neither.
abbrev pub shared_entry : Ptable → Ptable
shared_entry e = if e.p == 0 then e else record e { avl = 1; r_w = 0 }

abbrev pub among : ℕ → ℕ → ℕ → Bool
among lo hi x = leb lo x && ltb x hi

-- The entries from `lo` up to `hi` are shared: both tables have the one that the parent had.
pub record IsShared (s s' : Paging) (cur new lo hi : ℕ) : Type 0 where
  pub first :
      (x : ℕ)
      → entry s' cur x ≡ (if among lo hi x then shared_entry (entry s cur x) else entry s cur x)
  pub second :
      (x : ℕ)
      → entry s' new x ≡ (if among lo hi x then shared_entry (entry s cur x) else entry s new x)
  pub tables : (f x : ℕ) → f ≢ cur → f ≢ new → entry s' f x ≡ entry s f x
  pub bytes : s'.bytes ≡ s.bytes
  pub mmap : s'.mmap ≡ s.mmap

module _ (s : Sharing) (f i avl r_w : ℕ) where
  mark-here : (mark f i avl r_w s).table f i ≡ record (s.table f i) { avl = avl; r_w = r_w }
  mark-here = ground arith

  mark-index : (x : ℕ) → i ≢ x → (mark f i avl r_w s).table f x ≡ s.table f x
  mark-index x ne = ground arith

  mark-frame : (g x : ℕ) → f ≢ g → (mark f i avl r_w s).table g x ≡ s.table g x
  mark-frame g x ne = ground arith

one : (j x : ℕ) → among j (j + 1) x ≡ (j == x)
one j x = ground arith

-- Only entry `j` changes, in both tables.
one-IsShared :
    (s s' : Paging) (cur new j : ℕ)
    → entry s' cur j ≡ shared_entry (entry s cur j)
    → entry s' new j ≡ shared_entry (entry s cur j)
    → ((x : ℕ) → j ≢ x → (entry s' cur x ≡ entry s cur x) × (entry s' new x ≡ entry s new x))
    → ((f x : ℕ) → f ≢ cur → f ≢ new → entry s' f x ≡ entry s f x)
    → s'.bytes ≡ s.bytes
    → s'.mmap ≡ s.mmap
    → IsShared s s' cur new j (j + 1)
one-IsShared s s' cur new j a b rest tables bytes mmap = record {
  first = λ x. rw (one j x) (elim (Bool-cases (j == x)) [
    | inl e ↦
        let at : j ≡ x = (==_iff j x).0 e in
        rw e (subst (λ y. entry s' cur y ≡ shared_entry (entry s cur y)) at a)
    | inr e ↦ rw e (rest x (ground arith)).0
  ]);
  second = λ x. rw (one j x) (elim (Bool-cases (j == x)) [
    | inl e ↦
        let at : j ≡ x = (==_iff j x).0 e in
        rw e (subst (λ y. entry s' new y ≡ shared_entry (entry s cur y)) at b)
    | inr e ↦ rw e (rest x (ground arith)).1
  ]);
  tables = tables;
  bytes = bytes;
  mmap = mmap;
}

fork_page-IsShared :
    (fuel i j cur new : ℕ) (s : Paging)
    → i ≢ 256
    → cur ≢ new
    → (entry s cur j).avl ≢ 1
    → entry s new j ≡ entry s cur j
    → (s' : Paging) × (fork_page fuel i j cur new s ≡ some s') × IsShared s s' cur new j (j + 1)
unfolding fork_page sharepage
fork_page-IsShared fuel i j cur new s hi ne h same = elim (Bool-cases (absent s cur j)) [
  | inl e ↦ (
    s,
    rw (ne→== i 256 hi, e) refl,
    one-IsShared s s cur new j (rw e refl) (rw e same) (λ x d. (refl, refl)) (λ f x a b. refl) refl
        refl,
  )
  | inr e ↦
      let psl = new_share (entry s cur j).base cur j new j s.sharing.psl in
      let t1 : Sharing = mark cur j 1 0 (record s.sharing { psl = psl }) in
      let t2 : Sharing = mark new j 1 0 t1 in
      let back : new ≢ cur = λ q. ne (sym q) in
      let old : t1.table new j ≡ entry s cur j =
        mark-frame (record s.sharing { psl = psl }) cur j 1 0 new j ne ∙ same in
      (
        record s { sharing = t2 },
        rw (ne→== i 256 hi, e, ne→== (entry s cur j).avl 1 h) refl,
        one-IsShared s (record s { sharing = t2 }) cur new j
            (mark-frame t1 new j 1 0 cur j back
              ∙ mark-here (record s.sharing { psl = psl }) cur j 1 0
              ∙ rw e refl)
            (mark-here t1 new j 1 0 ∙ rw (old, e) refl)
            (λ x d. (
              mark-frame t1 new j 1 0 cur x back
                  ∙ mark-index (record s.sharing { psl = psl }) cur j 1 0 x d,
              mark-index t1 new j 1 0 x d
                  ∙ mark-frame (record s.sharing { psl = psl }) cur j 1 0 new x ne,
            ))
            (λ f x a b.
              mark-frame t1 new j 1 0 f x (λ q. b (sym q))
              ∙ mark-frame (record s.sharing { psl = psl }) cur j 1 0 f x (λ q. a (sym q)))
            refl refl,
      )
]

-- Two runs of entries, one behind the other.
IsShared-append :
    (s s' s'' : Paging) (cur new lo mid hi : ℕ)
    → lo ≤ mid
    → mid ≤ hi
    → IsShared s s' cur new lo mid
    → IsShared s' s'' cur new mid hi
    → IsShared s s'' cur new lo hi
IsShared-append s s' s'' cur new lo mid hi a b p q = record {
  first = λ x. (entries x).0;
  second = λ x. (entries x).1;
  tables = λ f x c d. q.tables f x c d ∙ p.tables f x c d;
  bytes = q.bytes ∙ p.bytes;
  mmap = q.mmap ∙ p.mmap;
}
  where
    entries :
        (x : ℕ)
        → (entry s'' cur x
            ≡ (if among lo hi x then shared_entry (entry s cur x) else entry s cur x))
          × (entry s'' new x
              ≡ (if among lo hi x then shared_entry (entry s cur x) else entry s new x))
    entries x = elim (Bool-cases (among mid hi x)) [
      | inl e ↦
          let early : among lo mid x ≡ false = ground arith in
          let whole : among lo hi x ≡ true = ground arith in
          let unchanged : entry s' cur x ≡ entry s cur x = p.first x ∙ rw early refl in
          rw whole (q.first x ∙ rw (e, unchanged) refl, q.second x ∙ rw (e, unchanged) refl)
      | inr e ↦
          let whole : among lo hi x ≡ among lo mid x = ground arith in
          rw whole (q.first x ∙ rw e (p.first x), q.second x ∙ rw e (p.second x))
    ]

none-IsShared : (s : Paging) (cur new j : ℕ) → IsShared s s cur new j j
none-IsShared s cur new j = record {
  first = λ x. rw (empty x) refl;
  second = λ x. rw (empty x) refl;
  tables = λ f x a b. refl;
  bytes = refl;
  mmap = refl;
}
  where
    empty : (x : ℕ) → among j j x ≡ false
    empty x = ground arith

pub fork_pages-IsShared :
    (fuel left i j cur new : ℕ) (s : Paging)
    → i ≢ 256
    → cur ≢ new
    → ((x : ℕ) → j ≤ x → x < j + left → ((entry s cur x).avl ≢ 1) × (entry s new x ≡ entry s cur x))
    → (s' : Paging) × (fork_pages fuel left i j cur new s ≡ some s')
      × IsShared s s' cur new j (j + left)
unfolding fork_pages
fork_pages-IsShared fuel zero i j cur new s hi ne h =
    (s, refl, subst (IsShared s s cur new j) (omega arith) (none-IsShared s cur new j))
fork_pages-IsShared fuel (suc left) i j cur new s hi ne h =
    let now = h j (omega arith) (omega arith) in
    let (s1, e1, p1) = fork_page-IsShared fuel i j cur new s hi ne now.0 now.1 in
    let later : (x : ℕ) → j + 1 ≤ x → among j (j + 1) x ≡ false = λ x l. ground arith in
    let (s2, e2, p2) = fork_pages-IsShared fuel left i (j + 1) cur new s1 hi ne (λ x a b.
      let keep_cur : entry s1 cur x ≡ entry s cur x = p1.first x ∙ rw (later x a) refl in
      let keep_new : entry s1 new x ≡ entry s new x = p1.second x ∙ rw (later x a) refl in
      let at = h x (omega arith) (omega arith) in rw (keep_cur, keep_new) at) in
    (
      s2,
      rw e1 e2,
      subst (IsShared s s2 cur new j) (omega arith) (
          IsShared-append s s1 s2 cur new j (j + 1) (j + 1 + left) (omega arith) (omega arith) p1
            p2),
    )
