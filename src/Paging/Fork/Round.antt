-- ===== src/Paging/Fork/Round.antt =====
-- `sys_fork` at one page table of the parent, and the loop over those behind it.
use chouryos.Base.{
  ℕ, suc, ◌+◌, ◌≤◌, ◌<◌, ◌≡◌, ◌≢◌, refl, sym, ap, ◌∙◌, some, inl, inr, true, false, ◌==◌, arith,
  if◌then◌else◌, Bool-cases, subst,
}
use chouryos.Memory.Bitmap.{isavl}
use chouryos.Memory.Frames.{getmpage}
use chouryos.Memory.Frames.Alloc.{after, getmpage-IsBytes, isavl-getmpage}
use chouryos.Memory.Window.{Ptable}
use chouryos.Paging.{Paging, entry, absent}
use chouryos.Paging.Fork.Runs.{shared_entry}
use chouryos.Paging.Fork.Pages.{IsForked}
use chouryos.Paging.Fork.Space.{IsSpace, IsChild}

-- One table, and the tables behind it.
module _ (s s1 : Paging) (cur new lo hi n : ℕ) (v : IsSpace s cur new lo hi) (inside : lo < hi)
    (present : absent s cur lo ≡ false) (e : (getmpage s.mmap).0 ≡ some n)
    (f : IsForked s s1 cur new lo n) where
  taken : (x : ℕ) → isavl s1.mmap x ≡ (if n == x then false else isavl s.mmap x)
  taken x = rw (f.mmap) ((isavl-getmpage s.mmap n v.bytes e).1 x)

  stays : (x : ℕ) → isavl s.mmap x ≡ false → isavl s1.mmap x ≡ false
  stays x u = ground (arith, taken x)

  not_new : (x : ℕ) → isavl s.mmap x ≡ false → x ≢ n
  not_new x u q =
      ground (arith, (isavl-getmpage s.mmap n v.bytes e).0, subst (λ y. isavl s.mmap y ≡ false) q u)

  before : (i : ℕ) → absent s1 cur i ≡ false → absent s cur i ≡ false
  before i p = ap (λ (t : Ptable). t.p == 0) (sym (f.parent i)) ∙ p

  now : (i : ℕ) → absent s cur i ≡ false → absent s1 cur i ≡ false
  now i p = ap (λ (t : Ptable). t.p == 0) (f.parent i) ∙ p

  kept :
      (i x : ℕ)
      → lo + 1 ≤ i
      → i < hi
      → absent s cur i ≡ false
      → entry s1 (entry s cur i).base x ≡ entry s (entry s cur i).base x
  kept i x a b p =
      let t = v.tables i (omega arith) b p in
      f.rest (entry s cur i).base x (not_new (entry s cur i).base t.0) t.2
        (λ q. v.apart lo i (omega arith) (omega arith) b present p (sym q))

  pub IsSpace-next : IsSpace s1 cur new (lo + 1) hi
  unfolding after
  IsSpace-next = record {
    bytes = rw (f.mmap) (getmpage-IsBytes s.mmap v.bytes);
    frames = λ k l. rw (f.mmap) (v.frames (suc k) (omega arith));
    used = (stays cur v.used.0, stays new v.used.1, v.used.2);
    copied = λ i a b.
        f.others i (λ q. absurd (omega arith)) ∙ v.copied i (omega arith) b ∙ sym (f.parent i);
    tables = λ i a b p.
        let t = v.tables i (omega arith) b (before i p) in
        rw (f.parent i) (stays (entry s cur i).base t.0, t.1, t.2, t.3);
    apart = λ i k a b c p q.
        rw (f.parent i, f.parent k) (v.apart i k (omega arith) b c (before i p) (before k q));
    unshared = λ i x a b p l.
        rw (f.parent i, kept i x a b (before i p)) (v.unshared i x (omega arith) b (before i p) l);
  }

  -- The child's entry for the table at `lo`.
  first_entry :
      (s2 : Paging)
      → IsChild s1 s2 cur new (lo + 1) hi
      → entry s2 new lo ≡ record (entry s cur lo) { base = n }
  first_entry s2 c =
      c.outside lo (omega arith)
      ∙ f.child
      ∙ (λ i. record (v.copied lo (omega arith) inside i) { base = n })

  first_base : (s2 : Paging) → IsChild s1 s2 cur new (lo + 1) hi → (entry s2 new lo).base ≡ n
  first_base s2 c = ap (λ (t : Ptable). t.base) (first_entry s2 c)

  first_directory :
      (s2 : Paging)
      → IsChild s1 s2 cur new (lo + 1) hi
      → (entry s2 new lo ≡ record (entry s cur lo) { base = (entry s2 new lo).base })
        × (isavl s.mmap (entry s2 new lo).base ≡ true)
        × ((entry s2 new lo).base ≢ (entry s cur lo).base)
  first_directory s2 c =
      let base = first_base s2 c in
      let t = v.tables lo (omega arith) inside present in
      rw base (
        first_entry s2 c,
        (isavl-getmpage s.mmap n v.bytes e).0,
        λ q. not_new (entry s cur lo).base t.0 (sym q),
      )

  was_available : (x : ℕ) → isavl s1.mmap x ≡ true → (isavl s.mmap x ≡ true) × (n ≢ x)
  was_available x u = (ground (arith, taken x), λ q. ground (arith, taken x, q))

  first_pages :
      (s2 : Paging)
      → IsChild s1 s2 cur new (lo + 1) hi
      → (x : ℕ) → x < 1024
      → (entry s2 (entry s2 new lo).base x ≡ shared_entry (entry s (entry s cur lo).base x))
        × (entry s2 (entry s cur lo).base x ≡ shared_entry (entry s (entry s cur lo).base x))
  first_pages s2 c x l =
      let t = v.tables lo (omega arith) inside present in
      let child : (entry s2 new lo).base ≡ n = first_base s2 c in
      let fresh : isavl s1.mmap n ≡ false = ground (arith, taken n) in
      rw child (
        c.rest n x fresh (λ q. not_new new v.used.1 (sym q))
              (λ i a b p q.
                let d = v.tables i (omega arith) b (before i p) in
                not_new (entry s cur i).base d.0
                  (sym (q ∙ ap (λ (y : Ptable). y.base) (f.parent i))))
            ∙ (f.pages x l).0,
        c.rest (entry s cur lo).base x (stays (entry s cur lo).base t.0) t.2 (λ i a b p q.
              v.apart lo i (omega arith) (omega arith) b present (before i p)
                (q ∙ ap (λ (y : Ptable). y.base) (f.parent i)))
            ∙ (f.pages x l).1,
      )

  pub IsChild-next : (s2 : Paging) → IsChild s1 s2 cur new (lo + 1) hi → IsChild s s2 cur new lo hi
  IsChild-next s2 c = record {
    directory = λ i a b p. elim (Bool-cases (lo == i)) [
      | inl q ↦
          let at : lo ≡ i = ground arith in
          subst
            (λ j.
              (entry s2 new j ≡ record (entry s cur j) { base = (entry s2 new j).base })
              × (isavl s.mmap (entry s2 new j).base ≡ true)
              × ((entry s2 new j).base ≢ (entry s cur j).base))
            at (first_directory s2 c)
      | inr q ↦
          let more : lo + 1 ≤ i = ground arith in
          let (same, free, ne) = c.directory i more b (now i p) in
          let d : (entry s1 cur i).base ≡ (entry s cur i).base =
            ap (λ (y : Ptable). y.base) (f.parent i) in
          (
            same ∙ (λ j. record (f.parent i j) { base = (entry s2 new i).base }),
            (was_available (entry s2 new i).base free).0,
            λ r. ne (r ∙ sym d),
          )
    ];
    own = λ i k a l b p r. elim (Bool-cases (lo == i)) [
      | inl q ↦
          let at : lo ≡ i = ground arith in
          let (same, free, ne) = c.directory k (omega (arith, a, l)) b (now k r) in
          subst (λ j. (entry s2 new j).base ≢ (entry s2 new k).base) at
            (λ w. (was_available (entry s2 new k).base free).1 (sym (first_base s2 c) ∙ w))
      | inr q ↦ let more : lo + 1 ≤ i = ground arith in c.own i k more l b (now i p) (now k r)
    ];
    no_table = λ i a b p. elim (Bool-cases (lo == i)) [
      | inl q ↦
          let at : lo ≡ i = ground arith in
          absurd (ground (arith, present, subst (λ k. absent s cur k ≡ true) (sym at) p))
      | inr q ↦
          let more : lo + 1 ≤ i = ground arith in
          let still : absent s1 cur i ≡ true = ap (λ (t : Ptable). t.p == 0) (f.parent i) ∙ p in
          c.no_table i more b still ∙ f.parent i
    ];
    pages = λ i x a b p l. elim (Bool-cases (lo == i)) [
      | inl q ↦
          let at : lo ≡ i = ground arith in
          subst
            (λ j.
              (entry s2 (entry s2 new j).base x ≡ shared_entry (entry s (entry s cur j).base x))
              × (entry s2 (entry s cur j).base x ≡ shared_entry (entry s (entry s cur j).base x)))
            at (first_pages s2 c x l)
      | inr q ↦
          let more : lo + 1 ≤ i = ground arith in
          let r = c.pages i x more b (now i p) l in
          let w = kept i x more b p in
          let d : (entry s1 cur i).base ≡ (entry s cur i).base =
            ap (λ (y : Ptable). y.base) (f.parent i) in
          (
            r.0 ∙ rw (d, w) refl,
            subst (λ g. entry s2 g x ≡ shared_entry (entry s1 g x)) d r.1 ∙ rw w refl,
          )
    ];
    parent = λ x. c.parent x ∙ f.parent x;
    bytes = λ g o u. c.bytes g o (stays g u) ∙ f.bytes g o (not_new g u);
    outside = λ i l. c.outside i (omega arith) ∙ f.others i (λ q. absurd (omega arith));
    rest = λ g x u nn d.
        c.rest g x (stays g u) nn (λ i a b p q.
          d i (omega arith) b (before i p) (q ∙ ap (λ (y : Ptable). y.base) (f.parent i)))
        ∙ f.rest g x (not_new g u) nn (d lo (omega arith) inside present);
  }
