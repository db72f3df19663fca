-- ===== src/Paging/Clean/Step.antt =====
-- `cleanup` from one page table of the process to the next.
use chouryos.Base.{
  ℕ, ◌+◌, ◌≤◌, ◌<◌, ◌≡◌, ◌≢◌, sym, ap, ◌∙◌, inl, inr, true, false, ◌==◌, arith, Bool-cases, subst,
}
use chouryos.Memory.Bitmap.{IsBytes, isavl}
use chouryos.Memory.Window.{Ptable}
use chouryos.Paging.{Paging, entry, absent}
use chouryos.Paging.Clean.{free_frame, unset}
use chouryos.Paging.Clean.Table.{
  IsLess, IsLess-trans, IsClean, unset-IsLess, unset-absent, unset-other, free_frame-IsLess,
  free_frame-isavl,
}

-- The page tables of the directory `pde` from entry `lo` up to `hi` are apart, and none of their pages
-- is shared.
pub record IsOwn (s : Paging) (pde lo hi : ℕ) : Type 0 where
  pub bytes : IsBytes s.mmap
  pub off : (i : ℕ) → lo ≤ i → i < hi → absent s pde i ≡ false → (entry s pde i).base ≢ pde
  pub apart :
      (i k : ℕ)
      → lo ≤ i
      → i < k
      → k < hi
      → absent s pde i ≡ false
      → absent s pde k ≡ false
      → (entry s pde i).base ≢ (entry s pde k).base
  pub unshared :
      (i x : ℕ)
      → lo ≤ i
      → i < hi
      → absent s pde i ≡ false
      → x < 1024
      → (entry s (entry s pde i).base x).avl ≡ 0

-- The tables and their pages are available.
pub record IsReleased (s s' : Paging) (pde lo hi : ℕ) : Type 0 where
  pub less : IsLess s s'
  pub empty : (i : ℕ) → lo ≤ i → i < hi → absent s' pde i ≡ true
  pub tables :
      (i : ℕ) → lo ≤ i → i < hi → absent s pde i ≡ false → isavl s'.mmap (entry s pde i).base ≡ true
  pub pages :
      (i x : ℕ)
      → lo ≤ i
      → i < hi
      → absent s pde i ≡ false
      → x < 1024
      → absent s (entry s pde i).base x ≡ false
      → isavl s'.mmap (entry s (entry s pde i).base x).base ≡ true
  pub later : (i : ℕ) → hi ≤ i → entry s' pde i ≡ entry s pde i
  pub others :
      (f x : ℕ)
      → f ≢ pde
      → ((i : ℕ) → lo ≤ i → i < hi → absent s pde i ≡ false → f ≢ (entry s pde i).base)
      → entry s' f x ≡ entry s f x

pub IsOwn-skip : (s : Paging) (pde lo hi : ℕ) → IsOwn s pde lo hi → IsOwn s pde (lo + 1) hi
IsOwn-skip s pde lo hi v = record {
  bytes = v.bytes;
  off = λ i a b. v.off i (omega arith) b;
  apart = λ i k a b c. v.apart i k (omega arith) b c;
  unshared = λ i x a b. v.unshared i x (omega arith) b;
}

pub IsOwn-init : (s : Paging) (pde lo hi : ℕ) → IsOwn s pde lo (hi + 1) → IsOwn s pde lo hi
IsOwn-init s pde lo hi v = record {
  bytes = v.bytes;
  off = λ i a b. v.off i a (omega arith);
  apart = λ i k a b c. v.apart i k a b (omega arith);
  unshared = λ i x a b. v.unshared i x a (omega arith);
}

-- A table that the directory does not have.
pub IsReleased-skip :
    (s s' : Paging) (pde lo hi : ℕ)
    → absent s pde lo ≡ true
    → IsReleased s s' pde (lo + 1) hi
    → IsReleased s s' pde lo hi
IsReleased-skip s s' pde lo hi e r = record {
  less = r.less;
  empty = λ i a b. elim (Bool-cases (lo == i)) [
    | inl q ↦
        let at : lo ≡ i = ground arith in
        subst (λ j. absent s' pde j ≡ true) at (r.less.gone pde lo e)
    | inr q ↦ r.empty i (ground arith) b
  ];
  tables = λ i a b p. r.tables i (more i a p) b p;
  pages = λ i x a b p. r.pages i x (more i a p) b p;
  later = r.later;
  others = λ f x n d. r.others f x n (λ i a b p. d i (omega arith) b p);
}
  where
    more : (i : ℕ) → lo ≤ i → absent s pde i ≡ false → lo + 1 ≤ i
    more i a p = elim (Bool-cases (lo == i)) [
      | inl q ↦
          let at : lo ≡ i = ground arith in
          absurd (ground (arith, e, subst (λ k. absent s pde k ≡ false) (sym at) p))
      | inr q ↦ ground arith
    ]

-- A table that the directory has.
module _ (s s1 : Paging) (pde lo hi : ℕ) (v : IsOwn s pde lo hi) (inside : lo < hi)
    (present : absent s pde lo ≡ false) (c : IsClean s s1 (entry s pde lo).base 0 1024) where
  unfoldable pub done : Paging
  done = unset pde lo (free_frame (entry s pde lo).base s1)

  pub done-IsLess : IsLess s done
  unfolding done
  done-IsLess =
      let s2 = free_frame (entry s pde lo).base s1 in
      IsLess-trans s s1 (unset pde lo s2) c.less (
        IsLess-trans s1 s2 (unset pde lo s2)
          (free_frame-IsLess s1 (entry s pde lo).base (c.less.bytes v.bytes))
          (unset-IsLess s2 pde lo))

  done_dir : (i : ℕ) → lo ≢ i → entry done pde i ≡ entry s pde i
  unfolding done
  done_dir i n = ground (arith, c.tables pde i (v.off lo (omega arith) inside present))

  done_other : (f x : ℕ) → f ≢ pde → f ≢ (entry s pde lo).base → entry done f x ≡ entry s f x
  unfolding done
  done_other f x n m =
      unset-other (free_frame (entry s pde lo).base s1) pde lo f x (λ q. n (sym q))
      ∙ c.tables f x (λ q. m (sym q))

  before : (i : ℕ) → lo + 1 ≤ i → absent done pde i ≡ false → absent s pde i ≡ false
  before i l p = ap (λ (t : Ptable). t.p == 0) (sym (done_dir i (omega arith))) ∙ p

  now : (i : ℕ) → lo + 1 ≤ i → absent s pde i ≡ false → absent done pde i ≡ false
  now i l p = ap (λ (t : Ptable). t.p == 0) (done_dir i (omega arith)) ∙ p

  done_table :
      (i x : ℕ)
      → lo + 1 ≤ i
      → i < hi
      → absent s pde i ≡ false
      → entry done (entry s pde i).base x ≡ entry s (entry s pde i).base x
  done_table i x a b p =
      done_other (entry s pde i).base x (v.off i (omega arith) b p)
        (λ q. v.apart lo i (omega arith) (omega arith) b present p (sym q))

  pub IsOwn-next : IsOwn done pde (lo + 1) hi
  IsOwn-next = record {
    bytes = done-IsLess.bytes v.bytes;
    off = λ i a b p. rw (done_dir i (omega arith)) (v.off i (omega arith) b (before i a p));
    apart = λ i k a b d p q.
        rw (done_dir i (omega arith), done_dir k (omega arith))
          (v.apart i k (omega arith) b d (before i a p) (before k (omega arith) q));
    unshared = λ i x a b p l.
        rw (done_dir i (omega arith), done_table i x a b (before i a p))
          (v.unshared i x (omega arith) b (before i a p) l);
  }

  this_page :
      (s2 : Paging)
      → IsReleased done s2 pde (lo + 1) hi
      → (x : ℕ) → x < 1024
      → absent s (entry s pde lo).base x ≡ false
      → isavl s2.mmap (entry s (entry s pde lo).base x).base ≡ true
  unfolding done
  this_page s2 r x l there =
      let page = (entry s (entry s pde lo).base x).base in
      r.less.stays page (
        (free_frame-IsLess s1 (entry s pde lo).base (c.less.bytes v.bytes)).stays page
          (c.freed x (omega arith) l there))

  later_page :
      (s2 : Paging)
      → IsReleased done s2 pde (lo + 1) hi
      → (i x : ℕ) → lo + 1 ≤ i
      → i < hi
      → absent s pde i ≡ false
      → x < 1024
      → absent s (entry s pde i).base x ≡ false
      → isavl s2.mmap (entry s (entry s pde i).base x).base ≡ true
  later_page s2 r i x more b p l q =
      let dir = done_dir i (omega arith) in
      let same = done_table i x more b p in
      let there : absent done (entry done pde i).base x ≡ false =
        subst (λ (t : Ptable). absent done t.base x ≡ false) (sym dir)
          (ap (λ (t : Ptable). t.p == 0) same ∙ q) in
      let freed : isavl s2.mmap (entry done (entry s pde i).base x).base ≡ true =
        subst (λ (t : Ptable). isavl s2.mmap (entry done t.base x).base ≡ true) dir
          (r.pages i x more b (now i more p) l there) in
      subst (λ (t : Ptable). isavl s2.mmap t.base ≡ true) same freed

  pub IsReleased-next :
      (s2 : Paging) → IsReleased done s2 pde (lo + 1) hi → IsReleased s s2 pde lo hi
  unfolding done
  IsReleased-next s2 r = record {
    less = IsLess-trans s done s2 done-IsLess r.less;
    empty = λ i a b. elim (Bool-cases (lo == i)) [
      | inl e ↦
          let at : lo ≡ i = ground arith in
          subst (λ j. absent s2 pde j ≡ true) at
            (r.less.gone pde lo (unset-absent (free_frame (entry s pde lo).base s1) pde lo))
      | inr e ↦ r.empty i (ground arith) b
    ];
    tables = λ i a b p. elim (Bool-cases (lo == i)) [
      | inl e ↦
          let at : lo ≡ i = ground arith in
          subst (λ j. isavl s2.mmap (entry s pde j).base ≡ true) at
            (r.less.stays (entry s pde lo).base
              (free_frame-isavl s1 (entry s pde lo).base (c.less.bytes v.bytes)))
      | inr e ↦
          let more : lo + 1 ≤ i = ground arith in
          subst (λ (t : Ptable). isavl s2.mmap t.base ≡ true) (done_dir i (omega arith))
            (r.tables i more b (now i more p))
    ];
    pages = λ i x a b p l q. elim (Bool-cases (lo == i)) [
      | inl e ↦
          let at : i ≡ lo = ground arith in
          let there : absent s (entry s pde lo).base x ≡ false =
            subst (λ j. absent s (entry s pde j).base x ≡ false) at q in
          subst (λ j. isavl s2.mmap (entry s (entry s pde j).base x).base ≡ true) (sym at)
            (this_page s2 r x l there)
      | inr e ↦ later_page s2 r i x (ground arith) b p l q
    ];
    later = λ i l. r.later i l ∙ done_dir i (omega arith);
    others = λ f x n d.
        r.others f x n (λ i a b p q.
          d i (omega arith) b (before i a p)
            (q ∙ ap (λ (t : Ptable). t.base) (done_dir i (omega arith))))
        ∙ done_other f x n (d lo (omega arith) inside present);
  }
