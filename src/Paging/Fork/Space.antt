-- ===== src/Paging/Fork/Space.antt =====
-- `sys_fork`: what a loop over the page directories starts from, and what it makes of them.
use chouryos.Base.{
  ℕ, ◌+◌, ◌-◌, ◌≤◌, ◌<◌, ◌≡◌, ◌≢◌, ◌^◌, sym, ◌∙◌, some, inl, inr, true, false, ◌==◌, arith,
  Bool-cases, subst,
}
use chouryos.Memory.Bitmap.{IsBytes, isavl}
use chouryos.Memory.Frames.{getmpage}
use chouryos.Memory.Frames.Alloc.{after}
use chouryos.Paging.{Paging, entry, absent}
use chouryos.Paging.Fork.Runs.{shared_entry}

-- The directories `cur` of the parent and `new` of the child, and the parent's page tables from
-- entry `lo` up to `hi`: they are in use and apart, none of their pages is shared yet, the child's
-- directory is still a copy of the parent's, and there is a frame for each round.
pub record IsSpace (s : Paging) (cur new lo hi : ℕ) : Type 0 where
  pub bytes : IsBytes s.mmap
  pub frames : (k : ℕ) → k < hi - lo → (n : ℕ) × ((getmpage (after k s.mmap)).0 ≡ some n)
  pub used : (isavl s.mmap cur ≡ false) × (isavl s.mmap new ≡ false) × (cur ≢ new)
  pub copied : (i : ℕ) → lo ≤ i → i < hi → entry s new i ≡ entry s cur i
  pub tables :
      (i : ℕ)
      → lo ≤ i
      → i < hi
      → absent s cur i ≡ false
      → (isavl s.mmap (entry s cur i).base ≡ false)
        × ((entry s cur i).base ≢ cur)
        × ((entry s cur i).base ≢ new)
        × ((entry s cur i).base < 2 ^ 20)
  pub apart :
      (i k : ℕ)
      → lo ≤ i
      → i < k
      → k < hi
      → absent s cur i ≡ false
      → absent s cur k ≡ false
      → (entry s cur i).base ≢ (entry s cur k).base
  pub unshared :
      (i x : ℕ)
      → lo ≤ i
      → i < hi
      → absent s cur i ≡ false
      → x < 1024
      → (entry s (entry s cur i).base x).avl ≢ 1

-- Parent and child have the same pages, each through its own tables, and none of them was changed. The
-- tables of the child are in frames that were available, so that no table of the parent is one.
pub record IsChild (s s' : Paging) (cur new lo hi : ℕ) : Type 0 where
  pub directory :
      (i : ℕ)
      → lo ≤ i
      → i < hi
      → absent s cur i ≡ false
      → (entry s' new i ≡ record (entry s cur i) { base = (entry s' new i).base })
        × (isavl s.mmap (entry s' new i).base ≡ true)
        × ((entry s' new i).base ≢ (entry s cur i).base)
  pub own :
      (i k : ℕ)
      → lo ≤ i
      → i < k
      → k < hi
      → absent s cur i ≡ false
      → absent s cur k ≡ false
      → (entry s' new i).base ≢ (entry s' new k).base
  pub no_table : (i : ℕ) → lo ≤ i → i < hi → absent s cur i ≡ true → entry s' new i ≡ entry s cur i
  pub pages :
      (i x : ℕ)
      → lo ≤ i
      → i < hi
      → absent s cur i ≡ false
      → x < 1024
      → (entry s' (entry s' new i).base x ≡ shared_entry (entry s (entry s cur i).base x))
        × (entry s' (entry s cur i).base x ≡ shared_entry (entry s (entry s cur i).base x))
  pub parent : (x : ℕ) → entry s' cur x ≡ entry s cur x
  pub bytes : (f o : ℕ) → isavl s.mmap f ≡ false → s'.bytes f o ≡ s.bytes f o
  pub outside : (i : ℕ) → i < lo → entry s' new i ≡ entry s new i
  pub rest :
      (f x : ℕ)
      → isavl s.mmap f ≡ false
      → f ≢ new
      → ((i : ℕ) → lo ≤ i → i < hi → absent s cur i ≡ false → f ≢ (entry s cur i).base)
      → entry s' f x ≡ entry s f x

-- The tables behind the first.
pub IsSpace-skip :
    (s : Paging) (cur new lo hi : ℕ) → IsSpace s cur new lo hi → IsSpace s cur new (lo + 1) hi
IsSpace-skip s cur new lo hi v = record {
  bytes = v.bytes;
  frames = λ k l. v.frames k (omega arith);
  used = v.used;
  copied = λ i a b. v.copied i (omega arith) b;
  tables = λ i a b. v.tables i (omega arith) b;
  apart = λ i k a b c. v.apart i k (omega arith) b c;
  unshared = λ i x a b. v.unshared i x (omega arith) b;
}

pub IsChild-skip :
    (s s' : Paging) (cur new lo hi : ℕ)
    → absent s cur lo ≡ true
    → entry s new lo ≡ entry s cur lo
    → IsChild s s' cur new (lo + 1) hi
    → IsChild s s' cur new lo hi
IsChild-skip s s' cur new lo hi e copied c = record {
  directory = λ i a b p. c.directory i (later i a p) b p;
  own = λ i k a l b p q. c.own i k (later i a p) l b p q;
  no_table = λ i a b p. elim (Bool-cases (lo == i)) [
    | inl q ↦
        let at : lo ≡ i = ground arith in
        subst (λ j. entry s' new j ≡ entry s cur j) at (c.outside lo (omega arith) ∙ copied)
    | inr q ↦ let more : lo + 1 ≤ i = ground arith in c.no_table i more b p
  ];
  pages = λ i x a b p. c.pages i x (later i a p) b p;
  parent = c.parent;
  bytes = c.bytes;
  outside = λ i l. c.outside i (omega arith);
  rest = λ f x u nn d. c.rest f x u nn (λ i a b p. d i (omega arith) b p);
}
  where
    later : (i : ℕ) → lo ≤ i → absent s cur i ≡ false → lo + 1 ≤ i
    later i a p = elim (Bool-cases (lo == i)) [
      | inl q ↦
          let at : lo ≡ i = ground arith in
          absurd (ground (arith, e, subst (λ k. absent s cur k ≡ false) (sym at) p))
      | inr q ↦ ground arith
    ]
