-- ===== src/Paging/Clean/Table.antt =====
-- `cleanup` at one page table, none of whose pages is shared.
use chouryos.Base.{
  ℕ, zero, suc, ◌+◌, ◌≤◌, ◌<◌, ◌≡◌, ◌≢◌, refl, sym, ap, ◌∙◌, some, inl, inr, true, false, ◌==◌,
  arith, Bool-cases, ==_iff, leb, subst,
}
use chouryos.Memory.Bitmap.{IsBytes, isavl, isavl-setavl, setavl-IsBytes}
use chouryos.Memory.Frames.{freempage}
use chouryos.Memory.Window.{Ptable}
use chouryos.Paging.{Paging, entry, absent}
use chouryos.Paging.Clean.{free_frame, unset, clean_page, clean_pages}

-- Frames only become available, and no entry becomes present or shared.
pub record IsLess (s s' : Paging) : Type 0 where
  pub stays : (f : ℕ) → isavl s.mmap f ≡ true → isavl s'.mmap f ≡ true
  pub bytes : IsBytes s.mmap → IsBytes s'.mmap
  pub gone : (f x : ℕ) → absent s f x ≡ true → absent s' f x ≡ true
  pub shares : (f x : ℕ) → (entry s' f x).avl ≡ (entry s f x).avl
  pub bases : (f x : ℕ) → (entry s' f x).base ≡ (entry s f x).base

pub IsLess-refl : (s : Paging) → IsLess s s
IsLess-refl s = record {
  stays = λ f h. h;
  bytes = λ h. h;
  gone = λ f x h. h;
  shares = λ f x. refl;
  bases = λ f x. refl;
}

pub IsLess-trans : (s s' s'' : Paging) → IsLess s s' → IsLess s' s'' → IsLess s s''
IsLess-trans s s' s'' a b = record {
  stays = λ f h. b.stays f (a.stays f h);
  bytes = λ h. b.bytes (a.bytes h);
  gone = λ f x h. b.gone f x (a.gone f x h);
  shares = λ f x. b.shares f x ∙ a.shares f x;
  bases = λ f x. b.bases f x ∙ a.bases f x;
}

pub unset-IsLess : (s : Paging) (f i : ℕ) → IsLess s (unset f i s)
unset-IsLess s f i = record {
  stays = λ g h. h;
  bytes = λ h. h;
  gone = λ g x h. ground (arith, h);
  shares = λ g x. ground arith;
  bases = λ g x. ground arith;
}

pub unset-absent : (s : Paging) (f i : ℕ) → absent (unset f i s) f i ≡ true
unset-absent s f i = ground arith

pub unset-other : (s : Paging) (f i g x : ℕ) → f ≢ g → entry (unset f i s) g x ≡ entry s g x
unset-other s f i g x h = ground arith

unset-later : (s : Paging) (f i x : ℕ) → i < x → entry (unset f i s) f x ≡ entry s f x
unset-later s f i x h = ground arith

pub free_frame-IsLess : (s : Paging) (page : ℕ) → IsBytes s.mmap → IsLess s (free_frame page s)
unfolding freempage
free_frame-IsLess s page hm = record {
  stays = λ f h. ground (arith, h, isavl-setavl s.mmap page f hm);
  bytes = λ h i. ground (arith, h i, setavl-IsBytes s.mmap page h i);
  gone = λ f x h. h;
  shares = λ f x. refl;
  bases = λ f x. refl;
}

pub free_frame-isavl :
    (s : Paging) (page : ℕ) → IsBytes s.mmap → isavl (free_frame page s).mmap page ≡ true
unfolding freempage
free_frame-isavl s page hm = ground (arith, isavl-setavl s.mmap page page hm)

-- The entries from `lo` up to `hi` of a table are gone, and the frames of those that were present are
-- available.
pub record IsClean (s s' : Paging) (f lo hi : ℕ) : Type 0 where
  pub less : IsLess s s'
  pub empty : (x : ℕ) → lo ≤ x → x < hi → absent s' f x ≡ true
  pub freed :
      (x : ℕ) → lo ≤ x → x < hi → absent s f x ≡ false → isavl s'.mmap (entry s f x).base ≡ true
  pub tables : (g x : ℕ) → f ≢ g → entry s' g x ≡ entry s g x
  pub later : (x : ℕ) → hi ≤ x → entry s' f x ≡ entry s f x

clean_page-IsClean :
    (s : Paging) (fuel f j : ℕ)
    → IsBytes s.mmap
    → (entry s f j).avl ≡ 0
    → (s' : Paging) × (clean_page fuel f j s ≡ some s') × IsClean s s' f j (j + 1)
unfolding clean_page
clean_page-IsClean s fuel f j hm h = elim (Bool-cases (absent s f j)) [
  | inl e ↦ (
    s,
    rw e refl,
    record {
      less = IsLess-refl s;
      empty = λ x a b. let at : j ≡ x = omega arith in subst (λ y. absent s f y ≡ true) at e;
      freed = λ x a b p.
          let at : j ≡ x = omega arith in
          absurd (ground (arith, e, subst (λ y. absent s f y ≡ false) (sym at) p));
      tables = λ g x d. refl;
      later = λ x l. refl;
    },
  )
  | inr e ↦
      let s1 = free_frame (entry s f j).base s in
      let own : ((entry s f j).avl == 0) ≡ true = (==_iff (entry s f j).avl 0).1 h in
      (
        unset f j s1,
        rw (e, own) refl,
        record {
          less =
              IsLess-trans s s1 (unset f j s1) (free_frame-IsLess s (entry s f j).base hm)
                (unset-IsLess s1 f j);
          empty = λ x a b.
              let at : j ≡ x = omega arith in
              subst (λ y. absent (unset f j s1) f y ≡ true) at (unset-absent s1 f j);
          freed = λ x a b p.
              let at : j ≡ x = omega arith in
              subst (λ y. isavl (unset f j s1).mmap (entry s f y).base ≡ true) at
                (free_frame-isavl s (entry s f j).base hm);
          tables = λ g x d. unset-other s1 f j g x d;
          later = λ x l. unset-later s1 f j x (omega arith);
        },
      )
]

-- Two runs of entries, one behind the other.
IsClean-append :
    (s s1 s2 : Paging) (f lo mid hi : ℕ)
    → mid ≤ hi
    → IsClean s s1 f lo mid
    → IsClean s1 s2 f mid hi
    → IsClean s s2 f lo hi
IsClean-append s s1 s2 f lo mid hi l c d = record {
  less = IsLess-trans s s1 s2 c.less d.less;
  empty = λ x a b. elim (Bool-cases (leb mid x)) [
    | inl e ↦ d.empty x (ground arith) b
    | inr e ↦ d.less.gone f x (c.empty x a (ground arith))
  ];
  freed = λ x a b p. elim (Bool-cases (leb mid x)) [
    | inl e ↦
        let same = c.later x (ground arith) in
        subst (λ (t : Ptable). isavl s2.mmap t.base ≡ true) same
          (d.freed x (ground arith) b (ap (λ (t : Ptable). t.p == 0) same ∙ p))
    | inr e ↦ d.less.stays (entry s f x).base (c.freed x a (ground arith) p)
  ];
  tables = λ g x n. d.tables g x n ∙ c.tables g x n;
  later = λ x h. d.later x h ∙ c.later x (omega arith);
}

pub clean_pages-IsClean :
    (left fuel j f : ℕ) (s : Paging)
    → IsBytes s.mmap
    → ((x : ℕ) → j ≤ x → x < j + left → (entry s f x).avl ≡ 0)
    → (s' : Paging) × (clean_pages fuel left j f s ≡ some s') × IsClean s s' f j (j + left)
unfolding clean_pages
clean_pages-IsClean zero fuel j f s hm h = (
  s,
  refl,
  record {
    less = IsLess-refl s;
    empty = λ x a b. absurd (omega arith);
    freed = λ x a b p. absurd (omega arith);
    tables = λ g x d. refl;
    later = λ x l. refl;
  },
)
clean_pages-IsClean (suc left) fuel j f s hm h =
    let (s1, e1, c1) = clean_page-IsClean s fuel f j hm (h j (omega arith) (omega arith)) in
    let (s2, e2, c2) =
      clean_pages-IsClean left fuel (j + 1) f s1 (c1.less.bytes hm)
        (λ x a b. c1.less.shares f x ∙ h x (omega arith) (omega arith)) in
    (
      s2,
      rw e1 e2,
      subst (IsClean s s2 f j) (omega arith)
          (IsClean-append s s1 s2 f j (j + 1) (j + 1 + left) (omega arith) c1 c2),
    )
