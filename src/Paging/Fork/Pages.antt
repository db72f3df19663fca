-- ===== src/Paging/Fork/Pages.antt =====
-- `sys_fork` at one page table of the parent.
use chouryos.Base.{
  ℕ, ◌<◌, ◌≡◌, ◌≢◌, ◌%◌, ◌^◌, refl, sym, ap, ◌∙◌, some, true, false, ◌==◌, arith, ne→==, lt→ltb,
}
use chouryos.Memory.Bitmap.{isavl}
use chouryos.Memory.Frames.{page_size, getmpage}
use chouryos.Paging.{Paging, entry}
use chouryos.Paging.Write.{getmpage-available}
use chouryos.Paging.Fork.Runs.{among, shared_entry, fork_pages-IsShared}
use chouryos.Paging.Fork.{clone, fork_table}

-- What `clone` does to entry `i` of table `new`, whose new frame is `n`.
record IsCloned (s s' : Paging) (cur new i n : ℕ) : Type 0 where
  here : entry s' new i ≡ record (entry s new i) { base = n }
  page : (x : ℕ) → x < 1024 → entry s' n x ≡ entry s (entry s cur i).base x
  tables : (f x : ℕ) → f ≢ n → f ≢ new → entry s' f x ≡ entry s f x
  others : (x : ℕ) → i ≢ x → entry s' new x ≡ entry s new x
  copied : (o : ℕ) → o < page_size → s'.bytes n o ≡ s.bytes (entry s cur i).base o
  bytes : (f o : ℕ) → f ≢ n → s'.bytes f o ≡ s.bytes f o
  mmap : s'.mmap ≡ (getmpage s.mmap).1

clone-IsCloned :
    (s : Paging) (cur new i n : ℕ)
    → (getmpage s.mmap).0 ≡ some n
    → cur ≢ new
    → n ≢ new
    → (entry s cur i).base < 2 ^ 20
    → (entry s cur i).base ≢ new
    → IsCloned s (clone cur new i s) cur new i n
unfolding clone
clone-IsCloned s cur new i n e cn nn width bn =
    let small = (getmpage-available s n e).1 in
    let page : n % 2 ^ 20 ≡ n = omega arith in
    let old : (entry s cur i).base % 2 ^ 20 ≡ (entry s cur i).base = omega arith in
    let other : (new == cur) ≡ false = ne→== new cur (λ q. cn (sym q)) in
    let apart : (n == new) ≡ false = ne→== n new nn in
    let away : (new == (entry s cur i).base) ≡ false =
      ne→== new (entry s cur i).base (λ q. bn (sym q)) in
    let same : (new == new) ≡ true = ground arith in
    let slot : (i == i) ≡ true = ground arith in
    let self : (n == n) ≡ true = ground arith in
    rw (e, page, other, same, slot, page, old)
      (record {
        here = rw (apart, same, slot) refl;
        page = λ x h. rw (self, lt→ltb x 1024 h, away) refl;
        tables = λ f x a b. rw (ne→== n f (λ q. a (sym q)), ne→== new f (λ q. b (sym q))) refl;
        others = λ x d. rw (apart, same, ne→== i x d) refl;
        copied = λ o h. rw (self, lt→ltb o page_size h) refl;
        bytes = λ f o a. rw (ne→== n f (λ q. a (sym q))) refl;
        mmap = refl;
      })

-- The directories `cur` and `new` of parent and child, and a page table of the parent, that its
-- directory has at `i`. They are in use, no page of the table is shared yet, and there is a frame
-- `n` for the child's table.
pub record IsParent (s : Paging) (cur new i n : ℕ) : Type 0 where
  pub next : (getmpage s.mmap).0 ≡ some n
  pub used :
      (isavl s.mmap cur ≡ false)
      × (isavl s.mmap new ≡ false)
      × (isavl s.mmap (entry s cur i).base ≡ false)
  pub frames : (cur ≢ new) × ((entry s cur i).base ≢ cur) × ((entry s cur i).base ≢ new)
  pub width : (entry s cur i).base < 2 ^ 20
  pub unshared : (x : ℕ) → x < 1024 → (entry s (entry s cur i).base x).avl ≢ 1

-- Both tables have the entries of the parent's, shared; the rest of the directories and the bytes
-- of all other frames are as they were.
pub record IsForked (s s' : Paging) (cur new i n : ℕ) : Type 0 where
  pub child : entry s' new i ≡ record (entry s new i) { base = n }
  pub pages :
      (x : ℕ)
      → x < 1024
      → (entry s' n x ≡ shared_entry (entry s (entry s cur i).base x))
        × (entry s' (entry s cur i).base x ≡ shared_entry (entry s (entry s cur i).base x))
  pub parent : (x : ℕ) → entry s' cur x ≡ entry s cur x
  pub rest : (f x : ℕ) → f ≢ n → f ≢ new → f ≢ (entry s cur i).base → entry s' f x ≡ entry s f x
  pub mmap : s'.mmap ≡ (getmpage s.mmap).1
  pub others : (x : ℕ) → i ≢ x → entry s' new x ≡ entry s new x
  pub bytes : (f o : ℕ) → f ≢ n → s'.bytes f o ≡ s.bytes f o

-- `sys_fork` gives the child a page table of its own for a page table of the parent, other than the
-- first of user space, none of whose pages is shared yet: afterwards both have the same entries, a
-- page that is present is read-only and marked as shared in both, and no byte of it changes. One
-- round of the loop along a list of users, or none, is enough.
pub fork_table-IsForked :
    (s : Paging) (fuel cur new i n : ℕ)
    → i ≢ 256
    → IsParent s cur new i n
    → (s' : Paging) × (fork_table fuel i cur new s ≡ some s') × IsForked s s' cur new i n
unfolding fork_table
fork_table-IsForked s fuel cur new i n hi v =
    let free = getmpage-available s n v.next in
    let ct = (entry s cur i).base in
    let n_cur : n ≢ cur = λ e. ground (arith, free.0, v.used, e) in
    let n_new : n ≢ new = λ e. ground (arith, free.0, v.used, e) in
    let n_ct : n ≢ ct = λ e. ground (arith, free.0, v.used, e) in
    let s1 = clone cur new i s in
    let c : IsCloned s s1 cur new i n =
      clone-IsCloned s cur new i n v.next v.frames.0 n_new v.width v.frames.2 in
    let dir : entry s1 cur i ≡ entry s cur i = c.tables cur i (λ e. n_cur (sym e)) v.frames.0 in
    let same : (x : ℕ) → entry s1 ct x ≡ entry s ct x =
      λ x. c.tables ct x (λ e. n_ct (sym e)) v.frames.2 in
    let (s', e, p) =
      fork_pages-IsShared fuel 1024 i 0 ct n s1 hi (λ q. n_ct (sym q))
        (λ x a b. (rw (same x) (v.unshared x b), c.page x b ∙ sym (same x))) in
    let inside : (x : ℕ) → x < 1024 → among 0 1024 x ≡ true = λ x l. ground arith in
    (
      s',
      rw (dir, c.here) e,
      record {
        child = p.tables new i (λ q. v.frames.2 (sym q)) (λ q. n_new (sym q)) ∙ c.here;
        pages = λ x l.
            let first = p.first x in
            let second = p.second x in
            (second ∙ rw (inside x l, same x) refl, first ∙ rw (inside x l, same x) refl);
        rest = λ f x a b d. p.tables f x d a ∙ c.tables f x a b;
        mmap = p.mmap ∙ c.mmap;
        parent = λ x.
            p.tables cur x (λ q. v.frames.1 (sym q)) (λ q. n_cur (sym q))
            ∙ c.tables cur x (λ q. n_cur (sym q)) v.frames.0;
        others =
            λ x d. p.tables new x (λ q. v.frames.2 (sym q)) (λ q. n_new (sym q)) ∙ c.others x d;
        bytes = λ f o a. ap (λ (b : ℕ → ℕ → ℕ). b f o) p.bytes ∙ c.bytes f o a;
      },
    )
