-- ===== src/Paging/Clean/Space.antt =====
-- `cleanup` of a process none of whose pages is shared.
use chouryos.Base.{
  ℕ, zero, suc, ◌+◌, ◌≤◌, ◌<◌, ◌≡◌, refl, sym, ap, ◌∙◌, some, inl, inr, true, false, ◌==◌, arith,
  Bool-cases, subst,
}
use chouryos.Memory.Bitmap.{isavl}
use chouryos.Memory.Window.{Ptable}
use chouryos.Paging.{Paging, entry, absent}
use chouryos.Paging.Clean.{free_frame, unset, clean_table, clean_tables, cleanup}
use chouryos.Paging.Clean.Step.{
  IsOwn, IsReleased, IsOwn-skip, IsOwn-init, IsReleased-skip, done, IsOwn-next, IsReleased-next,
}
use chouryos.Paging.Clean.Table.{IsLess-refl, clean_pages-IsClean}

-- The body of the loop, and what is left to do behind it.
clean_table-some :
    (s : Paging) (fuel pde lo hi : ℕ)
    → IsOwn s pde lo hi
    → lo < hi
    → absent s pde lo ≡ false
    → (s1 : Paging) × (clean_table fuel lo pde s ≡ some s1)
      × IsOwn s1 pde (lo + 1) hi
      × ((s2 : Paging) → IsReleased s1 s2 pde (lo + 1) hi → IsReleased s s2 pde lo hi)
unfolding clean_table done
clean_table-some s fuel pde lo hi v inside e =
    let (s1, e1, c) =
      clean_pages-IsClean 1024 fuel 0 (entry s pde lo).base s v.bytes
        (λ x a b. v.unshared lo x (omega arith) inside e b) in
    let dir : entry s1 pde lo ≡ entry s pde lo =
      c.tables pde lo (v.off lo (omega arith) inside e) in
    (
      done s s1 pde lo hi v inside e c,
      rw (e, e1) (ap (λ (t : Ptable). some (unset pde lo (free_frame t.base s1))) dir),
      IsOwn-next s s1 pde lo hi v inside e c,
      IsReleased-next s s1 pde lo hi v inside e c,
    )

skip : (fuel pde lo : ℕ) (s : Paging) → absent s pde lo ≡ true → clean_table fuel lo pde s ≡ some s
unfolding clean_table
skip fuel pde lo s e = rw e refl

clean_tables-IsReleased :
    (left fuel lo pde : ℕ) (s : Paging)
    → IsOwn s pde lo (lo + left)
    → (s' : Paging) × (clean_tables fuel left lo pde s ≡ some s')
      × IsReleased s s' pde lo (lo + left)
unfolding clean_tables
clean_tables-IsReleased zero fuel lo pde s v = (
  s,
  refl,
  record {
    less = IsLess-refl s;
    empty = λ i a b. absurd (omega arith);
    tables = λ i a b p. absurd (omega arith);
    pages = λ i x a b p l q. absurd (omega arith);
    later = λ i l. refl;
    others = λ f x n d. refl;
  },
)
clean_tables-IsReleased (suc left) fuel lo pde s v =
    let carry : lo + suc left ≡ lo + 1 + left = omega arith in
    elim (Bool-cases (absent s pde lo)) [
      | inl e ↦
          let (s2, r, d) =
            clean_tables-IsReleased left fuel (lo + 1) pde s
              (subst (IsOwn s pde (lo + 1)) carry (IsOwn-skip s pde lo (lo + suc left) v)) in
          (
            s2,
            rw (skip fuel pde lo s e) r,
            IsReleased-skip s s2 pde lo (lo + suc left) e
                (subst (IsReleased s s2 pde (lo + 1)) (sym carry) d),
          )
      | inr e ↦
          let (s1, e1, own, back) =
            clean_table-some s fuel pde lo (lo + suc left) v (omega arith) e in
          let (s2, r, d) =
            clean_tables-IsReleased left fuel (lo + 1) pde s1
              (subst (IsOwn s1 pde (lo + 1)) carry own) in
          (s2, rw e1 r, back s2 (subst (IsReleased s1 s2 pde (lo + 1)) (sym carry) d))
    ]

-- What a process has left after `cleanup`: no table but the last, and every frame of its pages is
-- available, but for the system stack.
pub record IsExited (s s' : Paging) (pde : ℕ) : Type 0 where
  pub directory : (i : ℕ) → 256 ≤ i → i < 1023 → absent s' pde i ≡ true
  pub tables :
      (i : ℕ)
      → 256 ≤ i
      → i < 1023
      → absent s pde i ≡ false
      → isavl s'.mmap (entry s pde i).base ≡ true
  pub pages :
      (i x : ℕ)
      → 256 ≤ i
      → i < 1023
      → absent s pde i ≡ false
      → x < 1024
      → absent s (entry s pde i).base x ≡ false
      → isavl s'.mmap (entry s (entry s pde i).base x).base ≡ true
  pub stack :
      (x : ℕ)
      → x < 1023
      → absent s (entry s pde 1023).base x ≡ false
      → isavl s'.mmap (entry s (entry s pde 1023).base x).base ≡ true

-- `cleanup` of a process whose page tables are apart and whose pages are not shared: it ends, the
-- process has no page table left but that of its stack, and the frames of the other tables and of all
-- pages that were present are available, but for the page of the system stack. No round of the
-- loops along a list is needed.
pub cleanup-IsExited :
    (s : Paging) (fuel pde : ℕ)
    → IsOwn s pde 256 1024
    → absent s pde 1023 ≡ false
    → (s' : Paging) × (cleanup fuel pde s ≡ some s') × IsExited s s' pde
unfolding cleanup
cleanup-IsExited s fuel pde v last =
    let (s1, e1, r) = clean_tables-IsReleased 767 fuel 256 pde s (IsOwn-init s pde 256 1023 v) in
    let dir : entry s1 pde 1023 ≡ entry s pde 1023 = r.later 1023 (omega arith) in
    let cks = (entry s pde 1023).base in
    let same : (x : ℕ) → entry s1 cks x ≡ entry s cks x = λ x.
      r.others cks x (v.off 1023 (omega arith) (omega arith) last)
        (λ i a b p q. v.apart i 1023 a b (omega arith) p last (sym q)) in
    let (s2, e2, c) =
      clean_pages-IsClean 1023 fuel 0 cks s1 (r.less.bytes v.bytes)
        (λ x a b. rw (same x) (v.unshared 1023 x (omega arith) (omega arith) last (omega arith))) in
    (
      s2,
      rw (e1, dir) e2,
      record {
        directory = λ i a b. c.less.gone pde i (r.empty i a b);
        tables = λ i a b p. c.less.stays (entry s pde i).base (r.tables i a b p);
        pages = λ i x a b p l q.
            c.less.stays (entry s (entry s pde i).base x).base (r.pages i x a b p l q);
        stack = λ x l q.
            subst (λ (t : Ptable). isavl s2.mmap t.base ≡ true) (same x)
              (c.freed x (omega arith) l (ap (λ (t : Ptable). t.p == 0) (same x) ∙ q));
      },
    )
