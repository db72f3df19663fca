-- ===== src/Paging/Write.antt =====
-- Copy on write: what `sharepage` and a page fault do to a frame that two processes use.
use chouryos.Base.{
  ℕ, ◌≤◌, ◌<◌, ◌≡◌, ◌≢◌, refl, sym, ap, ◌∙◌, some, inl, inr, true, false, ◌==◌, ◌%◌, ◌^◌, ltb,
  arith, ne→==, lt→ltb,
}
use chouryos.Memory.Bitmap.{isavl}
use chouryos.Memory.Frames.{page_size, getmpage}
use chouryos.Memory.Frames.Alloc.{getmpage-IsFirst}
use chouryos.Memory.Window.{Ptable, getpagec, getpagei}
use chouryos.Memory.Share.{Sharing, sharepage}
use chouryos.Memory.Share.Pair.{IsFree, IsPair}
use chouryos.Memory.Share.Pair.Write.{IsTaken, devpage-IsTaken}
use chouryos.Paging.{
  Paging, resumed, entry, own_page, move_to, resume, write_fault, page_fault, defultinthandle,
}

-- The process with page directory `pde` writes at `cr2`, which its table `a` maps with entry `ia`
-- to a frame that table `b` maps too. The next frame that `getmpage` gives is `n`.
pub record IsWrite (s : Paging) (pde cr2 a ia b ib n : ℕ) : Type 0 where
  pub address : (0x40000000 ≤ cr2) × (getpagei cr2 ≡ ia)
  pub directory : (pde ≢ a) × (pde ≢ b) × ((entry s pde (getpagec cr2)).base ≡ a)
  pub next : (getmpage s.mmap).0 ≡ some n
  pub used :
      (isavl s.mmap a ≡ false)
      × (isavl s.mmap b ≡ false)
      × (isavl s.mmap (entry s a ia).base ≡ false)
  pub width : (entry s a ia).base < 2 ^ 20

-- The first user has frame `n` to itself, with the bytes of the old frame, and the second has the
-- old frame to itself, as it was. Both can write.
pub record IsSplit (s s' : Paging) (a ia b ib n : ℕ) : Type 0 where
  pub writer : ((entry s' a ia).base ≡ n) × ((entry s' a ia).r_w ≡ 1) × ((entry s' a ia).avl ≡ 0)
  pub other :
      ((entry s' b ib).base ≡ (entry s a ia).base)
      × ((entry s' b ib).r_w ≡ 1)
      × ((entry s' b ib).avl ≡ 0)
  pub apart : n ≢ (entry s a ia).base
  pub copied : (o : ℕ) → o < page_size → s'.bytes n o ≡ s.bytes (entry s a ia).base o
  pub kept : (o : ℕ) → s'.bytes (entry s a ia).base o ≡ s.bytes (entry s a ia).base o

pub getmpage-available :
    (s : Paging) (n : ℕ) → (getmpage s.mmap).0 ≡ some n → (isavl s.mmap n ≡ true) × (n < 2 ^ 20)
getmpage-available s n h = elim (getmpage-IsFirst s.mmap) [
  | inl (i, e, f) ↦
      let same : i ≡ n = ground (arith, ap (λ r. r.0) e, h) in rw (← same) (f.available, f.below)
  | inr (e, f) ↦ absurd (ground (arith, ap (λ r. r.0) e, h))
]

-- What the new page changes.
record IsMoved (s s' : Paging) (f i n : ℕ) : Type 0 where
  here : entry s' f i ≡ record (entry s f i) { base = n }
  others : (g j : ℕ) → g ≢ f → g ≢ n → entry s' g j ≡ entry s g j
  copied : (o : ℕ) → o < page_size → s'.bytes n o ≡ s.bytes (entry s f i).base o
  kept : (g o : ℕ) → g ≢ n → s'.bytes g o ≡ s.bytes g o

move_to-IsMoved :
    (s : Paging) (f i n : ℕ)
    → n ≢ f
    → n < 2 ^ 20
    → (entry s f i).base < 2 ^ 20
    → IsMoved s (move_to n f i s) f i n
unfolding move_to
move_to-IsMoved s f i n nf small width =
    let page : n % 2 ^ 20 ≡ n = omega arith in
    let old : (entry s f i).base % 2 ^ 20 ≡ (entry s f i).base = omega arith in
    let other : (n == f) ≡ false = ne→== n f nf in
    let same : (f == f) ≡ true = ground arith in
    let slot : (i == i) ≡ true = ground arith in
    let self : (n == n) ≡ true = ground arith in
    rw (page, old)
      (record {
        here = rw (other, same, slot) refl;
        others = λ g j a b. rw (ne→== f g (λ e. a (sym e)), ne→== n g (λ e. b (sym e))) refl;
        copied = λ o h. rw (self, lt→ltb o page_size h) refl;
        kept = λ g o a. rw (ne→== n g (λ e. a (sym e))) refl;
      })

own_page-IsSplit :
    (s : Paging) (pde cr2 a ia b ib n : ℕ) (s1 s2 : Sharing)
    → IsPair s.sharing a ia b ib
    → IsWrite s pde cr2 a ia b ib n
    → IsTaken s.sharing s1 s2 a ia b ib
    → (s' : Paging) × (own_page a ia (record s { sharing = s1 }) (some s2) ≡ some s')
      × IsSplit s s' a ia b ib n
own_page-IsSplit s pde cr2 a ia b ib n s1 s2 p w t =
    let free = getmpage-available s n w.next in
    let na : n ≢ a = λ e. ground (arith, free.0, w.used, e) in
    let nb : n ≢ b = λ e. ground (arith, free.0, w.used, e) in
    let apart : n ≢ (entry s a ia).base = λ e. ground (arith, free.0, w.used, e) in
    let before : Paging = record s { sharing = s2; mmap = (getmpage s.mmap).1 } in
    let m : IsMoved before (move_to n a ia before) a ia n =
      move_to-IsMoved before a ia n na free.1 (rw (t.bases.0) (w.width)) in
    let there : entry (move_to n a ia before) b ib ≡ s2.table b ib =
      m.others b ib (λ e. p.tables.2 (sym e)) (λ e. nb (sym e)) in
    rw w.next (
      move_to n a ia before,
      refl,
      record {
        writer = rw (m.here) (refl, t.owners.first_own.1, t.owners.first_own.0);
        other = rw there (t.bases.1, t.owners.second_own.1, t.owners.second_own.0);
        apart = apart;
        copied = λ o h. m.copied o h ∙ ap (λ f. s.bytes f o) (t.bases.0);
        kept = λ o. m.kept (entry s a ia).base o (λ e. apart (sym e));
      },
    )

-- A page that a process shares with one other, and then writes to: the page fault gives it a frame of
-- its own with the same bytes, and the other has the old one, with the bytes that it had. The frame
-- was not shared before, `getmpage` has a frame to give, the first three free elements of `PSL` lie
-- below 2 ^ 16, the tables and the page are in use, and the page directory is neither of the tables.
pub defultinthandle-sharepage :
    (s : Paging) (fuel code pde cr2 a ia b ib i j k n : ℕ)
    → IsFree s.sharing.psl i j k
    → IsPair s.sharing a ia b ib
    → IsWrite s pde cr2 a ia b ib n
    → code % 16 ≡ 7
    → (s1 : Sharing) × (s' : Paging) × (sharepage fuel a ia b ib s.sharing ≡ some s1)
      × (defultinthandle fuel 14 code cr2 pde (record s { sharing = s1 }) ≡ resumed s')
      × IsSplit s s' a ia b ib n
unfolding defultinthandle page_fault write_fault
defultinthandle-sharepage s fuel code pde cr2 a ia b ib i j k n v p w c =
    let (s1, s2, e1, e2, t) = devpage-IsTaken s.sharing a ia b ib i j k fuel v p in
    let (s', e, split) = own_page-IsSplit s pde cr2 a ia b ib n s1 s2 p w t in
    let user : ltb cr2 0x40000000 ≡ false = ground (arith, w.address.0) in
    let dir : (s1.table pde (getpagec cr2)).base ≡ a =
      ap (λ (x : Ptable). x.base) (t.apart pde (getpagec cr2) (w.directory.0) (w.directory.1))
      ∙ w.directory.2 in
    (s1, s', e1, rw (user, c, dir, w.address.1, t.marked, e2) (ap resume e), split)
