-- ===== src/Paging/Boot/Identity.antt =====
-- Where the kernel and process 0 find the memory.
use chouryos.Base.{
  ℕ, ◌+◌, ◌-◌, ◌*◌, ◌/◌, ◌%◌, ◌^◌, ◌≤◌, ◌<◌, ◌≡◌, ◌≢◌, refl, sym, ap, ◌∙◌, inl, inr, false, ltb,
  some, arith, Bool-cases, ltb→lt,
}
use chouryos.Memory.Bitmap.{Bytes, IsBytes}
use chouryos.Memory.Frames.{getmpage}
use chouryos.Memory.Frames.Alloc.{after, getmpage-IsFirst, getmpage-after, getmpage-IsBytes}
use chouryos.Memory.Window.{Ptable, getpagec, getpagei}
use chouryos.Paging.{Paging, setpt, entry, absent}
use chouryos.Paging.Fault.{translate}
use chouryos.Paging.Boot.{
  link, low_entry, high_entry, no_entry, user_entry, stack_entry, init_pages,
}
use chouryos.Paging.Boot.Link.{link_here, link_directory, link_table, link_other}

translate_via :
    (s : Paging) (pde a c i t us f : ℕ)
    → getpagec a ≡ c
    → getpagei a ≡ i
    → entry s pde c ≡ setpt t us
    → t < 2 ^ 20
    → ((entry s t i).p ≡ 1) × ((entry s t i).base ≡ f)
    → translate s pde a ≡ some f
unfolding translate
translate_via s pde a c i t us f ec ei d small (p, b) =
    let page : t % 2 ^ 20 ≡ t = omega arith in
    let there : absent s t i ≡ false = ground (arith, p) in rw (ec, ei, d, page, there, b) refl

low_entry-page :
    (x : ℕ) (old : Ptable) → x < 1024 → ((low_entry x old).p ≡ 1) × ((low_entry x old).base ≡ x)
low_entry-page x old h = ground arith

high_entry-page :
    (x : ℕ) (old : Ptable)
    → x < 256
    → ((high_entry x old).p ≡ 1) × ((high_entry x old).base ≡ x + 1024)
high_entry-page x old h = ground arith

user_entry-page :
    (page x : ℕ) (old : Ptable)
    → x < 767
    → ((user_entry page (x + 1) old).p ≡ 1) × ((user_entry page (x + 1) old).base ≡ x)
user_entry-page page x old h = ground arith

-- The page directory and the tables are frames that are apart, and not that of the window.
record IsApart (pde t0 t1 t2 t3 : ℕ) : Type 0 where
  window : (pde ≢ 3) × (t0 ≢ 3) × (t1 ≢ 3)
  directory : (pde ≢ t0) × (pde ≢ t1) × (pde ≢ t2) × (pde ≢ t3)
  tables : (t0 ≢ t1) × (t0 ≢ t2) × (t0 ≢ t3) × (t1 ≢ t2) × (t1 ≢ t3) × (t2 ≢ t3)
  small : (t0 < 2 ^ 20) × (t1 < 2 ^ 20) × (t2 < 2 ^ 20) × (t3 < 2 ^ 20)

module _ (pde t0 t1 t2 t3 page stack : ℕ) (s0 : Paging) (v : IsApart pde t0 t1 t2 t3) where
  s1 : Paging
  s1 = link 0 pde 0 t0 low_entry s0

  s2 : Paging
  s2 = link 0 pde 1 t1 high_entry s1

  s3 : Paging
  s3 = link 0 pde 255 3 no_entry s2

  s4 : Paging
  s4 = link 1 pde 256 t2 (user_entry page) s3

  s5 : Paging
  s5 = link 1 pde 1023 t3 (stack_entry stack) s4

  t0_pde : t0 ≢ pde
  t0_pde q = v.directory.0 (sym q)

  t1_pde : t1 ≢ pde
  t1_pde q = v.directory.1 (sym q)

  t2_pde : t2 ≢ pde
  t2_pde q = v.directory.2 (sym q)

  dir0 : entry s5 pde 0 ≡ setpt t0 0
  unfolding s1 s2 s3 s4 s5
  dir0 =
      link_directory 1 pde 1023 t3 (stack_entry stack) s4 v.directory.3 v.small.3 0 (omega arith)
      ∙ link_directory 1 pde 256 t2 (user_entry page) s3 v.directory.2 v.small.2 0 (omega arith)
      ∙ link_directory 0 pde 255 3 no_entry s2 v.window.0 (omega arith) 0 (omega arith)
      ∙ link_directory 0 pde 1 t1 high_entry s1 v.directory.1 v.small.1 0 (omega arith)
      ∙ link_here 0 pde 0 t0 low_entry s0 v.directory.0 v.small.0

  dir1 : entry s5 pde 1 ≡ setpt t1 0
  unfolding s1 s2 s3 s4 s5
  dir1 =
      link_directory 1 pde 1023 t3 (stack_entry stack) s4 v.directory.3 v.small.3 1 (omega arith)
      ∙ link_directory 1 pde 256 t2 (user_entry page) s3 v.directory.2 v.small.2 1 (omega arith)
      ∙ link_directory 0 pde 255 3 no_entry s2 v.window.0 (omega arith) 1 (omega arith)
      ∙ link_here 0 pde 1 t1 high_entry s1 v.directory.1 v.small.1

  dir256 : entry s5 pde 256 ≡ setpt t2 1
  unfolding s1 s2 s3 s4 s5
  dir256 =
      link_directory 1 pde 1023 t3 (stack_entry stack) s4 v.directory.3 v.small.3 256 (omega arith)
      ∙ link_here 1 pde 256 t2 (user_entry page) s3 v.directory.2 v.small.2

  low : (x : ℕ) → entry s5 t0 x ≡ low_entry x (entry s0 t0 x)
  unfolding s1 s2 s3 s4 s5
  low x =
      link_other 1 pde 1023 t3 (stack_entry stack) s4 v.directory.3 v.small.3 t0 x t0_pde v.tables.2
      ∙ link_other 1 pde 256 t2 (user_entry page) s3 v.directory.2 v.small.2 t0 x t0_pde v.tables.1
      ∙ link_other 0 pde 255 3 no_entry s2 v.window.0 (omega arith) t0 x t0_pde v.window.1
      ∙ link_other 0 pde 1 t1 high_entry s1 v.directory.1 v.small.1 t0 x t0_pde v.tables.0
      ∙ link_table 0 pde 0 t0 low_entry s0 v.directory.0 v.small.0 x

  high : (x : ℕ) → entry s5 t1 x ≡ high_entry x (entry s1 t1 x)
  unfolding s1 s2 s3 s4 s5
  high x =
      link_other 1 pde 1023 t3 (stack_entry stack) s4 v.directory.3 v.small.3 t1 x t1_pde v.tables.4
      ∙ link_other 1 pde 256 t2 (user_entry page) s3 v.directory.2 v.small.2 t1 x t1_pde v.tables.3
      ∙ link_other 0 pde 255 3 no_entry s2 v.window.0 (omega arith) t1 x t1_pde v.window.2
      ∙ link_table 0 pde 1 t1 high_entry s1 v.directory.1 v.small.1 x

  user : (x : ℕ) → entry s5 t2 x ≡ user_entry page x (entry s3 t2 x)
  unfolding s1 s2 s3 s4 s5
  user x =
      link_other 1 pde 1023 t3 (stack_entry stack) s4 v.directory.3 v.small.3 t2 x t2_pde v.tables.5
      ∙ link_table 1 pde 256 t2 (user_entry page) s3 v.directory.2 v.small.2 x

  kernel_low : (a : ℕ) → a < 0x400000 → translate s5 pde a ≡ some (a / 4096)
  kernel_low a h =
      translate_via s5 pde a 0 (a / 4096) t0 0 (a / 4096) (omega arith) (omega arith) dir0 v.small.0
        (rw (low (a / 4096)) (low_entry-page (a / 4096) (entry s0 t0 (a / 4096)) (omega arith)))

  kernel_high : (a : ℕ) → 0x400000 ≤ a → a < 0x500000 → translate s5 pde a ≡ some (a / 4096)
  kernel_high a l h =
      let x = a / 4096 - 1024 in
      let whole : x + 1024 ≡ a / 4096 = omega arith in
      let found = high_entry-page x (entry s1 t1 x) (omega arith) in
      translate_via s5 pde a 1 x t1 0 (a / 4096) (omega arith) (omega arith) dir1 v.small.1
        (rw (high x) (found.0, found.1 ∙ whole))

  kernel : (a : ℕ) → a < 0x500000 → translate s5 pde a ≡ some (a / 4096)
  kernel a h = elim (Bool-cases (ltb a 0x400000)) [
    | inl e ↦ kernel_low a (ltb→lt a 0x400000 e)
    | inr e ↦ kernel_high a (ground (arith, e)) h
  ]

  process0 : (a : ℕ) → a < 767 * 4096 → translate s5 pde (0x40001000 + a) ≡ some (a / 4096)
  process0 a h =
      translate_via s5 pde (0x40001000 + a) 256 (a / 4096 + 1) t2 1 (a / 4096) (omega arith)
        (omega arith) dir256 v.small.2
        (rw (user (a / 4096 + 1))
          (user_entry-page page (a / 4096) (entry s3 t2 (a / 4096 + 1)) (omega arith)))

getmpage-range : (mmap : Bytes) (n : ℕ) → (getmpage mmap).0 ≡ some n → (0x500 ≤ n) × (n < 2 ^ 20)
getmpage-range mmap n h = elim (getmpage-IsFirst mmap) [
  | inl (i, e, f) ↦
      let same : i ≡ n = ground (arith, ap (λ r. r.0) e, h) in rw (← same) (f.from, f.below)
  | inr (e, f) ↦ absurd (ground (arith, ap (λ r. r.0) e, h))
]

-- The frames for the directory and the four tables are apart.
frames-IsApart :
    (m0 : Bytes) (pde t0 t1 t2 t3 : ℕ)
    → IsBytes m0
    → (getmpage m0).0 ≡ some pde
    → (getmpage (after 1 m0)).0 ≡ some t0
    → (getmpage (after 2 m0)).0 ≡ some t1
    → (getmpage (after 3 m0)).0 ≡ some t2
    → (getmpage (after 5 m0)).0 ≡ some t3
    → IsApart pde t0 t1 t2 t3
unfolding after
frames-IsApart m0 pde t0 t1 t2 t3 b0 e0 e1 e2 e3 e5 =
    let m1 : Bytes = (getmpage m0).1 in
    let m2 : Bytes = (getmpage m1).1 in
    let m3 : Bytes = (getmpage m2).1 in
    let b1 : IsBytes m1 = getmpage-IsBytes m0 b0 in
    let b2 : IsBytes m2 = getmpage-IsBytes m1 b1 in
    let b3 : IsBytes m3 = getmpage-IsBytes m2 b2 in
    let r0 = getmpage-range m0 pde e0 in
    let r1 = getmpage-range m1 t0 e1 in
    let r2 = getmpage-range m2 t1 e2 in
    let r3 = getmpage-range m3 t2 e3 in
    let r5 = getmpage-range (after 2 m3) t3 e5 in
    record {
      window = (omega arith, omega arith, omega arith);
      directory = (
        getmpage-after 0 m0 pde t0 b0 e0 e1,
        getmpage-after 1 m0 pde t1 b0 e0 e2,
        getmpage-after 2 m0 pde t2 b0 e0 e3,
        getmpage-after 4 m0 pde t3 b0 e0 e5,
      );
      tables = (
        getmpage-after 0 m1 t0 t1 b1 e1 e2,
        getmpage-after 1 m1 t0 t2 b1 e1 e3,
        getmpage-after 3 m1 t0 t3 b1 e1 e5,
        getmpage-after 0 m2 t1 t2 b2 e2 e3,
        getmpage-after 2 m2 t1 t3 b2 e2 e5,
        getmpage-after 1 m3 t2 t3 b3 e3 e5,
      );
      small = (r1.1, r2.1, r3.1, r5.1);
    }

-- Through the page tables that `init` builds for process 0, with seven frames for them, the kernel
-- finds the first 5 MiB of the memory at their own addresses, and process 0 finds the memory from 0
-- on at `USECODE`, the second page of user space, where its code starts.
pub translate-init_pages :
    (s : Paging)
    → IsBytes s.mmap
    → ((k : ℕ) → k < 7 → (n : ℕ) × ((getmpage (after k s.mmap)).0 ≡ some n))
    → let (pde, s') = init_pages s in
      ((a : ℕ) → a < 0x500000 → translate s' pde a ≡ some (a / 4096))
      × ((a : ℕ) → a < 767 * 4096 → translate s' pde (0x40001000 + a) ≡ some (a / 4096))
unfolding init_pages after s1 s2 s3 s4 s5
translate-init_pages s b frames =
    let (pde, e0) = frames 0 (omega arith) in
    let (t0, e1) = frames 1 (omega arith) in
    let (t1, e2) = frames 2 (omega arith) in
    let (t2, e3) = frames 3 (omega arith) in
    let (page, e4) = frames 4 (omega arith) in
    let (t3, e5) = frames 5 (omega arith) in
    let (stack, e6) = frames 6 (omega arith) in
    let v : IsApart pde t0 t1 t2 t3 = frames-IsApart s.mmap pde t0 t1 t2 t3 b e0 e1 e2 e3 e5 in
    rw (e0, e1, e2, e3, e4, e5, e6)
      (kernel pde t0 t1 t2 t3 page stack _ v, process0 pde t0 t1 t2 t3 page stack _ v)
