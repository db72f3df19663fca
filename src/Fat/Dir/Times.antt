-- ===== src/Fat/Dir/Times.antt =====
-- The times of an entry, through `Fat_open` and `Fat_close`.
use chouryos.Base.{
  ℕ, suc, ◌+◌, ◌-◌, ◌*◌, ◌/◌, ◌%◌, ◌≤◌, ◌<◌, ◌≡◌, ◌⊎◌, inl, inr, refl, ap, ◌∙◌, arith, some,
  Bool-cases, ◌==◌, fun_ext, ==_iff,
}
use chouryos.Base.Int.{pos, ◌+ℤ◌, ◌-ℤ◌, quot}
use chouryos.Hd.{Sector}
use chouryos.Filedes.{Filedes}
use chouryos.Fat.{Geometry, get16}
use chouryos.Fat.Dir.{stamp, open_entry, pack_time, pack_date, put16, close_entry, close_times}
use chouryos.Times.{Tm, time_to_tm}
use chouryos.Times.Civil.{IsDate, IsTime}
use chouryos.Times.RoundTrip.{tm_of, time_to_tm-kernel_mktime}

-- A date and a time in the words of an entry.
pub record IsStamp (date time : ℕ) : Type 0 where
  pub date_in : date < 65536
  pub time_in : time < 65536
  pub is_date : IsDate (date / 512 + 1980) (date / 32 % 16) (date % 32)
  pub is_time : IsTime (time / 2048) (time / 32 % 64) (time % 32 * 2)

abbrev tm_at : ℕ → ℕ → Tm
tm_at date time =
    tm_of (date / 512 + 1980) (date / 32 % 16) (date % 32) (time / 2048) (time / 32 % 64)
      (time % 32 * 2)

time_to_tm-stamp :
    (f date time : ℕ)
    → IsStamp date time
    → time_to_tm (suc (suc (suc f))) (pos (stamp date time)) ≡ some (tm_at date time)
time_to_tm-stamp f date time s =
    time_to_tm-kernel_mktime f (date / 512 + 1980) (date / 32 % 16) (date % 32) (time / 2048)
      (time / 32 % 64) (time % 32 * 2) s.is_date s.is_time

half : (n : ℕ) → quot (pos (n * 2)) 2 ≡ pos n
unfolding quot
half n = ground arith

next : (n : ℕ) → pos n +ℤ pos 1 ≡ pos (n + 1)
unfolding ◌+ℤ◌
next n = ground arith

less : (n m : ℕ) → m ≤ n → pos n -ℤ pos m ≡ pos (n - m)
unfolding ◌-ℤ◌
less n m h = ground arith

pack_time-tm_at : (date time : ℕ) → time < 65536 → pack_time (tm_at date time) ≡ time
pack_time-tm_at date time h = rw (half (time % 32)) (omega arith)

pack_date-tm_at : (date time : ℕ) → IsStamp date time → pack_date (tm_at date time) ≡ date
pack_date-tm_at date time s =
    rw (next (date / 32 % 16 - 1), less (date / 512 + 1980 - 1900) 80 (omega arith))
      (omega (arith, s.date_in, s.is_date.month_in))

put16-get16 :
    (b : Sector) (i v : ℕ) → b i < 256 → b (i + 1) < 256 → v % 65536 ≡ get16 b i → put16 i v b ≡ b
put16-get16 b i v l l' e = fun_ext λ x. elim (Bool-cases (i + 1 == x)) [
  | inl p ↦
      let at : i + 1 ≡ x = (==_iff _ _).0 p in
      let same : v / 256 % 256 ≡ b (i + 1) = omega arith in rw p (same ∙ ap b at)
  | inr p ↦ elim (Bool-cases (i == x)) [
    | inl q ↦
        let at : i ≡ x = (==_iff _ _).0 q in
        let same : v % 256 ≡ b i = omega arith in rw (p, q) (same ∙ ap b at)
    | inr q ↦ rw (p, q) refl
  ]
]

put16_out : (b : Sector) (i v x : ℕ) → (x < i) ⊎ (i + 1 < x) → put16 i v b x ≡ b x
put16_out b i v x h = ground arith

-- A word that the write at `k` does not reach is written as it is.
put16_again :
    (b : Sector) (k w i v : ℕ)
    → ((x : ℕ) → b x < 256)
    → (i + 1 < k) ⊎ (k + 1 < i)
    → v % 65536 ≡ get16 b i
    → put16 i v (put16 k w b) ≡ put16 k w b
put16_again b k w i v l h e =
    let lo : put16 k w b i ≡ b i = put16_out b k w i (ground arith) in
    let hi : put16 k w b (i + 1) ≡ b (i + 1) = put16_out b k w (i + 1) (ground arith) in
    let small = l i in
    let small' = l (i + 1) in
    put16-get16 (put16 k w b) i v (omega arith) (omega arith) (omega arith)

time_word : (date time : ℕ) → IsStamp date time → pack_time (tm_at date time) % 65536 ≡ time
time_word date time s =
    ap (λ x. x % 65536) (pack_time-tm_at date time s.time_in) ∙ omega (arith, s.time_in)

date_word : (date time : ℕ) → IsStamp date time → pack_date (tm_at date time) % 65536 ≡ date
date_word date time s = ap (λ x. x % 65536) (pack_date-tm_at date time s) ∙ omega (arith, s.date_in)

put16_then : (i v : ℕ) (b b' b'' : Sector) → b ≡ b' → put16 i v b' ≡ b'' → put16 i v b ≡ b''
put16_then i v b b' b'' p q = ap (put16 i v) p ∙ q

close_times-some :
    (fuel : ℕ) (file : Filedes) (c a m : Tm)
    → time_to_tm fuel (pos file.createtime) ≡ some c
    → time_to_tm fuel (pos file.accesstime) ≡ some a
    → time_to_tm fuel (pos file.updatetime) ≡ some m
    → close_times fuel file ≡ some (c, a, m)
unfolding close_times
close_times-some fuel file c a m p q r = rw (p, q, r) refl

-- An entry that `Fat_open` reads and `Fat_close` writes, with the file unchanged but for the time
-- of its access: the seconds of the creation and of the last change give their times and dates
-- again, and of the entry's bytes only the access date is another, that of `accesstime`. The dates
-- are valid and before 2038, and the times are even seconds.
pub close_entry-open_entry :
    (g : Geometry) (f dirnode j date time : ℕ) (b : Sector) (file : Filedes)
    → ((x : ℕ) → b x < 256)
    → IsStamp (get16 b (j * 32 + 16)) (get16 b (j * 32 + 14))
    → IsStamp (get16 b (j * 32 + 24)) (get16 b (j * 32 + 22))
    → IsStamp date time
    → (create : Tm) × (access : Tm) × (change : Tm) × (close_times
          (suc (suc (suc f)))
          (record (open_entry g dirnode j b file) { accesstime = stamp date time })
        ≡ some (create, access, change))
      × (close_entry (open_entry g dirnode j b file) create access change (j * 32) b
          ≡ put16 (j * 32 + 18) date b)
unfolding open_entry close_entry
close_entry-open_entry g f dirnode j date time b file l s u w =
    let at = j * 32 in
    let c = tm_at (get16 b (at + 16)) (get16 b (at + 14)) in
    let a = tm_at date time in
    let m = tm_at (get16 b (at + 24)) (get16 b (at + 22)) in
    let x = record (open_entry g dirnode j b file) { accesstime = stamp date time } in
    let f' = open_entry g dirnode j b file in
    let b' = put16 (at + 18) date b in
    let accessed : pack_date a ≡ date = pack_date-tm_at date time w in
    let l20 = l (at + 20) in
    let l21 = l (at + 21) in
    let l26 = l (at + 26) in
    let l27 = l (at + 27) in
    let l28 = l (at + 28) in
    let l29 = l (at + 29) in
    let l30 = l (at + 30) in
    let l31 = l (at + 31) in
    let again : (i v : ℕ)
        → (i + 1 < at + 18) ⊎ (at + 19 < i)
        → v % 65536 ≡ get16 b i
        → put16 i v b' ≡ b' =
      λ i v h e. put16_again b (at + 18) date i v l (ground arith) e in
    let created : put16 (at + 16) (pack_date c) (put16 (at + 14) (pack_time c) b) ≡ b =
      put16_then (at + 16) (pack_date c) _ b b
        (put16-get16 b (at + 14) (pack_time c) (l _) (l _) (time_word _ _ s))
        (put16-get16 b (at + 16) (pack_date c) (l _) (l _) (date_word _ _ s)) in
    let third : b (at + 28 + 2) ≡ b (at + 30) = ap b (omega arith) in
    let fourth : b (at + 28 + 3) ≡ b (at + 30 + 1) = ap b (omega arith) in
    let second : b (at + 28 + 1) ≡ b (at + 29) = ap b (omega arith) in
    let last : b (at + 30 + 1) ≡ b (at + 31) = ap b (omega arith) in
    let start : f'.startnode % 65536 ≡ get16 b (at + 26) = omega arith in
    let start' : f'.startnode / 65536 % 65536 ≡ get16 b (at + 20) = omega arith in
    let size : f'.length % 65536 ≡ get16 b (at + 28) = omega arith in
    let size' : f'.length / 65536 % 65536 ≡ get16 b (at + 30) = omega arith in
    let changed : put16 (at + 24) (pack_date m) (put16 (at + 22) (pack_time m) b') ≡ b' =
      put16_then (at + 24) (pack_date m) _ b' b'
        (again (at + 22) (pack_time m) (inr (omega arith)) (time_word _ _ u))
        (again (at + 24) (pack_date m) (inr (omega arith)) (date_word _ _ u)) in
    let bytes : close_entry f' c a m at b ≡ b' =
      put16_then (at + 30) (f'.length / 65536) _ b' b'
        (put16_then (at + 28) f'.length _ b' b'
          (put16_then (at + 26) f'.startnode _ b' b'
            (put16_then (at + 20) (f'.startnode / 65536) _ b' b'
              ((λ i.
                  put16 (at + 24) (pack_date m)
                    (put16 (at + 22) (pack_time m) (put16 (at + 18) (accessed i) (created i))))
                ∙ changed)
              (again (at + 20) (f'.startnode / 65536) (inr (omega arith)) start'))
            (again (at + 26) f'.startnode (inr (omega arith)) start))
          (again (at + 28) f'.length (inr (omega arith)) size))
        (again (at + 30) (f'.length / 65536) (inr (omega arith)) size') in
    (
      c,
      a,
      m,
      close_times-some (suc (suc (suc f))) x c a m (time_to_tm-stamp f _ _ s)
          (time_to_tm-stamp f date time w) (time_to_tm-stamp f _ _ u),
      bytes,
    )
