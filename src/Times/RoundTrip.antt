-- ===== src/Times/RoundTrip.antt =====
-- `time_to_tm` undoes `kernel_mktime`.
use chouryos.Base.{
  ℕ, suc, ◌+◌, ◌-◌, ◌*◌, ◌/◌, ◌%◌, ◌≤◌, ◌<◌, ◌≡◌, ◌∙◌, ap, Bool, true, false, some, arith,
  if◌then◌else◌, get_or,
}
use chouryos.Base.Int.{pos, ◌+ℤ◌, ◌-ℤ◌, quot, rem}
use chouryos.Times.{
  kernel_mktime, Tm, is_leap, mon_yday, find_month, raise_rest, lower_rest, fill, weekday,
  time_to_tm, secs_per_day, secs_per_hour,
}
use chouryos.Times.Civil.{
  leap_year, year_start, day_of_year, IsDate, IsTime, month_cases, kernel_mktime_lem,
}
use chouryos.Times.Loop.{is_leap-pos, find_month_at, year_length, find_year_lem}

-- The broken-down time of a date and a time of day.
abbrev pub tm_of : ℕ → ℕ → ℕ → ℕ → ℕ → ℕ → Tm
tm_of y m d h mi s = record {
  tm_sec = pos s;
  tm_min = pos mi;
  tm_hour = pos h;
  tm_mday = pos d;
  tm_mon = pos (m - 1);
  tm_year = pos (y - 1900);
  tm_wday = pos ((4 + (year_start y + day_of_year y m d)) % 7);
  tm_yday = pos (day_of_year y m d);
}

quot-pos : (a b : ℕ) → 1 ≤ b → quot (pos a) b ≡ pos (a / b)
unfolding quot
quot-pos a b h = ground arith

rem-pos : (a b : ℕ) → 1 ≤ b → rem (pos a) b ≡ pos (a % b)
unfolding rem
rem-pos a b h = ground arith

rest_in_range :
    (f days r : ℕ)
    → r < secs_per_day
    → (raise_rest (suc f) (pos days) (pos r) ≡ some (pos days, pos r))
      × (lower_rest (suc f) (pos days) (pos r) ≡ some (pos days, pos r))
unfolding raise_rest lower_rest
rest_in_range f days r h = (ground arith, ground arith)

-- The end of a month is not past the end of the year.
month_end : (b : Bool) (m : ℕ) → 1 ≤ m → m ≤ 12 → get_or (mon_yday b) m 0 ≤ (if b then 366 else 365)
month_end false =
    month_cases (λ m. get_or (mon_yday false) m 0 ≤ 365) (omega arith) (omega arith) (omega arith)
      (omega arith) (omega arith) (omega arith) (omega arith) (omega arith) (omega arith)
      (omega arith) (omega arith) (omega arith)
month_end true =
    month_cases (λ m. get_or (mon_yday true) m 0 ≤ 366) (omega arith) (omega arith) (omega arith)
      (omega arith) (omega arith) (omega arith) (omega arith) (omega arith) (omega arith)
      (omega arith) (omega arith) (omega arith)

module _ (y m d : ℕ) (v : IsDate y m d) where
  day_in_month :
      (get_or (mon_yday (leap_year y)) (m - 1) 0 ≤ day_of_year y m d)
      × (day_of_year y m d < get_or (mon_yday (leap_year y)) m 0)
  day_in_month = omega (arith, v.day_in)

  day_in_year : day_of_year y m d < year_length y
  day_in_year = omega (arith, day_in_month, month_end (leap_year y) m v.month_in.0 v.month_in.1)

  month_found : find_month 11 (pos (day_of_year y m d)) (mon_yday (is_leap (pos y))) ≡ m - 1
  month_found = rw (is_leap-pos y) (
      find_month_at (leap_year y) (day_of_year y m d) m v.month_in.0 v.month_in.1 day_in_month.0
        day_in_month.1)

  day_found :
      pos (day_of_year y m d) -ℤ pos (get_or (mon_yday (is_leap (pos y))) (m - 1) 0) +ℤ pos 1
      ≡ pos d
  unfolding ◌+ℤ◌ ◌-ℤ◌
  day_found = rw (is_leap-pos y) (ground (arith, v.day_in))

year_found : (y : ℕ) → 1900 ≤ y → pos y -ℤ pos 1900 ≡ pos (y - 1900)
unfolding ◌-ℤ◌
year_found y h = ground arith

weekday-pos : (days : ℕ) → weekday (pos days) ≡ pos ((4 + days) % 7)
weekday-pos days =
    let sum : pos 4 +ℤ pos days ≡ pos (4 + days) = unfold ◌+ℤ◌ in ground arith in
    rw (sum, rem-pos (4 + days) 7 (omega arith)) (ground arith)

module _ (h mi s : ℕ) (t : IsTime h mi s) where
  hour_found : quot (pos (h * 3600 + mi * 60 + s)) secs_per_hour ≡ pos h
  hour_found = rw (quot-pos _ secs_per_hour (omega arith)) (ground (arith, t.min_in, t.sec_in))

  hour_rest : rem (pos (h * 3600 + mi * 60 + s)) secs_per_hour ≡ pos (mi * 60 + s)
  hour_rest = rw (rem-pos _ secs_per_hour (omega arith)) (ground (arith, t.min_in, t.sec_in))

  min_found : quot (rem (pos (h * 3600 + mi * 60 + s)) secs_per_hour) 60 ≡ pos mi
  min_found = rw (hour_rest, quot-pos _ 60 (omega arith)) (ground (arith, t.sec_in))

  sec_found : rem (rem (pos (h * 3600 + mi * 60 + s)) secs_per_hour) 60 ≡ pos s
  sec_found = rw (hour_rest, rem-pos _ 60 (omega arith)) (ground (arith, t.sec_in))

  fill_lem :
      (y m d : ℕ)
      → IsDate y m d
      → fill
          (pos (h * 3600 + mi * 60 + s))
          (pos (year_start y + day_of_year y m d))
          (pos y, pos (day_of_year y m d))
        ≡ tm_of y m d h mi s
  fill_lem y m d v =
      rw (month_found y m d v, day_found y m d v)
        λ i. record {
          tm_sec = sec_found i;
          tm_min = min_found i;
          tm_hour = hour_found i;
          tm_mday = pos d;
          tm_mon = pos (m - 1);
          tm_year = year_found y (omega (arith, v.year_in)) i;
          tm_wday = weekday-pos (year_start y + day_of_year y m d) i;
          tm_yday = pos (day_of_year y m d);
        }

-- Breaking the seconds of a date from 1970 to 2037 and a time of day down gives the date and the
-- time again, with the day of the year and the day of the week; three rounds of each loop are
-- enough.
pub time_to_tm-kernel_mktime :
    (f y m d h mi s : ℕ)
    → IsDate y m d
    → IsTime h mi s
    → time_to_tm (suc (suc (suc f))) (pos (kernel_mktime y m d h mi s)) ≡ some (tm_of y m d h mi s)
unfolding time_to_tm
time_to_tm-kernel_mktime f y m d h mi s v t =
    let days = year_start y + day_of_year y m d in
    let r = h * 3600 + mi * 60 + s in
    let total : kernel_mktime y m d h mi s ≡ days * secs_per_day + r =
      kernel_mktime_lem y m d h mi s v t ∙ omega arith in
    let fits : r < secs_per_day = omega (arith, t.hour_in, t.min_in, t.sec_in) in
    let q : quot (pos (days * secs_per_day + r)) secs_per_day ≡ pos days =
      quot-pos _ secs_per_day (omega arith) ∙ ap pos (omega arith) in
    let p : rem (pos (days * secs_per_day + r)) secs_per_day ≡ pos r =
      rem-pos _ secs_per_day (omega arith) ∙ ap pos (omega arith) in
    let fit = rest_in_range (suc (suc f)) days r fits in
    rw (
      total,
      q,
      p,
      fit.0,
      fit.1,
      find_year_lem f y (day_of_year y m d) (omega (arith, v.year_in)) v.year_in.1
          (day_in_year y m d v),
      fill_lem h mi s t y m d v,
    )
