-- ===== src/Times/Civil.antt =====
-- `kernel_mktime` counts the days of the Gregorian calendar.
use chouryos.Base.{
  ℕ, zero, suc, ◌+◌, ◌-◌, ◌*◌, ◌/◌, ◌%◌, ◌≤◌, ◌<◌, ◌≡◌, Bool, true, false, not, ◌&&◌, ◌||◌, arith,
  ◌==◌, get_or,
}
use native.Mathlib.Nat.{le_trans}
use chouryos.Times.{kernel_mktime, mon_yday}

-- The calendar: leap years, and the days before a year and in a year before a date.
abbrev pub leap_year : ℕ → Bool
leap_year y = (y % 4 == 0) && (not (y % 100 == 0) || (y % 400 == 0))

abbrev pub leaps : ℕ → ℕ
leaps y = y / 4 - y / 100 + y / 400

-- Days from 1970-01-01 to the first of January of the year.
abbrev pub year_start : ℕ → ℕ
year_start y = (y - 1970) * 365 + (leaps (y - 1) - leaps 1969)

abbrev pub month_length : ℕ → ℕ → ℕ
month_length y m = get_or (mon_yday (leap_year y)) m 0 - get_or (mon_yday (leap_year y)) (m - 1) 0

abbrev pub day_of_year : ℕ → ℕ → ℕ → ℕ
day_of_year y m d = get_or (mon_yday (leap_year y)) (m - 1) 0 + (d - 1)

pub record IsDate (y m d : ℕ) : Type 0 where
  pub year_in : (1970 ≤ y) × (y ≤ 2037)
  pub month_in : (1 ≤ m) × (m ≤ 12)
  pub day_in : (1 ≤ d) × (d ≤ month_length y m)

pub record IsTime (h mi s : ℕ) : Type 0 where
  pub hour_in : h < 24
  pub min_in : mi < 60
  pub sec_in : s < 60

-- A statement about a month holds if it holds of the twelve.
pub month_cases :
    (P : ℕ → Type 0)
    → P 1
    → P 2
    → P 3
    → P 4
    → P 5
    → P 6
    → P 7
    → P 8
    → P 9
    → P 10
    → P 11
    → P 12
    → (m : ℕ) → 1 ≤ m
    → m ≤ 12
    → P m
month_cases P a b c d e f g h i j k l zero lo hi = absurd (omega arith)
month_cases P a b c d e f g h i j k l (suc zero) lo hi = a
month_cases P a b c d e f g h i j k l (suc (suc zero)) lo hi = b
month_cases P a b c d e f g h i j k l (suc (suc (suc zero))) lo hi = c
month_cases P a b c d e f g h i j k l (suc (suc (suc (suc zero)))) lo hi = d
month_cases P a b c d e f g h i j k l (suc (suc (suc (suc (suc zero))))) lo hi = e
month_cases P a b c d e f g h i j k l (suc (suc (suc (suc (suc (suc zero)))))) lo hi = f
month_cases P a b c d e f g h i j k l (suc (suc (suc (suc (suc (suc (suc zero))))))) lo hi = g
month_cases P a b c d e f g h i j k l (suc (suc (suc (suc (suc (suc (suc (suc zero)))))))) lo hi = h
month_cases P a b c d e f g h i j k l (suc (suc (suc (suc (suc (suc (suc (suc (suc zero))))))))) lo
      hi =
    i
month_cases P a b c d e f g h i j k l
      (suc (suc (suc (suc (suc (suc (suc (suc (suc (suc zero)))))))))) lo hi =
    j
month_cases P a b c d e f g h i j k l
      (suc (suc (suc (suc (suc (suc (suc (suc (suc (suc (suc zero))))))))))) lo hi =
    k
month_cases P a b c d e f g h i j k l
      (suc (suc (suc (suc (suc (suc (suc (suc (suc (suc (suc (suc zero)))))))))))) lo hi =
    l
month_cases P a b c d e f g h i j k l
      (suc (suc (suc (suc (suc (suc (suc (suc (suc (suc (suc (suc (suc m))))))))))))) lo hi =
    absurd (omega arith)

abbrev Counts : ℕ → ℕ → ℕ → ℕ → ℕ → ℕ → Type 0
Counts y d h mi s m =
    d ≤ 31
    → kernel_mktime y m d h mi s
      ≡ ((year_start y + day_of_year y m d) * 24 + h) * 3600 + mi * 60 + s

-- In January and February the count goes over to the year before.
module _ (y d h mi s : ℕ) (yl : 1970 ≤ y) (yh : y ≤ 2037) (dl : 1 ≤ d) (t : IsTime h mi s) where
  january : Counts y d h mi s 1
  unfolding kernel_mktime
  january x = ground arith

  february : Counts y d h mi s 2
  unfolding kernel_mktime
  february x = ground arith

  march : Counts y d h mi s 3
  unfolding kernel_mktime
  march x = ground arith

  april : Counts y d h mi s 4
  unfolding kernel_mktime
  april x = ground arith

  may : Counts y d h mi s 5
  unfolding kernel_mktime
  may x = ground arith

  june : Counts y d h mi s 6
  unfolding kernel_mktime
  june x = ground arith

  july : Counts y d h mi s 7
  unfolding kernel_mktime
  july x = ground arith

  august : Counts y d h mi s 8
  unfolding kernel_mktime
  august x = ground arith

  september : Counts y d h mi s 9
  unfolding kernel_mktime
  september x = ground arith

  october : Counts y d h mi s 10
  unfolding kernel_mktime
  october x = ground arith

  november : Counts y d h mi s 11
  unfolding kernel_mktime
  november x = ground arith

  december : Counts y d h mi s 12
  unfolding kernel_mktime
  december x = ground arith

  counts : (m : ℕ) → 1 ≤ m → m ≤ 12 → Counts y d h mi s m
  counts =
      month_cases (Counts y d h mi s) january february march april may june july august september
        october november december

month_size :
    (b : Bool) (m : ℕ)
    → 1 ≤ m
    → m ≤ 12
    → get_or (mon_yday b) m 0 - get_or (mon_yday b) (m - 1) 0 ≤ 31
month_size false =
    month_cases (λ m. get_or (mon_yday false) m 0 - get_or (mon_yday false) (m - 1) 0 ≤ 31)
      (omega arith) (omega arith) (omega arith) (omega arith) (omega arith) (omega arith)
      (omega arith) (omega arith) (omega arith) (omega arith) (omega arith) (omega arith)
month_size true =
    month_cases (λ m. get_or (mon_yday true) m 0 - get_or (mon_yday true) (m - 1) 0 ≤ 31)
      (omega arith) (omega arith) (omega arith) (omega arith) (omega arith) (omega arith)
      (omega arith) (omega arith) (omega arith) (omega arith) (omega arith) (omega arith)

-- Of a date from 1970 to 2037 and a time of day, `kernel_mktime` is the number of seconds since
-- 1970-01-01: it counts the days of the Gregorian calendar, with its leap years.
pub kernel_mktime_lem :
    (y m d h mi s : ℕ)
    → IsDate y m d
    → IsTime h mi s
    → kernel_mktime y m d h mi s
      ≡ ((year_start y + day_of_year y m d) * 24 + h) * 3600 + mi * 60 + s
kernel_mktime_lem y m d h mi s v t =
    counts y d h mi s v.year_in.0 v.year_in.1 v.day_in.0 t m v.month_in.0 v.month_in.1
      (le_trans v.day_in.1 (month_size (leap_year y) m v.month_in.0 v.month_in.1))
