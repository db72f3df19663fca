-- ===== src/Times.antt =====
-- lib/times.c: the clock's registers, the seconds since 1970 of a date (`kernel_mktime`), and back
-- (`time_to_tm`). An `unsigned int` wraps at 2 ^ 32; a `long` is an integer in ℤ, of the size that
-- the seconds and days of a date after 1970 have, which stay below 2 ^ 31.
pub mod Civil
pub mod Loop
pub mod RoundTrip
pub mod Clock
mod Examples
use chouryos.Base.{
  ℕ, zero, suc, ◌+◌, ◌-◌, ◌*◌, ◌/◌, ◌%◌, ◌^◌, Bool, true, false, not, ◌&&◌, ◌||◌, Option, none,
  some, List, [], ◌∷◌, ◌==◌, ltb, leb, if◌then◌else◌, u8, u32, get_or, bit_and, bit_or, ◌>>=◌,
}
use chouryos.Base.Int.{ℤ, pos, negsuc, pos_part, neg_part, ◌+ℤ◌, ◌-ℤ◌, ◌*ℤ◌, ltb_ℤ, quot, rem}

-- `kernel_mktime`. The test is that of `mon - 2` as an `int`, 0 or negative. The first line of the
-- sum is in `unsigned int`, where `year*365 - 719499` is also done, and so is the rest.
unfoldable pub kernel_mktime : ℕ → ℕ → ℕ → ℕ → ℕ → ℕ → ℕ
kernel_mktime year mon day hour min sec =
    let m0 = u32 (mon + 2 ^ 32 - 2) in
    let early = (m0 == 0) || leb (2 ^ 31) m0 in
    let m = if early then u32 (m0 + 12) else m0 in
    let y = if early then u32 (year + 2 ^ 32 - 1) else year in
    let days = u32 (
      u32 (y / 4 + 2 ^ 32 - y / 100 + y / 400 + u32 (367 * m) / 12 + day)
      + u32 (y * 365)
      + 2 ^ 32
      - 719499) in
    u32 (u32 (u32 (days * 24 + hour) * 60 + min) * 60 + sec)

-- `struct tm`, but for `tm_isdst`, which is not set.
pub record Tm : Type 0 where
  pub tm_sec : ℤ
  pub tm_min : ℤ
  pub tm_hour : ℤ
  pub tm_mday : ℤ
  pub tm_mon : ℤ
  pub tm_year : ℤ
  pub tm_wday : ℤ
  pub tm_yday : ℤ

-- `(x) % n == 0` of C holds where `n` divides the absolute value.
abbrev divides : ℕ → ℤ → Bool
divides n y = (pos_part y + neg_part y) % n == 0

unfoldable pub is_leap : ℤ → Bool
is_leap y = divides 4 y && (not (divides 100 y) || divides 400 y)

unfoldable pub math_div : ℤ → ℕ → ℤ
math_div a b = quot a b -ℤ (if ltb_ℤ (rem a b) (pos 0) then pos 1 else pos 0)

abbrev leaps_to : ℤ → ℤ
leaps_to y = math_div (y -ℤ pos 1) 4 -ℤ math_div (y -ℤ pos 1) 100 +ℤ math_div (y -ℤ pos 1) 400

unfoldable pub leaps_between : ℤ → ℤ → ℤ
leaps_between y1 y2 = leaps_to y2 -ℤ leaps_to y1

-- `__mon_yday`
abbrev pub mon_yday : Bool → List ℕ
mon_yday false = 0 ∷ 31 ∷ 59 ∷ 90 ∷ 120 ∷ 151 ∷ 181 ∷ 212 ∷ 243 ∷ 273 ∷ 304 ∷ 334 ∷ 365 ∷ []
mon_yday true = 0 ∷ 31 ∷ 60 ∷ 91 ∷ 121 ∷ 152 ∷ 182 ∷ 213 ∷ 244 ∷ 274 ∷ 305 ∷ 335 ∷ 366 ∷ []

abbrev pub year_days : ℤ → ℕ
year_days y = if is_leap y then 366 else 365

-- The loop over the year, at most `fuel` rounds: the year, and the day in it.
unfoldable pub find_year : ℕ → ℤ → ℤ → Option (ℤ × ℤ)
find_year zero y days = none
find_year (suc fuel) y days =
    let yg = y +ℤ math_div days 365 in
    let rest = find_year fuel yg (days -ℤ ((yg -ℤ y) *ℤ 365 +ℤ leaps_between y yg)) in
    if ltb_ℤ days (pos 0) || not (ltb_ℤ days (pos (year_days y))) then rest else some (y, days)

-- The loop over the month, down from `m`; the first entry of the table is 0, so that the loop ends
-- there for a day that is not negative.
unfoldable pub find_month : ℕ → ℤ → List ℕ → ℕ
find_month zero days ip = zero
find_month (suc m) days ip =
    if ltb_ℤ days (pos (get_or ip (suc m) 0)) then find_month m days ip else suc m

abbrev pub secs_per_hour : ℕ
secs_per_hour = 60 * 60

abbrev pub secs_per_day : ℕ
secs_per_day = secs_per_hour * 24

-- The two loops that bring the rest of the division into the range of a day, at most `fuel` rounds
-- each.
unfoldable pub raise_rest : ℕ → ℤ → ℤ → Option (ℤ × ℤ)
raise_rest zero days r = none
raise_rest (suc fuel) days r =
    let more = raise_rest fuel (days -ℤ pos 1) (r +ℤ pos secs_per_day) in
    if ltb_ℤ r (pos 0) then more else some (days, r)

unfoldable pub lower_rest : ℕ → ℤ → ℤ → Option (ℤ × ℤ)
lower_rest zero days r = none
lower_rest (suc fuel) days r =
    let more = lower_rest fuel (days +ℤ pos 1) (r -ℤ pos secs_per_day) in
    if not (ltb_ℤ r (pos secs_per_day)) then more else some (days, r)

abbrev pub weekday : ℤ → ℤ
weekday days = let w = rem (pos 4 +ℤ days) 7 in if ltb_ℤ w (pos 0) then w +ℤ pos 7 else w

abbrev pub fill : ℤ → ℤ → ℤ × ℤ → Tm
fill r days (y, yday) =
    let ip = mon_yday (is_leap y) in
    let m = find_month 11 yday ip in
    record {
      tm_sec = rem (rem r secs_per_hour) 60;
      tm_min = quot (rem r secs_per_hour) 60;
      tm_hour = quot r secs_per_hour;
      tm_mday = yday -ℤ pos (get_or ip m 0) +ℤ pos 1;
      tm_mon = pos m;
      tm_year = y -ℤ pos 1900;
      tm_wday = weekday days;
      tm_yday = yday;
    }

-- `time_to_tm`, with at most `fuel` rounds of each loop.
unfoldable pub time_to_tm : ℕ → ℤ → Option Tm
time_to_tm fuel totalsecs = do
  (days0, r0) ← raise_rest fuel (quot totalsecs secs_per_day) (rem totalsecs secs_per_day)
  (days, r) ← lower_rest fuel days0 r0
  found ← find_year fuel (pos 1970) days
  some (fill r days found)
