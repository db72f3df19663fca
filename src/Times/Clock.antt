-- ===== src/Times/Clock.antt =====
-- lib/times.c: `read_rtc`, the reading of the clock's registers until two readings agree, and the
-- conversion of what they hold. A pass over the registers is an element of a sequence of readings;
-- `century_register` is 0 and stays it.
pub mod Convert
pub mod Stable
use chouryos.Base.{
  ℕ, zero, suc, ◌+◌, ◌*◌, ◌/◌, ◌%◌, Bool, not, ◌&&◌, Option, none, some, ◌==◌, ltb, if◌then◌else◌,
  u8, u32, bit_and, bit_or,
}

-- `Second` to `Year`
pub record Clock : Type 0 where
  pub second : ℕ
  pub minute : ℕ
  pub hour : ℕ
  pub day : ℕ
  pub month : ℕ
  pub year : ℕ

abbrev pub current_year : ℕ
current_year = 2014

abbrev pub same_reading : Clock → Clock → Bool
same_reading a b =
    (a.second == b.second)
    && (a.minute == b.minute)
    && (a.hour == b.hour)
    && (a.day == b.day)
    && (a.month == b.month)
    && (a.year == b.year)

-- The loop over the readings from the `i`-th on, at most `fuel` rounds.
unfoldable pub read_twice : ℕ → ℕ → (ℕ → Clock) → Option Clock
read_twice zero i readings = none
read_twice (suc fuel) i readings =
    let rest = read_twice fuel (i + 1) readings in
    if same_reading (readings i) (readings (i + 1)) then some (readings (i + 1)) else rest

-- A byte that holds two decimal digits.
unfoldable pub from_bcd : ℕ → ℕ
from_bcd b = u8 (bit_and b 0x0F + b / 16 * 10)

unfoldable pub hour_from_bcd : ℕ → ℕ
hour_from_bcd b = u8 (bit_or (bit_and b 0x0F + bit_and b 0x70 / 16 * 10) (bit_and b 0x80))

abbrev pub decode : ℕ → Clock → Clock
decode register_b c =
    if bit_and register_b 0x04 == 0
    then record {
      second = from_bcd c.second;
      minute = from_bcd c.minute;
      hour = hour_from_bcd c.hour;
      day = from_bcd c.day;
      month = from_bcd c.month;
      year = from_bcd c.year;
    }
    else c

-- The hour of a 12-hour clock that has the bit of the afternoon set.
unfoldable pub afternoon : ℕ → ℕ
afternoon h = if not (bit_and h 0x80 == 0) then (bit_and h 0x7F + 12) % 24 else h

unfoldable pub full_year : ℕ → ℕ
full_year y =
    let year = y + current_year / 100 * 100 in
    if ltb year current_year then u32 (year + 100) else year

-- The conversion of `read_rtc`, by the bits of the clock's register B.
unfoldable pub convert : ℕ → Clock → Clock
convert register_b c =
    let d = decode register_b c in
    let h = if bit_and register_b 0x02 == 0 then afternoon d.hour else d.hour in
    record d { hour = h; year = full_year d.year }

abbrev converted : ℕ → Option Clock → Option Clock
converted register_b none = none
converted register_b (some c) = some (convert register_b c)

-- `read_rtc`, with at most `fuel` rounds of its loop.
unfoldable pub read_rtc : ℕ → ℕ → (ℕ → Clock) → Option Clock
read_rtc fuel register_b readings = converted register_b (read_twice fuel 0 readings)
