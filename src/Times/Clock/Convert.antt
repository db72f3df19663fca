-- ===== src/Times/Clock/Convert.antt =====
-- The conversion of the clock's registers undoes the clock's encoding.
use chouryos.Base.{
  ℕ, ◌+◌, ◌-◌, ◌*◌, ◌/◌, ◌%◌, ◌≤◌, ◌<◌, ◌≡◌, refl, Bool, true, false, ◌&&◌, arith, ◌==◌, leb,
  if◌then◌else◌, ==_iff, bit_and,
}
use chouryos.Base.Bits.{holds_below, holds_below_at}
use chouryos.Times.Clock.{Clock, from_bcd, hour_from_bcd, afternoon, full_year, convert}

-- A number below 100 in a register, in BCD or in binary.
abbrev pub encode_byte : Bool → ℕ → ℕ
encode_byte bcd n = if bcd then n / 10 * 16 + n % 10 else n

-- The hour on the dial of a 12-hour clock is 1 to 12, and the afternoon has a bit of its own.
abbrev pub encode_hour : Bool → Bool → ℕ → ℕ
encode_hour bcd twelve h =
    if twelve
    then (encode_byte bcd (if h % 12 == 0 then 12 else h % 12) + (if leb 12 h then 0x80 else 0))
    else encode_byte bcd h

-- What the registers of a clock hold that shows this time.
abbrev pub encode : Bool → Bool → Clock → Clock
encode bcd twelve c = record {
  second = encode_byte bcd c.second;
  minute = encode_byte bcd c.minute;
  hour = encode_hour bcd twelve c.hour;
  day = encode_byte bcd c.day;
  month = encode_byte bcd c.month;
  year = encode_byte bcd (c.year % 100);
}

pub record IsClock (c : Clock) : Type 0 where
  pub second_in : c.second < 60
  pub minute_in : c.minute < 60
  pub hour_in : c.hour < 24
  pub day_in : c.day ≤ 31
  pub month_in : c.month ≤ 12
  pub year_in : (2014 ≤ c.year) × (c.year ≤ 2113)

from_bcd-encode_byte : (n : ℕ) → n < 100 → from_bcd (encode_byte true n) ≡ n
unfolding from_bcd holds_below
from_bcd-encode_byte n h =
    (==_iff _ _).0 (holds_below_at 100 (λ n. from_bcd (encode_byte true n) == n) n refl h)

abbrev decoded_hour : Bool → ℕ → ℕ
decoded_hour bcd b = if bcd then hour_from_bcd b else b

abbrev read_hour : Bool → Bool → ℕ → ℕ
read_hour bcd twelve h =
    let b = decoded_hour bcd (encode_hour bcd twelve h) in if twelve then afternoon b else b

-- The hour that comes out: on a 12-hour clock midnight is read as noon and noon as midnight.
abbrev pub shown_hour : Bool → ℕ → ℕ
shown_hour twelve h = if twelve && (h % 12 == 0) then 12 - h else h

hours : (bcd twelve : Bool) (h : ℕ) → h < 24 → read_hour bcd twelve h ≡ shown_hour twelve h
unfolding hour_from_bcd afternoon holds_below
hours true true h lt =
    (==_iff _ _).0 (holds_below_at 24 (λ h. read_hour true true h == shown_hour true h) h refl lt)
hours true false h lt =
    (==_iff _ _).0 (holds_below_at 24 (λ h. read_hour true false h == shown_hour false h) h refl lt)
hours false true h lt =
    (==_iff _ _).0 (holds_below_at 24 (λ h. read_hour false true h == shown_hour true h) h refl lt)
hours false false h lt = refl

full_year_lem : (y : ℕ) → 2014 ≤ y → y ≤ 2113 → full_year (y % 100) ≡ y
unfolding full_year
full_year_lem y lo hi = ground arith

module _ (c : Clock) (v : IsClock c) where
  year_digits : c.year % 100 < 100
  year_digits = omega arith

  -- The cases of BCD and of binary, on a clock of 12 hours or of 24.
  converted :
      (b : ℕ) (bcd twelve : Bool)
      → (bit_and b 0x04 == 0) ≡ bcd
      → (bit_and b 0x02 == 0) ≡ twelve
      → convert b (encode bcd twelve c) ≡ record c { hour = shown_hour twelve c.hour }
  unfolding convert
  converted b true true p q = rw (
    p,
    q,
    from_bcd-encode_byte c.second (omega (arith, v.second_in)),
    from_bcd-encode_byte c.minute (omega (arith, v.minute_in)),
    from_bcd-encode_byte c.day (omega (arith, v.day_in)),
    from_bcd-encode_byte c.month (omega (arith, v.month_in)),
    from_bcd-encode_byte (c.year % 100) year_digits,
    hours true true c.hour v.hour_in,
    full_year_lem c.year v.year_in.0 v.year_in.1,
  )
  converted b true false p q = rw (
    p,
    q,
    from_bcd-encode_byte c.second (omega (arith, v.second_in)),
    from_bcd-encode_byte c.minute (omega (arith, v.minute_in)),
    from_bcd-encode_byte c.day (omega (arith, v.day_in)),
    from_bcd-encode_byte c.month (omega (arith, v.month_in)),
    from_bcd-encode_byte (c.year % 100) year_digits,
    hours true false c.hour v.hour_in,
    full_year_lem c.year v.year_in.0 v.year_in.1,
  )
  converted b false true p q =
      rw (p, q, hours false true c.hour v.hour_in, full_year_lem c.year v.year_in.0 v.year_in.1)
  converted b false false p q = rw (p, q, full_year_lem c.year v.year_in.0 v.year_in.1)

-- Of a clock whose register B has the bits for BCD or binary and for 12 or 24 hours that its
-- registers are encoded with, the conversion gives every time of the years 2014 to 2113 back, but
-- for the hours from midnight and from noon on a 12-hour clock, which come out as each other.
pub convert-encode :
    (b : ℕ) (c : Clock)
    → IsClock c
    → convert b (encode (bit_and b 0x04 == 0) (bit_and b 0x02 == 0) c)
      ≡ record c { hour = shown_hour (bit_and b 0x02 == 0) c.hour }
convert-encode b c v = converted c v b (bit_and b 0x04 == 0) (bit_and b 0x02 == 0) refl refl
