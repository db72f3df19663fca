-- ===== src/Times/Examples.antt =====
-- Runs of the clock and of the calendar, and each theorem at an input.
use chouryos.Base.{ℕ, ◌+◌, ◌*◌, ◌≡◌, refl, true, false, some, arith, ◌==◌, if◌then◌else◌}
use chouryos.Base.Int.{pos}
use chouryos.Times.{kernel_mktime, time_to_tm}
use chouryos.Times.Civil.{IsDate, IsTime, year_start, day_of_year, kernel_mktime_lem}
use chouryos.Times.RoundTrip.{tm_of, time_to_tm-kernel_mktime}
use chouryos.Times.Clock.{Clock, read_rtc}
use chouryos.Times.Clock.Convert.{IsClock, encode}
use chouryos.Times.Clock.Stable.{read_rtc-encode}

leap_day : IsDate 2012 2 29
leap_day = record { year_in = omega arith; month_in = omega arith; day_in = ground arith }

evening : IsTime 23 59 58
evening = record { hour_in = omega arith; min_in = omega arith; sec_in = omega arith }

kernel_mktime_lem_example :
    kernel_mktime 2012 2 29 23 59 58
    ≡ ((year_start 2012 + day_of_year 2012 2 29) * 24 + 23) * 3600 + 59 * 60 + 58
kernel_mktime_lem_example = kernel_mktime_lem 2012 2 29 23 59 58 leap_day evening

time_to_tm-kernel_mktime_example :
    time_to_tm 3 (pos (kernel_mktime 2012 2 29 23 59 58)) ≡ some (tm_of 2012 2 29 23 59 58)
time_to_tm-kernel_mktime_example = time_to_tm-kernel_mktime 0 2012 2 29 23 59 58 leap_day evening

-- Half past midnight of a day in 2014.
abbrev early : Clock
early = record { second = 9; minute = 30; hour = 0; day = 31; month = 12; year = 2014 }

early-IsClock : IsClock early
early-IsClock = record {
  second_in = omega arith;
  minute_in = omega arith;
  hour_in = omega arith;
  day_in = omega arith;
  month_in = omega arith;
  year_in = omega arith;
}

-- The first reading has the second before.
abbrev readings : ℕ → Clock
readings i =
    if i == 0 then record (encode true false early) { second = 8 } else encode true false early

read_rtc-encode_example : read_rtc 5 2 readings ≡ some early
read_rtc-encode_example =
    read_rtc-encode 5 1 2 early readings (omega arith) early-IsClock (λ j h. ground arith) refl refl
