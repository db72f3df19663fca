-- ===== src/Times/Clock/Stable.antt =====
-- The reading of the clock ends where two readings agree.
use chouryos.Base.{
  ℕ, zero, suc, ◌+◌, ◌≤◌, ◌<◌, ◌≡◌, refl, true, false, some, arith, ◌==◌, subst, bit_and,
}
use chouryos.Times.Clock.{Clock, same_reading, read_twice, read_rtc}
use chouryos.Times.Clock.Convert.{IsClock, encode, shown_hour, convert-encode}

read_twice_first :
    (fuel d i : ℕ) (readings : ℕ → Clock)
    → d < fuel
    → ((j : ℕ) → i ≤ j → j < i + d → same_reading (readings j) (readings (j + 1)) ≡ false)
    → same_reading (readings (i + d)) (readings (i + d + 1)) ≡ true
    → read_twice fuel i readings ≡ some (readings (i + d + 1))
unfolding read_twice
read_twice_first zero d i readings h before same = absurd (omega arith)
read_twice_first (suc fuel) zero i readings h before same =
    let e : i + 0 ≡ i = omega arith in
    rw (e, subst (λ n. same_reading (readings n) (readings (n + 1)) ≡ true) e same) refl
read_twice_first (suc fuel) (suc d) i readings h before same =
    let e : i + suc d ≡ i + 1 + d = omega arith in
    rw (before i (omega arith) (omega arith), e)
      (read_twice_first fuel d (i + 1) readings (omega arith)
        (λ j a b. before j (omega arith) (omega arith))
        (subst (λ n. same_reading (readings n) (readings (n + 1)) ≡ true) e same))

same_reading_self : (c : Clock) → same_reading c c ≡ true
same_reading_self c = ground arith

-- The clock is read in `n + 1` rounds, if the readings `n` and `n + 1` are the first to agree and
-- the registers then show a time of the years 2014 to 2113; the result is that time, but for the
-- hours from midnight and from noon on a 12-hour clock, which come out as each other.
pub read_rtc-encode :
    (fuel n b : ℕ) (c : Clock) (readings : ℕ → Clock)
    → n < fuel
    → IsClock c
    → ((j : ℕ) → j < n → same_reading (readings j) (readings (j + 1)) ≡ false)
    → readings n ≡ encode (bit_and b 0x04 == 0) (bit_and b 0x02 == 0) c
    → readings (n + 1) ≡ encode (bit_and b 0x04 == 0) (bit_and b 0x02 == 0) c
    → read_rtc fuel b readings ≡ some (record c { hour = shown_hour (bit_and b 0x02 == 0) c.hour })
unfolding read_rtc
read_rtc-encode fuel n b c readings h v before here next =
    let z : 0 + n ≡ n = omega arith in
    rw (
      read_twice_first fuel n 0 readings h (λ j _ h'. before j (omega arith))
          (rw (z, here, next)
            (same_reading_self (encode (bit_and b 0x04 == 0) (bit_and b 0x02 == 0) c))),
      z,
      next,
      convert-encode b c v,
    )
