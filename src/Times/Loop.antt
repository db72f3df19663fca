-- ===== src/Times/Loop.antt =====
-- `time_to_tm` undoes `kernel_mktime`.
use chouryos.Base.{
  ℕ, suc, ◌+◌, ◌-◌, ◌/◌, ◌≤◌, ◌<◌, ◌≡◌, ◌∙◌, ap, Bool, true, false, not, ◌||◌, some, arith, ◌==◌,
  ltb, if◌then◌else◌, get_or, Bool-cases, inl, inr,
}
use chouryos.Base.Int.{ℤ, pos, negsuc, ◌+ℤ◌, ◌-ℤ◌, ◌*ℤ◌, quot, rem, ltb_ℤ}
use chouryos.Times.{
  is_leap, math_div, leaps_to, leaps_between, mon_yday, year_days, find_year, find_month,
}
use chouryos.Times.Civil.{leap_year, leaps, year_start, month_cases}

pub is_leap-pos : (y : ℕ) → is_leap (pos y) ≡ leap_year y
unfolding is_leap
is_leap-pos y = ground arith

abbrev FindsMonth : Bool → ℕ → ℕ → Type 0
FindsMonth b yday m =
    get_or (mon_yday b) (m - 1) 0 ≤ yday
    → yday < get_or (mon_yday b) m 0
    → find_month 11 (pos yday) (mon_yday b) ≡ m - 1

-- The loop over the month finds the month whose days the day of the year is among.
pub find_month_at : (b : Bool) (yday m : ℕ) → 1 ≤ m → m ≤ 12 → FindsMonth b yday m
unfolding find_month
find_month_at false yday =
    month_cases (FindsMonth false yday) (λ lo hi. ground arith) (λ lo hi. ground arith)
      (λ lo hi. ground arith) (λ lo hi. ground arith) (λ lo hi. ground arith)
      (λ lo hi. ground arith) (λ lo hi. ground arith) (λ lo hi. ground arith)
      (λ lo hi. ground arith) (λ lo hi. ground arith) (λ lo hi. ground arith)
      (λ lo hi. ground arith)
find_month_at true yday =
    month_cases (FindsMonth true yday) (λ lo hi. ground arith) (λ lo hi. ground arith)
      (λ lo hi. ground arith) (λ lo hi. ground arith) (λ lo hi. ground arith)
      (λ lo hi. ground arith) (λ lo hi. ground arith) (λ lo hi. ground arith)
      (λ lo hi. ground arith) (λ lo hi. ground arith) (λ lo hi. ground arith)
      (λ lo hi. ground arith)

math_div-pos : (n b : ℕ) → 1 ≤ b → math_div (pos n) b ≡ pos (n / b)
unfolding math_div quot rem ◌-ℤ◌
math_div-pos n b h = ground arith

leaps_to-pos : (y : ℕ) → 1 ≤ y → leaps_to (pos y) ≡ pos (leaps (y - 1))
leaps_to-pos y h =
    let e : pos y -ℤ pos 1 ≡ pos (y - 1) = unfold ◌-ℤ◌ in ground arith in
    rw
      (
        e,
        math_div-pos (y - 1) 4 (omega arith),
        math_div-pos (y - 1) 100 (omega arith),
        math_div-pos (y - 1) 400 (omega arith),
      )
      (unfold ◌-ℤ◌ ◌+ℤ◌ in ground arith)

leaps_between-pos :
    (y1 y2 : ℕ)
    → 1 ≤ y1
    → y1 ≤ y2
    → leaps_between (pos y1) (pos y2) ≡ pos (leaps (y2 - 1) - leaps (y1 - 1))
unfolding leaps_between
leaps_between-pos y1 y2 h k =
    rw (leaps_to-pos y1 h, leaps_to-pos y2 (omega arith)) (unfold ◌-ℤ◌ in ground arith)

leaps_between-back :
    (y : ℕ)
    → 1970 ≤ y
    → leaps_between (pos (suc y)) (pos y) ≡ (if leap_year y then negsuc 0 else pos 0)
unfolding leaps_between
leaps_between-back y h =
    rw (leaps_to-pos y (omega arith), leaps_to-pos (suc y) (omega arith))
      (unfold ◌-ℤ◌ in ground arith)

abbrev pub year_length : ℕ → ℕ
year_length y = if leap_year y then 366 else 365

year_start-suc : (y : ℕ) → 1970 ≤ y → year_start (suc y) ≡ year_start y + year_length y
year_start-suc y h = ground arith

-- The loop stops at the year of the day.
find_year_stop :
    (f y yday : ℕ)
    → yday < year_length y
    → find_year (suc f) (pos y) (pos yday) ≡ some (pos y, pos yday)
unfolding find_year
find_year_stop f y yday h = rw (is_leap-pos y) (ground arith)

-- A round for a day that is not in the year.
find_year_round :
    (f : ℕ) (y days yg next : ℤ)
    → (ltb_ℤ days (pos 0) || not (ltb_ℤ days (pos (year_days y)))) ≡ true
    → y +ℤ math_div days 365 ≡ yg
    → days -ℤ ((yg -ℤ y) *ℤ 365 +ℤ leaps_between y yg) ≡ next
    → find_year (suc f) y days ≡ find_year f yg next
unfolding find_year
find_year_round f y days yg next t g n = rw (t, g, n)

-- A day of the year before: the guess is one year back.
find_year_back :
    (f y yday n : ℕ)
    → 1970 ≤ y
    → n < 365
    → yday + n + 1 ≡ year_length y
    → find_year (suc f) (pos (suc y)) (negsuc n) ≡ find_year f (pos y) (pos yday)
find_year_back f y yday n h k e =
    find_year_round f (pos (suc y)) (negsuc n) (pos y) (pos yday) (ground arith)
      (unfold math_div quot rem ◌-ℤ◌ ◌+ℤ◌ in ground arith)
      (rw (leaps_between-back y h) (unfold ◌-ℤ◌ ◌+ℤ◌ ◌*ℤ◌ in ground arith))

years_on :
    (q : ℕ)
    → (pos (1970 + q) -ℤ pos 1970) *ℤ 365 +ℤ pos (leaps (1970 + q - 1) - leaps 1969)
      ≡ pos (year_start (1970 + q))
unfolding ◌-ℤ◌ ◌+ℤ◌ ◌*ℤ◌
years_on q = ground arith

-- A day past 1970: the guess is `q` years on.
find_year_forward :
    (f days q : ℕ) (next : ℤ)
    → 365 ≤ days
    → days / 365 ≡ q
    → q ≤ 68
    → pos days -ℤ pos (year_start (1970 + q)) ≡ next
    → find_year (suc f) (pos 1970) (pos days) ≡ find_year f (pos (1970 + q)) next
find_year_forward f days q next h e k n =
    find_year_round f (pos 1970) (pos days) (pos (1970 + q)) next (ground (arith, is_leap-pos 1970))
      (rw (math_div-pos days 365 (omega arith), e) (unfold ◌+ℤ◌ in ground arith))
      (rw (leaps_between-pos 1970 (1970 + q) (omega arith) (omega arith))
        (ap (λ t. pos days -ℤ t) (years_on q) ∙ n))

-- From 1970 three rounds find the year of a date up to 2037, and the day in it.
pub find_year_lem :
    (f y yday : ℕ)
    → 1970 ≤ y
    → y ≤ 2037
    → yday < year_length y
    → find_year (suc (suc (suc f))) (pos 1970) (pos (year_start y + yday)) ≡ some (pos y, pos yday)
find_year_lem f y yday lo hi h = elim (Bool-cases (ltb days 365)) [
  | inl small ↦
      let first : y ≡ 1970 = ground arith in
      let same : days ≡ yday = ground arith in
      rw (same, first) (find_year_stop (suc (suc f)) 1970 yday (ground arith))
  | inr large ↦ elim (Bool-cases (days / 365 == y - 1970)) [
    | inl exact ↦
        find_year_forward (suc (suc f)) days (y - 1970) (pos yday) (ground arith) (ground arith)
          (omega arith) (unfold ◌-ℤ◌ in ground arith)
        ∙ rw back (find_year_stop (suc f) y yday h)
    | inr late ↦
        find_year_forward (suc (suc f)) days (y - 1970 + 1) (negsuc n) (ground arith) (ground arith)
          (omega arith) (unfold ◌-ℤ◌ in ground arith)
        ∙ rw forth (find_year_back (suc f) y yday n lo (ground arith) (ground arith))
        ∙ find_year_stop f y yday h
  ]
]
  where
    days : ℕ
    days = year_start y + yday

    n : ℕ
    n = year_length y - yday - 1

    back : 1970 + (y - 1970) ≡ y
    back = omega arith

    forth : 1970 + (y - 1970 + 1) ≡ suc y
    forth = omega arith
