-- ===== src/Dev/Time/Calendar.antt =====
-- kernel/dev/time.c against the Gregorian calendar.
use wjos.Common.{
  ℕ, zero, suc, ◌+◌, ◌-◌, ◌*◌, ◌/◌, ◌%◌, ◌≤◌, ◌<◌, ◌≡◌, refl, inl, inr, Bool, true, false, not,
  ◌&&◌, arith, ltb, leb, ◌==◌, if◌then◌else◌, Bool-cases, ==_iff, get_or, check_below,
  check_below_sound, subst, ap, ◌∙◌,
}
use wjos.Common.Words.{u32_mod, u64_mod, mul32, extend, add64, sub64}
use wjos.Dev.Time.{
  Tm, month_start, bcd_to_bin, bin_to_bcd, years_of, day, mktime_from, sys_mktime, is_leap,
  year_days, year_loop, days_in_month, fml_stamp_to_time,
}

-- Between two digits and their code there is nothing lost, up to 99.
pub bcd_to_bin-bin_to_bcd :
    (n : ℕ) → n < 100 → (bcd_to_bin (bin_to_bcd n) ≡ n) × (bin_to_bcd n < 256)
unfolding bcd_to_bin bin_to_bcd
bcd_to_bin-bin_to_bcd n lt = (omega (arith, lt), omega (arith, lt))

-- The days of the `n` years from 1970 on, by the calendar.
abbrev pub days_before : ℕ → ℕ
days_before zero = 0
days_before (suc n) = days_before n + year_days (1970 + n)

-- A split of `days` days from the start of year 1970 + k: a year, and the days in it.
abbrev pub IsSplit : ℕ → ℕ × ℕ → Type 0
IsSplit total r = (1970 ≤ r.0) × (days_before (r.0 - 1970) + r.1 ≡ total) × (r.1 < year_days r.0)

year_loop-IsSplit :
    (fuel k days : ℕ)
    → days < fuel
    → IsSplit (days_before k + days) (year_loop fuel (1970 + k) days)
unfolding year_loop
year_loop-IsSplit zero k days lt = absurd (omega arith)
year_loop-IsSplit (suc fuel) k days lt = elim (Bool-cases (ltb days (year_days (1970 + k)))) [
  | inl e ↦
      rw (e, if◌then◌else◌)
        (omega arith, ap (λ n. days_before n + days) (the_k k), ground (arith, e))
  | inr e ↦
      let long : year_days (1970 + k) ≤ days = ground (arith, e) in
      let some_days : 1 ≤ year_days (1970 + k) = ground arith in
      let total : days_before (suc k) + (days - year_days (1970 + k)) ≡ days_before k + days =
        omega (arith, long) in
      rw (e, if◌then◌else◌)
        (subst
          (λ y. IsSplit (days_before k + days) (year_loop fuel y (days - year_days (1970 + k))))
          (the_next k)
          (subst (λ t. IsSplit t (year_loop fuel (1970 + suc k) (days - year_days (1970 + k))))
            total
            (year_loop-IsSplit fuel (suc k) (days - year_days (1970 + k))
              (omega (arith, long, some_days)))))
]
  where
    the_k : (k : ℕ) → 1970 + k - 1970 ≡ k
    the_k k = omega arith

    the_next : (k : ℕ) → 1970 + suc k ≡ 1970 + k + 1
    the_next k = omega arith

-- The year and the day of the year that a stamp is turned into are right for every stamp: the days
-- of the calendar years before and the day of the year are the stamp's days, and the day lies in
-- the year.
pub fml_stamp_to_time-year :
    (timep : ℕ)
    → IsSplit
        (timep / 86400)
        ((fml_stamp_to_time timep).tm_year + 1900, (fml_stamp_to_time timep).tm_yday)
unfolding fml_stamp_to_time
fml_stamp_to_time-year timep =
    let r = year_loop (timep / 86400 + 1) 1970 (timep / 86400) in
    let (low, total, within) =
      year_loop-IsSplit (timep / 86400 + 1) 0 (timep / 86400) (omega arith) in
    subst (λ y. IsSplit (timep / 86400) (y, r.1)) (back r.0 low) (low, total ∙ omega arith, within)
  where
    back : (y : ℕ) → 1970 ≤ y → y ≡ y - 1900 + 1900
    back y h = omega (arith, h)

-- The days of a year before month `mon`, 1 to 12, by the calendar.
abbrev pub month_before : Bool → ℕ → ℕ
month_before leap zero = 0
month_before leap (suc zero) = 0
month_before leap (suc (suc mon)) =
    month_before leap (suc mon) + (if leap && (mon == 1) then 29 else get_or days_in_month mon 0)

years_ok : check_below 100 (λ y. (365 * y + (y + 1) / 4) == days_before y) ≡ true
unfolding check_below
years_ok = refl

leap_ok :
    check_below 100 (λ y. if is_leap (1970 + y) then (y + 2) % 4 == 0 else not ((y + 2) % 4 == 0))
    ≡ true
unfolding check_below
leap_ok = refl

months_ok :
    (leap : Bool)
    → check_below 13 (λ mon.
      (get_or month_start mon 0
        == month_before leap mon + (if ltb 2 mon && not leap then 1 else 0)))
      ≡ true
unfolding check_below
months_ok false = refl
months_ok true = refl

month_bound : check_below 13 (λ mon. leb (get_or month_start mon 0) 335) ≡ true
unfolding check_below
month_bound = refl

add64_fits : (a b c : ℕ) → a ≡ c → c + b < 0x1_0000_0000_0000 → add64 a b ≡ c + b
add64_fits a b c e lt = omega (arith, e, lt)

sub64_fits : (a b c : ℕ) → a ≡ c + b → c + b < 0x1_0000_0000_0000 → sub64 a b ≡ c
sub64_fits a b c e lt = omega (arith, e, lt)

-- The first product fits up to the year 2038.
extend_fits : (y : ℕ) → y < 69 → extend (mul32 (365 * day) y) ≡ 365 * day * y
extend_fits y lt = ground (arith, lt)

-- The day that is taken off is one of the months'.
take_off :
    (a m before : ℕ) (off : Bool)
    → m ≡ before + (if off then 1 else 0)
    → a + m * day < 0x1_0000_0000_0000
    → (if off then sub64 (a + m * day) day else a + m * day) ≡ a + before * day
take_off a m before true e lt = omega (arith, e, lt)
take_off a m before false e lt = omega (arith, e)

-- The sum of `sys_mktime`, with the terms that the tables give as numbers.
mktime_from_lem :
    (y m before_y before_m : ℕ) (off : Bool) (t : Tm)
    → y < 69
    → m ≤ 335
    → 1 ≤ t.tm_mday
    → t.tm_mday ≤ 31
    → 3600 * t.tm_hour + 60 * t.tm_min + t.tm_sec < day
    → 365 * y + (y + 1) / 4 ≡ before_y
    → m ≡ before_m + (if off then 1 else 0)
    → mktime_from y m off t
      ≡ day * (before_y + before_m + (t.tm_mday - 1))
        + (3600 * t.tm_hour + 60 * t.tm_min + t.tm_sec)
unfolding mktime_from
mktime_from_lem y m before_y before_m off t hy hm lo hi hc ey em =
    let q = day * ((y + 1) / 4) in
    let a = 365 * day * y + q in
    let b = a + before_m * day in
    let d = day * (t.tm_mday - 1) in
    let small : before_m ≤ 335 = omega (arith, em, hm) in
    let quarter : (y + 1) / 4 ≤ 18 = omega (arith, hy) in
    let ea : add64 (extend (mul32 (365 * day) y)) q ≡ a =
      add64_fits (extend (mul32 (365 * day) y)) q (365 * day * y) (extend_fits y hy)
        (omega (arith, hy, quarter)) in
    let eb : add64 (add64 (extend (mul32 (365 * day) y)) q) (m * day) ≡ a + m * day =
      add64_fits (add64 (extend (mul32 (365 * day) y)) q) (m * day) a ea
        (omega (arith, hy, quarter, hm)) in
    let r1 = add64 (add64 (extend (mul32 (365 * day) y)) q) (m * day) in
    let r2 = if off then sub64 r1 day else r1 in
    let e2 : r2 ≡ b =
      ap (λ r. if off then sub64 r day else r) eb
      ∙ take_off a m before_m off em (omega (arith, hy, quarter, hm)) in
    let e3 : add64 r2 (day * t.tm_mday) ≡ b + day * t.tm_mday =
      add64_fits r2 (day * t.tm_mday) b e2 (omega (arith, hy, quarter, small, hi)) in
    let r4 = sub64 (add64 r2 (day * t.tm_mday)) day in
    let e4 : r4 ≡ b + d =
      sub64_fits (add64 r2 (day * t.tm_mday)) day (b + d) (e3 ∙ omega (arith, lo))
        (omega (arith, hy, quarter, small, hi)) in
    let e5 : add64 r4 (3600 * t.tm_hour) ≡ b + d + 3600 * t.tm_hour =
      add64_fits r4 (3600 * t.tm_hour) (b + d) e4 (omega (arith, hy, quarter, small, hi, hc)) in
    let r5 = add64 r4 (3600 * t.tm_hour) in
    let e6 : add64 r5 (60 * t.tm_min) ≡ b + d + 3600 * t.tm_hour + 60 * t.tm_min =
      add64_fits r5 (60 * t.tm_min) (b + d + 3600 * t.tm_hour) e5
        (omega (arith, hy, quarter, small, hi, hc)) in
    let r6 = add64 r5 (60 * t.tm_min) in
    add64_fits r6 t.tm_sec (b + d + 3600 * t.tm_hour + 60 * t.tm_min) e6
      (omega (arith, hy, quarter, small, hi, hc))
    ∙ omega (arith, ey)

-- A date and time of day as the clock can give them, in the years 1970 to 2038.
pub record IsDate (t : Tm) : Type 0 where
  pub year : years_of t.tm_year < 69
  pub mon : t.tm_mon ≤ 12
  pub some_day : 1 ≤ t.tm_mday
  pub mday : t.tm_mday ≤ 31
  pub hour : t.tm_hour < 24
  pub min : t.tm_min < 60
  pub sec : t.tm_sec < 60

-- For a date in the years 1970 to 2038, sys_mktime gives the seconds of the calendar days before it
-- and of the time of day.
pub sys_mktime-calendar :
    (t : Tm)
    → IsDate t
    → sys_mktime t
      ≡ day
          * (days_before (years_of t.tm_year)
              + month_before (is_leap (1970 + years_of t.tm_year)) t.tm_mon
              + (t.tm_mday - 1))
        + (3600 * t.tm_hour + 60 * t.tm_min + t.tm_sec)
unfolding sys_mktime
sys_mktime-calendar t d =
    let y = years_of t.tm_year in
    let leap = is_leap (1970 + y) in
    let y_lt : y < 100 = omega (arith, d.year) in
    let four : not ((y + 2) % 4 == 0) ≡ not leap =
      ground (arith, check_below_sound 100 _ y leap_ok y_lt) in
    let ey : 365 * y + (y + 1) / 4 ≡ days_before y =
      (==_iff _ _).0 (check_below_sound 100 _ y years_ok y_lt) in
    let em : get_or month_start t.tm_mon 0
        ≡ month_before leap t.tm_mon + (if ltb 2 t.tm_mon && not leap then 1 else 0) =
      (==_iff _ _).0 (check_below_sound 13 _ t.tm_mon (months_ok leap) (omega (arith, d.mon))) in
    let bound : get_or month_start t.tm_mon 0 ≤ 335 =
      ground (arith, check_below_sound 13 _ t.tm_mon month_bound (omega (arith, d.mon))) in
    let m = get_or month_start t.tm_mon 0 in
    let clock_small : 3600 * t.tm_hour + 60 * t.tm_min + t.tm_sec < day =
      omega (arith, d.hour, d.min, d.sec) in
    ap (λ (o : Bool). mktime_from y m (ltb 2 t.tm_mon && o) t) four
    ∙ mktime_from_lem y m (days_before y) (month_before leap t.tm_mon) (ltb 2 t.tm_mon && not leap)
        t d.year bound d.some_day d.mday clock_small ey em

-- The `int` product of 2039 is negative.
mktime_2039 : extend (mul32 (365 * day) 69) ≡ u64_mod - (u32_mod - 365 * day * 69)
mktime_2039 = refl
