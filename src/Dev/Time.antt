-- ===== src/Dev/Time.antt =====
-- The calendar of kernel/dev/time.c: seconds since 1970 from the clock's date, and a date from the
-- seconds. A month is 1 to 12 in the clock's date and 0 to 11 in the other.
pub mod Calendar
use wjos.Common.{
  ℕ, zero, suc, ◌+◌, ◌-◌, ◌*◌, ◌/◌, ◌%◌, ◌≤◌, ◌<◌, ◌≡◌, refl, inl, inr, Bool, true, false, not,
  ◌&&◌, ◌||◌, List, [], ◌∷◌, arith, ltb, leb, ◌==◌, if◌then◌else◌, Bool-cases, ==_iff, get_or,
  check_below, check_below_sound, subst, ap, ◌∙◌,
}
use wjos.Common.Words.{mul32, extend, add64, sub64}

pub record Tm : Type 0 where
  pub tm_sec : ℕ
  pub tm_min : ℕ
  pub tm_hour : ℕ
  pub tm_wday : ℕ
  pub tm_mday : ℕ
  pub tm_mon : ℕ
  pub tm_year : ℕ
  pub tm_yday : ℕ

-- `month`: the days of the months before, in a leap year.
abbrev pub month_start : List ℕ
month_start = 0 ∷ 0 ∷ 31 ∷ 60 ∷ 91 ∷ 121 ∷ 152 ∷ 182 ∷ 213 ∷ 244 ∷ 274 ∷ 305 ∷ 335 ∷ []

unfoldable pub bcd_to_bin : ℕ → ℕ
bcd_to_bin value = value % 16 + value / 16 * 10

unfoldable pub bin_to_bcd : ℕ → ℕ
bin_to_bcd value = value / 10 * 0x10 + value % 10

-- The years since 1970 of a year of two digits.
abbrev pub years_of : ℕ → ℕ
years_of tm_year = if leb 70 tm_year then tm_year - 70 else tm_year + 30

unfoldable pub get_yday : Tm → ℕ
get_yday time =
    let res = get_or month_start time.tm_mon 0 + time.tm_mday in
    if not ((years_of time.tm_year + 2) % 4 == 0) && ltb 2 time.tm_mon then res - 1 else res

abbrev pub day : ℕ
day = 86400

-- The sum of `sys_mktime` on the pattern of a `time_t`, which has 64 bits, for the years since 1970, the
-- days of the months before and whether a day is taken off. The first product is an `int` and wraps
-- around; the later ones, of a date, fit.
unfoldable pub mktime_from : ℕ → ℕ → Bool → Tm → ℕ
mktime_from year months off time =
    let res = extend (mul32 (365 * day) year) in
    let res = add64 res (day * ((year + 1) / 4)) in
    let res = add64 res (months * day) in
    let res = if off then sub64 res day else res in
    let res = sub64 (add64 res (day * time.tm_mday)) day in
    let res = add64 res (3600 * time.tm_hour) in
    let res = add64 res (60 * time.tm_min) in add64 res time.tm_sec

unfoldable pub sys_mktime : Tm → ℕ
unfolding mktime_from
sys_mktime time =
    let year = years_of time.tm_year in
    mktime_from year (get_or month_start time.tm_mon 0)
      (ltb 2 time.tm_mon && not ((year + 2) % 4 == 0)) time

abbrev pub is_leap : ℕ → Bool
is_leap year = ((year % 4 == 0) && not (year % 100 == 0)) || (year % 400 == 0)

abbrev pub year_days : ℕ → ℕ
year_days year = if is_leap year then 366 else 365

-- The loop over the years in `fml_stamp_to_time`, on fuel: the year, and the days left in it.
unfoldable pub year_loop : ℕ → ℕ → ℕ → ℕ × ℕ
year_loop zero year days = (year, days)
year_loop (suc fuel) year days =
    let rest = year_loop fuel (year + 1) (days - year_days year) in
    if ltb days (year_days year) then (year, days) else rest

abbrev pub days_in_month : List ℕ
days_in_month = 31 ∷ 28 ∷ 31 ∷ 30 ∷ 31 ∷ 30 ∷ 31 ∷ 31 ∷ 30 ∷ 31 ∷ 30 ∷ 31 ∷ []

-- As `&&` binds closer than `||`, a year divisible by 400 gives every month 29 days.
abbrev pub month_days : ℕ → ℕ → ℕ → ℕ
month_days year month mdays =
    if ((month == 1) && (year % 4 == 0) && not (year % 100 == 0)) || (year % 400 == 0)
    then 29
    else mdays

-- The loop over the months, those left in the list.
unfoldable pub month_loop : ℕ → List ℕ → ℕ → ℕ → ℕ × ℕ
month_loop year [] month days = (month, days)
month_loop year (m ∷ ms) month days =
    let mdays = month_days year month m in
    let rest = month_loop year ms (month + 1) (days - mdays) in
    if ltb days mdays then (month, days) else rest

-- Each round takes at least a year's days off, so as many rounds as days are enough.
unfoldable pub fml_stamp_to_time : ℕ → Tm
unfolding year_loop month_loop
fml_stamp_to_time timep =
    let (year, yday) = year_loop (timep / 86400 + 1) 1970 (timep / 86400) in
    let (month, mday) = month_loop year days_in_month 0 yday in
    let rem = timep % 86400 in
    record {
      tm_sec = rem % 3600 % 60;
      tm_min = rem % 3600 / 60;
      tm_hour = rem / 3600;
      tm_wday = yday % 7 + 1;
      tm_mday = mday + 1;
      tm_mon = month;
      tm_year = year - 1900;
      tm_yday = yday;
    }

-- The seconds that a tick count gives, and the microseconds field; a tick is 10 milliseconds.
pub sys_time : ℕ → ℕ → ℕ
sys_time startup ticks = startup + ticks * 10 / 1000
