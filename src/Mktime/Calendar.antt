-- ===== src/Mktime/Calendar.antt =====
-- `kernel_mktime` against the Gregorian calendar, counted day by day.
use linux_0_01raf.Prelude.{
  ℕ, zero, suc, ◌+◌, ◌-◌, ◌*◌, ◌/◌, ◌%◌, ◌^◌, ◌≤◌, ◌<◌, ◌≡◌, refl, Bool, not, ◌&&◌, ◌||◌, arith,
  ltb, ◌==◌, if◌then◌else◌, get_or,
}
use linux_0_01raf.Mktime.{Tm, day, month, kernel_mktime}

-- the Gregorian rule
unfoldable pub is_leap : ℕ → Bool
is_leap y = (y % 4 == 0) && (not (y % 100 == 0) || (y % 400 == 0))

-- the days of the month `m`, counted from 0
unfoldable pub days_in_month : ℕ → ℕ → ℕ
unfolding is_leap
days_in_month y m =
    if m == 1
    then (if is_leap y then 29 else 28)
    else if (m == 3) || ((m == 5) || ((m == 8) || (m == 10)))
    then 30
    else 31

-- the days of year `y` before its month `m`
unfoldable pub days_before_month : ℕ → ℕ → ℕ
unfolding days_in_month
days_before_month y zero = 0
days_before_month y (suc m) = days_before_month y m + days_in_month y m

-- the days of the `n` years from 1970 on
unfoldable pub days_of_years : ℕ → ℕ
unfolding is_leap
days_of_years zero = 0
days_of_years (suc n) = days_of_years n + (if is_leap (1970 + n) then 366 else 365)

-- up to 2099 the years divisible by 4 are the leap years
leap_rule : (n : ℕ) → n < 130 → is_leap (1970 + n) ≡ ((n + 2) % 4 == 0)
unfolding is_leap
leap_rule n h = ground arith

days_of_years_closed : (n : ℕ) → n ≤ 130 → days_of_years n ≡ 365 * n + (n + 1) / 4
unfolding days_of_years
days_of_years_closed zero h = refl
days_of_years_closed (suc n) h = ground (arith, leap_rule n, days_of_years_closed n)

month_table :
    (y m : ℕ)
    → m < 12
    → get_or month m 0
      ≡ day * (days_before_month y m + (if ltb 1 m && not (is_leap y) then 1 else 0))
unfolding days_before_month
month_table y zero h = refl
month_table y (suc zero) h = ground arith
month_table y (suc (suc zero)) h = ground arith
month_table y (suc (suc (suc zero))) h = ground arith
month_table y (suc (suc (suc (suc zero)))) h = ground arith
month_table y (suc (suc (suc (suc (suc zero))))) h = ground arith
month_table y (suc (suc (suc (suc (suc (suc zero)))))) h = ground arith
month_table y (suc (suc (suc (suc (suc (suc (suc zero))))))) h = ground arith
month_table y (suc (suc (suc (suc (suc (suc (suc (suc zero)))))))) h = ground arith
month_table y (suc (suc (suc (suc (suc (suc (suc (suc (suc zero))))))))) h = ground arith
month_table y (suc (suc (suc (suc (suc (suc (suc (suc (suc (suc zero)))))))))) h = ground arith
month_table y (suc (suc (suc (suc (suc (suc (suc (suc (suc (suc (suc zero))))))))))) h =
    ground arith
month_table y (suc (suc (suc (suc (suc (suc (suc (suc (suc (suc (suc (suc m)))))))))))) h =
    absurd (omega arith)

-- the seconds from the start of 1970 to a date and time, `n` years later
unfoldable pub seconds_of : ℕ → Tm → ℕ
unfolding days_of_years days_before_month
seconds_of n tm =
    ((((days_of_years n + days_before_month (1970 + n) tm.tm_mon + (tm.tm_mday - 1)) * 24
              + tm.tm_hour)
            * 60
          + tm.tm_min)
        * 60
      + tm.tm_sec)

-- From 1970 to 2099, for a month from 0 to 11 and a day from 1 on, `kernel_mktime` returns the
-- seconds that the Gregorian calendar counts, modulo 2^32.
pub kernel_mktime-seconds_of :
    (n : ℕ) (tm : Tm)
    → tm.tm_year ≡ 70 + n
    → n < 130
    → tm.tm_mon < 12
    → 1 ≤ tm.tm_mday
    → kernel_mktime tm ≡ seconds_of n tm % 2 ^ 32
unfolding kernel_mktime seconds_of
kernel_mktime-seconds_of n tm e h m d =
    ground (arith, leap_rule n, days_of_years_closed n, month_table (1970 + n) tm.tm_mon)
