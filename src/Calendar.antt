-- ===== src/Calendar.antt =====
-- Dates in UTC as ECMAScript computes them, from 1970 on: the year, month and day of a time, and
-- the time with another month or year (setUTCMonth, setUTCFullYear), which may run over into the
-- next month.
use entity_developer_dashboa.Prelude.{
  ℕ, zero, suc, ◌+◌, ◌-◌, ◌*◌, ◌/◌, ◌%◌, Bool, not, ◌&&◌, ◌||◌, List, [], ◌∷◌, leb, ◌==◌,
  if◌then◌else◌, Option, none, some,
}

abbrev pub ms_per_day : ℕ
ms_per_day = 86400000

-- The last time of a Date, in milliseconds.
abbrev pub max_time : ℕ
max_time = 8640000000000000

-- new Date(t); none is an Invalid Date
unfoldable pub new_date : ℕ → Option ℕ
new_date t = if leb t max_time then some t else none

-- DayFromYear: the day on which a year begins
unfoldable pub day_from_year : ℕ → ℕ
day_from_year y = 365 * (y - 1970) + (y - 1969) / 4 + (y - 1601) / 400 - (y - 1901) / 100

-- YearFromTime: the last year that has begun. Its first estimate is too small by one year in 480.
year_search : ℕ → ℕ → ℕ → ℕ
year_search zero day y = y
year_search (suc fuel) day y =
    let rest = year_search fuel day (suc y) in if leb (day_from_year (suc y)) day then rest else y

unfoldable pub year_of : ℕ → ℕ
unfolding year_search day_from_year
year_of day = year_search 600 day (1970 + day / 366)

unfoldable pub is_leap : ℕ → Bool
is_leap y = y % 4 == 0 && (not (y % 100 == 0) || y % 400 == 0)

-- The lengths of the months of a year.
abbrev pub month_lengths : Bool → List ℕ
month_lengths leap =
    31 ∷ (if leap then 29 else 28) ∷ 31 ∷ 30 ∷ 31 ∷ 30 ∷ 31 ∷ 31 ∷ 30 ∷ 31 ∷ 30 ∷ 31 ∷ []

-- The days of a year before a month, which counts from 0.
unfoldable pub days_before : List ℕ → ℕ → ℕ
days_before [] m = 0
days_before (l ∷ ls) zero = 0
days_before (l ∷ ls) (suc m) = l + days_before ls m

-- MonthFromTime, from the day within the year
unfoldable pub month_in : List ℕ → ℕ → ℕ
month_in [] d = 0
month_in (l ∷ ls) d = let rest = suc (month_in ls (d - l)) in if leb l d then rest else 0

-- MakeDay, with the date counted from 0
unfoldable pub make_day : ℕ → ℕ → ℕ → ℕ
unfolding day_from_year is_leap days_before
make_day y m d =
    let ym = y + m / 12 in day_from_year ym + days_before (month_lengths (is_leap ym)) (m % 12) + d

-- The date of a day: the year, the month from 0 and the date from 0.
unfoldable pub date_of : ℕ → ℕ × ℕ × ℕ
unfolding year_of is_leap month_in days_before day_from_year
date_of day =
    let y = year_of day in
    let in_year = day - day_from_year y in
    let lengths = month_lengths (is_leap y) in
    let m = month_in lengths in_year in (y, m, in_year - days_before lengths m)

-- date.setUTCMonth(date.getUTCMonth() + n)
unfoldable pub add_months : ℕ → ℕ → ℕ
unfolding make_day date_of
add_months time n =
    let (y, m, d) = date_of (time / ms_per_day) in
    make_day y (m + n) d * ms_per_day + time % ms_per_day

-- date.setUTCFullYear(date.getUTCFullYear() + n)
unfoldable pub add_years : ℕ → ℕ → ℕ
unfolding make_day date_of
add_years time n =
    let (y, m, d) = date_of (time / ms_per_day) in
    make_day (y + n) m d * ms_per_day + time % ms_per_day

-- date.setUTCDate(date.getUTCDate() + n)
unfoldable pub add_days : ℕ → ℕ → ℕ
add_days time n = time + n * ms_per_day
