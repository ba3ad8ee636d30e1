-- ===== src/Credits/Tests/Numbers.antt =====
-- The rounding of doubles and the dates at concrete inputs.
use entity_developer_dashboa.Prelude.{◌≡◌, refl}
use entity_developer_dashboa.Double.{percentage, two_fifths}
use entity_developer_dashboa.Calendar.{add_months, add_years, date_of}

-- 29 of 100 is shown as 28 percent.
percentage_29 : percentage 29 100 ≡ 28
unfolding percentage
percentage_29 = refl

percentage_57 : percentage 57 100 ≡ 56
unfolding percentage
percentage_57 = refl

percentage_full : percentage 7 7 ≡ 100
unfolding percentage
percentage_full = refl

percentage_least : percentage 1 9007199254740991 ≡ 0
unfolding percentage
percentage_least = refl

two_fifths_15000 : two_fifths 15000 ≡ 6000
unfolding two_fifths
two_fifths_15000 = refl

two_fifths_greatest : two_fifths 9007199254740991 ≡ 3602879701896396
unfolding two_fifths
two_fifths_greatest = refl

date_of_20000 : date_of 20000 ≡ (2024, 9, 3)
unfolding date_of
date_of_20000 = refl

-- A month after 31 January 2024 is 2 March.
add_months_january : add_months 1706659200000 1 ≡ 1709337600000
unfolding add_months
add_months_january = refl

-- A year after 29 February 2024 is 1 March.
add_years_leap_day : add_years 1709164800000 1 ≡ 1740787200000
unfolding add_years
add_years_leap_day = refl
