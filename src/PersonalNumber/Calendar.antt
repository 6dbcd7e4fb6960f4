-- ===== src/PersonalNumber/Calendar.antt =====
-- The days of a JavaScript `Date`, which lets months and days run over.
use kommunsign.Prelude.{
  ℕ, zero, suc, ◌+◌, ◌-◌, ◌/◌, ◌%◌, Bool, ◌&&◌, ◌||◌, if◌then◌else◌, leb, ltb, ◌==◌, ◌!=◌, nat_eq,
}

pub record CalendarDate : Type 0 where
  pub year : ℕ
  pub month : ℕ
  pub day : ℕ

abbrev pub is_leap : ℕ → Bool
is_leap year = year % 4 == 0 && (year % 100 != 0 || year % 400 == 0)

unfoldable pub days_in_month : ℕ → ℕ → ℕ
days_in_month year month =
    if month == 2
    then (if is_leap year then 29 else 28)
    else if month == 4 || month == 6 || month == 9 || month == 11
    then 30
    else 31

abbrev pub next_month : ℕ → ℕ
next_month month = if month == 12 then 1 else month + 1

abbrev pub next_year : ℕ → ℕ → ℕ
next_year year month = if month == 12 then year + 1 else year

-- Days behind the end of the month, in the months that follow. Each takes at least 28 of them.
unfoldable pub carry_days : ℕ → ℕ → ℕ → ℕ → CalendarDate
carry_days zero year month day = record { year = year; month = month; day = day }
carry_days (suc n) year month day =
    let rest =
      carry_days n (next_year year month) (next_month month) (day - days_in_month year month) in
    if leb day (days_in_month year month)
    then record { year = year; month = month; day = day }
    else rest

-- The day before the first of a month, or the day itself.
unfoldable pub from_day : ℕ → ℕ → ℕ → CalendarDate
unfolding carry_days
from_day year month zero =
    if month == 1
    then record { year = year - 1; month = 12; day = 31 }
    else record { year = year; month = month - 1; day = days_in_month year (month - 1) }
from_day year month (suc day) = carry_days 3 year month (suc day)

-- The years 0 to 99 stand for 1900 to 1999.
abbrev pub utc_year : ℕ → ℕ
utc_year year = if ltb year 100 then 1900 + year else year

-- `new Date(Date.UTC(year, month - 1, day))`, for months and days of two digits.
unfoldable pub make_date : ℕ → ℕ → ℕ → CalendarDate
unfolding from_day
make_date year zero day = from_day (utc_year year - 1) 12 day
make_date year (suc month) day = from_day (utc_year year + month / 12) (month % 12 + 1) day

abbrev pub is_later : CalendarDate → CalendarDate → Bool
is_later a b =
    ltb b.year a.year
    || a.year == b.year && (ltb b.month a.month || a.month == b.month && ltb b.day a.day)

unfoldable pub is_calendar_date : ℕ → ℕ → ℕ → Bool
unfolding make_date
is_calendar_date year month day =
    let date = make_date year month day in
    date.year == year && (date.month == month && date.day == day)
