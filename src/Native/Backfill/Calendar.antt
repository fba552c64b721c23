-- ===== src/Native/Backfill/Calendar.antt =====
-- What awsnative/backfill takes from `datetime` and `calendar`: dates, their order, the next day and
-- the length of a month. The end of the calendar, in the year 9999, is not modelled.
pub mod Order
use realtime_finance_bot.Base.{
  ℕ, zero, suc, ◌+◌, ◌-◌, ◌/◌, ◌%◌, ◌*◌, ◌≤◌, Bool, true, false, not, ◌&&◌, ◌||◌, List, [], ◌∷◌,
  ◌++◌, ltb, leb, ◌==◌, if◌then◌else◌, Str,
}
use realtime_finance_bot.Python.Number.{show_nat}

pub record Date : Type 0 where
  pub year : ℕ
  pub month : ℕ
  pub day : ℕ

abbrev pub is_leap : ℕ → Bool
is_leap y = y % 4 == 0 && (not (y % 100 == 0) || y % 400 == 0)

-- `monthrange(year, month)[1]`
unfoldable pub days_in_month : ℕ → ℕ → ℕ
days_in_month y m =
    if m == 2
    then (if is_leap y then 29 else 28)
    else if m == 4 || m == 6 || m == 9 || m == 11
    then 30
    else 31

-- A date of the calendar.
pub record IsDate (d : Date) : Type 0 where
  pub month_low : 1 ≤ d.month
  pub month_high : d.month ≤ 12
  pub day_low : 1 ≤ d.day
  pub day_high : d.day ≤ days_in_month d.year d.month

unfoldable pub leb_date : Date → Date → Bool
leb_date a b =
    ltb a.year b.year
    || (a.year == b.year && (ltb a.month b.month || (a.month == b.month && leb a.day b.day)))

unfoldable pub eq_date : Date → Date → Bool
eq_date a b = a.year == b.year && (a.month == b.month && a.day == b.day)

-- `max(a, b)` and `min(a, b)`
unfoldable pub max_date : Date → Date → Date
max_date a b = if leb_date b a then a else b

unfoldable pub min_date : Date → Date → Date
min_date a b = if leb_date a b then a else b

-- `d + timedelta(days=1)`
unfoldable pub next_day : Date → Date
next_day d =
    if ltb d.day (days_in_month d.year d.month)
    then record d { day = d.day + 1 }
    else if ltb d.month 12
    then record { year = d.year; month = d.month + 1; day = 1 }
    else record { year = d.year + 1; month = 1; day = 1 }

-- `d + timedelta(days=n)`
unfoldable pub add_days : ℕ → Date → Date
add_days zero d = d
add_days (suc n) d = add_days n (next_day d)

-- `d.replace(day=1)`, and the last day of the month
unfoldable pub first_of_month : Date → Date
first_of_month d = record d { day = 1 }

unfoldable pub last_of_month : Date → Date
last_of_month d = record d { day = days_in_month d.year d.month }

-- A number that orders the dates.
abbrev pub key : Date → ℕ
key d = d.year * 372 + d.month * 31 + d.day

two_digits : ℕ → Str
two_digits n = (48 + n / 10 % 10) ∷ (48 + n % 10) ∷ []

-- `%Y-%m` and `%Y-%m-%d`, for years of four digits
unfoldable pub year_month : Date → Str
unfolding two_digits
year_month d = show_nat d.year ++ (b'-' ∷ two_digits d.month)

unfoldable pub iso_date : Date → Str
unfolding year_month two_digits
iso_date d = year_month d ++ (b'-' ∷ two_digits d.day)
