-- ===== src/Native/Backfill/Calendar/Order.antt =====
-- The order of dates is the order of their keys, and the next day is the next date.
use realtime_finance_bot.Base.{ℕ, ◌+◌, ◌≤◌, ◌<◌, ◌≡◌, arith, leb, ltb, ◌==◌}
use realtime_finance_bot.Native.Backfill.Calendar.{
  Date, days_in_month, IsDate, leb_date, eq_date, next_day, first_of_month, last_of_month, key,
}

days_in_month_bounds : (y m : ℕ) → (28 ≤ days_in_month y m) × (days_in_month y m ≤ 31)
unfolding days_in_month
days_in_month_bounds y m = ground arith

pub IsDate-le_31 : (d : Date) → IsDate d → d.day ≤ 31
IsDate-le_31 d h = omega (arith, days_in_month_bounds d.year d.month)

pub leb_date-key : (a b : Date) → IsDate a → IsDate b → leb_date a b ≡ leb (key a) (key b)
unfolding leb_date
leb_date-key a b h k = ground (arith, IsDate-le_31 a h, IsDate-le_31 b k)

pub eq_date-key : (a b : Date) → IsDate a → IsDate b → eq_date a b ≡ (key a == key b)
unfolding eq_date
eq_date-key a b h k = ground (arith, IsDate-le_31 a h, IsDate-le_31 b k)

pub next_day-IsDate : (d : Date) → IsDate d → IsDate (next_day d)
unfolding next_day
next_day-IsDate d h = ground (
  arith,
  days_in_month_bounds d.year d.month,
  days_in_month_bounds d.year (d.month + 1),
  days_in_month_bounds (d.year + 1) 1,
)

pub first_of_month-IsDate : (d : Date) → IsDate d → IsDate (first_of_month d)
unfolding first_of_month
first_of_month-IsDate d h = omega (arith, days_in_month_bounds d.year d.month)

pub last_of_month-IsDate : (d : Date) → IsDate d → IsDate (last_of_month d)
unfolding last_of_month
last_of_month-IsDate d h = omega (arith, days_in_month_bounds d.year d.month)

pub same_length :
    (c d : Date)
    → c.year ≡ d.year
    → c.month ≡ d.month
    → days_in_month c.year c.month ≡ days_in_month d.year d.month
same_length c d e f = cc

-- There is no date between a date and its next day.
pub key-next_day :
    (c d : Date) → IsDate c → IsDate d → leb (key (next_day c)) (key d) ≡ ltb (key c) (key d)
unfolding next_day
key-next_day c d h k = ground (arith, IsDate-le_31 c h, IsDate-le_31 d k, same_length c d)

pub key-next_day_lt : (c : Date) → IsDate c → key c < key (next_day c)
unfolding next_day
key-next_day_lt c h = ground (arith, IsDate-le_31 c h)
