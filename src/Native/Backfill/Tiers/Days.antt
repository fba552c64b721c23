-- ===== src/Native/Backfill/Tiers/Days.antt =====
-- The days that the loops of awsnative/backfill/tiers.py go through.
use realtime_finance_bot.Base.{
  ℕ, zero, suc, ◌+◌, ◌<◌, ◌≡◌, Bool, true, false, ◌&&◌, List, [], ◌∷◌, arith, leb, if◌then◌else◌,
  ◌++◌,
}
use realtime_finance_bot.Native.Backfill.Calendar.{Date, IsDate, eq_date, next_day, key}
use realtime_finance_bot.Native.Backfill.Calendar.Order.{
  leb_date-key, eq_date-key, next_day-IsDate, key-next_day, key-next_day_lt,
}
use realtime_finance_bot.Native.Backfill.Tiers.{days_rounds, days_between, rounds_to}

-- How many elements pass a test.
module _ {A : Type 0} where
  abbrev pub count : (A → Bool) → List A → ℕ
  count p [] = 0
  count p (x ∷ xs) = if p x then suc (count p xs) else count p xs

  pub count-append : (p : A → Bool) (xs ys : List A) → count p (xs ++ ys) ≡ count p xs + count p ys
  count-append p [] ys = omega arith
  count-append p (x ∷ xs) ys = ground (arith, count-append p xs ys)

abbrev pub one_if : Bool → ℕ
one_if true = 1
one_if false = 0

-- A day of the range is met exactly once, any other never.
days_rounds-count :
    (fuel : ℕ) (cursor end day : Date)
    → IsDate cursor
    → IsDate end
    → IsDate day
    → key end < key cursor + fuel
    → count (λ d. eq_date d day) (days_rounds fuel cursor end)
      ≡ one_if (leb (key cursor) (key day) && leb (key day) (key end))
unfolding days_rounds
days_rounds-count zero cursor end day hc he hd f = ground arith
days_rounds-count (suc fuel) cursor end day hc he hd f = rw (leb_date-key cursor end hc he) (
    ground (
      arith,
      eq_date-key cursor day hc hd,
      key-next_day cursor day hc hd,
      key-next_day_lt cursor hc,
      days_rounds-count fuel (next_day cursor) end day (next_day-IsDate cursor hc) he hd,
    ))

pub days_between-count :
    (start end day : Date)
    → IsDate start
    → IsDate end
    → IsDate day
    → count (λ d. eq_date d day) (days_between start end)
      ≡ one_if (leb (key start) (key day) && leb (key day) (key end))
unfolding days_between
days_between-count start end day hs he hd =
    days_rounds-count (rounds_to start end) start end day hs he hd (omega arith)
