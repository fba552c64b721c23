-- ===== src/Native/Backfill/Epoch.antt =====
-- awsnative/backfill/epoch.py: milliseconds and microseconds told apart by magnitude.
pub mod Range
use realtime_finance_bot.Base.{
  ℕ, ◌*◌, Bool, true, false, ◌&&◌, Option, none, some, if◌then◌else◌, ℤ, pos, leb_ℤ, ltb_ℤ, scale,
  Result, ok, raise, ◌>>=◌,
}
use realtime_finance_bot.Native.Backfill.Fault.{Fault, not_an_instant, unit_disagrees}

pub data TimestampUnit : Type 0 where
  millis micros : TimestampUnit

abbrev pub floor_s : ℕ
floor_s = 1420070400

abbrev pub ceil_s : ℕ
ceil_s = 2208988800

-- `lo <= value < hi`, with the bounds in units of which there are `per` in a second
abbrev pub in_range : ℕ → ℤ → Bool
in_range per value = leb_ℤ (pos (floor_s * per)) value && ltb_ℤ value (pos (ceil_s * per))

unfoldable pub unit_of : ℤ → Result Fault TimestampUnit
unit_of value =
    if in_range 1000 value
    then ok millis
    else if in_range 1000000 value
    then ok micros
    else raise (not_an_instant value)

unfoldable pub to_micros : ℤ → TimestampUnit → ℤ
to_micros value millis = scale value 1000
to_micros value micros = value

abbrev pub is_millis : TimestampUnit → Bool
is_millis millis = true
is_millis micros = false

abbrev pub same_unit : TimestampUnit → TimestampUnit → Bool
same_unit millis millis = true
same_unit micros micros = true
same_unit _ _ = false

-- The state of a `UnitNormaliser`: the unit of the first value.
abbrev pub Normaliser : Type 0
Normaliser = Option TimestampUnit

-- The check against the unit of the earlier values.
unfoldable pub hold : Normaliser → TimestampUnit → ℤ → Result Fault Normaliser
hold none observed value = ok (some observed)
hold (some unit) observed value =
    if same_unit observed unit
    then ok (some unit)
    else raise (unit_disagrees value (is_millis unit))

-- A call of the normaliser: the value in microseconds, and its state after it.
unfoldable pub normalise : Normaliser → ℤ → Result Fault (ℤ × Normaliser)
normalise state value = do
  observed ← unit_of value
  state' ← hold state observed value
  ok (to_micros value observed, state')
