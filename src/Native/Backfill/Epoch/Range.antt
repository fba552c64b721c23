-- ===== src/Native/Backfill/Epoch/Range.antt =====
-- What a normalised timestamp is.
use realtime_finance_bot.Base.{
  ◌*◌, ◌≡◌, refl, sym, ap, ◌∙◌, >>=-eq-ok, ok-injective, ◌⊎◌, none, some, arith, inl, inr, ℤ, pos,
  negsuc, ◌≤ℤ◌, ◌<ℤ◌, scale, ok,
}
use realtime_finance_bot.Native.Backfill.Epoch.{
  TimestampUnit, millis, micros, floor_s, ceil_s, unit_of, to_micros, Normaliser, hold, normalise,
}

-- An instant in microseconds from 2015 up to 2040.
abbrev pub IsInstant : ℤ → Type 0
IsInstant t = (pos (floor_s * 1000000) ≤ℤ t) × (t <ℤ pos (ceil_s * 1000000))

-- A value that has a unit is, in microseconds, an instant in range.
pub unit_of-IsInstant :
    (value : ℤ) (u : TimestampUnit) → unit_of value ≡ ok u → IsInstant (to_micros value u)
unfolding unit_of to_micros scale
unit_of-IsInstant (pos n) millis e = ground arith
unit_of-IsInstant (pos n) micros e = ground arith
unit_of-IsInstant (negsuc n) u e = ground arith

hold_lem :
    (state : Normaliser) (u : TimestampUnit) (value : ℤ) (s : Normaliser)
    → hold state u value ≡ ok s
    → ((state ≡ none) ⊎ (state ≡ some u)) × (s ≡ some u)
unfolding hold
hold_lem none u value s e = (inl refl, sym (ok-injective e))
hold_lem (some millis) millis value s e = (inr refl, sym (ok-injective e))
hold_lem (some micros) micros value s e = (inr refl, sym (ok-injective e))
hold_lem (some millis) micros value s e = ground arith
hold_lem (some micros) millis value s e = ground arith

-- A normaliser that returns gives an instant in range, and is then set to the one unit in which the
-- value reads; where it was set before, to that same unit.
pub normalise_lem :
    (state : Normaliser) (value t : ℤ) (state' : Normaliser)
    → normalise state value ≡ ok (t, state')
    → IsInstant t
      × (u : TimestampUnit) × (state' ≡ some u)
      × (unit_of value ≡ ok u)
      × (t ≡ to_micros value u)
      × ((state ≡ none) ⊎ (state ≡ some u))
unfolding normalise
normalise_lem state value t state' e =
    let (u, read, e') = >>=-eq-ok (unit_of value) _ e in
    let (s, held, e'') = >>=-eq-ok (hold state u value) _ e' in
    let (before, at) = hold_lem state u value s held in
    let same = ok-injective e'' in
    let time : to_micros value u ≡ t = ap (λ (p : ℤ × Normaliser). p.0) same in
    let left : s ≡ state' = ap (λ (p : ℤ × Normaliser). p.1) same in
    (rw time at (unit_of-IsInstant value u read), u, sym left ∙ at, read, sym time, before)
