-- ===== src/Native/Backfill/Parsers/Rows.antt =====
-- What the rows of a parsed archive file satisfy.
use realtime_finance_bot.Base.{
  ℕ, suc, ◌≡◌, refl, ap, Option, none, some, List, [], ◌∷◌, arith, All, length, Str, Result, ok,
  >>=-eq-ok, ok-injective,
}
use realtime_finance_bot.Native.Backfill.Fault.{Fault}
use realtime_finance_bot.Native.Backfill.Epoch.{Normaliser, normalise}
use realtime_finance_bot.Native.Backfill.Epoch.Range.{IsInstant, normalise_lem}
use realtime_finance_bot.Native.Backfill.Parsers.{
  ArchiveAggTrade, side_from_buyer_maker, read_int, fields_of, agg_trade_of, parse_fields,
  parse_lines, parse_agg_trades,
}

-- The lines that are not blank.
abbrev pub filled : List Str → ℕ
filled [] = 0
filled (line ∷ lines) = elim (fields_of line) [ none ↦ filled lines | some _ ↦ suc (filled lines) ]

module _ {R : Type 0} (row_of : Normaliser → List Str → Result Fault (R × Normaliser))
    (P : R → Type 0)
    (rule : (n : Normaliser) (fields : List Str) (row : R) (n' : Normaliser)
      → row_of n fields ≡ ok (row, n')
      → P row) where
  parse_fields-All :
      (o : Option (List Str)) (n : Normaliser) (rest : Normaliser → Result Fault (List R))
      (count : ℕ) (rows : List R)
      → ((n' : Normaliser) (rows' : List R)
          → rest n' ≡ ok rows'
          → All P rows' × (length rows' ≡ count))
      → parse_fields row_of n o rest ≡ ok rows
      → All P rows × (length rows ≡ elim o [ none ↦ count | some _ ↦ suc count ])
  unfolding parse_fields
  parse_fields-All none n rest count rows ih e = ih n rows e
  parse_fields-All (some fields) n rest count rows ih e =
      let (pair, made, e') = >>=-eq-ok (row_of n fields) _ e in
      let (rows', more, e'') = >>=-eq-ok (rest pair.1) _ e' in
      let (good, len) = ih pair.1 rows' more in
      rw (← ok-injective e'') ((rule n fields pair.0 pair.1 made, good), ap suc len)

  parse_lines-All :
      (n : Normaliser) (lines : List Str) (rows : List R)
      → parse_lines row_of n lines ≡ ok rows
      → All P rows × (length rows ≡ filled lines)
  unfolding parse_lines
  parse_lines-All n [] rows e = rw (← ok-injective e) (tt, refl)
  parse_lines-All n (line ∷ lines) rows e =
      parse_fields-All (fields_of line) n _ (filled lines) rows
        (λ n' rows' h. parse_lines-All n' lines rows' h) e

-- An aggregated trade whose time is an instant in microseconds.
abbrev pub IsTimed : ArchiveAggTrade → Type 0
IsTimed row = IsInstant row.event_ts_us

agg_trade_of-IsTimed :
    (n : Normaliser) (fields : List Str) (row : ArchiveAggTrade) (n' : Normaliser)
    → agg_trade_of n fields ≡ ok (row, n')
    → IsTimed row
unfolding agg_trade_of
agg_trade_of-IsTimed n (a ∷ p ∷ q ∷ f ∷ l ∷ time ∷ maker ∷ best ∷ []) row n' e =
    let (id, _, e1) = >>=-eq-ok (read_int a) _ e in
    let (first, _, e2) = >>=-eq-ok (read_int f) _ e1 in
    let (last, _, e3) = >>=-eq-ok (read_int l) _ e2 in
    let (value, _, e4) = >>=-eq-ok (read_int time) _ e3 in
    let (pair, normal, e5) = >>=-eq-ok (normalise n value) _ e4 in
    let (side, _, e6) = >>=-eq-ok (side_from_buyer_maker maker) _ e5 in
    let t = (normalise_lem n value pair.0 pair.1 normal).0 in
    rw (ap (λ (r : ArchiveAggTrade × Normaliser). r.0.event_ts_us) (ok-injective e6)) at t
agg_trade_of-IsTimed n _ row n' e = ground arith

-- Every aggregated trade of a parsed file has a time in microseconds, in range, and there is one for
-- each line that is not blank.
pub parse_agg_trades-All :
    (lines : List Str) (rows : List ArchiveAggTrade)
    → parse_agg_trades lines ≡ ok rows
    → All IsTimed rows × (length rows ≡ filled lines)
unfolding parse_agg_trades
parse_agg_trades-All lines rows e =
    parse_lines-All agg_trade_of IsTimed agg_trade_of-IsTimed none lines rows e
