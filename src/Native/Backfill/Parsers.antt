-- ===== src/Native/Backfill/Parsers.antt =====
-- awsnative/backfill/parsers.py: the two archive layouts, a line of text to a row. The generators
-- are run to their end, as their callers do.
pub mod Rows
pub mod Units
use realtime_finance_bot.Base.{
  ℕ, Bool, true, false, Option, none, some, List, [], ◌∷◌, if◌then◌else◌, length, Str, str, str_eq,
  strip, split_on, ℤ, Result, ok, raise, ◌>>=◌,
}
use realtime_finance_bot.Ingest.Models.{Side, buy, sell}
use realtime_finance_bot.Python.Number.{parse_int}
use realtime_finance_bot.Native.Backfill.Fault.{
  Fault, not_an_integer, field_count, not_a_boolean, require,
}
use realtime_finance_bot.Native.Backfill.Epoch.{Normaliser, normalise}

pub record ArchiveAggTrade : Type 0 where
  pub agg_trade_id : ℤ
  pub price : Str
  pub quantity : Str
  pub first_trade_id : ℤ
  pub last_trade_id : ℤ
  pub event_ts_us : ℤ
  pub side : Side

pub record ArchiveKline : Type 0 where
  pub open_time_us : ℤ
  pub close_time_us : ℤ
  pub open_price : Str
  pub high : Str
  pub low : Str
  pub close : Str
  pub volume : Str
  pub quote_volume : Str
  pub trade_count : ℤ
  pub taker_buy_base_volume : Str
  pub taker_buy_quote_volume : Str

unfoldable pub side_from_buyer_maker : Str → Result Fault Side
side_from_buyer_maker text =
    if str_eq text (str "True")
    then ok sell
    else if str_eq text (str "False")
    then ok buy
    else raise (not_a_boolean text)

unfoldable pub read_int : Str → Result Fault ℤ
read_int text = require (parse_int text) (not_an_integer text)

-- The fields of a line that is not blank. The number of fields is checked where they are taken
-- apart, below.
unfoldable pub fields_of : Str → Option (List Str)
fields_of line = elim (strip line) [ [] ↦ none | c ∷ s ↦ some (split_on b',' (c ∷ s)) ]

unfoldable pub agg_trade_of : Normaliser → List Str → Result Fault (ArchiveAggTrade × Normaliser)
agg_trade_of n (a ∷ price ∷ quantity ∷ f ∷ l ∷ time ∷ maker ∷ best ∷ []) = do
  agg_trade_id ← read_int a
  first_trade_id ← read_int f
  last_trade_id ← read_int l
  value ← read_int time
  (event_ts_us, n') ← normalise n value
  side ← side_from_buyer_maker maker
  ok (
    record {
      agg_trade_id = agg_trade_id;
      price = price;
      quantity = quantity;
      first_trade_id = first_trade_id;
      last_trade_id = last_trade_id;
      event_ts_us = event_ts_us;
      side = side;
    },
    n',
  )
agg_trade_of n fields = raise (field_count (length fields) (str "aggTrades"))

unfoldable pub kline_of : Normaliser → List Str → Result Fault (ArchiveKline × Normaliser)
kline_of n (t ∷ o ∷ h ∷ l ∷ c ∷ v ∷ ct ∷ qv ∷ count ∷ tb ∷ tq ∷ ignored ∷ []) = do
  open_value ← read_int t
  (open_time_us, n') ← normalise n open_value
  close_value ← read_int ct
  (close_time_us, n'') ← normalise n' close_value
  trade_count ← read_int count
  ok (
    record {
      open_time_us = open_time_us;
      close_time_us = close_time_us;
      open_price = o;
      high = h;
      low = l;
      close = c;
      volume = v;
      quote_volume = qv;
      trade_count = trade_count;
      taker_buy_base_volume = tb;
      taker_buy_quote_volume = tq;
    },
    n'',
  )
kline_of n fields = raise (field_count (length fields) (str "klines"))

-- The loop over the lines, for the row parser of a layout.
module _ {R : Type 0} (row_of : Normaliser → List Str → Result Fault (R × Normaliser)) where
  unfoldable pub parse_fields :
      Normaliser → Option (List Str) → (Normaliser → Result Fault (List R)) → Result Fault (List R)
  parse_fields n none rest = rest n
  parse_fields n (some fields) rest = do
    (row, n') ← row_of n fields
    rows ← rest n'
    ok (row ∷ rows)

  unfoldable pub parse_lines : Normaliser → List Str → Result Fault (List R)
  parse_lines n [] = ok []
  parse_lines n (line ∷ lines) = parse_fields n (fields_of line) (λ n'. parse_lines n' lines)

unfoldable pub parse_agg_trades : List Str → Result Fault (List ArchiveAggTrade)
parse_agg_trades lines = parse_lines agg_trade_of none lines

unfoldable pub parse_klines : List Str → Result Fault (List ArchiveKline)
parse_klines lines = parse_lines kline_of none lines
