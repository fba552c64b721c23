-- ===== src/Ingest/Binance.antt =====
-- ingest/connectors/binance.py: the aggregate-trade frames and the repair of a gap. `now` is the
-- clock's reading for one trade, `clock` that for each row of a response. The rate limiter's wait
-- and the HTTP request are outside; the request's parameters and the decoded response are here.
pub mod Repair
use realtime_finance_bot.Base.{
  ℕ, suc, ◌+◌, Bool, true, false, not, ◌&&◌, leb, Option, none, some, List, [], ◌∷◌, ◌++◌,
  if◌then◌else◌, Str, str, str_eq, lower, ℤ, pos, ◌+ℤ◌, leb_ℤ, scale, max_ℤ, Result, ok, raise,
  ◌>>=◌,
}
use realtime_finance_bot.Ingest.Gaps.{Gap, missing_count}
use realtime_finance_bot.Ingest.Instruments.{InstrumentMap, canonical}
use realtime_finance_bot.Ingest.Models.{
  Trade, Side, buy, sell, Source, stream, rest_repair, archive,
}
use realtime_finance_bot.Ingest.Rows.{is_stream, add_row}
use realtime_finance_bot.Python.Json.{
  Json, Items, null, boolean, integer, float, string, array, object, nil, cons,
}
use realtime_finance_bot.Python.Values.{
  Python, Error, key_error, value_error, type_error, index, get_default, iterate, truth, text_of,
  int_of,
}

abbrev pub venue : Str
venue = str "binance"

streams : List Str → Str
streams [] = []
streams (s ∷ []) = lower s ++ str "@aggTrade"
streams (s ∷ t ∷ rest) = lower s ++ (str "@aggTrade" ++ (b'/' ∷ streams (t ∷ rest)))

unfoldable pub stream_url : List Str → Str
unfolding streams lower
stream_url symbols = str "wss://stream.binance.com:9443/stream?streams=" ++ streams symbols

abbrev pub to_list : Option Trade → List Trade
to_list none = []
to_list (some t) = t ∷ []

abbrev is_text : Str → Json → Bool
is_text s (string t) = str_eq t s
is_text s _ = false

-- The parameters `fromId` and `limit` of a repair.
unfoldable pub repair_params : Gap → ℤ × ℤ
unfolding missing_count
repair_params gap =
    let wanted = max_ℤ (missing_count gap) (pos 1) in
    (gap.last_seen +ℤ pos 1, if leb_ℤ (pos 1000) wanted then pos 1000 else wanted)

module _ (py : Python) (instruments : InstrumentMap) where
  -- The trade of a row, once its symbol is known to be mapped.
  unfoldable pub make_trade : Str → Str → Source → ℤ → Json → Result Error Trade
  make_trade venue_symbol instrument_id source now row = do
    a ← index (str "a") row
    time ← index (str "T") row
    event_ts ← int_of py time
    price ← index (str "p") row
    size ← index (str "q") row
    maker ← index (str "m") row
    sequence ← int_of py a
    ok (record {
      venue = venue;
      venue_symbol = venue_symbol;
      instrument_id = instrument_id;
      trade_id = text_of py a;
      event_ts_us = scale event_ts 1000;
      ingest_ts_us = now;
      price = text_of py price;
      size = text_of py size;
      side = if truth maker then sell else buy;
      sequence = some sequence;
      is_backfill = not (is_stream source);
      source = source;
    })

  -- An unmapped symbol gives no trade.
  unfoldable pub mapped_trade : Str → Option Str → Source → ℤ → Json → Result Error (Option Trade)
  mapped_trade venue_symbol none source now row = ok none
  mapped_trade venue_symbol (some id) source now row = do
    trade ← make_trade venue_symbol id source now row
    ok (some trade)

  -- `data["s"]` as a key of the map: a list or a dict is not hashable, and nothing but a text is
  -- mapped.
  unfoldable pub trade_of_symbol : Json → Source → ℤ → Json → Result Error (Option Trade)
  trade_of_symbol (string s) source now row =
      mapped_trade s (canonical venue s instruments) source now row
  trade_of_symbol (array _) source now row = raise type_error
  trade_of_symbol (object _) source now row = raise type_error
  trade_of_symbol _ source now row = ok none

  -- `_to_trade` with no symbol given, or with an empty one.
  unfoldable pub trade_of_row : Source → ℤ → Json → Result Error (Option Trade)
  trade_of_row source now row = do
    symbol ← index (str "s") row
    trade_of_symbol symbol source now row

  unfoldable pub to_trade : Option Str → Source → ℤ → Json → Result Error (Option Trade)
  to_trade none source now row = trade_of_row source now row
  to_trade (some []) source now row = trade_of_row source now row
  to_trade (some (c ∷ s)) source now row =
      mapped_trade (c ∷ s) (canonical venue (c ∷ s) instruments) source now row

  -- `parse` of a decoded frame
  unfoldable pub parse_frame : ℤ → Json → Result Error (List Trade)
  parse_frame now frame = do
    content ← get_default (str "data") frame frame
    kind ← get_default (str "e") content null
    let trades = (do trade ← to_trade none stream now content; ok (to_list trade))
    if is_text (str "aggTrade") kind then trades else ok []

  unfoldable pub parse : ℤ → Str → Result Error (List Trade)
  parse now raw = elim (py.loads raw) [
    | none ↦ raise value_error
    | some frame ↦ parse_frame now frame
  ]

  -- One row of a response; a row at or beyond `next_seen` gives no trade.
  unfoldable pub repair_row : Gap → ℤ → Json → Result Error (Option Trade)
  repair_row gap now row = do
    a ← index (str "a") row
    id ← int_of py a
    let trade = to_trade (some gap.venue_symbol) rest_repair now row
    if leb_ℤ gap.next_seen id then ok none else trade

  unfoldable pub repair_rows : Gap → (ℕ → ℤ) → ℕ → Items → Result Error (List Trade)
  repair_rows gap clock i nil = ok []
  repair_rows gap clock i (cons row rows) =
      add_row (repair_row gap (clock i) row) (repair_rows gap clock (i + 1) rows)

  -- `repair`, from the decoded response on
  unfoldable pub repair : Gap → (ℕ → ℤ) → Json → Result Error (List Trade)
  repair gap clock response = do rows ← iterate response; repair_rows gap clock 0 rows
