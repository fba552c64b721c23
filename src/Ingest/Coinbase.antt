-- ===== src/Ingest/Coinbase.antt =====
-- ingest/connectors/coinbase.py: the market_trades frames and the repair of a gap. `clock` gives the
-- clock's reading for each row; `timestamp_us` is `datetime.fromisoformat` and the instant in
-- microseconds, where `none` is a `ValueError`. Waits and HTTP requests are outside: `fetch` gives
-- the decoded answer for a product.
pub mod Frames
use realtime_finance_bot.Base.{
  ℕ, zero, suc, ◌+◌, ◌==◌, Bool, true, false, not, ◌||◌, Option, none, some, List, [], ◌∷◌, ◌++◌,
  if◌then◌else◌, Str, str, str_eq, ℤ, pos, Result, ok, raise, ◌>>=◌,
}
use realtime_finance_bot.Ingest.Gaps.{Gap}
use realtime_finance_bot.Ingest.Instruments.{InstrumentMap, canonical, symbols_for}
use realtime_finance_bot.Ingest.Models.{
  Trade, Side, buy, sell, unknown, Source, stream, rest_repair,
}
use realtime_finance_bot.Ingest.Rows.{is_stream, add_row}
use realtime_finance_bot.Python.Json.{
  Json, Items, Fields, null, boolean, integer, float, string, array, object, nil, cons, end, field,
  lookup,
}
use realtime_finance_bot.Python.Values.{
  Python, Error, value_error, type_error, attribute_error, index, get_default, iterate, text_of,
  int_of,
}

abbrev pub venue : Str
venue = str "coinbase"

abbrev pub sequence_symbol : Str
sequence_symbol = str "*"

-- `{"type": "subscribe", "channel": "market_trades", "product_ids": symbols}`
strings : List Str → Items
strings [] = nil
strings (s ∷ rest) = cons (string s) (strings rest)

unfoldable pub subscribe_payloads : List Str → List Json
unfolding strings
subscribe_payloads symbols =
    object (
      field (str "type") (string (str "subscribe")) (
        field (str "channel") (string (str "market_trades"))
          (field (str "product_ids") (array (strings symbols)) end)))
    ∷ []

-- `value.replace("Z", "+00:00")`
unfoldable pub replace_z : Str → Str
replace_z [] = []
replace_z (c ∷ s) = if c == b'Z' then str "+00:00" ++ replace_z s else c ∷ replace_z s

-- `Side(row["side"]) if row.get("side") in ("BUY", "SELL") else Side.UNKNOWN`
abbrev pub side_of : Json → Side
side_of (string s) =
    if str_eq s (str "BUY") then buy else if str_eq s (str "SELL") then sell else unknown
side_of _ = unknown

-- `row.setdefault(key, value)`
append_field : Str → Json → Fields → Fields
append_field key value end = field key value end
append_field key value (field k v fs) = field k v (append_field key value fs)

set_default_fields : Str → Json → Fields → Option Json → Json
unfolding append_field
set_default_fields key value fields none = object (append_field key value fields)
set_default_fields key value fields (some _) = object fields

unfoldable pub set_default : Str → Json → Json → Result Error Json
unfolding set_default_fields lookup
set_default key value (object fields) = ok (set_default_fields key value fields (lookup key fields))
set_default key value _ = raise attribute_error

abbrev is_text : Str → Json → Bool
is_text s (string t) = str_eq t s
is_text s _ = false

module _ (py : Python) (timestamp_us : Str → Option ℤ) (instruments : InstrumentMap) where
  unfoldable pub rfc3339_to_us : Json → Result Error ℤ
  rfc3339_to_us (string s) = elim (timestamp_us (replace_z s)) [
    | none ↦ raise value_error
    | some t ↦ ok t
  ]
  rfc3339_to_us _ = raise attribute_error

  -- `int(sequence) if sequence is not None else None`
  unfoldable pub sequence_of : Json → Result Error (Option ℤ)
  sequence_of null = ok none
  sequence_of v = do n ← int_of py v; ok (some n)

  -- The trade of a row, once its product is known to be mapped.
  unfoldable pub make_trade : Str → Str → Json → Source → ℤ → Json → Result Error Trade
  make_trade venue_symbol instrument_id sequence source now row = do
    trade_id ← index (str "trade_id") row
    time ← index (str "time") row
    event_ts ← rfc3339_to_us time
    price ← index (str "price") row
    size ← index (str "size") row
    side ← get_default (str "side") row null
    number ← sequence_of sequence
    ok (record {
      venue = venue;
      venue_symbol = venue_symbol;
      instrument_id = instrument_id;
      trade_id = text_of py trade_id;
      event_ts_us = event_ts;
      ingest_ts_us = now;
      price = text_of py price;
      size = text_of py size;
      side = side_of side;
      sequence = number;
      is_backfill = not (is_stream source);
      source = source;
    })

  unfoldable pub mapped_trade :
      Str → Option Str → Json → Source → ℤ → Json → Result Error (Option Trade)
  mapped_trade venue_symbol none sequence source now row = ok none
  mapped_trade venue_symbol (some id) sequence source now row = do
    trade ← make_trade venue_symbol id sequence source now row
    ok (some trade)

  -- `row["product_id"]` as a key of the map
  unfoldable pub trade_of_symbol : Json → Json → Source → ℤ → Json → Result Error (Option Trade)
  trade_of_symbol (string s) sequence source now row =
      mapped_trade s (canonical venue s instruments) sequence source now row
  trade_of_symbol (array _) sequence source now row = raise type_error
  trade_of_symbol (object _) sequence source now row = raise type_error
  trade_of_symbol _ sequence source now row = ok none

  unfoldable pub to_trade : Json → Source → ℤ → Json → Result Error (Option Trade)
  to_trade sequence source now row = do
    symbol ← index (str "product_id") row
    trade_of_symbol symbol sequence source now row

  -- The rows of one event, and then `more` from the next clock reading on.
  unfoldable pub parse_rows :
      Json → (ℕ → ℤ) → ℕ → Items → (ℕ → Result Error (List Trade)) → Result Error (List Trade)
  parse_rows sequence clock i nil more = more i
  parse_rows sequence clock i (cons row rows) more =
      add_row (to_trade sequence stream (clock i) row) (parse_rows sequence clock (i + 1) rows more)

  unfoldable pub parse_events : Json → (ℕ → ℤ) → ℕ → Items → Result Error (List Trade)
  parse_events sequence clock i nil = ok []
  parse_events sequence clock i (cons event events) =
      get_default (str "trades") event (array nil) >>= λ trades. iterate trades >>= λ rows.
      parse_rows sequence clock i rows (λ j. parse_events sequence clock j events)

  -- `parse` of a decoded frame
  unfoldable pub parse_frame : (ℕ → ℤ) → Json → Result Error (List Trade)
  parse_frame clock frame = do
    channel ← get_default (str "channel") frame null
    let trades = (do
      sequence ← get_default (str "sequence_num") frame null
      found ← get_default (str "events") frame (array nil)
      events ← iterate found
      parse_events sequence clock 0 events)
    if is_text (str "market_trades") channel then trades else ok []

  unfoldable pub parse : (ℕ → ℤ) → Str → Result Error (List Trade)
  parse clock raw = elim (py.loads raw) [
    | none ↦ raise value_error
    | some frame ↦ parse_frame clock frame
  ]

  -- The products that a repair asks for.
  unfoldable pub repair_products : Gap → List Str
  repair_products gap =
      if str_eq gap.venue_symbol sequence_symbol
      then symbols_for venue instruments
      else gap.venue_symbol ∷ []

  unfoldable pub repair_rows :
      Str → (ℕ → ℤ) → ℕ → Items → (ℕ → Result Error (List Trade)) → Result Error (List Trade)
  repair_rows product clock i nil more = more i
  repair_rows product clock i (cons row rows) more =
      set_default (str "product_id") (string product) row >>= λ row'.
      add_row (to_trade null rest_repair (clock i) row')
        (repair_rows product clock (i + 1) rows more)

  unfoldable pub repair_from :
      (Str → Result Error Json) → (ℕ → ℤ) → ℕ → List Str → Result Error (List Trade)
  repair_from fetch clock i [] = ok []
  repair_from fetch clock i (product ∷ products) = fetch product >>= λ answer.
      get_default (str "trades") answer (array nil) >>= λ trades. iterate trades >>= λ rows.
      repair_rows product clock i rows (λ j. repair_from fetch clock j products)

  unfoldable pub repair : (Str → Result Error Json) → (ℕ → ℤ) → Gap → Result Error (List Trade)
  repair fetch clock gap = repair_from fetch clock 0 (repair_products gap)
