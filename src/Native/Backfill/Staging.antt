-- ===== src/Native/Backfill/Staging.antt =====
-- awsnative/backfill/staging.py: rows to the text that is staged. The compression is a parameter of
-- the loader.
use realtime_finance_bot.Base.{List, [], ◌∷◌, ◌++◌, map, Str, str, join}
use realtime_finance_bot.Python.Number.{show_int}
use realtime_finance_bot.Ingest.Models.{side_value}
use realtime_finance_bot.Native.Backfill.Parsers.{ArchiveAggTrade, ArchiveKline}
use realtime_finance_bot.Native.Backfill.Tiers.{archive_venue}

unfoldable pub kline_columns : List Str
kline_columns =
    str "instrument_id"
    ∷ str "open_time_us"
    ∷ str "close_time_us"
    ∷ str "open"
    ∷ str "high"
    ∷ str "low"
    ∷ str "close"
    ∷ str "volume"
    ∷ str "quote_volume"
    ∷ str "trade_count"
    ∷ str "taker_buy_base_volume"
    ∷ []

unfoldable pub trade_columns : List Str
trade_columns =
    str "instrument_id"
    ∷ str "venue"
    ∷ str "venue_symbol"
    ∷ str "agg_trade_id"
    ∷ str "price"
    ∷ str "quantity"
    ∷ str "first_trade_id"
    ∷ str "last_trade_id"
    ∷ str "event_ts_us"
    ∷ str "side"
    ∷ []

unfoldable pub kline_fields : Str → ArchiveKline → List Str
kline_fields instrument_id bar =
    instrument_id
    ∷ show_int bar.open_time_us
    ∷ show_int bar.close_time_us
    ∷ bar.open_price
    ∷ bar.high
    ∷ bar.low
    ∷ bar.close
    ∷ bar.volume
    ∷ bar.quote_volume
    ∷ show_int bar.trade_count
    ∷ bar.taker_buy_base_volume
    ∷ []

unfoldable pub trade_fields : Str → Str → ArchiveAggTrade → List Str
trade_fields instrument_id venue_symbol trade =
    instrument_id
    ∷ archive_venue
    ∷ venue_symbol
    ∷ show_int trade.agg_trade_id
    ∷ trade.price
    ∷ trade.quantity
    ∷ show_int trade.first_trade_id
    ∷ show_int trade.last_trade_id
    ∷ show_int trade.event_ts_us
    ∷ side_value trade.side
    ∷ []

-- `_join`
unfoldable pub join_rows : List (List Str) → Str
join_rows [] = []
join_rows (row ∷ rows) = join (str ",") row ++ (10 ∷ join_rows rows)

unfoldable pub klines_csv : Str → List ArchiveKline → Str
klines_csv instrument_id bars = join_rows (map (kline_fields instrument_id) bars)

unfoldable pub trades_csv : Str → Str → List ArchiveAggTrade → Str
trades_csv instrument_id venue_symbol trades =
    join_rows (map (trade_fields instrument_id venue_symbol) trades)
