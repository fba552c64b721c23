-- ===== src/Tests/Sink.antt =====
-- The sink of awsnative/sink.py over a client whose first call fails for one record.
use realtime_finance_bot.Base.{
  ℕ, suc, ◌≤◌, ◌<◌, ◌≡◌, refl, ap, sym, ◌∙◌, Bool, true, false, Option, none, some, List, [], ◌∷◌,
  ◌++◌, length, arith, Str, str, pos, if◌then◌else◌, ◌⊎◌,
}
use realtime_finance_bot.Ingest.Models.{Trade, buy, stream}
use realtime_finance_bot.Native.Encode.{encode_trade}
use realtime_finance_bot.Native.Sink.{
  Entry, Config, Sink, Reply, response, sent, size, take_batch, attempts, poll, flush, failed_only,
}
use realtime_finance_bot.Native.Sink.Batch.{take_batch_caps}
use realtime_finance_bot.Native.Sink.Delivery.{
  IsStream, accepted, errors, AllDelivered, NonePending, flush-AllDelivered,
}
use realtime_finance_bot.Native.Sink.Buffer.{IsCounted, poll-BelowUnlessRaised, BelowUnlessRaised}
use realtime_finance_bot.Ingest.Runner.{Turn, drain, drain_round}
use realtime_finance_bot.Ingest.Runner.Drain.{produced, all_arrivals}
use realtime_finance_bot.Native.Pipeline.{drain_into_sink}
use realtime_finance_bot.Native.Pipeline.Refinement.{IsRefined, drain_into_sink-IsRefined}

abbrev entry : ℕ → Entry
entry n = record { content = n ∷ n ∷ []; partition_key = str "binance|BTCUSDT" }

abbrev limits : Config
limits = record { max_batch = 3; max_bytes = 5; max_attempts = 2 }

abbrev three : Sink
three = record { buffer = entry 1 ∷ entry 2 ∷ entry 3 ∷ []; buffered_bytes = 6 }

-- The first record of the first call is throttled.
abbrev codes : Bool → List Entry → List (Option Str)
codes first [] = []
codes first (e ∷ es) = (if first then some (str "Throttled") else none) ∷ codes false es

-- The stream's records, and whether no call was made yet.
abbrev World : Type 0
World = List Entry × Bool

abbrev put_records : World → List Entry → Reply × World
put_records (kept, first) es =
    let rs = codes first es in (response (errors rs) rs, (kept ++ accepted es rs, false))

abbrev pause : ℕ → World → World
pause ms w = w

length-codes : (first : Bool) (es : List Entry) → length (codes first es) ≡ length es
length-codes first [] = refl
length-codes first (e ∷ es) = ap suc (length-codes false es)

abbrev count_of : Reply → ℕ
count_of (response n rs) = n
count_of _ = 0

abbrev results_of : Reply → List (Option Str)
results_of (response n rs) = rs
results_of _ = []

flaky-IsStream : IsStream put_records pause (λ w. w.0)
flaky-IsStream = record {
  on_pause = λ ms w. refl;
  on_response = λ w es n rs e.
      let same : codes w.1 es ≡ rs = ap results_of e in
      (
        ap (λ r. w.0 ++ accepted es r) same,
        ap errors (sym same) ∙ ap count_of e,
        ap length (sym same) ∙ length-codes w.1 es,
      );
}

abbrev trade : Trade
trade = record {
  venue = str "binance";
  venue_symbol = str "BTCUSDT";
  instrument_id = str "BTC-USD";
  trade_id = str "7";
  event_ts_us = pos 1786752000286442;
  ingest_ts_us = pos 1786752000290000;
  price = str "64000.10";
  size = str "0.5";
  side = buy;
  sequence = some (pos 7);
  is_backfill = false;
  source = stream;
}

encoded :
    encode_trade trade
    ≡ str
        "{\"venue\":\"binance\",\"venue_symbol\":\"BTCUSDT\",\"instrument_id\":\"BTC-USD\",\"trade_id\":\"7\",\"event_ts_us\":1786752000286442,\"ingest_ts_us\":1786752000290000,\"price\":\"64000.10\",\"size\":\"0.5\",\"side\":\"BUY\",\"sequence\":7,\"is_backfill\":false,\"source\":\"STREAM\",\"schema_version\":1}"
unfolding encode_trade
encoded = refl

-- The retry sends the throttled record alone, behind the one that went through.
flushed_run : flush put_records pause limits three ([], true) ≡ (
  sent 0,
  record { buffer = []; buffered_bytes = 0 },
  (entry 2 ∷ entry 1 ∷ entry 3 ∷ [], false),
)
unfolding flush
flushed_run = refl

flush-AllDelivered_example :
    let (out, s', w') = flush put_records pause limits three ([], true) in
    AllDelivered out three.buffer s'.buffer [] w'.0 × NonePending out
flush-AllDelivered_example =
    flush-AllDelivered put_records pause (λ w. w.0) flaky-IsStream limits three ([], true)

take_batch_caps_example :
    let batch = (take_batch limits three.buffer).0 in
    (0 < length batch) × (length batch ≤ 3) × ((length batch ≡ 1) ⊎ (size batch ≤ 5))
take_batch_caps_example = take_batch_caps limits (entry 1) (entry 2 ∷ entry 3 ∷ []) (omega arith)

three-IsCounted : IsCounted three
unfolding size
three-IsCounted = refl

poll-BelowUnlessRaised_example :
    let (out, s', w') = poll put_records pause limits three ([], true) in
    IsCounted s' × BelowUnlessRaised put_records pause limits out s'
poll-BelowUnlessRaised_example =
    poll-BelowUnlessRaised put_records pause limits three ([], true) (omega arith) (omega arith)
      three-IsCounted

-- Three records go through, and one is counted.
retried_run :
    attempts put_records pause 2 0 3 three.buffer ([], true)
    ≡ (sent 1, (entry 2 ∷ entry 3 ∷ entry 1 ∷ [], false))
unfolding attempts failed_only
retried_run = refl

abbrev turns : List Turn
turns =
    record { arrivals = trade ∷ []; stop = false }
    ∷ record { arrivals = []; stop = true }
    ∷ record { arrivals = []; stop = true }
    ∷ []

-- Two trades: one that was queued and one that is put in the first round.
drain_into_sink-IsRefined_example :
    let handed = produced (drain turns (trade ∷ [])).0 in
    let (out, s', w') = drain_into_sink put_records pause limits turns (trade ∷ []) ([], true) in
    (handed ++ all_arrivals (drain turns (trade ∷ [])).2 ≡ (trade ∷ []) ++ all_arrivals turns)
    × IsRefined out handed s'.buffer [] w'.0
unfolding drain drain_round
drain_into_sink-IsRefined_example =
    drain_into_sink-IsRefined put_records pause (λ w. w.0) flaky-IsStream limits turns (trade ∷ [])
      ([], true) refl
