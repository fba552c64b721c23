-- ===== src/Tests/Ingest.antt =====
-- Streams of ingest: gaps, queues, buckets, sessions and repairs on concrete data.
use realtime_finance_bot.Base.{
  ℕ, ◌+◌, ◌-◌, ◌*◌, ◌≤◌, ◌≡◌, refl, Bool, true, false, none, some, List, [], ◌∷◌, ◌++◌, length, All,
  arith, Str, str, ℤ, pos, ◌<ℤ◌, ◌⊎◌, Result, ok, raise, get, put, pair_Eq, str_eq, ◌+ℤ◌,
}
use realtime_finance_bot.Python.Json.{Json, string, array, object, field, end, cons, nil, lookup}
use realtime_finance_bot.Python.Values.{Python, Error, external_error, get_default, iterate}
use realtime_finance_bot.Ingest.Models.{Trade, buy, stream, rest_repair}
use realtime_finance_bot.Ingest.Gaps.{Gap, missing_count, observe, observe_after, observe_all}
use realtime_finance_bot.Ingest.Gaps.Coverage.{
  Has, IsMissing, IsReported, observe_all-covers, observe-gap_unseen,
}
use realtime_finance_bot.Ingest.Queue.{is_full, TopicQueue, block, drop_oldest}
use realtime_finance_bot.Ingest.Queue as Queue
use realtime_finance_bot.Ingest.Queue.Fifo as Fifo
use realtime_finance_bot.Ingest.Queue.Fifo.{
  Call, put_call, get_call, IsBounded, run_block_fifo, put_drop_oldest,
}
use realtime_finance_bot.Ingest.RateLimit.{
  TokenBucket, new_bucket, refill, try_acquire, acquire_turn, acquire_sleep,
}
use realtime_finance_bot.Ingest.RateLimit.Budget.{Request, serve, serve_budget, acquire-after_sleep}
use realtime_finance_bot.Ingest.Instruments.{Instrument, from_yaml, canonical}
use realtime_finance_bot.Ingest.Instruments.Lookup.{IsConsistent, from_yaml-IsConsistent}
use realtime_finance_bot.Ingest.Binance as Binance
use realtime_finance_bot.Ingest.Binance.Repair.{
  AggTrade, rows_of, trades_below, trade_of, repair-trades_below,
}
use realtime_finance_bot.Ingest.Coinbase as Coinbase
use realtime_finance_bot.Ingest.Coinbase.Frames.{IsRepaired, repair-All}
use realtime_finance_bot.Ingest.Ws.{
  Round, pump_failed, lifetime_over, new_connection, backoff_delays,
}
use realtime_finance_bot.Ingest.Ws as Ws
use realtime_finance_bot.Ingest.Ws.Hooks.{hooks, subscriptions, run-hooks_but_first}
use realtime_finance_bot.Ingest.Runner.{Connector, Runner, Turn, drain}
use realtime_finance_bot.Ingest.Runner.Drain.{IsFifo, all_arrivals, drain-IsFifo}

abbrev binance : Str
binance = str "binance"

abbrev btc : Str
btc = str "BTCUSDT"

-- The numbers 5, 6 and 9 after 4: 7 and 8 are missing.
observe_all-covers_example :
    Has (pos 8) (pos 5 ∷ pos 6 ∷ pos 9 ∷ [])
    ⊎ IsReported
        (pos 8)
        (observe_all binance btc (pos 5 ∷ pos 6 ∷ pos 9 ∷ []) (((binance, btc), pos 4) ∷ [])).0
unfolding observe_all observe observe_after get put pair_Eq str_eq ◌+ℤ◌
observe_all-covers_example =
    observe_all-covers binance btc (pos 4) (pos 5 ∷ pos 6 ∷ pos 9 ∷ [])
      (((binance, btc), pos 4) ∷ []) (pos 9) (pos 8) refl refl (omega arith) (omega arith)

abbrev seven_eight : Gap
seven_eight = record { venue = binance; venue_symbol = btc; last_seen = pos 6; next_seen = pos 9 }

observe-gap_unseen_example :
    All (λ x. ¬ (IsMissing x seven_eight)) (pos 5 ∷ pos 6 ∷ [])
    × (pos 0 <ℤ missing_count seven_eight)
unfolding observe_all observe observe_after get put pair_Eq str_eq ◌+ℤ◌
observe-gap_unseen_example =
    observe-gap_unseen binance btc (pos 5 ∷ pos 6 ∷ []) [] (pos 9) seven_eight refl

abbrev full_queue : TopicQueue ℕ
full_queue = record { items = 1 ∷ 2 ∷ []; maxsize = 2; policy = drop_oldest; dropped = 0 }

put_drop_oldest_example :
    (q' : TopicQueue ℕ) × (gone : List ℕ) × (kept : List ℕ) × (Queue.put 3 full_queue ≡ some q')
    × (1 ∷ 2 ∷ [] ≡ gone ++ kept)
    × (q'.items ≡ kept ++ (3 ∷ []))
    × (q'.dropped ≡ 0 + length gone)
    × IsBounded q'
    × ((gone ≡ []) ⊎ ((is_full {T = ℕ} 2 (1 ∷ 2 ∷ []) ≡ true) × (length q'.items ≡ 2)))
put_drop_oldest_example = put_drop_oldest full_queue 3 refl

abbrev blocking : TopicQueue ℕ
blocking = record { items = 1 ∷ []; maxsize = 2; policy = block; dropped = 0 }

abbrev calls : List (Call ℕ)
calls = put_call 2 ∷ put_call 3 ∷ get_call ∷ put_call 4 ∷ []

run_block_fifo_example :
    (1 ∷ []) ++ (Fifo.run calls blocking).accepted
    ≡ (Fifo.run calls blocking).handed_out ++ (Fifo.run calls blocking).queue.items
run_block_fifo_example = run_block_fifo calls blocking refl

abbrev requests : List Request
requests = record { at = 10; wanted = 4 } ∷ record { at = 12; wanted = 9 } ∷ []

serve_budget_example : (serve requests (new_bucket 2 5 10)).0 ≤ 5 + (13 - 10) * 2
serve_budget_example = serve_budget 2 5 10 13 requests (omega arith, (omega arith, omega arith))

acquire-after_sleep_example :
    let b : TokenBucket = record { rate_per_sec = 1; capacity = 6; tokens = 1; updated = 10 } in
    ((try_acquire 16 5 (acquire_turn 10 10 5 b).1).0 ≡ true)
    × ((acquire_turn 10 10 5 b).0 ≤ acquire_sleep 10 10 5 b)
unfolding acquire_turn try_acquire refill
acquire-after_sleep_example =
    acquire-after_sleep 10 10 16 5
      (record { rate_per_sec = 1; capacity = 6; tokens = 1; updated = 10 }) (omega arith)
      (omega arith)

abbrev universe : List Instrument
universe =
    record { id = str "BTC-USD"; venues = (binance, btc) ∷ (str "coinbase", str "BTC-USD") ∷ [] }
    ∷ []

from_yaml-IsConsistent_example : IsConsistent (from_yaml universe)
from_yaml-IsConsistent_example = from_yaml-IsConsistent universe

-- A library of which nothing is known beyond its types.
abbrev py : Python
py = record { loads = λ s. none; container_repr = λ v. []; truncate = λ s. none }

abbrev clock : ℕ → ℤ
clock i = pos (1786752000000000 + i)

abbrev agg_rows : List AggTrade
agg_rows =
    record {
      id = pos 7;
      price = str "64000.10";
      quantity = str "0.5";
      first_id = pos 70;
      last_id = pos 71;
      time = pos 1786752000286;
      buyer_maker = true;
      best_match = true;
    }
    ∷ record {
      id = pos 9;
      price = str "64000.20";
      quantity = str "0.1";
      first_id = pos 90;
      last_id = pos 90;
      time = pos 1786752000287;
      buyer_maker = false;
      best_match = true;
    }
    ∷ []

repair-trades_below_example :
    Binance.repair py (from_yaml universe) seven_eight clock (array (rows_of agg_rows))
    ≡ ok (trades_below (pos 9) (λ j. trade_of btc (str "BTC-USD") (clock j)) 0 agg_rows)
unfolding canonical from_yaml get put pair_Eq str_eq
repair-trades_below_example =
    repair-trades_below py (from_yaml universe) seven_eight clock (str "BTC-USD") b'B'
      (str "TCUSDT") agg_rows refl refl

-- One row of the ticker, without a product.
abbrev one_trade : Str → Result Error Json
one_trade product = ok (
    object (
      field (str "trades")
        (array (
          cons
            (object (
              field (str "trade_id") (string (str "7")) (
                field (str "time") (string (str "2026-08-15T00:00:00Z")) (
                  field (str "price") (string (str "64000.10")) (
                    field (str "size") (string (str "0.5"))
                      (field (str "side") (string (str "BUY")) end))))))
            nil))
        end))

abbrev recovered : Trade
recovered = record {
  venue = str "coinbase";
  venue_symbol = str "BTC-USD";
  instrument_id = str "BTC-USD";
  trade_id = str "7";
  event_ts_us = pos 1786752000000000;
  ingest_ts_us = clock 0;
  price = str "64000.10";
  size = str "0.5";
  side = buy;
  sequence = none;
  is_backfill = true;
  source = rest_repair;
}

repair-All_example : All IsRepaired (recovered ∷ [])
unfolding get_default iterate lookup str_eq Coinbase.repair Coinbase.repair_from
    Coinbase.repair_products Coinbase.repair_rows Coinbase.set_default
    realtime_finance_bot.Ingest.Rows.add_row Coinbase.to_trade
    realtime_finance_bot.Python.Values.index Coinbase.trade_of_symbol Coinbase.mapped_trade
    canonical get from_yaml put pair_Eq Coinbase.make_trade Coinbase.rfc3339_to_us
    Coinbase.sequence_of realtime_finance_bot.Python.Values.text_of
repair-All_example =
    repair-All py (λ s. some (pos 1786752000000000)) (from_yaml universe) clock one_trade
      (record {
        venue = str "coinbase";
        venue_symbol = str "BTC-USD";
        last_seen = pos 6;
        next_seen = pos 9;
      })
      (recovered ∷ []) refl

abbrev round : Bool → Ws.Ending → Round
round dials ending = record {
  dial_ok = dials;
  sends_fail_at = none;
  hook_ok = true;
  ending = ending;
  jitter = 100000;
  stop_after = false;
  stop_after_sleep = false;
}

abbrev rounds : List Round
rounds =
    round false pump_failed
    ∷ round true pump_failed
    ∷ round true lifetime_over
    ∷ round true lifetime_over
    ∷ []

run-hooks_but_first_example :
    hooks (Ws.run [] 60 new_connection 1 rounds).1
    ≡ subscriptions (Ws.run [] 60 new_connection 1 rounds).1 - 1
run-hooks_but_first_example = run-hooks_but_first [] 60 rounds

two_hooks : hooks (Ws.run [] 60 new_connection 1 rounds).1 ≡ 2
unfolding Ws.run Ws.session new_connection
two_hooks = refl

abbrev trade : ℕ → Trade
trade n = record {
  venue = binance;
  venue_symbol = btc;
  instrument_id = str "BTC-USD";
  trade_id = str "7";
  event_ts_us = pos 1786752000286442;
  ingest_ts_us = pos 1786752000290000;
  price = str "64000.10";
  size = str "0.5";
  side = buy;
  sequence = some (pos n);
  is_backfill = false;
  source = stream;
}

abbrev turns : List Turn
turns =
    record { arrivals = trade 2 ∷ trade 3 ∷ []; stop = true }
    ∷ record { arrivals = []; stop = true }
    ∷ record { arrivals = []; stop = true }
    ∷ record { arrivals = []; stop = true }
    ∷ record { arrivals = trade 4 ∷ []; stop = true }
    ∷ []

drain-IsFifo_example : IsFifo ((trade 1 ∷ []) ++ all_arrivals turns) (drain turns (trade 1 ∷ []))
drain-IsFifo_example = drain-IsFifo turns (trade 1 ∷ [])

abbrev connector : Connector
connector = record {
  venue = binance;
  sequence_symbol = none;
  resets_sequence_on_reconnect = false;
  parse = λ raw. ok (trade 5 ∷ []);
  repair = λ gap. raise external_error;
}

abbrev quiet : Runner
quiet = record { tracker = []; queued = trade 4 ∷ []; repairs = [] }
