-- ===== src/Tests/Runner.antt =====
-- The runner of ingest/runner.py over interleaved symbols, and its drain.
use realtime_finance_bot.Base.{
  ℕ, ◌≡◌, refl, Bool, true, false, Option, none, some, List, [], ◌∷◌, ◌++◌, length, arith, Str, str,
  get, put, pair_Eq, str_eq, ℤ, pos, ok, raise,
}
use realtime_finance_bot.Python.Values.{external_error}
use realtime_finance_bot.Ingest.Models.{Trade, buy, stream}
use realtime_finance_bot.Ingest.Gaps.{observe, observe_after}
use realtime_finance_bot.Ingest.Runner.{Connector, Runner, Turn, handle_trade, handle_trades, drain}
use realtime_finance_bot.Ingest.Runner.Coverage.{IsAccounted, handle_trades-IsAccounted}
use realtime_finance_bot.Ingest.Runner.Drain.{is_flushed, drain-flushes}
use realtime_finance_bot.Ingest.Gaps.{Gap}
use realtime_finance_bot.Ingest.Queue
use realtime_finance_bot.Ingest.Queue.{TopicQueue, block}
use realtime_finance_bot.Ingest.Runner.{Action}
use realtime_finance_bot.Ingest.Runner.Tasks.{
  System, started, open_session, receive, observe_next, put_next, close_session, cut_session,
  signal, end_connection, answer, put_repaired, end_repair, drain_trade, drain_end, Reach, here,
  next, IsFinished,
}
use realtime_finance_bot.Ingest.Runner.Tasks.Order.{IsOrdered}
use realtime_finance_bot.Ingest.Instruments.{InstrumentMap}
use realtime_finance_bot.Ingest.Gaps.{new_tracker}
use realtime_finance_bot.Ingest.Cli.{Started, start_main}
use realtime_finance_bot.Ingest.Cli.Wired.{start_main-IsOrdered}

abbrev binance : Str
binance = str "binance"

abbrev btc : Str
btc = str "BTCUSDT"

abbrev trade : Str → Option ℤ → Trade
trade symbol sequence = record {
  venue = binance;
  venue_symbol = symbol;
  instrument_id = str "X";
  trade_id = str "7";
  event_ts_us = pos 1786752000286442;
  ingest_ts_us = pos 1786752000290000;
  price = str "64000.10";
  size = str "0.5";
  side = buy;
  sequence = sequence;
  is_backfill = false;
  source = stream;
}

abbrev connector : Connector
connector = record {
  venue = binance;
  sequence_symbol = none;
  resets_sequence_on_reconnect = false;
  parse = λ raw. ok [];
  repair = λ gap. raise external_error;
}

abbrev runner : Runner
runner = record { tracker = ((binance, btc), pos 4) ∷ []; queued = []; repairs = [] }

-- 5 and 9 of one symbol, with another symbol and a trade without a number between them.
abbrev trades : List Trade
trades =
    trade btc (some (pos 5))
    ∷ trade (str "ETHUSDT") (some (pos 100))
    ∷ trade btc none
    ∷ trade btc (some (pos 9))
    ∷ []

handle_trades-IsAccounted_example :
    IsAccounted connector
      (binance, btc)
      (pos 8)
      trades
      (handle_trades connector trades runner).repairs
unfolding handle_trades handle_trade observe observe_after get put pair_Eq str_eq
    realtime_finance_bot.Base.◌+ℤ◌
handle_trades-IsAccounted_example =
    handle_trades-IsAccounted connector binance btc (pos 4) (pos 9) (pos 8) trades runner refl refl
      (omega arith) (omega arith)

abbrev turns : List Turn
turns =
    record { arrivals = trade btc none ∷ []; stop = true }
    ∷ record { arrivals = []; stop = true }
    ∷ record { arrivals = []; stop = true }
    ∷ []

drain-flushes_example : is_flushed (drain turns (trade btc none ∷ [])).0 ≡ true
drain-flushes_example =
    drain-flushes turns (trade btc none ∷ []) (refl, (refl, (refl, tt))) (omega arith)

-- A connector whose frame has the number 9, and whose repair fetches the number 8.
abbrev repairing : Connector
repairing = record connector {
  parse = λ raw. ok (trade btc (some (pos 9)) ∷ []);
  repair = λ gap. ok (trade btc (some (pos 8)) ∷ []);
}

abbrev new_topic : TopicQueue Trade
new_topic = record { items = []; maxsize = 10; policy = block; dropped = 0 }

abbrev gap : Gap
gap = record { venue = binance; venue_symbol = btc; last_seen = pos 4; next_seen = pos 9 }

-- The frame is handled and drained; the drain ends while the repair is still asked for.
abbrev drained : System
drained = record {
  tracker = ((binance, btc), pos 9) ∷ [];
  frame = [];
  waiting = none;
  asked = gap ∷ [];
  answered = [];
  queue = new_topic;
  calls = Action.produce (trade btc (some (pos 9))) ∷ Action.poll ∷ Action.flush ∷ [];
  is_draining = false;
  is_failed = false;
  is_running = false;
  is_open = false;
  has_connected = true;
  is_stopped = true;
  received = trade btc (some (pos 9)) ∷ [];
  resolved = (trade btc (some (pos 9)), true) ∷ [];
  put_log = (trade btc (some (pos 9)), true) ∷ [];
}

drained_run : Reach repairing (started (((binance, btc), pos 4) ∷ []) new_topic) drained
unfolding started Queue.put realtime_finance_bot.Ingest.Runner.Tasks.observe_trade Queue.get get
    pair_Eq str_eq realtime_finance_bot.Base.◌+ℤ◌ put
drained_run =
    next
      (next
        (next
          (next
            (next
              (next
                (next
                  (next (next here (open_session _ refl refl))
                    (receive _ [] (trade btc (some (pos 9)) ∷ []) refl refl refl refl))
                  (observe_next _ (trade btc (some (pos 9))) [] refl refl))
                (put_next _ (trade btc (some (pos 9)))
                  (record new_topic { items = trade btc (some (pos 9)) ∷ [] }) refl refl))
              (drain_trade _ (trade btc (some (pos 9))) new_topic refl refl))
            (signal _))
          (close_session _ refl refl))
        (end_connection _ refl refl))
      (drain_end _ false refl refl refl)

-- Then the repair is answered, and its trade stays in the queue when `run` returns.
abbrev finished : System
finished = record drained {
  asked = [];
  queue = record new_topic { items = trade btc (some (pos 8)) ∷ [] };
  put_log = (trade btc (some (pos 9)), true) ∷ (trade btc (some (pos 8)), false) ∷ [];
}

finished_run : Reach repairing drained finished
unfolding Queue.put realtime_finance_bot.Ingest.Runner.repair_puts
finished_run =
    next
      (next (next here (answer _ [] [] gap refl)) (
        put_repaired _ [] [] (trade btc (some (pos 8))) []
          (record new_topic { items = trade btc (some (pos 8)) ∷ [] }) refl refl))
      (end_repair _ [] [] refl)

finished-IsFinished : IsFinished finished
finished-IsFinished = (refl, refl, refl, refl)

abbrev instruments : InstrumentMap
instruments = record {
  to_canonical = ((binance, btc), str "BTC-USD") ∷ [];
  by_venue = (binance, btc ∷ []) ∷ [];
}

abbrev runners : List Started
runners =
    record { connector = repairing; symbols = btc ∷ []; system = started new_tracker new_topic }
    ∷ []

-- One trade is through, and the next frame is in hand.
abbrev streaming : System
streaming = record {
  tracker = ((binance, btc), pos 9) ∷ [];
  frame = trade btc (some (pos 9)) ∷ [];
  waiting = none;
  asked = [];
  answered = [];
  queue = new_topic;
  calls = Action.produce (trade btc (some (pos 9))) ∷ Action.poll ∷ [];
  is_draining = true;
  is_failed = false;
  is_running = true;
  is_open = true;
  has_connected = true;
  is_stopped = false;
  received = trade btc (some (pos 9)) ∷ trade btc (some (pos 9)) ∷ [];
  resolved = (trade btc (some (pos 9)), true) ∷ [];
  put_log = (trade btc (some (pos 9)), true) ∷ [];
}

streaming_run : Reach repairing (started new_tracker new_topic) streaming
unfolding started Queue.put realtime_finance_bot.Ingest.Runner.Tasks.observe_trade Queue.get get
    new_tracker put
streaming_run =
    next
      (next
        (next
          (next
            (next (next here (open_session _ refl refl))
              (receive _ [] (trade btc (some (pos 9)) ∷ []) refl refl refl refl))
            (observe_next _ (trade btc (some (pos 9))) [] refl refl))
          (put_next _ (trade btc (some (pos 9)))
            (record new_topic { items = trade btc (some (pos 9)) ∷ [] }) refl refl))
        (drain_trade _ (trade btc (some (pos 9))) new_topic refl refl))
      (receive _ [] (trade btc (some (pos 9)) ∷ []) refl refl refl refl)

-- A venue without symbols is left out.
started_run :
    start_main
      (λ m. repairing)
      (λ m. connector)
      instruments
      10
      (str "md.trades.v1")
      (str "coinbase" ∷ binance ∷ [])
    ≡ ok runners
unfolding start_main str_eq get
started_run = refl

start_main-IsOrdered_example : IsOrdered streaming
start_main-IsOrdered_example =
    start_main-IsOrdered (λ m. repairing) (λ m. connector) instruments 10
      (str "coinbase" ∷ binance ∷ []) runners 0
      (record { connector = repairing; symbols = btc ∷ []; system = started new_tracker new_topic })
      streaming started_run refl streaming_run

-- A venue whose numbers outlive a session: 5 and 6 in a frame, then 7 in another.
abbrev numbering : Connector
numbering = record connector {
  parse = λ raw. elim raw [
    | [] ↦ ok (trade btc (some (pos 5)) ∷ trade btc (some (pos 6)) ∷ [])
    | c ∷ s ↦ ok (trade btc (some (pos 7)) ∷ [])
  ];
}

abbrev small_topic : TopicQueue Trade
small_topic = record { items = []; maxsize = 1; policy = block; dropped = 0 }

abbrev filled_topic : TopicQueue Trade
filled_topic = record small_topic { items = trade btc (some (pos 5)) ∷ [] }

-- The session ends while 6 waits for room; the next begins with 7. No repair is asked for, and 6 is
-- never put.
abbrev unnoticed : System
unnoticed = record {
  tracker = ((binance, btc), pos 7) ∷ [];
  frame = [];
  waiting = some (trade btc (some (pos 7)));
  asked = [];
  answered = [];
  queue = filled_topic;
  calls = [];
  is_draining = true;
  is_failed = false;
  is_running = true;
  is_open = true;
  has_connected = true;
  is_stopped = false;
  received = trade btc (some (pos 5)) ∷ trade btc (some (pos 6)) ∷ trade btc (some (pos 7)) ∷ [];
  resolved = (trade btc (some (pos 5)), true) ∷ (trade btc (some (pos 6)), false) ∷ [];
  put_log = (trade btc (some (pos 5)), true) ∷ [];
}

unnoticed_run : Reach numbering (started (((binance, btc), pos 4) ∷ []) small_topic) unnoticed
unfolding started Queue.put realtime_finance_bot.Ingest.Runner.Tasks.observe_trade get pair_Eq
    str_eq realtime_finance_bot.Base.◌+ℤ◌ put
unnoticed_run =
    next
      (next
        (next
          (next
            (next
              (next
                (next
                  (next (next here (open_session _ refl refl)) (
                    receive _ [] (trade btc (some (pos 5)) ∷ trade btc (some (pos 6)) ∷ []) refl
                      refl refl refl))
                  (observe_next _ (trade btc (some (pos 5))) (trade btc (some (pos 6)) ∷ []) refl
                    refl))
                (put_next _ (trade btc (some (pos 5))) filled_topic refl refl))
              (observe_next _ (trade btc (some (pos 6))) [] refl refl))
            (cut_session _ (trade btc (some (pos 6))) refl))
          (open_session _ refl refl))
        (receive _ (str "7") (trade btc (some (pos 7)) ∷ []) refl refl refl refl))
      (observe_next _ (trade btc (some (pos 7))) [] refl refl)
