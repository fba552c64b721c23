-- ===== src/Tests/Devlab.antt =====
-- The reads of devlab on concrete records.
use realtime_finance_bot.Base.{
  ℕ, ◌≡◌, refl, false, some, List, [], ◌∷◌, arith, Str, str, str_eq, pos, ◌+ℤ◌, ◌-ℤ◌, ◌++◌, none,
  ok, raise, if◌then◌else◌,
}
use realtime_finance_bot.Ingest.Models.{Trade, buy, stream}
use realtime_finance_bot.Devlab.Health.{is_connection_scoped, missing, sequence_gaps, rate}
use realtime_finance_bot.Devlab.Health.Accounting.{sequence_gaps-missing}
use realtime_finance_bot.Devlab.Stream.{Round, no_message, decoded, deadline_of, tail}
use realtime_finance_bot.Devlab.Stream.Bounds.{IsBounded, tail-IsBounded}
use realtime_finance_bot.Devlab.Config.{
  Run, completed, expired, Settings, resolve, no_credentials, refused_credentials,
}

abbrev trade : Str → ℕ → Trade
trade venue n = record {
  venue = venue;
  venue_symbol = str "BTCUSDT";
  instrument_id = str "BTC-USD";
  trade_id = str "7";
  event_ts_us = pos 1786752000286442;
  ingest_ts_us = pos 1786752000290000;
  price = str "64000.10";
  size = str "0.5";
  side = buy;
  sequence = some (pos n);
  is_backfill = false;
  source = stream;
}

-- 5, 6 and 9: three are checked and two are missing.
sequence_gaps-missing_example :
    let report =
      sequence_gaps
        (trade (str "binance") 5 ∷ trade (str "binance") 6 ∷ trade (str "binance") 9 ∷ []) in
    pos report.checked +ℤ missing report ≡ pos 9 -ℤ pos 5 +ℤ pos 1
unfolding is_connection_scoped str_eq
sequence_gaps-missing_example =
    sequence_gaps-missing (str "binance") (str "BTCUSDT") (pos 5) (pos 9) (trade (str "binance") 5)
      (trade (str "binance") 6 ∷ trade (str "binance") 9 ∷ []) refl refl refl refl
      (refl, refl, (pos 6, refl, omega arith, (refl, refl, (pos 9, refl, omega arith, refl))))

-- A connection-scoped venue is skipped, and listed once.
skipped_run :
    sequence_gaps (trade (str "coinbase") 5 ∷ trade (str "coinbase") 9 ∷ [])
    ≡ record { checked = 0; gaps = []; skipped_venues = str "coinbase" ∷ [] }
unfolding sequence_gaps str_eq
skipped_run = refl

abbrev rounds : List Round
rounds =
    record { now = 1000; polled = no_message }
    ∷ record { now = 1500; polled = decoded (trade (str "binance") 5) }
    ∷ record { now = 3000; polled = no_message }
    ∷ []

tail-IsBounded_example :
    IsBounded
      (some 5)
      (deadline_of 1000 (some 2000))
      0
      rounds
      (tail 1000 (some 5) (some 2000) 1000 rounds)
tail-IsBounded_example = tail-IsBounded 1000 (some 5) (some 2000) 1000 rounds

tail_run : tail 1000 (some 5) (some 2000) 1000 rounds ≡ record {
  yielded = trade (str "binance") 5 ∷ [];
  waits = (1000, 1000) ∷ (1500, 1000) ∷ [];
  ending = realtime_finance_bot.Devlab.Stream.returned;
}
unfolding tail
tail_run = refl

-- The venue that is seen most comes first.
rate_run :
    rate (trade (str "coinbase") 1 ∷ trade (str "binance") 2 ∷ trade (str "binance") 3 ∷ [])
    ≡ record {
      messages = 3;
      by_venue = (str "binance", 2) ∷ (str "coinbase", 1) ∷ [];
      by_instrument = (str "BTC-USD", 3) ∷ [];
    }
unfolding rate realtime_finance_bot.Base.put str_eq realtime_finance_bot.Base.get
rate_run = refl

-- The state has no endpoint, and AWS is asked for one.
abbrev terraform : Str → Run
terraform name =
    if str_eq name (str "bootstrap_brokers_public")
    then completed 0 (str " ") []
    else if str_eq name (str "cluster_arn")
    then completed 0 (str "arn:aws:kafka:eu-west-1:1:cluster/x") []
    else completed 0 name []

abbrev settings : Settings
settings = record { bootstrap_servers = str "b:9096"; sasl_username = none; sasl_password = none }

resolved_run :
    resolve terraform
      (λ arn region. completed 0 (region ++ str ":9196") [])
      settings
      none
      (some (str " Terraform"))
    ≡ ok (record {
      name = str "msk";
      bootstrap = str "eu-west-1:9196";
      sasl_username = some (str "sasl_username");
      sasl_password = some (str "sasl_password");
    })
unfolding resolve str_eq
resolved_run = refl

refused_run :
    resolve
      (λ name. completed 1 [] (str "error: ExpiredToken"))
      (λ arn region. expired)
      settings
      (some (str "terraform"))
      none
    ≡ raise refused_credentials
unfolding resolve str_eq
refused_run = refl

uncredited_run :
    resolve terraform (λ arn region. expired) settings none (some (str "msk"))
    ≡ raise no_credentials
unfolding resolve str_eq
uncredited_run = refl
