-- ===== src/Ingest/Cli.antt =====
-- ingest/cli.py and awsnative/cli.py, which differ in the sink only: the runners that `main` starts.
-- The settings are arguments; the signals and the tasks are not modelled here.
pub mod Wired
use realtime_finance_bot.Base.{
  ℕ, Bool, true, false, Option, none, some, List, [], ◌∷◌, ◌++◌, if◌then◌else◌, Str, str, str_eq,
  str_Eq, get, Result, ok, raise, ◌>>=◌,
}
use realtime_finance_bot.Ingest.Models.{Trade}
use realtime_finance_bot.Ingest.Instruments.{InstrumentMap, symbols_for}
use realtime_finance_bot.Ingest.Gaps.{new_tracker}
use realtime_finance_bot.Ingest.Queue.{TopicQueue, new_queue, topic_policies}
use realtime_finance_bot.Ingest.Runner.{Connector}
use realtime_finance_bot.Ingest.Runner.Tasks.{System, started}

-- How `main` ends before it runs anything: SystemExit for a venue that is not known and where there
-- is nothing to run, KeyError for a topic without a policy.
pub data Exit : Type 0 where
  unknown_venue : Str → Exit
  unknown_topic : Str → Exit
  no_venues : Exit

-- A runner at its start, with the symbols that it subscribes to.
pub record Started : Type 0 where
  pub connector : Connector
  pub symbols : List Str
  pub system : System

module _ (binance coinbase : InstrumentMap → Connector) (instruments : InstrumentMap)
    (queue_maxsize : ℕ) (trades_topic : Str) where
  unfoldable pub build_connector : Str → Result Exit Connector
  build_connector venue =
      if str_eq venue (str "binance")
      then ok (binance instruments)
      else if str_eq venue (str "coinbase")
      then ok (coinbase instruments)
      else raise (unknown_venue venue)

  -- `TOPIC_POLICIES[settings.trades_topic]`
  unfoldable pub topic_queue : Result Exit (TopicQueue Trade)
  unfolding topic_policies new_queue
  topic_queue = elim (get trades_topic topic_policies) [
    | none ↦ raise (unknown_topic trades_topic)
    | some policy ↦ ok (new_queue queue_maxsize policy)
  ]

  -- One venue; one without symbols is left out.
  unfoldable pub start_venue : Connector → List Str → Result Exit (List Started)
  unfolding topic_queue started new_tracker
  start_venue connector [] = ok []
  start_venue connector (s ∷ symbols) = topic_queue >>= λ queue. ok (
      record { connector = connector; symbols = s ∷ symbols; system = started new_tracker queue }
      ∷ [])

  -- The loop of `main`: the runners in the venues' order.
  unfoldable pub start_venues : List Str → Result Exit (List Started)
  unfolding build_connector start_venue symbols_for
  start_venues [] = ok []
  start_venues (venue ∷ venues) = do
    connector ← build_connector venue
    here ← start_venue connector (symbols_for venue instruments)
    rest ← start_venues venues
    ok (here ++ rest)

  unfoldable pub start_main : List Str → Result Exit (List Started)
  unfolding start_venues
  start_main venues = start_venues venues >>= λ runners. elim runners [
    | [] ↦ raise no_venues
    | runner ∷ more ↦ ok (runner ∷ more)
  ]
