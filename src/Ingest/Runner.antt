-- ===== src/Ingest/Runner.antt =====
-- ingest/runner.py and the connector's interface, ingest/connectors/base.py. A call of `queue.put`
-- is recorded in `queued`, in order: under the policy of trades, it waits until there is room. The
-- repair tasks that `handle_message` starts are the list `repairs`.
pub mod Coverage
pub mod Drain
pub mod Tasks
use realtime_finance_bot.Base.{
  ℕ, Bool, true, false, not, ◌||◌, Option, none, some, List, [], ◌∷◌, ◌++◌, if◌then◌else◌, Str,
  Result, ok, raise, ◌>>=◌,
}
use realtime_finance_bot.Python.Values.{Error}
use realtime_finance_bot.Ingest.Models.{Trade}
use realtime_finance_bot.Ingest.Gaps.{Gap, Tracker, new_tracker, observe}

pub record Connector : Type 0 where
  pub venue : Str
  -- `getattr(connector, "sequence_symbol", …)`
  pub sequence_symbol : Option Str
  -- `getattr(connector, "resets_sequence_on_reconnect", True)`
  pub resets_sequence_on_reconnect : Bool
  pub parse : Str → Result Error (List Trade)
  pub repair : Gap → Result Error (List Trade)

pub record Runner : Type 0 where
  pub tracker : Tracker
  pub queued : List Trade
  pub repairs : List Gap

abbrev pub symbol_or : Option Str → Str → Str
symbol_or none symbol = symbol
symbol_or (some s) symbol = s

abbrev pub add_repair : Option Gap → List Gap → List Gap
add_repair none gaps = gaps
add_repair (some g) gaps = gaps ++ (g ∷ [])

module _ (connector : Connector) where
  -- The body of the loop of `handle_message`.
  unfoldable pub handle_trade : Trade → Runner → Runner
  handle_trade trade r =
      let symbol = symbol_or connector.sequence_symbol trade.venue_symbol in
      let (gap, tracker) = observe trade.venue symbol trade.sequence r.tracker in
      record {
        tracker = tracker;
        queued = r.queued ++ (trade ∷ []);
        repairs = add_repair gap r.repairs;
      }

  unfoldable pub handle_trades : List Trade → Runner → Runner
  handle_trades [] r = r
  handle_trades (trade ∷ trades) r = handle_trades trades (handle_trade trade r)

  -- A frame that cannot be parsed raises, with nothing changed.
  unfoldable pub handle_message : Str → Runner → Result Error Runner
  handle_message raw r = connector.parse raw >>= λ trades. ok (handle_trades trades r)

  -- `_repair`: what the task of one gap puts.
  unfoldable pub repair_puts : Gap → List Trade
  repair_puts gap = elim (connector.repair gap) [ ok trades ↦ trades | raise e ↦ [] ]

  unfoldable pub run_repair : Gap → Runner → Runner
  unfolding repair_puts
  run_repair gap r = record r { queued = r.queued ++ repair_puts gap }

  unfoldable pub handle_reconnect : Runner → Runner
  handle_reconnect r =
      if connector.resets_sequence_on_reconnect then record r { tracker = new_tracker } else r

-- One round of `drain`: what has been put since the last, and whether `stop` is set.
pub record Turn : Type 0 where
  pub arrivals : List Trade
  pub stop : Bool

pub data Action : Type 0 where
  produce : Trade → Action
  poll flush : Action

abbrev pub is_waiting : List Trade → Bool
is_waiting [] = false
is_waiting (_ ∷ _) = true

abbrev pub Drained : Type 0
Drained = List Action × List Trade × List Turn

abbrev pub before_drained : List Action → Drained → Drained
before_drained acts (more, queue, turns) = (acts ++ more, queue, turns)

-- One round, with what was queued and put; `again` makes the rounds `turns` that follow.
unfoldable pub drain_round : Turn → List Turn → (List Trade → Drained) → List Trade → Drained
drain_round turn turns again [] =
    if not turn.stop then before_drained (poll ∷ []) (again []) else (flush ∷ [], [], turns)
drain_round turn turns again (trade ∷ rest) =
    before_drained (produce trade ∷ poll ∷ []) (again rest)

-- `drain` for a list of rounds: the sink's calls, what is left in the queue, and the rounds after
-- its end.
unfoldable pub drain : List Turn → List Trade → Drained
unfolding drain_round
drain [] queue = ([], queue, [])
drain (turn ∷ turns) queue = drain_round turn turns (drain turns) (queue ++ turn.arrivals)
