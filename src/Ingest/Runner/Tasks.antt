-- ===== src/Ingest/Runner/Tasks.antt =====
-- ingest/runner.py: `run` and the tasks that it lets interleave: the connection's, which handles
-- frames, one for each repair, and the drain. A step is what a task does between two awaits; a put
-- that would wait is no step until there is room. A session of the connection (ingest/core/ws.py) may
-- end at any await, and cancels a put that waits; an exception of the sink ends the drain. Not
-- modelled: that `run` itself is cancelled.
pub mod Logs
pub mod Order
use realtime_finance_bot.Base.{
  ◌≡◌, Bool, true, false, ◌&&◌, Option, none, some, List, [], ◌∷◌, ◌++◌, map, if◌then◌else◌, Str,
  Result, ok,
}
use realtime_finance_bot.Ingest.Models.{Trade}
use realtime_finance_bot.Ingest.Gaps.{Gap, Tracker, new_tracker, observe}
use realtime_finance_bot.Ingest.Queue.{TopicQueue}
use realtime_finance_bot.Ingest.Queue
use realtime_finance_bot.Ingest.Runner.{
  Connector, symbol_or, add_repair, repair_puts, Action, produce, poll, flush,
}

pub record System : Type 0 where
  pub tracker : Tracker
  -- the trades of the frame in hand, and the one that is observed and not yet put
  pub frame : List Trade
  pub waiting : Option Trade
  -- the repair tasks: the gaps that are asked for, and what the answered ones have yet to put
  pub asked : List Gap
  pub answered : List (List Trade)
  pub queue : TopicQueue Trade
  -- the drain's calls of the sink, whether it goes on, and whether the sink raised
  pub calls : List Action
  pub is_draining : Bool
  pub is_failed : Bool
  -- the connection: whether its run goes on, whether a session is open, and whether one has been
  pub is_running : Bool
  pub is_open : Bool
  pub has_connected : Bool
  pub is_stopped : Bool
  -- for the statements: what the frames carried; what became of each trade of theirs that is no
  -- longer in hand, put or cut off; and what was put, by the frames or by a repair
  pub received : List Trade
  pub resolved : List (Trade × Bool)
  pub put_log : List (Trade × Bool)

-- `run` at its start, with an empty queue.
unfoldable pub started : Tracker → TopicQueue Trade → System
started tracker queue = record {
  tracker = tracker;
  frame = [];
  waiting = none;
  asked = [];
  answered = [];
  queue = queue;
  calls = [];
  is_draining = true;
  is_failed = false;
  is_running = true;
  is_open = false;
  has_connected = false;
  is_stopped = false;
  received = [];
  resolved = [];
  put_log = [];
}

abbrev pub cut_off : List Trade → List (Trade × Bool)
cut_off trades = map (λ t. (t, false)) trades

module _ (connector : Connector) where
  -- `handle_message` up to the put of one trade.
  unfoldable pub observe_trade : Trade → List Trade → System → System
  unfolding observe
  observe_trade t ts s =
      let symbol = symbol_or connector.sequence_symbol t.venue_symbol in
      let (gap, tracker) = observe t.venue symbol t.sequence s.tracker in
      record s { tracker = tracker; frame = ts; waiting = some t; asked = add_repair gap s.asked }

  -- The tracker when a session opens: `handle_reconnect` is called for all but the first.
  abbrev pub tracker_opened : System → Tracker
  tracker_opened s =
      if s.has_connected && connector.resets_sequence_on_reconnect then new_tracker else s.tracker

  pub data Step : System → System → Type 0 where
    open_session :
        (s : System)
        → s.is_running ≡ true
        → s.is_open ≡ false
        → Step s (record s { tracker = tracker_opened s; is_open = true; has_connected = true })
    receive :
        (s : System) (raw : Str) (trades : List Trade)
        → s.is_open ≡ true
        → s.frame ≡ []
        → s.waiting ≡ none
        → connector.parse raw ≡ ok trades
        → Step s (record s { frame = trades; received = s.received ++ trades })
    observe_next :
        (s : System) (t : Trade) (ts : List Trade)
        → s.frame ≡ t ∷ ts
        → s.waiting ≡ none
        → Step s (observe_trade t ts s)
    put_next :
        (s : System) (t : Trade) (queue : TopicQueue Trade)
        → s.waiting ≡ some t
        → Queue.put t s.queue ≡ some queue
        → Step s (record s {
          waiting = none;
          queue = queue;
          resolved = s.resolved ++ ((t, true) ∷ []);
          put_log = s.put_log ++ ((t, true) ∷ []);
        })
    -- the end of a session between two frames: the socket fails, a frame cannot be parsed, the
    -- lifetime is over or `stop` is set
    close_session :
        (s : System) → s.frame ≡ [] → s.waiting ≡ none → Step s (record s { is_open = false })
    -- the end of a session while a put waits, which cancels the put: neither its trade nor the rest
    -- of the frame is put
    cut_session :
        (s : System) (t : Trade)
        → s.waiting ≡ some t
        → Step s (record s {
          frame = [];
          waiting = none;
          is_open = false;
          resolved = s.resolved ++ cut_off (t ∷ s.frame);
        })
    -- `_repair`: the answer, a put, and the end
    answer :
        (s : System) (before after : List Gap) (gap : Gap)
        → s.asked ≡ before ++ (gap ∷ after)
        → Step s (record s {
          asked = before ++ after;
          answered = repair_puts connector gap ∷ s.answered;
        })
    put_repaired :
        (s : System) (before after : List (List Trade)) (t : Trade) (ts : List Trade)
        (queue : TopicQueue Trade)
        → s.answered ≡ before ++ ((t ∷ ts) ∷ after)
        → Queue.put t s.queue ≡ some queue
        → Step s (record s {
          answered = before ++ (ts ∷ after);
          queue = queue;
          put_log = s.put_log ++ ((t, false) ∷ []);
        })
    end_repair :
        (s : System) (before after : List (List Trade))
        → s.answered ≡ before ++ ([] ∷ after)
        → Step s (record s { answered = before ++ after })
    -- `drain`: a round with a trade; one that timed out, which may have begun before the stop; the
    -- end, with a flush that returns or raises; and the three other calls that may raise
    drain_trade :
        (s : System) (t : Trade) (queue : TopicQueue Trade)
        → s.is_draining ≡ true
        → Queue.get s.queue ≡ some (t, queue)
        → Step s (record s { queue = queue; calls = s.calls ++ (produce t ∷ poll ∷ []) })
    drain_idle :
        (s : System)
        → s.is_draining ≡ true
        → Queue.get s.queue ≡ none
        → Step s (record s { calls = s.calls ++ (poll ∷ []) })
    drain_end :
        (s : System) (raises : Bool)
        → s.is_draining ≡ true
        → s.is_stopped ≡ true
        → Queue.get s.queue ≡ none
        → Step s
            (record s { calls = s.calls ++ (flush ∷ []); is_draining = false; is_failed = raises })
    produce_raises :
        (s : System) (t : Trade) (queue : TopicQueue Trade)
        → s.is_draining ≡ true
        → Queue.get s.queue ≡ some (t, queue)
        → Step s (record s {
          queue = queue;
          calls = s.calls ++ (produce t ∷ []);
          is_draining = false;
          is_failed = true;
        })
    poll_raises :
        (s : System) (t : Trade) (queue : TopicQueue Trade)
        → s.is_draining ≡ true
        → Queue.get s.queue ≡ some (t, queue)
        → Step s (record s {
          queue = queue;
          calls = s.calls ++ (produce t ∷ poll ∷ []);
          is_draining = false;
          is_failed = true;
        })
    idle_poll_raises :
        (s : System)
        → s.is_draining ≡ true
        → Queue.get s.queue ≡ none
        → Step s
            (record s { calls = s.calls ++ (poll ∷ []); is_draining = false; is_failed = true })
    -- a signal; and the return of the connection's run, which comes only after the stop
    signal : (s : System) → Step s (record s { is_stopped = true })
    end_connection :
        (s : System)
        → s.is_open ≡ false
        → s.is_stopped ≡ true
        → Step s (record s { is_running = false })

  pub data Reach (s : System) : System → Type 0 where
    here : Reach s s
    next : {t u : System} → Reach s t → Step t u → Reach s u

-- `run` returns: the connection's run is over, every repair has ended, and so has the drain.
abbrev pub IsFinished : System → Type 0
IsFinished s = (s.is_running ≡ false) × (s.asked ≡ []) × (s.answered ≡ []) × (s.is_draining ≡ false)
