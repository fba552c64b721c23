-- ===== src/Ingest/Cli/Wired.antt =====
-- The runners that `main` of ingest/cli.py and of awsnative/cli.py starts meet what the runner asks.
use realtime_finance_bot.Base.{
  ℕ, zero, suc, ◌≡◌, refl, sym, ap, ◌∙◌, some, List, [], ◌∷◌, All, All-append, get_elem?, Str, str,
  str_eq, str_Eq, get, ok, raise, >>=-eq-ok, ok-injective,
}
use realtime_finance_bot.Ingest.Models.{Trade}
use realtime_finance_bot.Ingest.Instruments.{InstrumentMap, symbols_for}
use realtime_finance_bot.Ingest.Gaps.{new_tracker}
use realtime_finance_bot.Ingest.Queue.{TopicQueue, new_queue, block, topic_policies}
use realtime_finance_bot.Ingest.Runner.{Connector}
use realtime_finance_bot.Ingest.Runner.Tasks.{System, started, Reach}
use realtime_finance_bot.Ingest.Runner.Tasks.Order.{IsOrdered, started-IsOrdered}
use realtime_finance_bot.Ingest.Cli.{
  Exit, Started, build_connector, topic_queue, start_venue, start_venues, start_main,
}
use mathlib.Core.Option.{some-injective}

abbrev IsFresh : Started → Type 0
IsFresh r =
    (queue : TopicQueue Trade) × (r.system ≡ started new_tracker queue)
    × (queue.items ≡ [])
    × (queue.policy ≡ block)

All-get_elem? :
    (P : Started → Type 0) (rs : List Started) (n : ℕ) (r : Started)
    → All P rs
    → get_elem? rs n ≡ some r
    → P r
All-get_elem? P [] n r h e = cc
All-get_elem? P (x ∷ rs) zero r (h, hs) e = rw (← some-injective x r e) h
All-get_elem? P (x ∷ rs) (suc n) r (h, hs) e = All-get_elem? P rs n r hs e

module _ (binance coinbase : InstrumentMap → Connector) (instruments : InstrumentMap)
    (queue_maxsize : ℕ) where
  trades_queue :
      topic_queue binance coinbase instruments queue_maxsize (str "md.trades.v1")
      ≡ ok (new_queue queue_maxsize block)
  unfolding topic_queue topic_policies get str_eq
  trades_queue = refl

  start_venue-IsFresh :
      (connector : Connector) (symbols : List Str) (rs : List Started)
      → start_venue binance coinbase instruments queue_maxsize
          (str "md.trades.v1")
          connector
          symbols
        ≡ ok rs
      → All IsFresh rs
  unfolding start_venue new_queue
  start_venue-IsFresh connector [] rs e = rw (← ok-injective e) tt
  start_venue-IsFresh connector (s ∷ symbols) rs e =
      let (queue, found, e1) =
        >>=-eq-ok (topic_queue binance coinbase instruments queue_maxsize (str "md.trades.v1")) _
          e in
      let q = ok-injective (sym trades_queue ∙ found) in
      rw (← ok-injective e1) (
        (
          queue,
          refl,
          ap (λ (q' : TopicQueue Trade). q'.items) (sym q),
          ap (λ (q' : TopicQueue Trade). q'.policy) (sym q),
        ),
        tt,
      )

  start_venues-IsFresh :
      (venues : List Str) (rs : List Started)
      → start_venues binance coinbase instruments queue_maxsize (str "md.trades.v1") venues ≡ ok rs
      → All IsFresh rs
  unfolding start_venues
  start_venues-IsFresh [] rs e = rw (← ok-injective e) tt
  start_venues-IsFresh (venue ∷ venues) rs e =
      let (connector, _, e1) =
        >>=-eq-ok
          (build_connector binance coinbase instruments queue_maxsize (str "md.trades.v1") venue) _
          e in
      let (here, one, e2) =
        >>=-eq-ok
          (start_venue binance coinbase instruments queue_maxsize (str "md.trades.v1") connector
            (symbols_for venue instruments))
          _ e1 in
      let (rest, more, e3) =
        >>=-eq-ok
          (start_venues binance coinbase instruments queue_maxsize (str "md.trades.v1") venues) _
          e2 in
      rw (← ok-injective e3) (
        All-append IsFresh here rest
          (start_venue-IsFresh connector (symbols_for venue instruments) here one)
          (start_venues-IsFresh venues rest more))

  some_started :
      (found rs : List Started)
      → elim found [ [] ↦ raise Exit.no_venues | runner ∷ more ↦ ok (runner ∷ more) ] ≡ ok rs
      → found ≡ rs
  some_started [] rs e = cc
  some_started (runner ∷ more) rs e = ok-injective e

  -- Of the runners that `main` starts with the topic of the settings, each is in order in every
  -- interleaving of its tasks, whenever its sessions end and whichever call of the sink raises. The
  -- trades handed to the sink and then those queued are all that were put, in order. The trades that
  -- the sessions put or cut off, the one that waits to be put and the rest of the frame are all that
  -- the frames carried, in order, and those marked as put are, in order, all that were put but by the
  -- repairs. The sink is not flushed while the drain goes on; the drain ends with an exception of the
  -- sink, or after the stop, and then its last call is its one flush. Without a session no trade of a
  -- frame is in hand, and the connection's run is over only after the stop.
  pub start_main-IsOrdered :
      (venues : List Str) (rs : List Started) (n : ℕ) (r : Started) (s : System)
      → start_main binance coinbase instruments queue_maxsize (str "md.trades.v1") venues ≡ ok rs
      → get_elem? rs n ≡ some r
      → Reach r.connector r.system s
      → IsOrdered s
  unfolding start_main
  start_main-IsOrdered venues rs n r s e at reach =
      let (found, all, e1) =
        >>=-eq-ok
          (start_venues binance coinbase instruments queue_maxsize (str "md.trades.v1") venues) _
          e in
      let (queue, same, empty, policy) =
        All-get_elem? IsFresh rs n r
          (rw (← some_started found rs e1) (start_venues-IsFresh venues found all)) at in
      started-IsOrdered r.connector new_tracker queue s empty policy (rw same at reach)
