-- ===== src/Ingest/Runner/Tasks/Order.antt =====
-- What holds of the runner's tasks in every interleaving.
use realtime_finance_bot.Base.{
  ◌≡◌, refl, sym, ◌∙◌, ◌⊎◌, inl, inr, Bool, true, false, none, some, List, [], ◌∷◌, ◌++◌,
}
use realtime_finance_bot.Ingest.Models.{Trade}
use realtime_finance_bot.Ingest.Gaps.{Tracker}
use realtime_finance_bot.Ingest.Queue.{TopicQueue, block}
use realtime_finance_bot.Ingest.Queue.Calls.{put-eq-some, get-eq-some}
use realtime_finance_bot.Ingest.Runner.{Connector, Action}
use realtime_finance_bot.Ingest.Runner.Drain.{produced}
use realtime_finance_bot.Ingest.Runner.Coverage.{true-false}
use realtime_finance_bot.Ingest.Runner.Tasks.{
  System, started, observe_trade, Step, open_session, receive, observe_next, put_next,
  close_session, cut_session, answer, put_repaired, end_repair, drain_trade, drain_idle, drain_end,
  produce_raises, poll_raises, idle_poll_raises, signal, end_connection, Reach, here, next,
}
use realtime_finance_bot.Ingest.Runner.Tasks.Logs.{
  pending, all_of, marked, IsUnflushed, IsUnflushed-append, handed_put, handed_call,
  carried_receive, carried_put, carried_cut, marked-cut, marked-repaired, marked-put,
}

-- The trades handed to the sink and then those queued are all that were put.
abbrev pub IsHanded : System → Type 0
IsHanded s = (produced s.calls ++ s.queue.items ≡ all_of s.put_log) × (s.queue.policy ≡ block)

-- Those that a session put or cut off, the one that waits and the rest of the frame are all that the
-- frames carried; and what the sessions put is what is put, less the repairs' trades.
abbrev pub IsCarried : System → Type 0
IsCarried s =
    (all_of s.resolved ++ (pending s.waiting ++ s.frame) ≡ s.received)
    × (marked s.put_log ≡ marked s.resolved)

-- A drain that has ended was ended by the sink, or by the stop and then with one flush, the last call.
abbrev pub HasEnded : Bool → Bool → List Action → Type 0
HasEnded failed stopped calls =
    (failed ≡ true)
    ⊎ ((stopped ≡ true)
        × (acts : List Action) × (calls ≡ acts ++ (Action.flush ∷ []))
        × IsUnflushed acts)

abbrev pub IsFlushedOnce : System → Type 0
IsFlushedOnce s =
    (s.is_draining ≡ true → IsUnflushed s.calls)
    × (s.is_draining ≡ false → HasEnded s.is_failed s.is_stopped s.calls)

-- Without a session no trade is in hand, and the connection's run is over only after the stop.
abbrev pub IsClosed : System → Type 0
IsClosed s =
    (s.is_open ≡ false → (s.frame ≡ []) × (s.waiting ≡ none))
    × (s.is_running ≡ false → (s.is_open ≡ false) × (s.is_stopped ≡ true))

abbrev pub IsOrdered : System → Type 0
IsOrdered s = IsHanded s × IsCarried s × IsFlushedOnce s × IsClosed s

stop_again :
    (failed stopped : Bool) (calls : List Action)
    → HasEnded failed stopped calls
    → HasEnded failed true calls
stop_again failed stopped calls (inl f) = inl f
stop_again failed stopped calls (inr (_, acts, last, unflushed)) = inr (refl, acts, last, unflushed)

some-none : (t : Trade) → some t ≡ none → ⊥
some-none t e = cc

cons-nil : (t : Trade) (ts : List Trade) → t ∷ ts ≡ [] → ⊥
cons-nil t ts e = cc

module _ (connector : Connector) where
  Step-IsHanded : {s u : System} → Step connector s u → IsHanded s → IsHanded u
  unfolding observe_trade
  Step-IsHanded (open_session s running shut) h = h
  Step-IsHanded (receive s raw trades opened none_left no_wait parsed) h = h
  Step-IsHanded (observe_next s t ts e no_wait) h = h
  Step-IsHanded (put_next s t queue e put) h =
      let (items, policy) = put-eq-some t s.queue queue h.1 put in
      (handed_put s.calls s.queue.items queue.items s.put_log t true h.0 items, policy)
  Step-IsHanded (close_session s none_left no_wait) h = h
  Step-IsHanded (cut_session s t e) h = h
  Step-IsHanded (answer s before after gap e) h = h
  Step-IsHanded (put_repaired s before after t ts queue e put) h =
      let (items, policy) = put-eq-some t s.queue queue h.1 put in
      (handed_put s.calls s.queue.items queue.items s.put_log t false h.0 items, policy)
  Step-IsHanded (end_repair s before after e) h = h
  Step-IsHanded (drain_trade s t queue on e) h =
      let (items, policy) = get-eq-some t s.queue queue e in
      (
        handed_call s.calls (Action.produce t ∷ Action.poll ∷ []) queue.items s.put_log
            (rw (← items) h.0),
        policy ∙ h.1,
      )
  Step-IsHanded (drain_idle s on e) h =
      (handed_call s.calls (Action.poll ∷ []) s.queue.items s.put_log h.0, h.1)
  Step-IsHanded (drain_end s raises on stopped e) h =
      (handed_call s.calls (Action.flush ∷ []) s.queue.items s.put_log h.0, h.1)
  Step-IsHanded (produce_raises s t queue on e) h =
      let (items, policy) = get-eq-some t s.queue queue e in
      (
        handed_call s.calls (Action.produce t ∷ []) queue.items s.put_log (rw (← items) h.0),
        policy ∙ h.1,
      )
  Step-IsHanded (poll_raises s t queue on e) h =
      let (items, policy) = get-eq-some t s.queue queue e in
      (
        handed_call s.calls (Action.produce t ∷ Action.poll ∷ []) queue.items s.put_log
            (rw (← items) h.0),
        policy ∙ h.1,
      )
  Step-IsHanded (idle_poll_raises s on e) h =
      (handed_call s.calls (Action.poll ∷ []) s.queue.items s.put_log h.0, h.1)
  Step-IsHanded (signal s) h = h
  Step-IsHanded (end_connection s shut stopped) h = h

  Step-IsCarried : {s u : System} → Step connector s u → IsCarried s → IsCarried u
  unfolding observe_trade
  Step-IsCarried (open_session s running shut) h = h
  Step-IsCarried (receive s raw trades opened none_left no_wait parsed) h =
      (carried_receive s.resolved s.frame s.received trades s.waiting none_left no_wait h.0, h.1)
  Step-IsCarried (observe_next s t ts e no_wait) h = (rw (e, no_wait) at h.0, h.1)
  Step-IsCarried (put_next s t queue e put) h = (
    carried_put s.resolved s.frame s.received s.waiting t e h.0,
    marked-put s.put_log s.resolved t h.1,
  )
  Step-IsCarried (close_session s none_left no_wait) h = h
  Step-IsCarried (cut_session s t e) h = (
    carried_cut s.resolved s.frame s.received s.waiting t e h.0,
    h.1 ∙ sym (marked-cut s.resolved (t ∷ s.frame)),
  )
  Step-IsCarried (answer s before after gap e) h = h
  Step-IsCarried (put_repaired s before after t ts queue e put) h =
      (h.0, marked-repaired s.put_log t ∙ h.1)
  Step-IsCarried (end_repair s before after e) h = h
  Step-IsCarried (drain_trade s t queue on e) h = h
  Step-IsCarried (drain_idle s on e) h = h
  Step-IsCarried (drain_end s raises on stopped e) h = h
  Step-IsCarried (produce_raises s t queue on e) h = h
  Step-IsCarried (poll_raises s t queue on e) h = h
  Step-IsCarried (idle_poll_raises s on e) h = h
  Step-IsCarried (signal s) h = h
  Step-IsCarried (end_connection s shut stopped) h = h

  Step-IsFlushedOnce : {s u : System} → Step connector s u → IsFlushedOnce s → IsFlushedOnce u
  unfolding observe_trade
  Step-IsFlushedOnce (open_session s running shut) h = h
  Step-IsFlushedOnce (receive s raw trades opened none_left no_wait parsed) h = h
  Step-IsFlushedOnce (observe_next s t ts e no_wait) h = h
  Step-IsFlushedOnce (put_next s t queue e put) h = h
  Step-IsFlushedOnce (close_session s none_left no_wait) h = h
  Step-IsFlushedOnce (cut_session s t e) h = h
  Step-IsFlushedOnce (answer s before after gap e) h = h
  Step-IsFlushedOnce (put_repaired s before after t ts queue e put) h = h
  Step-IsFlushedOnce (end_repair s before after e) h = h
  Step-IsFlushedOnce (drain_trade s t queue on e) h = (
    λ d. IsUnflushed-append s.calls (Action.produce t ∷ Action.poll ∷ []) (h.0 d) tt,
    λ d. absurd (true-false (sym on ∙ d)),
  )
  Step-IsFlushedOnce (drain_idle s on e) h = (
    λ d. IsUnflushed-append s.calls (Action.poll ∷ []) (h.0 d) tt,
    λ d. absurd (true-false (sym on ∙ d)),
  )
  Step-IsFlushedOnce (drain_end s raises on stopped e) h =
      (λ d. absurd (true-false (sym d)), λ _. inr (stopped, s.calls, refl, h.0 on))
  Step-IsFlushedOnce (produce_raises s t queue on e) h =
      (λ d. absurd (true-false (sym d)), λ _. inl refl)
  Step-IsFlushedOnce (poll_raises s t queue on e) h =
      (λ d. absurd (true-false (sym d)), λ _. inl refl)
  Step-IsFlushedOnce (idle_poll_raises s on e) h = (λ d. absurd (true-false (sym d)), λ _. inl refl)
  Step-IsFlushedOnce (signal s) h = (h.0, λ d. stop_again s.is_failed s.is_stopped s.calls (h.1 d))
  Step-IsFlushedOnce (end_connection s shut stopped) h = h

  Step-IsClosed : {s u : System} → Step connector s u → IsClosed s → IsClosed u
  unfolding observe_trade
  Step-IsClosed (open_session s running shut) h =
      (λ d. absurd (true-false d), λ d. absurd (true-false (sym running ∙ d)))
  Step-IsClosed (receive s raw trades opened none_left no_wait parsed) h =
      (λ d. absurd (true-false (sym opened ∙ d)), h.1)
  Step-IsClosed (observe_next s t ts e no_wait) h =
      (λ d. absurd (cons-nil t ts (sym e ∙ (h.0 d).0)), h.1)
  Step-IsClosed (put_next s t queue e put) h = (λ d. absurd (some-none t (sym e ∙ (h.0 d).1)), h.1)
  Step-IsClosed (close_session s none_left no_wait) h =
      (λ _. (none_left, no_wait), λ d. (refl, (h.1 d).1))
  Step-IsClosed (cut_session s t e) h = (λ _. (refl, refl), λ d. (refl, (h.1 d).1))
  Step-IsClosed (answer s before after gap e) h = h
  Step-IsClosed (put_repaired s before after t ts queue e put) h = h
  Step-IsClosed (end_repair s before after e) h = h
  Step-IsClosed (drain_trade s t queue on e) h = h
  Step-IsClosed (drain_idle s on e) h = h
  Step-IsClosed (drain_end s raises on stopped e) h = h
  Step-IsClosed (produce_raises s t queue on e) h = h
  Step-IsClosed (poll_raises s t queue on e) h = h
  Step-IsClosed (idle_poll_raises s on e) h = h
  Step-IsClosed (signal s) h = (h.0, λ d. ((h.1 d).0, refl))
  Step-IsClosed (end_connection s shut stopped) h = (h.0, λ _. (shut, stopped))

  Reach-IsOrdered : {s u : System} → Reach connector s u → IsOrdered s → IsOrdered u
  Reach-IsOrdered here h = h
  Reach-IsOrdered (next r step) h =
      let (handed, carried, flushed, closed) = Reach-IsOrdered r h in
      (
        Step-IsHanded step handed,
        Step-IsCarried step carried,
        Step-IsFlushedOnce step flushed,
        Step-IsClosed step closed,
      )

  -- The start of `run`, with a new queue that blocks, is in order, and so is whatever its tasks reach.
  pub started-IsOrdered :
      (tracker : Tracker) (queue : TopicQueue Trade) (s : System)
      → queue.items ≡ []
      → queue.policy ≡ block
      → Reach connector (started tracker queue) s
      → IsOrdered s
  unfolding started
  started-IsOrdered tracker queue s empty policy r = Reach-IsOrdered r (
    (empty, policy),
    (refl, refl),
    (λ _. tt, λ d. absurd (true-false d)),
    (λ _. (refl, refl), λ d. absurd (true-false d)),
  )
