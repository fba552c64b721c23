-- ===== src/Ingest/Runner/Drain.antt =====
-- Nothing that is put is lost or reordered on the way to the sink, and what a frame adds.
use realtime_finance_bot.Base.{
  ◌⊎◌, ◌≡◌, refl, ap, sym, ◌∙◌, Bool, true, false, length, suc, ◌<◌, arith, List, [], ◌∷◌, ◌++◌,
  append_assoc, append-nil, Str, pair_Eq, Bool-cases, inl, inr, ok, >>=-eq-ok, ok-injective,
}
use realtime_finance_bot.Ingest.Models.{Trade}
use realtime_finance_bot.Ingest.Runner.{
  Connector, Runner, handle_trade, handle_trades, handle_message, Turn, Action, produce, flush,
  Drained, drain, drain_round,
}

abbrev pub produced : List Action → List Trade
produced [] = []
produced (produce t ∷ acts) = t ∷ produced acts
produced (_ ∷ acts) = produced acts

abbrev pub all_arrivals : List Turn → List Trade
all_arrivals [] = []
all_arrivals (turn ∷ turns) = turn.arrivals ++ all_arrivals turns

-- Whether the loop has come to its end.
abbrev pub is_flushed : List Action → Bool
is_flushed [] = false
is_flushed (flush ∷ acts) = true
is_flushed (_ ∷ acts) = is_flushed acts

abbrev pub IsFifo : List Trade → Drained → Type 0
IsFifo all (acts, queue, turns) =
    (produced acts ++ (queue ++ all_arrivals turns) ≡ all)
    × ((is_flushed acts ≡ false) ⊎ (queue ≡ []))

IsFifo-drain_round :
    (turn : Turn) (turns : List Turn) (items : List Trade)
    → ((queue : List Trade) → IsFifo (queue ++ all_arrivals turns) (drain turns queue))
    → IsFifo (items ++ all_arrivals turns) (drain_round turn turns (drain turns) items)
unfolding drain_round
IsFifo-drain_round turn turns [] ih = elim (Bool-cases turn.stop) [
  | inl stop ↦ rw stop (refl, inr refl)
  | inr go ↦ rw go (ih [])
]
IsFifo-drain_round turn turns (trade ∷ rest) ih = (ap (λ ts. trade ∷ ts) (ih rest).0, (ih rest).1)

-- The trades that the drain has handed to the sink, then those still queued, then those put after
-- its end, are all trades that were put, in their order; and it has not flushed, or none is queued.
pub drain-IsFifo :
    (turns : List Turn) (queue : List Trade)
    → IsFifo (queue ++ all_arrivals turns) (drain turns queue)
unfolding drain
drain-IsFifo [] queue = (refl, inl refl)
drain-IsFifo (turn ∷ turns) queue =
    rw (← append_assoc queue turn.arrivals (all_arrivals turns))
      (IsFifo-drain_round turn turns (queue ++ turn.arrivals) (drain-IsFifo turns))

drain_round-flushes :
    (turn : Turn) (turns : List Turn) (items : List Trade)
    → turn.stop ≡ true
    → ((queue : List Trade)
        → length (queue ++ all_arrivals turns) < length turns
        → is_flushed (drain turns queue).0 ≡ true)
    → length (items ++ all_arrivals turns) < suc (length turns)
    → is_flushed (drain_round turn turns (drain turns) items).0 ≡ true
unfolding drain_round
drain_round-flushes turn turns [] stop ih k = rw stop refl
drain_round-flushes turn turns (trade ∷ rest) stop ih k = ih rest (omega arith)

abbrev pub AllStopped : List Turn → Type 0
AllStopped [] = Unit
AllStopped (turn ∷ turns) = (turn.stop ≡ true) × AllStopped turns

-- Once `stop` is set, the loop ends with a flush after at most one round for each trade that is
-- queued or still put, and one more.
pub drain-flushes :
    (turns : List Turn) (queue : List Trade)
    → AllStopped turns
    → length (queue ++ all_arrivals turns) < length turns
    → is_flushed (drain turns queue).0 ≡ true
unfolding drain
drain-flushes [] queue h k = elim k [ ]
drain-flushes (turn ∷ turns) queue (stop, h) k =
    drain_round-flushes turn turns (queue ++ turn.arrivals) stop
      (λ queue' k'. drain-flushes turns queue' h k')
      (rw (append_assoc queue turn.arrivals (all_arrivals turns)) k)

module _ (connector : Connector) where
  queued-handle_trades :
      (trades : List Trade) (r : Runner)
      → (handle_trades connector trades r).queued ≡ r.queued ++ trades
  unfolding handle_trades handle_trade
  queued-handle_trades [] r = sym (append-nil r.queued)
  queued-handle_trades (t ∷ ts) r =
      queued-handle_trades ts (handle_trade connector t r) ∙ append_assoc r.queued (t ∷ []) ts

  -- A frame that is parsed puts exactly its trades, in their order, whatever gaps are found.
  pub handle_message-queued :
      (raw : Str) (r r' : Runner)
      → handle_message connector raw r ≡ ok r'
      → (trades : List Trade) × (connector.parse raw ≡ ok trades) × (r'.queued ≡ r.queued ++ trades)
  unfolding handle_message
  handle_message-queued raw r r' e =
      let (trades, parsed, e1) = >>=-eq-ok (connector.parse raw) _ e in
      (
        trades,
        parsed,
        ap (λ (s : Runner). s.queued) (sym (ok-injective e1)) ∙ queued-handle_trades trades r,
      )
