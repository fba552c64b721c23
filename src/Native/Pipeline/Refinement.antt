-- ===== src/Native/Pipeline/Refinement.antt =====
-- What a drain of ingest/runner.py leaves in the stream of awsnative/sink.py, as bags of records.
use realtime_finance_bot.Base.{
  ℕ, ◌+◌, ◌≡◌, refl, ap, inl, inr, ◌⊎◌, Bool, true, false, List, [], ◌∷◌, ◌++◌, map, length, arith,
  leb, ◌||◌, Bool-cases,
}
use mathlib.Core.Quot
use realtime_finance_bot.Ingest.Models.{Trade, kafka_key}
use realtime_finance_bot.Ingest.Runner.{Action, Turn, drain, drain_round}
use realtime_finance_bot.Ingest.Runner.Drain.{produced, all_arrivals, is_flushed, drain-IsFifo}
use realtime_finance_bot.Native.Encode.{encode_trade}
use realtime_finance_bot.Native.Sink.{
  Entry, Config, Sink, Reply, Sent, sent, client_error, attempts_exhausted, no_fuel, produce, poll,
  flush, empty_sink,
}
use realtime_finance_bot.Native.Sink.Delivery.{
  IsStream, total, total-append, AllDelivered, send_all-AllDelivered, flush-AllDelivered,
}
use realtime_finance_bot.Native.Sink.Buffer.{Emptied}
use realtime_finance_bot.Native.Pipeline.{after_call, execute, drain_into_sink}
use realtime_finance_bot.Native.Pipeline.Bag.{bag, add_all}

abbrev pub record_of : Trade → Entry
record_of t = record { content = encode_trade t; partition_key = kafka_key t }

abbrev pub records : List Trade → List Entry
records ts = map record_of ts

-- What is in the stream and the buffer after calls that handed over some trades, weighed.
abbrev Executed : Sent → List Trade → (buffer left before after : List Entry) → Type 0
Executed (sent n) handed buffer left before after =
    (f : Entry → ℕ)
    → total f after + total f left ≡ total f before + total f buffer + total f (records handed)
Executed client_error handed buffer left before after = Unit
Executed (attempts_exhausted n) handed buffer left before after =
    (missing : List Entry) × (done : List Trade) × (todo : List Trade) × (handed ≡ done ++ todo)
    × (length missing ≡ n)
    × ((f : Entry → ℕ)
        → total f after + total f missing + total f left
          ≡ total f before + total f buffer + total f (records done))
Executed no_fuel handed buffer left before after = ⊥

Executed-send :
    (out : Sent) (buffer left before after : List Entry)
    → AllDelivered out buffer left before after
    → Executed out [] buffer left before after
Executed-send (sent n) buffer left before after (nothing, d) =
    λ f. rw (nothing) (omega (arith, d f))
Executed-send client_error buffer left before after d = tt
Executed-send (attempts_exhausted n) buffer left before after (missing, len, d) =
    (missing, [], [], refl, len, λ f. omega (arith, d f))
Executed-send no_fuel buffer left before after d = d

-- Calls that follow one which returned.
Executed-after :
    (out : Sent) (handed : List Trade) (buffer middle left before between after : List Entry)
    → ((f : Entry → ℕ) → total f between + total f middle ≡ total f before + total f buffer)
    → Executed out handed middle left between after
    → Executed out handed buffer left before after
Executed-after (sent n) handed buffer middle left before between after e d =
    λ f. omega (arith, e f, d f)
Executed-after client_error handed buffer middle left before between after e d = tt
Executed-after (attempts_exhausted n) handed buffer middle left before between after e
      (missing, done, todo, split, len, d) =
    (missing, done, todo, split, len, λ f. omega (arith, e f, d f))
Executed-after no_fuel handed buffer middle left before between after e d = d

Executed-produce :
    (out : Sent) (t : Trade) (handed : List Trade) (buffer left before after : List Entry)
    → Executed out handed (buffer ++ (record_of t ∷ [])) left before after
    → Executed out (t ∷ handed) buffer left before after
Executed-produce (sent n) t handed buffer left before after d =
    λ f. omega (arith, d f, total-append f buffer (record_of t ∷ []))
Executed-produce client_error t handed buffer left before after d = tt
Executed-produce (attempts_exhausted n) t handed buffer left before after
      (missing, done, todo, split, len, d) =
    (
      missing,
      t ∷ done,
      todo,
      ap (λ ts. t ∷ ts) split,
      len,
      λ f. omega (arith, d f, total-append f buffer (record_of t ∷ [])),
    )
Executed-produce no_fuel t handed buffer left before after d = d

Executed-after_call :
    {W : Type 0} (stored : W → List Entry) (next : Sink → W → Sent × Sink × W) (handed : List Trade)
    (buffer before : List Entry) (out : Sent) (s : Sink) (w : W)
    → (let (out', s', w') = next s w in
        Executed out' handed s.buffer s'.buffer (stored w) (stored w'))
    → Executed out [] buffer s.buffer before (stored w)
    → let (out', s', w') = after_call next (out, s, w) in
      Executed out' handed buffer s'.buffer before (stored w')
unfolding after_call
Executed-after_call stored next handed buffer before (sent n) s w d e =
    Executed-after _ handed buffer s.buffer _ before (stored w) _ (λ f. omega (arith, e f)) d
Executed-after_call stored next handed buffer before client_error s w d e = tt
Executed-after_call stored next handed buffer before (attempts_exhausted n) s w d
      (missing, [], todo, split, len, e) =
    (missing, [], handed, refl, len, e)
Executed-after_call stored next handed buffer before (attempts_exhausted n) s w d
      (missing, t ∷ done, todo, split, len, e) =
    absurd (let z = ap length split in omega arith)
Executed-after_call stored next handed buffer before no_fuel s w d e = e

abbrev ends_flushed : List Action → Bool
ends_flushed [] = false
ends_flushed (Action.flush ∷ []) = true
ends_flushed (Action.flush ∷ act ∷ acts) = ends_flushed (act ∷ acts)
ends_flushed (Action.poll ∷ acts) = ends_flushed acts
ends_flushed (Action.produce _ ∷ acts) = ends_flushed acts

ends_flushed-drain_round :
    (turn : Turn) (turns : List Turn) (items : List Trade)
    → ((queue : List Trade)
        → is_flushed (drain turns queue).0 ≡ true
        → ends_flushed (drain turns queue).0 ≡ true)
    → is_flushed (drain_round turn turns (drain turns) items).0 ≡ true
    → ends_flushed (drain_round turn turns (drain turns) items).0 ≡ true
unfolding drain_round
ends_flushed-drain_round turn turns [] ih h = elim (Bool-cases turn.stop) [
  | inl stop ↦ rw stop refl
  | inr go ↦ rw go (ih [] (rw go at h))
]
ends_flushed-drain_round turn turns (trade ∷ rest) ih h = ih rest h

-- A drain that has flushed made no call after it.
drain-ends_flushed :
    (turns : List Turn) (queue : List Trade)
    → is_flushed (drain turns queue).0 ≡ true
    → ends_flushed (drain turns queue).0 ≡ true
unfolding drain
drain-ends_flushed [] queue h = h
drain-ends_flushed (turn ∷ turns) queue h =
    ends_flushed-drain_round turn turns (queue ++ turn.arrivals) (drain-ends_flushed turns) h

-- What the drain's calls leave, in the two views: the stream is the bag that it was with the trades'
-- records, or, where the attempts of a send ran out, that of a first part of the trades but for the
-- records that the failed batch held and those that are still buffered.
abbrev pub IsRefined : Sent → List Trade → (left before after : List Entry) → Type 0
IsRefined (sent n) handed left before after =
    (left ≡ []) × (bag after ≡ add_all (records handed) (bag before))
IsRefined client_error handed left before after = Unit
IsRefined (attempts_exhausted n) handed left before after =
    (missing : List Entry) × (done : List Trade) × (todo : List Trade) × (handed ≡ done ++ todo)
    × (length missing ≡ n)
    × (bag (after ++ (missing ++ left)) ≡ add_all (records done) (bag before))
IsRefined no_fuel handed left before after = ⊥

refined :
    (out : Sent) (handed : List Trade) (s : Sink) (before after : List Entry)
    → Executed out handed [] s.buffer before after
    → Emptied out s
    → IsRefined out handed s.buffer before after
unfolding add_all
refined (sent n) handed s before after d e = (
  e,
  Quot.sound (λ f.
      let d' : total f after + total f [] ≡ total f before + 0 + total f (records handed) =
        (rw e at d f) in
      omega (arith, d', total-append f (records handed) before)),
)
refined client_error handed s before after d e = tt
refined (attempts_exhausted n) handed s before after (missing, done, todo, split, len, d) e = (
  missing,
  done,
  todo,
  split,
  len,
  Quot.sound (λ f. omega (
    arith,
    d f,
    total-append f after (missing ++ s.buffer),
    total-append f missing s.buffer,
    total-append f (records done) before,
  )),
)
refined no_fuel handed s before after d e = d

handed_all :
    (handed queue rest all : List Trade) (flushed : Bool)
    → flushed ≡ true
    → handed ++ (queue ++ rest) ≡ all
    → (flushed ≡ false) ⊎ (queue ≡ [])
    → handed ++ rest ≡ all
handed_all handed queue rest all flushed h e (inl k) = absurd (ground arith)
handed_all handed queue rest all flushed h e (inr k) = rw k at e

Emptied-after_call :
    {W : Type 0} (next : Sink → W → Sent × Sink × W) (out : Sent) (s : Sink) (w : W)
    → (let (out', s', w') = next s w in Emptied out' s')
    → let (out', s', w') = after_call next (out, s, w) in Emptied out' s'
unfolding after_call
Emptied-after_call next (sent n) s w h = h
Emptied-after_call next client_error s w h = tt
Emptied-after_call next (attempts_exhausted n) s w h = tt
Emptied-after_call next no_fuel s w h = tt

Emptied-last_call :
    {W : Type 0} (next : Sink → W → Sent × Sink × W) (out : Sent) (s : Sink) (w : W)
    (buffer before after : List Entry)
    → ((s' : Sink) (w' : W) → next s' w' ≡ (sent 0, s', w'))
    → AllDelivered out buffer s.buffer before after
    → let (out', s', w') = after_call next (out, s, w) in Emptied out' s'
unfolding after_call
Emptied-last_call next (sent n) s w buffer before after e d = rw (e s w) d.0
Emptied-last_call next client_error s w buffer before after e d = tt
Emptied-last_call next (attempts_exhausted n) s w buffer before after e d = tt
Emptied-last_call next no_fuel s w buffer before after e d = tt

module _ {W : Type 0} (put_records : W → List Entry → Reply × W) (pause : ℕ → W → W)
    (stored : W → List Entry) (law : IsStream put_records pause stored) (c : Config) where
  poll-Executed :
      (s : Sink) (w : W)
      → let (out, s', w') = poll put_records pause c s w in
        Executed out [] s.buffer s'.buffer (stored w) (stored w')
  unfolding poll
  poll-Executed s w =
      elim (Bool-cases (leb c.max_batch (length s.buffer) || leb c.max_bytes s.buffered_bytes)) [
        | inl full ↦ rw full (
            Executed-send _ s.buffer _ _ _
              (send_all-AllDelivered put_records pause stored law c s w))
        | inr below ↦ rw below (λ f. omega arith)
      ]

  execute-Executed :
      (acts : List Action) (s : Sink) (w : W)
      → let (out, s', w') = execute put_records pause c acts s w in
        Executed out (produced acts) s.buffer s'.buffer (stored w) (stored w')
  unfolding execute produce
  execute-Executed [] s w = λ f. omega arith
  execute-Executed (Action.produce t ∷ acts) s w =
      Executed-produce _ t (produced acts) s.buffer _ _ _ (execute-Executed acts (produce t s) w)
  execute-Executed (Action.poll ∷ acts) s w =
      let (out, s', w') = poll put_records pause c s w in
      Executed-after_call stored (execute put_records pause c acts) (produced acts) s.buffer
        (stored w) out s' w' (execute-Executed acts s' w') (poll-Executed s w)
  execute-Executed (Action.flush ∷ acts) s w =
      let (out, s', w') = flush put_records pause c s w in
      Executed-after_call stored (execute put_records pause c acts) (produced acts) s.buffer
        (stored w) out s' w' (execute-Executed acts s' w')
        (Executed-send _ s.buffer _ _ _ (flush-AllDelivered put_records pause stored law c s w).0)

  execute-Emptied :
      (acts : List Action) (s : Sink) (w : W)
      → ends_flushed acts ≡ true
      → let (out, s', w') = execute put_records pause c acts s w in Emptied out s'
  unfolding execute
  execute-Emptied [] s w h = absurd (ground arith)
  execute-Emptied (Action.produce t ∷ acts) s w h = execute-Emptied acts (produce t s) w h
  execute-Emptied (Action.poll ∷ acts) s w h =
      let (out, s', w') = poll put_records pause c s w in
      Emptied-after_call (execute put_records pause c acts) out s' w' (execute-Emptied acts s' w' h)
  execute-Emptied (Action.flush ∷ []) s w h =
      let (out, s', w') = flush put_records pause c s w in
      Emptied-last_call (execute put_records pause c []) out s' w' s.buffer _ _
        (λ s'' w''. unfold execute in refl)
        (flush-AllDelivered put_records pause stored law c s w).0
  execute-Emptied (Action.flush ∷ act ∷ acts) s w h =
      let (out, s', w') = flush put_records pause c s w in
      Emptied-after_call (execute put_records pause c (act ∷ acts)) out s' w'
        (execute-Emptied (act ∷ acts) s' w' h)

  -- Where a drain with a new sink comes to its flush, the trades that it handed over are those
  -- queued and put before its end, in order; if no call raised, the sink's buffer is empty and the
  -- stream is the bag that it was with one record of each of those trades; if a send ran out of
  -- attempts, it is so for a first part of them, but for the records of the failed batch, as many as
  -- the error names, and those still buffered.
  pub drain_into_sink-IsRefined :
      (turns : List Turn) (queue : List Trade) (w : W)
      → is_flushed (drain turns queue).0 ≡ true
      → let handed = produced (drain turns queue).0 in
        let (out, s', w') = drain_into_sink put_records pause c turns queue w in
        (handed ++ all_arrivals (drain turns queue).2 ≡ queue ++ all_arrivals turns)
        × IsRefined out handed s'.buffer (stored w) (stored w')
  unfolding drain_into_sink empty_sink
  drain_into_sink-IsRefined turns queue w h =
      let acts = (drain turns queue).0 in
      (
        handed_all (produced acts) _ _ _ _ h (drain-IsFifo turns queue).0
            (drain-IsFifo turns queue).1,
        refined _ (produced acts) _ (stored w) _ (execute-Executed acts empty_sink w)
            (execute-Emptied acts empty_sink w (drain-ends_flushed turns queue h)),
      )
