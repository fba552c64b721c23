-- ===== src/Native/Pipeline.antt =====
-- The runner of ingest/runner.py over the sink of awsnative/sink.py: the calls that `drain` makes,
-- carried out one after another. A call that raises ends the drain.
pub mod Bag
pub mod Refinement
use realtime_finance_bot.Base.{ℕ, List, [], ◌∷◌}
use realtime_finance_bot.Ingest.Runner.{Action, Turn, drain}
use realtime_finance_bot.Ingest.Models.{Trade}
use realtime_finance_bot.Native.Sink.{
  Entry, Config, Sink, Reply, Sent, sent, produce, poll, flush, empty_sink,
}

-- What follows a call of the sink: the calls that are left, unless it raised. Its count is not read.
unfoldable pub after_call {ℓ} :
    {W : Type ℓ} → (Sink → W → Sent × Sink × W) → Sent × Sink × W → Sent × Sink × W
after_call next (sent n, s, w) = next s w
after_call next (failure, s, w) = (failure, s, w)

module _ {W : Type 0} (put_records : W → List Entry → Reply × W) (pause : ℕ → W → W)
    (c : Config) where
  unfoldable pub execute : List Action → Sink → W → Sent × Sink × W
  unfolding produce poll flush after_call
  execute [] s w = (sent 0, s, w)
  execute (Action.produce trade ∷ acts) s w = execute acts (produce trade s) w
  execute (Action.poll ∷ acts) s w = after_call (execute acts) (poll put_records pause c s w)
  execute (Action.flush ∷ acts) s w = after_call (execute acts) (flush put_records pause c s w)

  -- A drain with a new sink, for a list of rounds and what is queued at its start.
  unfoldable pub drain_into_sink : List Turn → List Trade → W → Sent × Sink × W
  unfolding execute empty_sink drain
  drain_into_sink turns queue w = execute (drain turns queue).0 empty_sink w
