-- ===== src/Devlab/Stream.antt =====
-- devlab/stream.py: the bounded read of a topic, as the list of what it yields. The clock, the
-- polls and the decoding are a list of rounds.
pub mod Bounds
use realtime_finance_bot.Base.{
  ℕ, zero, suc, ◌+◌, ◌-◌, min, Bool, true, false, Option, none, some, List, [], ◌∷◌, length,
  if◌then◌else◌, leb, Result, ok, raise,
}
use realtime_finance_bot.Python.Values.{Error, value_error, external_error}
use realtime_finance_bot.Ingest.Models.{Trade}

-- A poll: no message, a message with an error, one that cannot be decoded, or a record.
pub data Polled : Type 0 where
  no_message message_error undecodable : Polled
  decoded : Trade → Polled

-- One round of the loop: the clock at its start, in microseconds, and what its poll gives.
pub record Round : Type 0 where
  pub now : ℕ
  pub polled : Polled

pub data Ending : Type 0 where
  returned : Ending
  raised : Error → Ending
  -- the model's own: the rounds that are given do not end the loop
  running : Ending

-- The records that are yielded, for each poll the clock and how long it may wait, and the end.
pub record Tailed : Type 0 where
  pub yielded : List Trade
  pub waits : List (ℕ × ℕ)
  pub ending : Ending

abbrev pub ends : Ending → Tailed
ends ending = record { yielded = []; waits = []; ending = ending }

abbrev pub after_wait : ℕ → ℕ → Tailed → Tailed
after_wait now wait t = record t { waits = (now, wait) ∷ t.waits }

abbrev pub after_yield : Trade → Tailed → Tailed
after_yield r t = record t { yielded = r ∷ t.yielded }

-- `limit is not None and seen >= limit`
unfoldable pub is_full : Option ℕ → ℕ → Bool
is_full none seen = false
is_full (some limit) seen = leb limit seen

-- How long a poll may wait at `now`, or none once the deadline has come.
unfoldable pub wait_at : ℕ → Option ℕ → ℕ → Option ℕ
wait_at poll_timeout none now = some poll_timeout
wait_at poll_timeout (some deadline) now =
    if leb deadline now then none else some (min poll_timeout (deadline - now))

module _ (poll_timeout : ℕ) (limit deadline : Option ℕ) where
  unfoldable pub after_poll : (ℕ → Tailed) → ℕ → Polled → Tailed
  after_poll again seen no_message = again seen
  after_poll again seen message_error = ends (raised external_error)
  after_poll again seen undecodable = ends (raised value_error)
  after_poll again seen (decoded r) = after_yield r (again (suc seen))

  unfoldable pub tail_rounds : List Round → ℕ → Tailed
  unfolding is_full wait_at after_poll
  tail_rounds [] seen = ends running
  tail_rounds (round ∷ rounds) seen =
      let again = tail_rounds rounds in
      if is_full limit seen then ends returned else elim (wait_at poll_timeout deadline round.now) [
        | none ↦ ends returned
        | some wait ↦ after_wait round.now wait (after_poll again seen round.polled)
      ]

-- `tail`, whose topic exists; `started` is the clock at its start.
unfoldable pub deadline_of : ℕ → Option ℕ → Option ℕ
deadline_of started none = none
deadline_of started (some seconds) = some (started + seconds)

unfoldable pub tail : ℕ → Option ℕ → Option ℕ → ℕ → List Round → Tailed
unfolding deadline_of tail_rounds
tail poll_timeout none none started rounds = ends (raised value_error)
tail poll_timeout (some zero) seconds started rounds = ends (raised value_error)
tail poll_timeout limit seconds started rounds =
    tail_rounds poll_timeout limit (deadline_of started seconds) rounds 0
