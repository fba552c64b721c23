-- ===== src/Ingest/Ws.antt =====
-- ingest/core/ws.py: a connection that is made again. A delay is in millionths of a second, a draw
-- of the jitter in millionths; the bound is a whole number of seconds, for which the code's floats
-- are exact before the jitter. What the network does in one session is an input.
pub mod Hooks
use realtime_finance_bot.Base.{
  ℕ, zero, suc, ◌+◌, ◌*◌, min, Bool, true, false, not, ◌&&◌, List, [], ◌∷◌, ◌++◌, Option, none,
  some, if◌then◌else◌, Str,
}

-- `backoff_delays`: the value that is yielded for one draw, and the base of the next.
unfoldable pub yielded : ℕ → ℕ → ℕ → ℕ
yielded max_backoff_s delay jitter = min (delay * (1000000 + jitter)) (max_backoff_s * 1000000)

unfoldable pub next_delay : ℕ → ℕ → ℕ
next_delay max_backoff_s delay = min (delay * 2) max_backoff_s

-- The delays for a list of draws, from a base.
unfoldable pub delays_from : ℕ → ℕ → List ℕ → List ℕ
delays_from max_backoff_s delay [] = []
delays_from max_backoff_s delay (j ∷ js) =
    yielded max_backoff_s delay j ∷ delays_from max_backoff_s (next_delay max_backoff_s delay) js

unfoldable pub backoff_delays : ℕ → List ℕ → List ℕ
backoff_delays max_backoff_s jitters = delays_from max_backoff_s 1 jitters

-- How the wait of a session ends: the pump ran to its end or raised, `stop` was set, or the lifetime
-- is over.
pub data Ending : Type 0 where
  pump_ended pump_failed stopped lifetime_over : Ending

-- What the network, the hook and `stop` do in one round of `run`.
pub record Round : Type 0 where
  pub dial_ok : Bool
  -- how many payloads are sent before one fails; `none` when none fails
  pub sends_fail_at : Option ℕ
  pub hook_ok : Bool
  pub ending : Ending
  -- the draw for the delay after a failure
  pub jitter : ℕ
  -- `stop.is_set()` when the session is over, and after the sleep
  pub stop_after : Bool
  pub stop_after_sleep : Bool

pub record Connection : Type 0 where
  pub last_sent : List Str
  pub has_connected : Bool

unfoldable pub new_connection : Connection
new_connection = record { last_sent = []; has_connected = false }

-- What is seen from outside.
pub data Event : Type 0 where
  subscribed reconnect_hook : Event
  slept : ℕ → Event

-- The loop that sends the payloads: those that `last_sent` has, and whether all were sent.
unfoldable pub send_payloads : List Str → Option ℕ → List Str × Bool
send_payloads [] fail_at = ([], true)
send_payloads (p ∷ ps) (some zero) = (p ∷ [], false)
send_payloads (p ∷ ps) (some (suc n)) =
    let (sent, good) = send_payloads ps (some n) in (p ∷ sent, good)
send_payloads (p ∷ ps) none = let (sent, good) = send_payloads ps none in (p ∷ sent, good)

module _ (payloads : List Str) (max_backoff_s : ℕ) where
  -- Whether the wait ended without an exception.
  unfoldable pub is_clean : Ending → Bool
  is_clean pump_failed = false
  is_clean _ = true

  -- `_session` once the payloads are sent, for a runner that sets the hook.
  unfoldable pub established : Connection → Round → Connection × List Event × Bool
  unfolding is_clean
  established c r =
      if c.has_connected
      then (if r.hook_ok
          then (
            record c { has_connected = true },
            subscribed ∷ reconnect_hook ∷ [],
            is_clean r.ending,
          )
          else (c, subscribed ∷ reconnect_hook ∷ [], false))
      else (record c { has_connected = true }, subscribed ∷ [], is_clean r.ending)

  -- `_session`: the connection afterwards, the events, and whether it ended without an exception.
  unfoldable pub session : Connection → Round → Connection × List Event × Bool
  unfolding established send_payloads
  session c r =
      let (sent, all_sent) = send_payloads payloads r.sends_fail_at in
      if not r.dial_ok
      then (c, [], false)
      else if not all_sent
      then (record c { last_sent = sent }, [], false)
      else established (record c { last_sent = sent }) r

  -- `run` for a list of rounds, from a base of the delays: the connection and the events.
  unfoldable pub run : Connection → ℕ → List Round → Connection × List Event
  run c delay [] = (c, [])
  run c delay (r ∷ rs) =
      let (c', events, clean) = session c r in
      let (c_clean, after_clean) = run c' 1 rs in
      let (c_failed, after_failed) = run c' (next_delay max_backoff_s delay) rs in
      let sleep = slept (yielded max_backoff_s delay r.jitter) in
      if clean
      then (if r.stop_after then (c', events) else (c_clean, events ++ after_clean))
      else if r.stop_after
      then (c', events)
      else if r.stop_after_sleep
      then (c', events ++ (sleep ∷ []))
      else (c_failed, events ++ (sleep ∷ after_failed))
