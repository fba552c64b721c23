-- ===== src/Ingest/Ws/Hooks.antt =====
-- The closed form of the delays, and when the hook of a reconnection is called.
use Prim.Native.Nat.pow as power
use realtime_finance_bot.Base.{
  ℕ, zero, suc, ◌+◌, ◌-◌, ◌*◌, ◌^◌, ◌≤◌, ◌≡◌, refl, min, false, List, [], ◌∷◌, ◌++◌, get_elem?,
  some, if◌then◌else◌, arith, Str,
}
use realtime_finance_bot.Ingest.Ws.{
  yielded, next_delay, delays_from, backoff_delays, Round, Connection, Event, subscribed,
  reconnect_hook, slept, established, session, run, new_connection,
}

next_delay-base : (max_s n : ℕ) → next_delay max_s (min (2 ^ n) max_s) ≡ min (2 ^ suc n) max_s
unfolding next_delay
next_delay-base max_s n = omega (arith, power.suc 2 n)

k_zero : (k : ℕ) → k + 0 ≡ k
k_zero k = omega arith

k_suc : (k n : ℕ) → k + suc n ≡ suc k + n
k_suc k n = omega arith

delays_from-get :
    (max_s k : ℕ) (js : List ℕ) (n j : ℕ)
    → get_elem? js n ≡ some j
    → get_elem? (delays_from max_s (min (2 ^ k) max_s) js) n
      ≡ some (min (min (2 ^ (k + n)) max_s * (1000000 + j)) (max_s * 1000000))
unfolding delays_from yielded
delays_from-get max_s k [] n j e = ground arith
delays_from-get max_s k (i ∷ js) zero j e =
    let same : i ≡ j = ground (arith, e) in rw (same, k_zero k) refl
delays_from-get max_s k (i ∷ js) (suc n) j e =
    rw (next_delay-base max_s k, k_suc k n) (delays_from-get max_s (suc k) js n j e)

zero_add : (n : ℕ) → 0 + n ≡ n
zero_add n = omega arith

one_base : (max_s : ℕ) → 1 ≤ max_s → min (2 ^ 0) max_s ≡ 1
one_base max_s h = omega arith

-- The delay of index `n`, counted from 0, is `2 ^ n` seconds, multiplied by one plus the draw, where
-- neither the power nor the product goes above the bound, which is a second or more.
backoff_delays-get :
    (max_s : ℕ) (js : List ℕ) (n j : ℕ)
    → 1 ≤ max_s
    → get_elem? js n ≡ some j
    → get_elem? (backoff_delays max_s js) n
      ≡ some (min (min (2 ^ n) max_s * (1000000 + j)) (max_s * 1000000))
unfolding backoff_delays
backoff_delays-get max_s js n j h e =
    let all = delays_from-get max_s 0 js n j e in rw (one_base max_s h, zero_add n) at all

abbrev pub subscriptions : List Event → ℕ
subscriptions [] = 0
subscriptions (subscribed ∷ es) = suc (subscriptions es)
subscriptions (_ ∷ es) = subscriptions es

abbrev pub hooks : List Event → ℕ
hooks [] = 0
hooks (reconnect_hook ∷ es) = suc (hooks es)
hooks (_ ∷ es) = hooks es

subscriptions-append :
    (es fs : List Event) → subscriptions (es ++ fs) ≡ subscriptions es + subscriptions fs
subscriptions-append [] fs = omega arith
subscriptions-append (subscribed ∷ es) fs = omega (arith, subscriptions-append es fs)
subscriptions-append (reconnect_hook ∷ es) fs = subscriptions-append es fs
subscriptions-append (slept n ∷ es) fs = subscriptions-append es fs

hooks-append : (es fs : List Event) → hooks (es ++ fs) ≡ hooks es + hooks fs
hooks-append [] fs = omega arith
hooks-append (reconnect_hook ∷ es) fs = omega (arith, hooks-append es fs)
hooks-append (subscribed ∷ es) fs = hooks-append es fs
hooks-append (slept n ∷ es) fs = hooks-append es fs

-- Whether the first subscription of a run is still to come.
abbrev first_to_come : Connection → ℕ
first_to_come c = if c.has_connected then 0 else 1

session-hooks :
    (payloads : List Str) (max_s : ℕ) (c : Connection) (r : Round)
    → let (c', es, clean) = session payloads max_s c r in
      (hooks es + first_to_come c ≡ subscriptions es + first_to_come c')
unfolding session established
session-hooks payloads max_s c r = ground arith

run-hooks :
    (payloads : List Str) (max_s : ℕ) (c : Connection) (delay : ℕ) (rs : List Round)
    → let (c', es) = run payloads max_s c delay rs in
      (hooks es + first_to_come c ≡ subscriptions es + first_to_come c')
unfolding run
run-hooks payloads max_s c delay [] = refl
run-hooks payloads max_s c delay (r ∷ rs) =
    let (c', es, clean) = session payloads max_s c r in
    let quick = run payloads max_s c' 1 rs in
    let slow = run payloads max_s c' (next_delay max_s delay) rs in
    let sleep = slept (yielded max_s delay r.jitter) in
    ground (
      arith,
      session-hooks payloads max_s c r,
      run-hooks payloads max_s c' 1 rs,
      run-hooks payloads max_s c' (next_delay max_s delay) rs,
      hooks-append es quick.1,
      subscriptions-append es quick.1,
      hooks-append es (sleep ∷ []),
      subscriptions-append es (sleep ∷ []),
      hooks-append es (sleep ∷ slow.1),
      subscriptions-append es (sleep ∷ slow.1),
    )

session-unconnected :
    (payloads : List Str) (max_s : ℕ) (c : Connection) (r : Round)
    → let (c', es, clean) = session payloads max_s c r in
      (c'.has_connected ≡ false → (c.has_connected ≡ false) × (subscriptions es ≡ 0))
unfolding session established
session-unconnected payloads max_s c r = ground arith

-- A run after which nothing has connected has no subscription.
run-unconnected :
    (payloads : List Str) (max_s : ℕ) (c : Connection) (delay : ℕ) (rs : List Round)
    → let (c', es) = run payloads max_s c delay rs in
      (c'.has_connected ≡ false → (c.has_connected ≡ false) × (subscriptions es ≡ 0))
unfolding run
run-unconnected payloads max_s c delay [] = λ h. (h, refl)
run-unconnected payloads max_s c delay (r ∷ rs) =
    let (c', es, clean) = session payloads max_s c r in
    let quick = run payloads max_s c' 1 rs in
    let slow = run payloads max_s c' (next_delay max_s delay) rs in
    let sleep = slept (yielded max_s delay r.jitter) in
    ground (
      arith,
      session-unconnected payloads max_s c r,
      run-unconnected payloads max_s c' 1 rs,
      run-unconnected payloads max_s c' (next_delay max_s delay) rs,
      subscriptions-append es quick.1,
      subscriptions-append es (sleep ∷ []),
      subscriptions-append es (sleep ∷ slow.1),
    )

-- Over a whole run the hook of a reconnection is called once for each session that has sent its
-- subscriptions, except the first: a dial or a subscription that fails is not counted, however many
-- there are before the first session that succeeds.
pub run-hooks_but_first :
    (payloads : List Str) (max_s : ℕ) (rs : List Round)
    → hooks (run payloads max_s new_connection 1 rs).1
      ≡ subscriptions (run payloads max_s new_connection 1 rs).1 - 1
unfolding new_connection
run-hooks_but_first payloads max_s rs = ground (
  arith,
  run-hooks payloads max_s new_connection 1 rs,
  run-unconnected payloads max_s new_connection 1 rs,
)
