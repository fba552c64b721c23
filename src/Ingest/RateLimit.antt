-- ===== src/Ingest/RateLimit.antt =====
-- ingest/core/ratelimit.py: the token buckets. Times are microseconds and amounts are millionths of
-- a token, so that the rate, in tokens per second, times a time is an amount and no rounding occurs;
-- the source computes in floats. The clock is the argument `now`; a monotonic clock does not go
-- back.
pub mod Budget
use realtime_finance_bot.Base.{
  ℕ, zero, suc, ◌+◌, ◌-◌, ◌*◌, Bool, true, false, Option, none, some, List, [], ◌∷◌, leb, ltb, min,
  max, if◌then◌else◌, Str, str, Dict, get, str_Eq,
}

pub record TokenBucket : Type 0 where
  pub rate_per_sec : ℕ
  pub capacity : ℕ
  pub tokens : ℕ
  pub updated : ℕ

unfoldable pub new_bucket : ℕ → ℕ → ℕ → TokenBucket
new_bucket rate_per_sec capacity now = record {
  rate_per_sec = rate_per_sec;
  capacity = capacity;
  tokens = capacity;
  updated = now;
}

unfoldable pub refill : ℕ → TokenBucket → TokenBucket
refill now b = record b {
  tokens = min b.capacity (b.tokens + (now - b.updated) * b.rate_per_sec);
  updated = now;
}

unfoldable pub try_acquire : ℕ → ℕ → TokenBucket → Bool × TokenBucket
unfolding refill
try_acquire now wanted b =
    let b' = refill now b in
    if leb wanted b'.tokens then (true, record b' { tokens = b'.tokens - wanted }) else (false, b')

-- The rate and the capacity of each venue, in tokens.
unfoldable pub rates : Dict Str (ℕ × ℕ)
rates = (str "binance", (10, 20)) ∷ (str "coinbase", (8, 10)) ∷ (str "kraken", (1, 1)) ∷ []

-- `bucket_for` at its first call for a venue; `none` is its `KeyError`.
unfoldable pub bucket_for : Str → ℕ → Option TokenBucket
unfolding rates get
bucket_for venue now = elim (get venue rates) [
  | none ↦ none
  | some (rate, capacity) ↦ some (new_bucket rate (capacity * 1000000) now)
]

-- One turn of the loop of `acquire` that has failed at `now`: the deficit, and the bucket after its
-- second refill, at `again`.
unfoldable pub acquire_turn : ℕ → ℕ → ℕ → TokenBucket → ℕ × TokenBucket
unfolding try_acquire refill
acquire_turn now again wanted b =
    let b' = refill again (try_acquire now wanted b).1 in (wanted - b'.tokens, b')

-- The rate times the microseconds that this turn sleeps, which are at least a thousand.
unfoldable pub acquire_sleep : ℕ → ℕ → ℕ → TokenBucket → ℕ
unfolding acquire_turn
acquire_sleep now again wanted b = max (acquire_turn now again wanted b).0 (1000 * b.rate_per_sec)
