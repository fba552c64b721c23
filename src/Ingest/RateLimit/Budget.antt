-- ===== src/Ingest/RateLimit/Budget.antt =====
-- What a token bucket grants.
use realtime_finance_bot.Base.{
  ℕ, ◌+◌, ◌-◌, ◌*◌, ◌≤◌, ◌<◌, ◌≡◌, refl, ap, Bool, true, false, List, [], ◌∷◌, arith, if◌then◌else◌,
}
use realtime_finance_bot.Ingest.RateLimit.{
  TokenBucket, new_bucket, refill, try_acquire, acquire_turn, acquire_sleep,
}

-- A request at a time for an amount.
pub record Request : Type 0 where
  pub at : ℕ
  pub wanted : ℕ

-- Requests one after another: the amount granted in all, and the bucket after them.
unfoldable pub serve : List Request → TokenBucket → ℕ × TokenBucket
serve [] b = (0, b)
serve (r ∷ rs) b =
    let (granted, b') = try_acquire r.at r.wanted b in
    let (amount, b'') = serve rs b' in (if granted then r.wanted + amount else amount, b'')

-- The times do not go back, from `t` on, and end at `last`.
abbrev pub IsChronological : ℕ → List Request → ℕ → Type 0
IsChronological t [] last = t ≤ last
IsChronological t (r ∷ rs) last = (t ≤ r.at) × IsChronological r.at rs last

-- One request: the constants stay, the clock moves to its time, a grant is paid from the tokens, and
-- the tokens grow by at most the rate times the time that has passed.
try_acquire_lem :
    (now wanted : ℕ) (b : TokenBucket)
    → let (granted, b') = try_acquire now wanted b in
      (b'.updated ≡ now)
      × (b'.rate_per_sec ≡ b.rate_per_sec)
      × (b'.capacity ≡ b.capacity)
      × ((if granted then wanted else 0) + b'.tokens
          ≤ b.tokens + (now - b.updated) * b.rate_per_sec)
      × (b'.tokens ≤ b.capacity)
unfolding try_acquire refill
try_acquire_lem now wanted b = ground arith

-- A refused request changes nothing but the refill, and is refused only for want of tokens.
pub try_acquire_refused :
    (now wanted : ℕ) (b : TokenBucket)
    → (try_acquire now wanted b).0 ≡ false
    → ((try_acquire now wanted b).1 ≡ refill now b) × ((refill now b).tokens < wanted)
unfolding try_acquire refill
try_acquire_refused now wanted b h = ground arith

split_time : (u t l rate : ℕ) → u ≤ t → t ≤ l → (t - u) * rate + (l - t) * rate ≡ (l - u) * rate
split_time u t l rate h k =
    let e : (t - u) + (l - t) ≡ l - u = omega arith in omega (arith, ap (λ (x : ℕ). x * rate) e)

IsChronological-le : (t : ℕ) (rs : List Request) (last : ℕ) → IsChronological t rs last → t ≤ last
IsChronological-le t [] last h = h
IsChronological-le t (r ∷ rs) last (h, hs) = omega (arith, IsChronological-le r.at rs last hs)

pay :
    (granted : Bool) (wanted amount : ℕ)
    → (if granted then wanted + amount else amount) ≡ (if granted then wanted else 0) + amount
pay true wanted amount = refl
pay false wanted amount = omega arith

-- However the requests come, what is granted by `last` is at most the tokens at the start and the
-- rate times the time passed.
serve-budget :
    (rs : List Request) (b : TokenBucket) (last : ℕ)
    → IsChronological b.updated rs last
    → (serve rs b).0 ≤ b.tokens + (last - b.updated) * b.rate_per_sec
unfolding serve
serve-budget [] b last h = omega arith
serve-budget (r ∷ rs) b last (h, hs) =
    let (at, rate, cap, paid, _) = try_acquire_lem r.at r.wanted b in
    let ih = serve-budget rs (try_acquire r.at r.wanted b).1 last (rw at hs) in
    let ih' : (serve rs (try_acquire r.at r.wanted b).1).0
        ≤ (try_acquire r.at r.wanted b).1.tokens + (last - r.at) * b.rate_per_sec =
      rw (at, rate) at ih in
    rw pay (
      omega (
        arith,
        paid,
        ih',
        split_time b.updated r.at last b.rate_per_sec h (IsChronological-le r.at rs last hs),
      ))

-- From a new bucket, whatever is requested and when, at most the capacity and the rate times the
-- time passed is granted.
pub serve_budget :
    (rate capacity start last : ℕ) (rs : List Request)
    → IsChronological start rs last
    → (serve rs (new_bucket rate capacity start)).0 ≤ capacity + (last - start) * rate
unfolding new_bucket
serve_budget rate capacity start last rs h = serve-budget rs (new_bucket rate capacity start) last h

-- Where a request fits the capacity, a time after a failed turn that makes up for its deficit is
-- enough: the next try succeeds. What `acquire` sleeps for is such a time.
pub acquire-after_sleep :
    (now again later wanted : ℕ) (b : TokenBucket)
    → wanted ≤ b.capacity
    → (acquire_turn now again wanted b).0 ≤ (later - again) * b.rate_per_sec
    → ((try_acquire later wanted (acquire_turn now again wanted b).1).0 ≡ true)
      × ((acquire_turn now again wanted b).0 ≤ acquire_sleep now again wanted b)
unfolding acquire_turn acquire_sleep try_acquire refill
acquire-after_sleep now again later wanted b h k = (ground arith, omega arith)

-- Where a request does not fit the capacity no try succeeds.
pub try_acquire_too_much :
    (now wanted : ℕ) (b : TokenBucket) → b.capacity < wanted → (try_acquire now wanted b).0 ≡ false
unfolding try_acquire refill
try_acquire_too_much now wanted b h = ground arith
