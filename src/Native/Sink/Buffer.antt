-- ===== src/Native/Sink/Buffer.antt =====
-- The buffer of awsnative/sink.py: its byte count, the thresholds of `poll`, and what the sends
-- count.
use realtime_finance_bot.Base.{
  ℕ, zero, suc, ◌+◌, ◌<◌, ◌≡◌, refl, ap, ◌∙◌, List, [], ◌∷◌, ◌++◌, ◌||◌, length, arith, leb,
  Bool-cases, inl, inr,
}
use realtime_finance_bot.Ingest.Models.{Trade, kafka_key}
use realtime_finance_bot.Native.Encode.{encode_trade}
use realtime_finance_bot.Native.Sink.{
  Entry, Config, Sink, Reply, Sent, sent, client_error, attempts_exhausted, no_fuel, size, produce,
  take_batch, after_batch, send_rounds, send_all, poll, flush,
}

-- `_buffered_bytes` is the size of the buffer.
abbrev pub IsCounted : Sink → Type 0
IsCounted s = s.buffered_bytes ≡ size s.buffer

size-append : (xs ys : List Entry) → size (xs ++ ys) ≡ size xs + size ys
unfolding size
size-append [] ys = omega arith
size-append (e ∷ es) ys = omega (arith, size-append es ys)

-- A produce adds one record at the end, whose content is the encoded trade under the trade's key,
-- and keeps the byte count right.
pub produce_lem :
    (t : Trade) (s : Sink)
    → IsCounted s
    → IsCounted (produce t s)
      × ((produce t s).buffer
          ≡ s.buffer ++ (record { content = encode_trade t; partition_key = kafka_key t } ∷ []))
unfolding produce size
produce_lem t s h = (
  omega (
    arith,
    size-append s.buffer (record { content = encode_trade t; partition_key = kafka_key t } ∷ []),
  ),
  refl,
)

-- Sends that return have emptied the buffer.
abbrev pub Emptied : Sent → Sink → Type 0
Emptied (sent n) s = s.buffer ≡ []
Emptied _ s = Unit

module _ {W : Type 0} (put_records : W → List Entry → Reply × W) (pause : ℕ → W → W)
    (c : Config) where
  abbrev Keeps : Sent × Sink × W → Type 0
  Keeps (out, s, w) = IsCounted s × Emptied out s

  Keeps-after_batch :
      (again : ℕ → Sink → W → Sent × Sink × W) (count : ℕ) (s : Sink) (out : Sent) (w : W)
      → IsCounted s
      → ((count' : ℕ) → Keeps (again count' s w))
      → Keeps (after_batch again count s (out, w))
  unfolding after_batch
  Keeps-after_batch again count s (sent n) w h ih = ih (count + n)
  Keeps-after_batch again count s client_error w h ih = (h, tt)
  Keeps-after_batch again count s (attempts_exhausted n) w h ih = (h, tt)
  Keeps-after_batch again count s no_fuel w h ih = (h, tt)

  Keeps-send_rounds :
      (fuel count bytes : ℕ) (buffer : List Entry) (w : W)
      → bytes ≡ size buffer
      → Keeps (
          send_rounds put_records pause c fuel count
            (record { buffer = buffer; buffered_bytes = bytes })
            w)
  unfolding send_rounds
  Keeps-send_rounds zero count bytes buffer w h = (h, tt)
  Keeps-send_rounds (suc fuel) count bytes [] w h = (h, refl)
  Keeps-send_rounds (suc fuel) count bytes (e ∷ es) w h =
      let (batch, rest) = take_batch c (e ∷ es) in
      Keeps-after_batch (send_rounds put_records pause c fuel) count
        (record { buffer = rest; buffered_bytes = size rest }) _ _ refl
        (λ count'. Keeps-send_rounds fuel count' (size rest) rest _ refl)

  Keeps-send_all : (s : Sink) (w : W) → IsCounted s → Keeps (send_all put_records pause c s w)
  unfolding send_all
  Keeps-send_all s w h = Keeps-send_rounds (suc (length s.buffer)) 0 s.buffered_bytes s.buffer w h

  -- The count stays right over a flush, whether it returns or raises.
  pub flush-IsCounted :
      (s : Sink) (w : W) → IsCounted s → IsCounted (flush put_records pause c s w).1
  unfolding flush
  flush-IsCounted s w h = (Keeps-send_all s w h).0

  -- A buffer below both thresholds.
  abbrev pub IsBelow : Sink → Type 0
  IsBelow s = (length s.buffer < c.max_batch) × (s.buffered_bytes < c.max_bytes)

  abbrev pub BelowUnlessRaised : Sent → Sink → Type 0
  BelowUnlessRaised (sent n) s = IsBelow s
  BelowUnlessRaised _ s = Unit

  Below-of_Emptied :
      (out : Sent) (s : Sink)
      → 0 < c.max_batch
      → 0 < c.max_bytes
      → IsCounted s
      → Emptied out s
      → BelowUnlessRaised out s
  Below-of_Emptied (sent n) s p q h e =
      let e' : size s.buffer ≡ 0 = (ap size e ∙ unfold size in refl) in omega (arith, ap length e)
  Below-of_Emptied client_error s p q h e = tt
  Below-of_Emptied (attempts_exhausted n) s p q h e = tt
  Below-of_Emptied no_fuel s p q h e = tt

  -- After a poll that returns, the buffer is below both thresholds; the byte count is right also
  -- after one that raises.
  pub poll-BelowUnlessRaised :
      (s : Sink) (w : W)
      → 0 < c.max_batch
      → 0 < c.max_bytes
      → IsCounted s
      → let (out, s', w') = poll put_records pause c s w in IsCounted s' × BelowUnlessRaised out s'
  unfolding poll
  poll-BelowUnlessRaised s w p q h =
      elim (Bool-cases (leb c.max_batch (length s.buffer) || leb c.max_bytes s.buffered_bytes)) [
        | inl full ↦
            rw full (let k = Keeps-send_all s w h in (k.0, Below-of_Emptied _ _ p q k.0 k.1))
        | inr below ↦ rw below (h, ground arith)
      ]
