-- ===== src/Native/Sink.antt =====
-- awsnative/sink.py: the Kinesis sink. The client of the stream is a parameter; the pauses
-- between attempts go to it with their ceiling.
pub mod Batch
pub mod Delivery
pub mod Buffer
use realtime_finance_bot.Base.{
  ℕ, zero, suc, ◌+◌, ◌*◌, ◌^◌, min, Bool, true, false, ◌&&◌, ◌||◌, not, Option, none, some, List,
  [], ◌∷◌, ◌++◌, map, length, sum, leb, ltb, ◌==◌, if◌then◌else◌, Str,
}
use realtime_finance_bot.Ingest.Models.{Trade, kafka_key}
use realtime_finance_bot.Native.Encode.{encode_trade}

-- One entry of a `put_records` request.
pub record Entry : Type 0 where
  pub content : Str
  pub partition_key : Str

-- The constructor's arguments that the methods read.
pub record Config : Type 0 where
  pub max_batch : ℕ
  pub max_bytes : ℕ
  pub max_attempts : ℕ

pub record Sink : Type 0 where
  pub buffer : List Entry
  pub buffered_bytes : ℕ

-- What a `put_records` call gives: an exception of the client, or `FailedRecordCount` and the
-- `ErrorCode` of each entry of `Records`.
pub data Reply : Type 0 where
  raised : Reply
  response : ℕ → List (Option Str) → Reply

-- The end of a send: how many records were counted, or why it raised.
pub data Sent : Type 0 where
  sent : ℕ → Sent
  client_error : Sent
  attempts_exhausted : ℕ → Sent
  -- the model's own: a loop stopped before its end
  no_fuel : Sent

unfoldable pub size : List Entry → ℕ
size [] = 0
size (e ∷ es) = length e.content + size es

unfoldable pub empty_sink : Sink
empty_sink = record { buffer = []; buffered_bytes = 0 }

unfoldable pub produce : Trade → Sink → Sink
produce trade s =
    let content = encode_trade trade in
    record {
      buffer = s.buffer ++ (record { content = content; partition_key = kafka_key trade } ∷ []);
      buffered_bytes = s.buffered_bytes + length content;
    }

-- `result.get("ErrorCode")` as a condition: an empty code counts as none.
abbrev pub has_error : Option Str → Bool
has_error none = false
has_error (some []) = false
has_error (some (_ ∷ _)) = true

-- The entries whose result carries an error code, matched by position; `zip` stops at the shorter.
unfoldable pub failed_only : List Entry → List (Option Str) → List Entry
failed_only [] _ = []
failed_only (e ∷ es) [] = []
failed_only (e ∷ es) (r ∷ rs) = if has_error r then e ∷ failed_only es rs else failed_only es rs

module _ (c : Config) where
  -- The loop of `_take_batch`, from `count` records of `size` bytes that are already in the batch.
  unfoldable pub take_from : ℕ → ℕ → List Entry → List Entry × List Entry
  take_from count size [] = ([], [])
  take_from count size (e ∷ es) =
      let record_size = length e.content in
      let more = take_from (count + 1) (size + record_size) es in
      if not (count == 0) && (leb c.max_batch count || ltb c.max_bytes (size + record_size))
      then ([], e ∷ es)
      else (e ∷ more.0, more.1)

  -- The batch and what is left of the buffer.
  unfoldable pub take_batch : List Entry → List Entry × List Entry
  unfolding take_from
  take_batch buffer = take_from 0 0 buffer

-- The ceiling of the pause before attempt `i`, in milliseconds: doubling from 50, at most 5000.
unfoldable pub backoff_ms : ℕ → ℕ
backoff_ms i = min 5000 (50 * 2 ^ i)

-- `_send_with_retry` with the records that failed: there may be none.
unfoldable pub retry {ℓ} :
    {W : Type ℓ} → (List Entry → W → Sent × W) → ℕ → List Entry → W → Sent × W
retry again total [] w = (sent total, w)
retry again total (e ∷ es) w = again (e ∷ es) w

-- `_send_with_retry` after a reply; `again` makes the attempts that are left.
unfoldable pub after_reply {ℓ} :
    {W : Type ℓ} → (List Entry → W → Sent × W) → ℕ → List Entry → Reply → W → Sent × W
unfolding retry failed_only
after_reply again total pending raised w = (client_error, w)
after_reply again total pending (response zero results) w = (sent (length pending), w)
after_reply again total pending (response (suc _) results) w =
    retry again total (failed_only pending results) w

-- `_send_all` after a batch; `again` sends what is left of the buffer.
unfoldable pub after_batch {ℓ} :
    {W : Type ℓ} → (ℕ → Sink → W → Sent × Sink × W) → ℕ → Sink → Sent × W → Sent × Sink × W
after_batch again total s (sent n, w) = again (total + n) s w
after_batch again total s (failure, w) = (failure, s, w)

abbrev flushed : Sent → Sink → Sent
flushed (sent _) s = sent (length s.buffer)
flushed failure s = failure

-- The client, and `sleep(random.uniform(0, ceiling))`.
module _ {W : Type 0} (put_records : W → List Entry → Reply × W) (pause : ℕ → W → W) where
  -- Attempt number `i` and those after it, `n` in all; `total` records came in.
  unfoldable pub attempts : ℕ → ℕ → ℕ → List Entry → W → Sent × W
  unfolding after_reply backoff_ms
  attempts zero i total pending w = (attempts_exhausted (length pending), w)
  attempts (suc n) i total pending w =
      let (reply, w') = put_records (if i == 0 then w else pause (backoff_ms i) w) pending in
      after_reply (attempts n (i + 1) total) total pending reply w'

  module _ (c : Config) where
    unfoldable pub send_with_retry : List Entry → W → Sent × W
    unfolding attempts
    send_with_retry records w = attempts c.max_attempts 0 (length records) records w

    -- The loop of `_send_all` on fuel; one round for each record, and one more, are enough.
    unfoldable pub send_rounds : ℕ → ℕ → Sink → W → Sent × Sink × W
    unfolding send_with_retry take_batch size after_batch
    send_rounds zero total s w = (no_fuel, s, w)
    send_rounds (suc fuel) total s w = elim s.buffer [
      | [] ↦ (sent total, s, w)
      | e ∷ es ↦
          let (batch, rest) = take_batch c (e ∷ es) in
          after_batch (send_rounds fuel) total
            (record { buffer = rest; buffered_bytes = size rest }) (send_with_retry batch w)
    ]

    unfoldable pub send_all : Sink → W → Sent × Sink × W
    unfolding send_rounds
    send_all s w = send_rounds (suc (length s.buffer)) 0 s w

    unfoldable pub poll : Sink → W → Sent × Sink × W
    unfolding send_all
    poll s w =
        if leb c.max_batch (length s.buffer) || leb c.max_bytes s.buffered_bytes
        then send_all s w
        else (sent 0, s, w)

    -- `flush` returns how many records are still in the buffer, where the sends did not raise.
    unfoldable pub flush : Sink → W → Sent × Sink × W
    unfolding send_all
    flush s w = let (outcome, s', w') = send_all s w in (flushed outcome s', s', w')
