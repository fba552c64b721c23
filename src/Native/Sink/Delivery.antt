-- ===== src/Native/Sink/Delivery.antt =====
-- What the sends of awsnative/sink.py deliver, over any client that behaves as `put_records` is
-- documented to. Lists of records are compared by every way to weigh a record, which counts how
-- often each occurs and forgets the order.
use realtime_finance_bot.Base.{
  ℕ, zero, suc, ◌+◌, ◌<◌, ◌≡◌, refl, ap, Option, List, [], ◌∷◌, ◌++◌, length, arith, ◌==◌,
  if◌then◌else◌, Bool-cases, Str, inl, inr,
}
use realtime_finance_bot.Native.Sink.{
  Entry, Config, Sink, Reply, raised, response, Sent, sent, client_error, attempts_exhausted,
  no_fuel, size, has_error, failed_only, take_batch, retry, after_reply, after_batch, backoff_ms,
  attempts, send_with_retry, send_rounds, send_all, flush, flushed,
}
use realtime_finance_bot.Native.Sink.Batch.{take_batch-append, length-take_batch_rest}

abbrev pub total : (Entry → ℕ) → List Entry → ℕ
total f [] = 0
total f (e ∷ es) = f e + total f es

pub total-append :
    (f : Entry → ℕ) (xs ys : List Entry) → total f (xs ++ ys) ≡ total f xs + total f ys
total-append f [] ys = omega arith
total-append f (x ∷ xs) ys = omega (arith, total-append f xs ys)

-- The entries of a request that the stream took, matched with the results by position.
abbrev pub accepted : List Entry → List (Option Str) → List Entry
accepted [] _ = []
accepted (e ∷ es) [] = []
accepted (e ∷ es) (r ∷ rs) = if has_error r then accepted es rs else e ∷ accepted es rs

abbrev pub errors : List (Option Str) → ℕ
errors [] = 0
errors (r ∷ rs) = if has_error r then suc (errors rs) else errors rs

-- The documented behaviour: a response has one result for each entry, counts the failures, and the
-- stream then holds the entries whose result has no error. A pause stores nothing.
pub record IsStream {W : Type 0} (put_records : W → List Entry → Reply × W) (pause : ℕ → W → W)
    (stored : W → List Entry) : Type 0 where
  pub on_pause : (ms : ℕ) (w : W) → stored (pause ms w) ≡ stored w
  pub on_response :
      (w : W) (es : List Entry) (n : ℕ) (rs : List (Option Str))
      → (put_records w es).0 ≡ response n rs
      → (stored (put_records w es).1 ≡ stored w ++ accepted es rs)
        × (errors rs ≡ n)
        × (length rs ≡ length es)

accepted_and_failed :
    (f : Entry → ℕ) (es : List Entry) (rs : List (Option Str))
    → length rs ≡ length es
    → total f (accepted es rs) + total f (failed_only es rs) ≡ total f es
unfolding failed_only
accepted_and_failed f [] rs h = refl
accepted_and_failed f (e ∷ es) [] h = absurd (omega arith)
accepted_and_failed f (e ∷ es) (r ∷ rs) h = elim (Bool-cases (has_error r)) [
  | inl bad ↦ rw bad (omega (arith, accepted_and_failed f es rs (omega arith)))
  | inr good ↦ rw good (omega (arith, accepted_and_failed f es rs (omega arith)))
]

accepted_all :
    (f : Entry → ℕ) (es : List Entry) (rs : List (Option Str))
    → length rs ≡ length es
    → errors rs ≡ 0
    → total f (accepted es rs) ≡ total f es
accepted_all f [] rs h z = refl
accepted_all f (e ∷ es) [] h z = absurd (omega arith)
accepted_all f (e ∷ es) (r ∷ rs) h z = elim (Bool-cases (has_error r)) [
  | inl bad ↦ absurd (let z' : suc (errors rs) ≡ 0 = (rw bad at z) in omega arith)
  | inr good ↦ rw good (omega (arith, accepted_all f es rs (omega arith) (rw good at z)))
]

-- What a send leaves in the stream: everything; or, where the attempts ran out, all but `n` records,
-- which are nowhere else. Nothing is said where the client raised.
abbrev pub Delivered : Sent → (pending before after : List Entry) → Type 0
Delivered (sent n) pending before after =
    (f : Entry → ℕ) → total f after ≡ total f before + total f pending
Delivered client_error pending before after = Unit
Delivered (attempts_exhausted n) pending before after =
    (missing : List Entry) × (length missing ≡ n)
    × ((f : Entry → ℕ) → total f after + total f missing ≡ total f before + total f pending)
Delivered no_fuel pending before after = ⊥

-- A send of `rest` that follows one of `done`.
Delivered-after :
    (out : Sent) (pending rest before middle after : List Entry)
    → ((f : Entry → ℕ) → total f middle + total f rest ≡ total f before + total f pending)
    → Delivered out rest middle after
    → Delivered out pending before after
Delivered-after (sent n) pending rest before middle after e d = λ f. omega (arith, e f, d f)
Delivered-after client_error pending rest before middle after e d = tt
Delivered-after (attempts_exhausted n) pending rest before middle after e (missing, len, d) =
    (missing, len, λ f. omega (arith, e f, d f))
Delivered-after no_fuel pending rest before middle after e d = d

Delivered-retry :
    {W : Type 0} (stored : W → List Entry) (again : List Entry → W → Sent × W)
    → ((es : List Entry) (w : W) → Delivered (again es w).0 es (stored w) (stored (again es w).1))
    → (count : ℕ) (rest : List Entry) (w : W)
    → let (out, w') = retry again count rest w in Delivered out rest (stored w) (stored w')
unfolding retry
Delivered-retry stored again ih count [] w = λ f. omega arith
Delivered-retry stored again ih count (e ∷ es) w = ih (e ∷ es) w

-- What all the sends of a buffer leave: as for one send, with the records still buffered besides.
abbrev pub AllDelivered : Sent → (buffer left before after : List Entry) → Type 0
AllDelivered (sent n) buffer left before after =
    (left ≡ []) × ((f : Entry → ℕ) → total f after ≡ total f before + total f buffer)
AllDelivered client_error buffer left before after = Unit
AllDelivered (attempts_exhausted n) buffer left before after =
    (missing : List Entry) × (length missing ≡ n)
    × ((f : Entry → ℕ)
        → total f after + total f missing + total f left ≡ total f before + total f buffer)
AllDelivered no_fuel buffer left before after = ⊥

-- A count of records that are still pending, where there is one, is zero.
abbrev pub NonePending : Sent → Type 0
NonePending (sent n) = n ≡ 0
NonePending _ = Unit

AllDelivered-flushed :
    (out : Sent) (s : Sink) (buffer before after : List Entry)
    → AllDelivered out buffer s.buffer before after
    → AllDelivered (flushed out s) buffer s.buffer before after × NonePending (flushed out s)
AllDelivered-flushed (sent n) s buffer before after d = (d, ap length d.0)
AllDelivered-flushed client_error s buffer before after d = (d, tt)
AllDelivered-flushed (attempts_exhausted n) s buffer before after d = (d, tt)
AllDelivered-flushed no_fuel s buffer before after d = (d, tt)

AllDelivered-after :
    (out : Sent) (batch rest left before middle after : List Entry)
    → ((f : Entry → ℕ) → total f middle ≡ total f before + total f batch)
    → AllDelivered out rest left middle after
    → AllDelivered out (batch ++ rest) left before after
AllDelivered-after (sent n) batch rest left before middle after e (nothing, d) =
    (nothing, λ f. omega (arith, e f, d f, total-append f batch rest))
AllDelivered-after client_error batch rest left before middle after e d = tt
AllDelivered-after (attempts_exhausted n) batch rest left before middle after e (missing, len, d) =
    (missing, len, λ f. omega (arith, e f, d f, total-append f batch rest))
AllDelivered-after no_fuel batch rest left before middle after e d = d

AllDelivered-after_batch :
    {W : Type 0} (stored : W → List Entry) (again : ℕ → Sink → W → Sent × Sink × W) (count : ℕ)
    (batch : List Entry) (s : Sink) (before : List Entry) (out : Sent) (w : W)
    → ((count' : ℕ)
        → let (out', s', w') = again count' s w in
          AllDelivered out' s.buffer s'.buffer (stored w) (stored w'))
    → Delivered out batch before (stored w)
    → let (out', s', w') = after_batch again count s (out, w) in
      AllDelivered out' (batch ++ s.buffer) s'.buffer before (stored w')
unfolding after_batch
AllDelivered-after_batch stored again count batch s before (sent n) w ih d =
    AllDelivered-after _ batch s.buffer _ before (stored w) _ d (ih (count + n))
AllDelivered-after_batch stored again count batch s before client_error w ih d = tt
AllDelivered-after_batch stored again count batch s before (attempts_exhausted n) w ih
      (missing, len, d) =
    (missing, len, λ f. omega (arith, d f, total-append f batch s.buffer))
AllDelivered-after_batch stored again count batch s before no_fuel w ih d = d

module _ {W : Type 0} (put_records : W → List Entry → Reply × W) (pause : ℕ → W → W)
    (stored : W → List Entry) (law : IsStream put_records pause stored) where
  Delivered-after_reply :
      (again : List Entry → W → Sent × W)
      → ((es : List Entry) (w : W) → Delivered (again es w).0 es (stored w) (stored (again es w).1))
      → (count : ℕ) (pending : List Entry) (w : W) (reply : Reply)
      → (put_records w pending).0 ≡ reply
      → let (out, w') = after_reply again count pending reply (put_records w pending).1 in
        Delivered out pending (stored w) (stored w')
  unfolding after_reply
  Delivered-after_reply again ih count pending w raised e = tt
  Delivered-after_reply again ih count pending w (response zero rs) e =
      let (kept, zeros, len) = law.on_response w pending zero rs e in
      λ f. rw (kept, total-append f (stored w)) (omega (arith, accepted_all f pending rs len zeros))
  Delivered-after_reply again ih count pending w (response (suc n) rs) e =
      let (kept, _, len) = law.on_response w pending (suc n) rs e in
      Delivered-after _ pending (failed_only pending rs) (stored w) _ _
        (λ f.
          rw (kept, total-append f (stored w))
            (omega (arith, accepted_and_failed f pending rs len)))
        (Delivered-retry stored again ih count (failed_only pending rs) (put_records w pending).1)

  Delivered-pause : (i ms : ℕ) (w : W) → stored (if i == 0 then w else pause ms w) ≡ stored w
  Delivered-pause i ms w = ground (arith, law.on_pause ms w)

  Delivered-attempts :
      (n i count : ℕ) (pending : List Entry) (w : W)
      → let (out, w') = attempts put_records pause n i count pending w in
        Delivered out pending (stored w) (stored w')
  unfolding attempts
  Delivered-attempts zero i count pending w = (pending, refl, λ f. refl)
  Delivered-attempts (suc n) i count pending w = rw (← Delivered-pause i (backoff_ms i) w) (
      Delivered-after_reply (attempts put_records pause n (i + 1) count)
        (λ es w'. Delivered-attempts n (i + 1) count es w') count pending
        (if i == 0 then w else pause (backoff_ms i) w) _ refl)

  Delivered-send_with_retry :
      (c : Config) (batch : List Entry) (w : W)
      → let (out, w') = send_with_retry put_records pause c batch w in
        Delivered out batch (stored w) (stored w')
  unfolding send_with_retry
  Delivered-send_with_retry c batch w = Delivered-attempts c.max_attempts 0 (length batch) batch w

  Delivered-send_rounds :
      (c : Config) (fuel count bytes : ℕ) (buffer : List Entry) (w : W)
      → length buffer < fuel
      → let (out, s', w') =
          send_rounds put_records pause c fuel count
            (record { buffer = buffer; buffered_bytes = bytes })
            w in
        AllDelivered out buffer s'.buffer (stored w) (stored w')
  unfolding send_rounds
  Delivered-send_rounds c zero count bytes buffer w h = elim h [ ]
  Delivered-send_rounds c (suc fuel) count bytes [] w h = (refl, λ f. omega arith)
  Delivered-send_rounds c (suc fuel) count bytes (e ∷ es) w h =
      let (batch, rest) = take_batch c (e ∷ es) in
      rw (← take_batch-append c (e ∷ es)) (
        AllDelivered-after_batch stored (send_rounds put_records pause c fuel) count batch
          (record { buffer = rest; buffered_bytes = size rest }) (stored w) _ _
          (λ count'.
            Delivered-send_rounds c fuel count' (size rest) rest _
              (omega (arith, length-take_batch_rest c e es)))
          (Delivered-send_with_retry c batch w))

  pub send_all-AllDelivered :
      (c : Config) (s : Sink) (w : W)
      → let (out, s', w') = send_all put_records pause c s w in
        AllDelivered out s.buffer s'.buffer (stored w) (stored w')
  unfolding send_all
  send_all-AllDelivered c s w =
      Delivered-send_rounds c (suc (length s.buffer)) 0 s.buffered_bytes s.buffer w (omega arith)

  -- A flush that returns has sent every buffered record once, has left none, and reports that none
  -- is pending. One that raises because the attempts of a batch ran out has sent every record once
  -- but the `n` that it names, which are then in neither the stream nor the buffer, and those that
  -- are still buffered. The loop always ends.
  pub flush-AllDelivered :
      (c : Config) (s : Sink) (w : W)
      → let (out, s', w') = flush put_records pause c s w in
        AllDelivered out s.buffer s'.buffer (stored w) (stored w') × NonePending out
  unfolding flush
  flush-AllDelivered c s w = AllDelivered-flushed _ _ s.buffer _ _ (send_all-AllDelivered c s w)
