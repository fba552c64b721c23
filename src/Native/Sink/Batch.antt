-- ===== src/Native/Sink/Batch.antt =====
-- `_take_batch` of awsnative/sink.py: the split of the buffer and the two caps of a request.
use realtime_finance_bot.Base.{
  ℕ, ◌+◌, ◌≤◌, ◌<◌, ◌≡◌, refl, ap, ◌⊎◌, inl, List, [], ◌∷◌, ◌++◌, length, length-append, arith,
}
use realtime_finance_bot.Native.Sink.{Entry, Config, size, take_from, take_batch}

module _ (c : Config) where
  take_from-append :
      (count bytes : ℕ) (es : List Entry)
      → let (batch, rest) = take_from c count bytes es in batch ++ rest ≡ es
  unfolding take_from
  take_from-append count bytes [] = refl
  take_from-append count bytes (e ∷ es) =
      ground (arith, take_from-append (count + 1) (bytes + length e.content) es)

  -- The batch and what is left are the buffer, in order.
  pub take_batch-append :
      (es : List Entry) → let (batch, rest) = take_batch c es in batch ++ rest ≡ es
  unfolding take_batch
  take_batch-append es = take_from-append 0 0 es

  -- The first record is always taken.
  pub length-take_batch_rest :
      (e : Entry) (es : List Entry) → length (take_batch c (e ∷ es)).1 ≤ length es
  unfolding take_batch take_from
  length-take_batch_rest e es = ground (
    arith,
    ap length (take_from-append 1 (length e.content) es),
    length-append (take_from c 1 (length e.content) es).0 (take_from c 1 (length e.content) es).1,
  )

  -- A record that is added to a batch with something in it keeps both caps.
  take_from_caps :
      (count bytes : ℕ) (es : List Entry)
      → 0 < count
      → count ≤ c.max_batch
      → let batch = (take_from c count bytes es).0 in
        (count + length batch ≤ c.max_batch) × ((batch ≡ []) ⊎ (bytes + size batch ≤ c.max_bytes))
  unfolding take_from size
  take_from_caps count bytes [] p h = (omega arith, inl refl)
  take_from_caps count bytes (e ∷ es) p h =
      ground (arith, take_from_caps (count + 1) (bytes + length e.content) es)

  -- Where a request may hold a record at all, a batch of a buffer that is not empty has from one to
  -- `max_batch` records, and at most `max_bytes` bytes unless it is one record alone.
  pub take_batch_caps :
      (e : Entry) (es : List Entry)
      → 0 < c.max_batch
      → let batch = (take_batch c (e ∷ es)).0 in
        (0 < length batch)
        × (length batch ≤ c.max_batch)
        × ((length batch ≡ 1) ⊎ (size batch ≤ c.max_bytes))
  unfolding take_batch take_from size
  take_batch_caps e es h = ground (arith, take_from_caps 1 (length e.content) es)
