-- ===== src/Ingest/Queue/Fifo.antt =====
-- What `BoundedTopicQueue` keeps, drops and hands out.
use realtime_finance_bot.Base.{
  ℕ, suc, ◌+◌, ◌≤◌, ◌<◌, ◌≡◌, refl, sym, ap, ◌∙◌, ◌⊎◌, inl, inr, Bool, true, false, Option, none,
  some, List, [], ◌∷◌, ◌++◌, length, length-append, append_assoc, append-nil, arith, if◌then◌else◌,
  Bool-cases,
}
use realtime_finance_bot.Ingest.Queue.{
  block, drop_oldest, TopicQueue, is_full, put_dropping, put_with, put, take_first, get,
}

-- One call of a task: a put that may have to wait, or a get that may.
pub data Call {ℓ} (T : Type ℓ) : Type ℓ where
  put_call : T → Call T
  get_call : Call T

pub record Trace {ℓ} (T : Type ℓ) : Type ℓ where
  pub accepted : List T
  pub handed_out : List T
  pub queue : TopicQueue T

module _ {ℓ} {T : Type ℓ} where
  -- The queue holds at most `maxsize` items, where that is a bound.
  abbrev pub IsBounded : TopicQueue T → Type 0
  IsBounded q = (q.maxsize ≡ 0) ⊎ (length q.items ≤ q.maxsize)

  -- Of a full queue, what is kept after the first item has gone is one below the bound, where it is
  -- all the rest or already was.
  last_gone :
      (maxsize : ℕ) (x : T) (xs gone kept : List T)
      → is_full maxsize (x ∷ xs) ≡ true
      → xs ≡ gone ++ kept
      → (maxsize ≡ 0) ⊎ (length kept < maxsize)
      → (gone ≡ []) ⊎ (suc (length kept) ≡ maxsize)
      → suc (length kept) ≡ maxsize
  last_gone maxsize x xs gone kept full split room (inr exact) = exact
  last_gone maxsize x xs gone kept full split room (inl none_gone) =
      let same : xs ≡ kept = (rw none_gone at split) in
      let count : length xs ≡ length kept = ap length same in ground (arith, full, room, count)

  put_dropping_split :
      (maxsize : ℕ) (items : List T) (item : T) (dropped : ℕ)
      → (gone : List T) × (kept : List T) × (items ≡ gone ++ kept)
        × ((put_dropping maxsize items item dropped).0 ≡ kept ++ (item ∷ []))
        × ((put_dropping maxsize items item dropped).1 ≡ dropped + length gone)
        × ((maxsize ≡ 0) ⊎ (length kept < maxsize))
        × ((gone ≡ []) ⊎ (suc (length kept) ≡ maxsize))
  unfolding put_dropping
  put_dropping_split maxsize [] item dropped =
      ([], [], refl, refl, omega arith, omega arith, inl refl)
  put_dropping_split maxsize (x ∷ xs) item dropped = elim (Bool-cases (is_full maxsize (x ∷ xs))) [
    | inl full ↦
        let (gone, kept, split, out, count, room, needed) =
          put_dropping_split maxsize xs item (dropped + 1) in
        rw full (
          x ∷ gone,
          kept,
          ap (λ l. x ∷ l) split,
          out,
          omega arith,
          room,
          inr (last_gone maxsize x xs gone kept full split room needed),
        )
    | inr room ↦ rw room ([], x ∷ xs, refl, refl, omega arith, ground arith, inl refl)
  ]

  -- A put under DROP_OLDEST never waits. It drops the oldest items, counts them, and keeps the others
  -- in order with the new one at the end; the queue is then within its bound. It drops no more than it
  -- has to: where anything is dropped, the queue was full, and is then exactly full again.
  pub put_drop_oldest :
      (q : TopicQueue T) (item : T)
      → q.policy ≡ drop_oldest
      → (q' : TopicQueue T) × (gone : List T) × (kept : List T) × (put item q ≡ some q')
        × (q.items ≡ gone ++ kept)
        × (q'.items ≡ kept ++ (item ∷ []))
        × (q'.dropped ≡ q.dropped + length gone)
        × IsBounded q'
        × ((gone ≡ []) ⊎ ((is_full q.maxsize q.items ≡ true) × (length q'.items ≡ q.maxsize)))
  unfolding put put_with
  put_drop_oldest q item e =
      let (gone, kept, split, out, count, room, needed) =
        put_dropping_split q.maxsize q.items item q.dropped in
      (
        record q {
          items = (put_dropping q.maxsize q.items item q.dropped).0;
          dropped = (put_dropping q.maxsize q.items item q.dropped).1;
        },
        gone,
        kept,
        rw e refl,
        split,
        out,
        count,
        bounded (put_dropping q.maxsize q.items item q.dropped).0 kept out room,
        full_before (put_dropping q.maxsize q.items item q.dropped).0 gone kept split out needed,
      )
    where
      full_before :
          (items gone kept : List T)
          → q.items ≡ gone ++ kept
          → items ≡ kept ++ (item ∷ [])
          → (gone ≡ []) ⊎ (suc (length kept) ≡ q.maxsize)
          → (gone ≡ []) ⊎ ((is_full q.maxsize q.items ≡ true) × (length items ≡ q.maxsize))
      full_before items [] kept split e needed = inl refl
      full_before items (x ∷ gone) kept split e (inl none_gone) = inl none_gone
      full_before items (x ∷ gone) kept split e (inr exact) =
          let before : length q.items ≡ suc (length (gone ++ kept)) = ap length split in
          let after : length items ≡ length (kept ++ (item ∷ [])) = ap length e in
          inr (
            ground (arith, before, length-append gone kept, exact),
            omega (arith, after, length-append kept (item ∷ []), exact),
          )

      bounded :
          (items kept : List T)
          → items ≡ kept ++ (item ∷ [])
          → (q.maxsize ≡ 0) ⊎ (length kept < q.maxsize)
          → (q.maxsize ≡ 0) ⊎ (length items ≤ q.maxsize)
      bounded items kept e room = rw e (omega (arith, length-append kept (item ∷ []), room))

  -- A put under BLOCK waits exactly while the queue is full. Else it adds the item at the end and
  -- drops nothing.
  pub put_block :
      (q : TopicQueue T) (item : T)
      → q.policy ≡ block
      → put item q ≡ (
          if is_full q.maxsize q.items
          then none
          else some (record q { items = q.items ++ (item ∷ []) }))
  unfolding put put_with
  put_block q item e = rw e

  put_step : T → Option (TopicQueue T) → TopicQueue T → (TopicQueue T → Trace T) → Trace T
  put_step item none q more = more q
  put_step item (some q') q more = let r = more q' in record r { accepted = item ∷ r.accepted }

  get_step : Option (T × TopicQueue T) → TopicQueue T → (TopicQueue T → Trace T) → Trace T
  get_step none q more = more q
  get_step (some (x, q')) q more = let r = more q' in record r { handed_out = x ∷ r.handed_out }

  -- Calls one after another: a call that would wait is left out.
  unfoldable pub run : List (Call T) → TopicQueue T → Trace T
  unfolding put_step get_step
  run [] q = record { accepted = []; handed_out = []; queue = q }
  run (put_call item ∷ calls) q = put_step item (put item q) q (run calls)
  run (get_call ∷ calls) q = get_step (get q) q (run calls)

  put_step_fifo :
      (item : T) (q : TopicQueue T) (full : Bool) (more : TopicQueue T → Trace T)
      → ((q' : TopicQueue T)
          → q'.policy ≡ block
          → q'.items ++ (more q').accepted ≡ (more q').handed_out ++ (more q').queue.items)
      → q.policy ≡ block
      → let r =
          put_step item
            (if full then none else some (record q { items = q.items ++ (item ∷ []) }))
            q
            more in
        q.items ++ r.accepted ≡ r.handed_out ++ r.queue.items
  unfolding put_step
  put_step_fifo item q true more ih e = ih q e
  put_step_fifo item q false more ih e =
      let q' = record q { items = q.items ++ (item ∷ []) } in
      sym (append_assoc q.items (item ∷ []) (more q').accepted) ∙ ih q' e

  get_step_fifo :
      (q : TopicQueue T) (items : List T) (more : TopicQueue T → Trace T)
      → ((q' : TopicQueue T)
          → q'.policy ≡ block
          → q'.items ++ (more q').accepted ≡ (more q').handed_out ++ (more q').queue.items)
      → q.policy ≡ block
      → q.items ≡ items
      → let r = get_step (take_first items q) q more in
        q.items ++ r.accepted ≡ r.handed_out ++ r.queue.items
  unfolding get_step take_first
  get_step_fifo q [] more ih e same = ih q e
  get_step_fifo q (x ∷ xs) more ih e same =
      let q' = record q { items = xs } in rw same (ap (λ l. x ∷ l) (ih q' e))

  -- Under BLOCK nothing is lost, added or reordered: what was in the queue and what was accepted is,
  -- in this order, what has been handed out and what is still in the queue.
  pub run_block_fifo :
      (calls : List (Call T)) (q : TopicQueue T)
      → q.policy ≡ block
      → q.items ++ (run calls q).accepted ≡ (run calls q).handed_out ++ (run calls q).queue.items
  unfolding run get
  run_block_fifo [] q e = append-nil q.items
  run_block_fifo (put_call item ∷ calls) q e =
      rw (put_block q item e)
        (put_step_fifo item q (is_full q.maxsize q.items) (run calls) (run_block_fifo calls) e)
  run_block_fifo (get_call ∷ calls) q e =
      get_step_fifo q q.items (run calls) (run_block_fifo calls) e refl
