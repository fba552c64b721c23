-- ===== src/Ingest/Queue.antt =====
-- ingest/core/queue.py: the bounded queue of a topic and its policy when it is full. The queue of
-- asyncio is a list, oldest first; a `maxsize` of 0 is no bound. Where a put or a get would wait,
-- the call gives `none` and nothing has changed.
pub mod Calls
pub mod Fifo
use realtime_finance_bot.Base.{
  ℕ, zero, suc, ◌+◌, Bool, true, false, ◌&&◌, Option, none, some, List, [], ◌∷◌, ◌++◌, length, leb,
  ltb, if◌then◌else◌, Str, str, Dict,
}

pub data DropPolicy : Type 0 where
  block drop_oldest : DropPolicy

unfoldable pub topic_policies : Dict Str DropPolicy
topic_policies =
    (str "md.trades.v1", block)
    ∷ (str "md.bars.v1", block)
    ∷ (str "md.book.top.v1", drop_oldest)
    ∷ (str "md.book.depth.v1", drop_oldest)
    ∷ (str "news.articles.v1", block)
    ∷ (str "ops.metrics.v1", drop_oldest)
    ∷ []

pub record TopicQueue {ℓ} (T : Type ℓ) : Type ℓ where
  pub items : List T
  pub maxsize : ℕ
  pub policy : DropPolicy
  pub dropped : ℕ

module _ {ℓ} {T : Type ℓ} where
  unfoldable pub new_queue : ℕ → DropPolicy → TopicQueue T
  new_queue maxsize policy = record { items = []; maxsize = maxsize; policy = policy; dropped = 0 }

  abbrev pub is_full : ℕ → List T → Bool
  is_full maxsize items = ltb 0 maxsize && leb maxsize (length items)

  unfoldable pub qsize : TopicQueue T → ℕ
  qsize q = length q.items

  -- The loop of `put` that drops the oldest item while the queue is full: what is left, with
  -- `item` at the end, and how many have been dropped.
  unfoldable pub put_dropping : ℕ → List T → T → ℕ → List T × ℕ
  put_dropping maxsize [] item dropped = (item ∷ [], dropped)
  put_dropping maxsize (x ∷ xs) item dropped =
      let shorter = put_dropping maxsize xs item (dropped + 1) in
      if is_full maxsize (x ∷ xs) then shorter else (x ∷ (xs ++ (item ∷ [])), dropped)

  put_with : DropPolicy → T → TopicQueue T → Option (TopicQueue T)
  unfolding put_dropping
  put_with block item q =
      if is_full q.maxsize q.items then none else some (record q { items = q.items ++ (item ∷ []) })
  put_with drop_oldest item q =
      let (items, dropped) = put_dropping q.maxsize q.items item q.dropped in
      some (record q { items = items; dropped = dropped })

  unfoldable pub put : T → TopicQueue T → Option (TopicQueue T)
  unfolding put_with
  put item q = put_with q.policy item q

  take_first : List T → TopicQueue T → Option (T × TopicQueue T)
  take_first [] q = none
  take_first (x ∷ xs) q = some (x, record q { items = xs })

  unfoldable pub get : TopicQueue T → Option (T × TopicQueue T)
  unfolding take_first
  get q = take_first q.items q
