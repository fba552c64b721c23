-- ===== src/Ingest/Queue/Calls.antt =====
-- The put and the get of ingest/core/queue.py that do not wait, taken apart.
use realtime_finance_bot.Base.{
  ◌≡◌, sym, ap, ◌∙◌, Bool, true, false, none, some, List, [], ◌∷◌, ◌++◌, if◌then◌else◌,
}
use mathlib.Core.Option.{some-injective}
use realtime_finance_bot.Ingest.Queue.{block, TopicQueue, is_full, put, take_first, get}
use realtime_finance_bot.Ingest.Queue.Fifo.{put_block}

module _ {ℓ} {T : Type ℓ} where
  added : (full : Bool) (q q' r : TopicQueue T) → (if full then none else some r) ≡ some q' → r ≡ q'
  added true q q' r e = cc
  added false q q' r e = some-injective r q' e

  -- A put under BLOCK that does not wait adds the item at the end.
  pub put-eq-some :
      (item : T) (q q' : TopicQueue T)
      → q.policy ≡ block
      → put item q ≡ some q'
      → (q'.items ≡ q.items ++ (item ∷ [])) × (q'.policy ≡ block)
  put-eq-some item q q' h e =
      let made =
        added (is_full q.maxsize q.items) q q' (record q { items = q.items ++ (item ∷ []) })
          (sym (put_block q item h) ∙ e) in
      (
        ap (λ (r : TopicQueue T). r.items) (sym made),
        ap (λ (r : TopicQueue T). r.policy) (sym made) ∙ h,
      )

  taken :
      (items : List T) (q q' : TopicQueue T) (item : T)
      → take_first items q ≡ some (item, q')
      → (items ≡ item ∷ q'.items) × (q'.policy ≡ q.policy)
  unfolding take_first
  taken [] q q' item e = cc
  taken (x ∷ xs) q q' item e =
      let same : ◌≡◌ {A = T × TopicQueue T} (x, record q { items = xs }) (item, q') =
        some-injective _ _ e in
      let first : x ≡ item = ap (λ (p : T × TopicQueue T). p.0) same in
      let rest : xs ≡ q'.items = ap (λ (p : T × TopicQueue T). p.1.items) same in
      (cc, ap (λ (p : T × TopicQueue T). p.1.policy) (sym same))

  -- A get that does not wait takes the first item; one that waits finds none.
  pub get-eq-some :
      (item : T) (q q' : TopicQueue T)
      → get q ≡ some (item, q')
      → (q.items ≡ item ∷ q'.items) × (q'.policy ≡ q.policy)
  unfolding get
  get-eq-some item q q' e = taken q.items q q' item e
