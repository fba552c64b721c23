-- ===== src/Native/Pipeline/Bag.antt =====
-- The records of a stream without their order, which a retry does not keep: lists of records up to
-- every way to weigh a record.
use realtime_finance_bot.Base.{ℕ, ◌≡◌, List, ◌++◌}
use mathlib.Core.Path.{ap}
use mathlib.Core.Quot
use mathlib.Core.Quot.{Quot, Quot-set}
use realtime_finance_bot.Native.Sink.{Entry}
use realtime_finance_bot.Native.Sink.Delivery.{total, total-append}

abbrev pub SameWeights : List Entry → List Entry → Type 0
SameWeights xs ys = (f : Entry → ℕ) → total f xs ≡ total f ys

abbrev pub Bag : Type 0
Bag = Quot SameWeights

abbrev pub bag : List Entry → Bag
bag = Quot.mk

-- The abstract operation: more records are in the stream.
unfoldable pub add_all : List Entry → Bag → Bag
add_all new =
    Quot.lift Quot-set (λ held. bag (new ++ held))
      (λ xs ys h. Quot.sound (λ f. simp (total-append, h f)))

unfoldable pub weight : (Entry → ℕ) → Bag → ℕ
weight f = Quot.lift (hlevel) (total f) (λ xs ys h. h f)

-- Lists that are the same bag weigh the same under every `f`.
pub bag-exact : (xs ys : List Entry) → bag xs ≡ bag ys → SameWeights xs ys
unfolding weight
bag-exact xs ys e f = ap (weight f) e
