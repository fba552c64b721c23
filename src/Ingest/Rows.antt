-- ===== src/Ingest/Rows.antt =====
-- What both connectors do with the rows of a response: the handling of a malformed row.
use realtime_finance_bot.Base.{
  ◌≡◌, refl, Bool, true, false, Option, none, some, List, ◌∷◌, arith, All, Result, ok, raise, ◌>>=◌,
  if◌then◌else◌, Bool-cases, inl, inr, >>=-eq-ok, ok-injective,
}
use realtime_finance_bot.Ingest.Models.{Trade, Source, stream}
use realtime_finance_bot.Python.Values.{Error, key_error, value_error}

-- `source is Source.STREAM`
abbrev pub is_stream : Source → Bool
is_stream stream = true
is_stream _ = false

-- The exceptions of a malformed row; any other ends the whole call.
abbrev pub is_malformed : Error → Bool
is_malformed key_error = true
is_malformed value_error = true
is_malformed _ = false

-- What a row adds to the trades of the rows behind it.
unfoldable pub add_row :
    Result Error (Option Trade) → Result Error (List Trade) → Result Error (List Trade)
add_row (raise e) rest = if is_malformed e then rest else raise e
add_row (ok none) rest = rest
add_row (ok (some trade)) rest = do trades ← rest; ok (trade ∷ trades)

pub All-same {ℓ} :
    (P : Trade → Type ℓ) (xs ys : List Trade)
    → ◌≡◌ {A = Result Error (List Trade)} (ok xs) (ok ys)
    → All P xs
    → All P ys
All-same P xs ys e h = rw (ok-injective e) at h

pub add_row-All {ℓ} :
    (P : Trade → Type ℓ) (r : Result Error (Option Trade)) (rest : Result Error (List Trade))
    (ts : List Trade)
    → ((t : Trade) → r ≡ ok (some t) → P t)
    → ((ts' : List Trade) → rest ≡ ok ts' → All P ts')
    → add_row r rest ≡ ok ts
    → All P ts
unfolding add_row
add_row-All P (raise err) rest ts one more e = elim (Bool-cases (is_malformed err)) [
  | inl skip ↦ more ts (rw skip at e)
  | inr stop ↦ absurd (ground (arith, rw stop at e))
]
add_row-All P (ok none) rest ts one more e = more ts e
add_row-All P (ok (some t)) rest ts one more e =
    let (ts', h, same) = >>=-eq-ok rest _ e in All-same P (t ∷ ts') ts same (one t refl, more ts' h)
