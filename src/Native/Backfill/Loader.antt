-- ===== src/Native/Backfill/Loader.antt =====
-- awsnative/backfill/loader.py. A record holds what the loader takes from outside: `fetch`, `put`
-- and `delete_prefix`, which the code injects, and hashing, decoding, unzipping and compression. The
-- calls of `put` are recorded in order.
pub mod Load
use realtime_finance_bot.Base.{
  ℕ, ◌+◌, Bool, true, false, Option, none, some, List, [], ◌∷◌, ◌++◌, ◌==◌, if◌then◌else◌, length,
  Str, str, str_eq, Dict, get, put, str_Eq, Result, ok, raise, ◌>>=◌,
}
use realtime_finance_bot.Python.Number.{show_nat}
use realtime_finance_bot.Python.Values.{Error, key_error}
use realtime_finance_bot.Native.Backfill.Fault.{
  ChecksumFault, Fault, checksum_error, not_an_instant, unit_disagrees, not_an_integer, field_count,
  not_a_boolean, not_utf8, member_count, bad_zip_file, archive_not_found, other_error, require,
}
use realtime_finance_bot.Native.Backfill.Checksum.{verify}
use realtime_finance_bot.Native.Backfill.Manifest.{
  staging_prefix, WorkItem, item_url, item_checksum_url, item_filename, to_json, from_json, item_of,
  Outcome, outcome_done, outcome_skipped, outcome_failed, outcome_to_json,
}
use realtime_finance_bot.Native.Backfill.Parsers.{parse_agg_trades, parse_klines}
use realtime_finance_bot.Native.Backfill.Staging.{klines_csv, trades_csv}
use realtime_finance_bot.Native.Backfill.Tiers.{deep, hot}

abbrev pub Bytes : Type 0
Bytes = List ℕ

pub record Loader : Type 0 where
  pub fetch : Str → Result Fault Bytes
  -- the exception that a `put` raises
  pub put_object : Str → Bytes → Option Fault
  -- the number of objects removed
  pub delete_prefix : Str → ℕ
  -- `hashlib.sha256(data).hexdigest()`
  pub digest_of : Bytes → Str
  pub decode : Bytes → Option Str
  -- the members of an archive; `none` is `BadZipFile`
  pub unzip : Bytes → Option (List Bytes)
  pub splitlines : Str → List Str
  -- `gzip.compress(text.encode(), mtime=0)`
  pub gzip : Str → Bytes
  -- `str(fault)`
  pub message : Fault → Str

abbrev pub lift_checksum {ℓ} : {A : Type ℓ} → Result ChecksumFault A → Result Fault A
lift_checksum (ok a) = ok a
lift_checksum (raise e) = raise (checksum_error e)

-- What `_load` has made when it calls `put`.
pub record Staged : Type 0 where
  pub body : Bytes
  pub digest : Str
  pub row_count : ℕ

module _ (loader : Loader) where
  unfoldable pub sole_member : List Bytes → Result Fault Bytes
  sole_member (member ∷ []) = ok member
  sole_member members = raise (member_count (length members))

  unfoldable pub sole_member_lines : Bytes → Result Fault (List Str)
  unfolding sole_member
  sole_member_lines blob = do
    members ← require (loader.unzip blob) bad_zip_file
    member ← sole_member members
    text ← require (loader.decode member) not_utf8
    ok (loader.splitlines text)

  -- `_stage`
  unfoldable pub stage : WorkItem → List Str → Result Fault (Bytes × ℕ)
  stage item lines = elim item.tier [
    | deep ↦ parse_klines lines >>= λ bars.
        ok (loader.gzip (klines_csv item.instrument_id bars), length bars)
    | hot ↦ parse_agg_trades lines >>= λ trades.
        ok (loader.gzip (trades_csv item.instrument_id item.venue_symbol trades), length trades)
  ]

  -- `_load`, up to its `put`
  unfoldable pub prepare : WorkItem → Result Fault Staged
  prepare item = do
    checksum_bytes ← loader.fetch (item_checksum_url item)
    checksum_text ← require (loader.decode checksum_bytes) not_utf8
    blob ← loader.fetch (item_url item)
    digest ← lift_checksum (verify loader.digest_of blob checksum_text (item_filename item))
    lines ← sole_member_lines blob
    (body, row_count) ← stage item lines
    ok (record { body = body; digest = digest; row_count = row_count })

  unfoldable pub after_put : WorkItem → Staged → Option Fault → Result Fault Outcome
  after_put item staged none = ok (outcome_done item.archive_key staged.digest staged.row_count)
  after_put item staged (some fault) = raise fault

  unfoldable pub put_staged :
      WorkItem → Result Fault Staged → Result Fault Outcome × List (Str × Bytes)
  unfolding after_put
  put_staged item (raise fault) = (raise fault, [])
  put_staged item (ok staged) = (
    after_put item staged (loader.put_object item.staging_key staged.body),
    (item.staging_key, staged.body) ∷ [],
  )

  -- `_load`: the result, and the calls of `put`
  unfoldable pub load_unguarded : WorkItem → Result Fault Outcome × List (Str × Bytes)
  unfolding put_staged
  load_unguarded item = put_staged item (prepare item)

  -- The `except` clauses of `load`.
  unfoldable pub handled : WorkItem → Result Fault Outcome → Result Fault Outcome
  handled item (ok outcome) = ok outcome
  handled item (raise (archive_not_found text)) =
      ok (outcome_skipped item.archive_key (loader.message (archive_not_found text)))
  handled item (raise (other_error text)) = raise (other_error text)
  handled item (raise bad) = ok (outcome_failed item.archive_key (loader.message bad))

  unfoldable pub load : WorkItem → Result Fault Outcome × List (Str × Bytes)
  unfolding handled
  load item = let (result, puts) = load_unguarded item in (handled item result, puts)

  unfoldable pub clear_staging : ℕ
  clear_staging =
      loader.delete_prefix (staging_prefix deep ++ str "/")
      + loader.delete_prefix (staging_prefix hot ++ str "/")

-- `{**a, **b}`
unfoldable pub merge : Dict Str Str → Dict Str Str → Dict Str Str
merge a [] = a
merge a ((k, v) ∷ b) = merge (put k v a) b

-- What leaves `handler`: a bad event, or a fault that `load` does not record.
pub data HandlerError : Type 0 where
  bad_event : Error → HandlerError
  escaped : Fault → HandlerError

unfoldable pub reply_of : WorkItem → Result Fault Outcome → Result HandlerError (Dict Str Str)
unfolding merge
reply_of item (ok outcome) = ok (merge (to_json item) (outcome_to_json outcome))
reply_of item (raise fault) = raise (escaped fault)

unfoldable pub load_event :
    Loader → Result Error WorkItem → Result HandlerError (Dict Str Str) × List (Str × Bytes)
unfolding reply_of
load_event loader (raise e) = (raise (bad_event e), [])
load_event loader (ok item) = let (result, puts) = load loader item in (reply_of item result, puts)

-- `handler`, for the loader of each bucket.
unfoldable pub handler :
    (Str → Loader) → Dict Str Str → Result HandlerError (Dict Str Str) × List (Str × Bytes)
handler loader_of event = elim (get (str "bucket") event) [
  | none ↦ (raise (bad_event key_error), [])
  | some bucket ↦ elim (get (str "action") event) [
    | none ↦ load_event (loader_of bucket) (from_json event)
    | some action ↦
        if str_eq action (str "clear")
        then (ok ((str "removed", show_nat (clear_staging (loader_of bucket))) ∷ []), [])
        else load_event (loader_of bucket) (from_json event)
  ]
]
