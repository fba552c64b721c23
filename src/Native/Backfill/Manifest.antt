-- ===== src/Native/Backfill/Manifest.antt =====
-- awsnative/backfill/manifest.py and the list of work of seed.py: work items, outcomes and the plan.
-- A `dict[str, str]` is a dictionary of texts; a missing key is a `KeyError`, a value that is not of
-- the enumeration a `ValueError`.
pub mod Trips
use realtime_finance_bot.Base.{
  ℕ, Bool, true, false, not, List, [], ◌∷◌, ◌++◌, Option, none, some, if◌then◌else◌, ◌==◌, Str, str,
  str_eq, lower, map, Dict, get, str_Eq, Result, ok, raise, ◌>>=◌,
}
use realtime_finance_bot.Python.Json.{Fields, end, field, Json, object, string, dumps}
use realtime_finance_bot.Python.Number.{show_nat}
use realtime_finance_bot.Python.Values.{Error, key_error, value_error}
use realtime_finance_bot.Native.Backfill.Calendar.{iso_date}
use realtime_finance_bot.Native.Backfill.Tiers.{
  Tier, deep, hot, Granularity, monthly, daily, tier_value, granularity_value, archive_venue,
  archive_base_url, ArchiveFile, file_key,
}

-- `STAGING_PREFIXES`
unfoldable pub staging_prefix : Tier → Str
staging_prefix deep = str "archive_staging_klines"
staging_prefix hot = str "archive_staging_trades"

pub data Status : Type 0 where
  pending running done failed skipped_no_data : Status

unfoldable pub status_value : Status → Str
status_value pending = str "PENDING"
status_value running = str "RUNNING"
status_value done = str "DONE"
status_value failed = str "FAILED"
status_value skipped_no_data = str "SKIPPED_NO_DATA"

pub record WorkItem : Type 0 where
  pub tier : Tier
  pub venue : Str
  pub instrument_id : Str
  pub venue_symbol : Str
  pub granularity : Granularity
  pub period : Str
  pub dt : Str
  pub archive_key : Str
  pub staging_key : Str

-- `text.rsplit("/", 1)[-1]`
unfoldable pub last_segment : Str → Str → Str
last_segment segment [] = segment
last_segment segment (c ∷ s) =
    let rest = last_segment (if c == b'/' then [] else segment ++ (c ∷ [])) s in rest

unfoldable pub item_url : WorkItem → Str
item_url item = archive_base_url ++ (b'/' ∷ item.archive_key)

unfoldable pub item_checksum_url : WorkItem → Str
unfolding item_url
item_checksum_url item = item_url item ++ str ".CHECKSUM"

unfoldable pub item_filename : WorkItem → Str
unfolding last_segment
item_filename item = last_segment [] item.archive_key

unfoldable pub to_json : WorkItem → Dict Str Str
unfolding tier_value granularity_value
to_json item =
    (str "tier", tier_value item.tier)
    ∷ (str "venue", item.venue)
    ∷ (str "instrument_id", item.instrument_id)
    ∷ (str "venue_symbol", item.venue_symbol)
    ∷ (str "granularity", granularity_value item.granularity)
    ∷ (str "period", item.period)
    ∷ (str "dt", item.dt)
    ∷ (str "archive_key", item.archive_key)
    ∷ (str "staging_key", item.staging_key)
    ∷ []

-- `payload[key]`, `Tier(text)` and `Granularity(text)`
unfoldable pub item_of : Str → Dict Str Str → Result Error Str
item_of key payload = elim (get key payload) [ none ↦ raise key_error | some v ↦ ok v ]

unfoldable pub tier_of : Str → Result Error Tier
tier_of text =
    if str_eq text (str "DEEP")
    then ok deep
    else if str_eq text (str "HOT")
    then ok hot
    else raise value_error

unfoldable pub granularity_of : Str → Result Error Granularity
granularity_of text =
    if str_eq text (str "monthly")
    then ok monthly
    else if str_eq text (str "daily")
    then ok daily
    else raise value_error

unfoldable pub from_json : Dict Str Str → Result Error WorkItem
from_json payload = do
  tier_text ← item_of (str "tier") payload
  tier ← tier_of tier_text
  venue ← item_of (str "venue") payload
  instrument_id ← item_of (str "instrument_id") payload
  venue_symbol ← item_of (str "venue_symbol") payload
  granularity_text ← item_of (str "granularity") payload
  granularity ← granularity_of granularity_text
  period ← item_of (str "period") payload
  dt ← item_of (str "dt") payload
  archive_key ← item_of (str "archive_key") payload
  staging_key ← item_of (str "staging_key") payload
  ok (record {
    tier = tier;
    venue = venue;
    instrument_id = instrument_id;
    venue_symbol = venue_symbol;
    granularity = granularity;
    period = period;
    dt = dt;
    archive_key = archive_key;
    staging_key = staging_key;
  })

pub record Outcome : Type 0 where
  pub archive_key : Str
  pub status : Status
  pub sha256_actual : Str
  pub row_count : ℕ
  pub error : Str

unfoldable pub outcome_done : Str → Str → ℕ → Outcome
outcome_done key sha256 row_count = record {
  archive_key = key;
  status = done;
  sha256_actual = sha256;
  row_count = row_count;
  error = [];
}

unfoldable pub outcome_skipped : Str → Str → Outcome
outcome_skipped key reason = record {
  archive_key = key;
  status = skipped_no_data;
  sha256_actual = [];
  row_count = 0;
  error = reason;
}

unfoldable pub outcome_failed : Str → Str → Outcome
outcome_failed key reason = record {
  archive_key = key;
  status = failed;
  sha256_actual = [];
  row_count = 0;
  error = reason;
}

unfoldable pub outcome_to_json : Outcome → Dict Str Str
outcome_to_json o =
    (str "archive_key", o.archive_key)
    ∷ (str "status", status_value o.status)
    ∷ (str "sha256_actual", o.sha256_actual)
    ∷ (str "row_count", show_nat o.row_count)
    ∷ (str "error", o.error)
    ∷ []

unfoldable pub staging_key_for : ArchiveFile → Str
staging_key_for f =
    staging_prefix f.tier ++ (b'/' ∷ (f.instrument_id ++ (b'-' ∷ (f.period ++ str ".csv.gz"))))

unfoldable pub work_item : ArchiveFile → WorkItem
work_item f = record {
  tier = f.tier;
  venue = archive_venue;
  instrument_id = f.instrument_id;
  venue_symbol = f.venue_symbol;
  granularity = f.granularity;
  period = f.period;
  dt = iso_date f.dt;
  archive_key = file_key f;
  staging_key = staging_key_for f;
}

-- `key in keys`
unfoldable pub contains : Str → List Str → Bool
contains key [] = false
contains key (k ∷ ks) = if str_eq k key then true else contains key ks

unfoldable pub plan : List ArchiveFile → List Str → List WorkItem
plan [] already_done = []
plan (f ∷ fs) already_done =
    let rest = plan fs already_done in
    if not (contains (file_key f) already_done) then work_item f ∷ rest else rest

-- seed.py: the object of the list of work, its lines, and the keys of the query's rows.
unfoldable pub items_key : Tier → Str
items_key tier = str "_backfill/items" ++ (b'/' ∷ (lower (tier_value tier) ++ str ".jsonl"))

unfoldable pub fields_of_dict : Dict Str Str → Fields
fields_of_dict [] = end
fields_of_dict ((k, v) ∷ d) = field k (string v) (fields_of_dict d)

unfoldable pub to_jsonl : List WorkItem → Str
to_jsonl [] = []
to_jsonl (item ∷ items) = dumps (object (fields_of_dict (to_json item))) ++ (10 ∷ to_jsonl items)

-- The rows that have a key that is not empty.
unfoldable pub done_keys : List (Dict Str Str) → List Str
done_keys [] = []
done_keys (row ∷ rows) =
    let rest = done_keys rows in
    elim (get (str "archive_key") row) [
      | none ↦ rest
      | some [] ↦ rest
      | some (c ∷ s) ↦ (c ∷ s) ∷ rest
    ]
