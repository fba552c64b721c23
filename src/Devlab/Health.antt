-- ===== src/Devlab/Health.antt =====
-- devlab/health.py: what the log holds, how far behind a group is, and which numbers are missing
-- from decoded records. The broker's answers are a parameter; times and rates are not modelled.
pub mod Accounting
use realtime_finance_bot.Base.{
  ℕ, zero, suc, ◌+◌, Bool, true, false, not, ◌||◌, ◌&&◌, Option, none, some, List, [], ◌∷◌, ◌++◌,
  length, if◌then◌else◌, ltb, Str, str, str_eq, str_Eq, starts_with, Dict, get, put, ℤ, pos, negsuc,
  ◌+ℤ◌, ◌-ℤ◌, ltb_ℤ, Result, ok, raise, ◌>>=◌,
}
use realtime_finance_bot.Python.Values.{Error, value_error}
use realtime_finance_bot.Ingest.Models.{Trade}
use realtime_finance_bot.Ingest.Gaps.{Gap, missing_count, Tracker, new_tracker, observe}
use realtime_finance_bot.Native.Enrichment.Macro.{str_lt}

-- `sorted(…)`: stable, by a strict order.
module _ {A : Type 0} (lt : A → A → Bool) where
  unfoldable pub insert_sorted : A → List A → List A
  insert_sorted x [] = x ∷ []
  insert_sorted x (y ∷ ys) =
      let rest = insert_sorted x ys in if lt x y then x ∷ y ∷ ys else y ∷ rest

  unfoldable pub sort_into : List A → List A → List A
  unfolding insert_sorted
  sort_into sorted [] = sorted
  sort_into sorted (x ∷ xs) = sort_into (insert_sorted x sorted) xs

pub record PartitionInfo : Type 0 where
  pub topic : Str
  pub partition : ℤ
  pub low : ℤ
  pub high : ℤ

unfoldable pub messages : PartitionInfo → ℤ
messages p = p.high -ℤ p.low

pub record TopicInfo : Type 0 where
  pub name : Str
  pub partitions : ℕ
  pub messages : ℤ

pub record LagInfo : Type 0 where
  pub topic : Str
  pub partition : ℤ
  pub committed : Option ℤ
  pub high : ℤ

unfoldable pub lag_of : LagInfo → Option ℤ
lag_of info = elim info.committed [ none ↦ none | some offset ↦ some (info.high -ℤ offset) ]

-- What the clients of the broker answer: the topics with their partitions, the low and the high
-- watermark of a partition, and a group's committed offsets.
pub record Broker : Type 0 where
  pub listed_topics : Result Error (Dict Str (List ℤ))
  pub watermark_offsets : Str → ℤ → Result Error (ℤ × ℤ)
  pub committed_offsets : Str → Str → List ℤ → Result Error (List (ℤ × ℤ))

abbrev pub sum_ℤ : List ℤ → ℤ
sum_ℤ [] = pos 0
sum_ℤ (n ∷ ns) = n +ℤ sum_ℤ ns

module _ (broker : Broker) where
  -- `_watermarks`, for partitions in order.
  unfoldable pub watermarks_of : Str → List ℤ → Result Error (List PartitionInfo)
  watermarks_of topic [] = ok []
  watermarks_of topic (id ∷ ids) = do
    offsets ← broker.watermark_offsets topic id
    rest ← watermarks_of topic ids
    ok (record { topic = topic; partition = id; low = offsets.0; high = offsets.1 } ∷ rest)

  unfoldable pub watermarks : Str → List ℤ → Result Error (List PartitionInfo)
  unfolding watermarks_of sort_into
  watermarks topic ids = watermarks_of topic (sort_into ltb_ℤ [] ids)

  unfoldable pub all_messages : List PartitionInfo → List ℤ
  unfolding messages
  all_messages [] = []
  all_messages (p ∷ ps) = messages p ∷ all_messages ps

  unfoldable pub is_listed : Str → Bool → Str → Bool
  is_listed prefix include_internal name =
      (include_internal || not (starts_with name (str "__"))) && starts_with name prefix

  -- The loop of `topics`, over the topics in the order of their names.
  unfoldable pub topic_infos : Str → Bool → List (Str × List ℤ) → Result Error (List TopicInfo)
  unfolding watermarks all_messages is_listed
  topic_infos prefix include_internal [] = ok []
  topic_infos prefix include_internal ((name, ids) ∷ topics) =
      let rest = topic_infos prefix include_internal topics in
      if is_listed prefix include_internal name
      then (do
        infos ← watermarks name ids
        more ← rest
        ok (
            record { name = name; partitions = length infos; messages = sum_ℤ (all_messages infos) }
            ∷ more))
      else rest

  abbrev by_name : Str × List ℤ → Str × List ℤ → Bool
  by_name a b = str_lt a.0 b.0

  unfoldable pub topics : Str → Bool → Result Error (List TopicInfo)
  unfolding topic_infos sort_into
  topics prefix include_internal = do
    listed ← broker.listed_topics
    topic_infos prefix include_internal (sort_into by_name [] listed)

  -- The partitions of a topic; a topic without one counts as not found.
  unfoldable pub partition_ids : Str → Result Error (List ℤ)
  partition_ids topic = broker.listed_topics >>= λ listed. elim (get topic listed) [
    | none ↦ raise value_error
    | some [] ↦ raise value_error
    | some (id ∷ ids) ↦ ok (id ∷ ids)
  ]

  unfoldable pub partitions : Str → Result Error (List PartitionInfo)
  unfolding partition_ids watermarks
  partitions topic = partition_ids topic >>= λ ids. watermarks topic ids

  -- `by_partition.get(…)`: the last of a partition counts; a negative offset is none.
  unfoldable pub offset_of : ℤ → List (ℤ × ℤ) → Option ℤ
  offset_of id [] = none
  offset_of id ((partition, offset) ∷ rest) =
      let later = offset_of id rest in
      elim later [
        | some n ↦ some n
        | none ↦ if ltb_ℤ partition id || ltb_ℤ id partition then none else some offset
      ]

  unfoldable pub committed_of : Option ℤ → Option ℤ
  committed_of none = none
  committed_of (some (pos n)) = some (pos n)
  committed_of (some (negsuc n)) = none

  unfoldable pub lags_of : List (ℤ × ℤ) → List PartitionInfo → List LagInfo
  unfolding offset_of committed_of
  lags_of committed [] = []
  lags_of committed (info ∷ infos) =
      record {
        topic = info.topic;
        partition = info.partition;
        committed = committed_of (offset_of info.partition committed);
        high = info.high;
      }
      ∷ lags_of committed infos

  unfoldable pub lag : Str → Str → Result Error (List LagInfo)
  unfolding partition_ids watermarks lags_of sort_into
  lag group topic = do
    ids ← partition_ids topic
    committed ← broker.committed_offsets group topic (sort_into ltb_ℤ [] ids)
    infos ← watermarks topic (sort_into ltb_ℤ [] ids)
    ok (lags_of committed infos)

pub record RateReport : Type 0 where
  pub messages : ℕ
  pub by_venue : Dict Str ℕ
  pub by_instrument : Dict Str ℕ

abbrev or_zero : Option ℕ → ℕ
or_zero none = 0
or_zero (some n) = n

-- `counter[key] += 1`, and `dict(counter.most_common())`.
unfoldable pub count_key : Str → Dict Str ℕ → Dict Str ℕ
count_key key counts = put key (or_zero (get key counts) + 1) counts

abbrev more_often : Str × ℕ → Str × ℕ → Bool
more_often a b = ltb b.1 a.1

unfoldable pub most_common : Dict Str ℕ → Dict Str ℕ
unfolding sort_into
most_common counts = sort_into more_often [] counts

unfoldable pub count_records : List Trade → Dict Str ℕ → Dict Str ℕ → Dict Str ℕ × Dict Str ℕ
unfolding count_key
count_records [] venues instruments = (venues, instruments)
count_records (t ∷ ts) venues instruments =
    count_records ts (count_key t.venue venues) (count_key t.instrument_id instruments)

-- `rate`, for the records that its tail yields; how long that took is not modelled.
unfoldable pub rate : List Trade → RateReport
unfolding count_records most_common
rate records =
    let (venues, instruments) = count_records records [] [] in
    record {
      messages = length records;
      by_venue = most_common venues;
      by_instrument = most_common instruments;
    }

pub record GapReport : Type 0 where
  pub checked : ℕ
  pub gaps : List Gap
  pub skipped_venues : List Str

unfoldable pub missing_all : List Gap → ℤ
unfolding missing_count
missing_all [] = pos 0
missing_all (g ∷ gaps) = missing_count g +ℤ missing_all gaps

-- `GapReport.missing`
unfoldable pub missing : GapReport → ℤ
unfolding missing_all
missing report = missing_all report.gaps

-- `venue in CONNECTION_SCOPED_SEQUENCE_VENUES`
unfoldable pub is_connection_scoped : Str → Bool
is_connection_scoped venue = str_eq venue (str "coinbase")

-- `skipped.add(venue)` on a set that is kept in order.
unfoldable pub add_venue : Str → List Str → List Str
add_venue venue [] = venue ∷ []
add_venue venue (v ∷ vs) =
    let rest = add_venue venue vs in
    if str_eq venue v then v ∷ vs else if str_lt venue v then venue ∷ v ∷ vs else v ∷ rest

pub record Replay : Type 0 where
  pub tracker : Tracker
  pub found : List Gap
  pub checked : ℕ
  pub skipped : List Str

abbrev pub add_found : Option Gap → List Gap → List Gap
add_found none found = found
add_found (some gap) found = found ++ (gap ∷ [])

unfoldable pub replay_number : Trade → Option ℤ → Replay → Replay
replay_number record' none r = r
replay_number record' (some sequence) r =
    let (gap, tracker) = observe record'.venue record'.venue_symbol (some sequence) r.tracker in
    record r { tracker = tracker; found = add_found gap r.found; checked = r.checked + 1 }

-- The body of the loop of `sequence_gaps`.
unfoldable pub replay : Trade → Replay → Replay
unfolding is_connection_scoped add_venue replay_number
replay t r =
    if is_connection_scoped t.venue
    then record r { skipped = add_venue t.venue r.skipped }
    else replay_number t t.sequence r

unfoldable pub replay_all : List Trade → Replay → Replay
unfolding replay
replay_all [] r = r
replay_all (t ∷ ts) r = replay_all ts (replay t r)

unfoldable pub sequence_gaps : List Trade → GapReport
unfolding replay_all
sequence_gaps records =
    let r =
      replay_all records
        (record { tracker = new_tracker; found = []; checked = 0; skipped = [] }) in
    record { checked = r.checked; gaps = r.found; skipped_venues = r.skipped }
