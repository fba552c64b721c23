-- ===== src/Native/Backfill/Seed.antt =====
-- awsnative/backfill/seed.py: the query that makes a run resumable, the archive's instruments, and the
-- run itself, over the calls of AWS. The arguments are parsed, and what it prints is not modelled.
use realtime_finance_bot.Base.{
  ℕ, Bool, true, false, not, if◌then◌else◌, Dict, List, [], ◌∷◌, ◌++◌, Option, none, some, Str, str,
  Result, ok, raise, ◌>>=◌,
}
use realtime_finance_bot.Python.Values.{Error, key_error}
use realtime_finance_bot.Ingest.Instruments.{InstrumentMap, canonical, symbols_for}
use realtime_finance_bot.Native.Backfill.Tiers.{
  Tier, tier_value, archive_venue, ArchiveFile, files_for_window,
}
use realtime_finance_bot.Native.Backfill.Calendar.{Date, leb_date}
use realtime_finance_bot.Native.Backfill.Manifest.{WorkItem, plan, items_key, to_jsonl, done_keys}

unfoldable pub done_keys_sql : Str → Tier → Str
done_keys_sql database tier =
    str "SELECT archive_key FROM "
    ++ (database
        ++ (str ".backfill_manifest WHERE tier = '"
            ++ (tier_value tier ++ str "' AND status = 'DONE'")))

abbrev found : Option Str → Result Error Str
found none = raise key_error
found (some id) = ok id

unfoldable pub pairs_of : InstrumentMap → List Str → Result Error (List (Str × Str))
pairs_of universe [] = ok []
pairs_of universe (symbol ∷ symbols) = found (canonical archive_venue symbol universe) >>= λ id.
    pairs_of universe symbols >>= λ pairs. ok ((id, symbol) ∷ pairs)

-- (instrument_id, venue_symbol) for each of the archive's instruments in the universe.
unfoldable pub instrument_pairs : InstrumentMap → Result Error (List (Str × Str))
instrument_pairs universe = pairs_of universe (symbols_for archive_venue universe)

-- The arguments of `main` that it acts on.
pub record Request : Type 0 where
  pub tier : Tier
  pub first : Date
  pub last : Date
  pub database : Str
  pub fresh : Bool
  pub dry_run : Bool

-- The query of Athena with its limit of rows, and `put_object` of a key and a body. An exception
-- leaves the outside as it was.
module _ {W : Type 0} (query : Str → ℕ → W → Result Error (List (Dict Str Str)) × W)
    (store : Str → Str → W → Result Error W) where
  unfoldable pub keys_of : Result Error (List (Dict Str Str)) × W → Result Error (List Str) × W
  unfolding done_keys
  keys_of (raise e, w) = (raise e, w)
  keys_of (ok rows, w) = (ok (done_keys rows), w)

  -- The keys that are done; none where everything is to be fetched again.
  unfoldable pub already_done : Request → W → Result Error (List Str) × W
  unfolding keys_of done_keys_sql
  already_done r w = elim r.fresh [
    | true ↦ (ok [], w)
    | false ↦ keys_of (query (done_keys_sql r.database r.tier) 1000 w)
  ]

  unfoldable pub store_items : Tier → List WorkItem → W → Result Error ℕ × W
  unfolding items_key to_jsonl
  store_items tier [] w = (ok 0, w)
  store_items tier (item ∷ items) w = elim (store (items_key tier) (to_jsonl (item ∷ items)) w) [
    | ok w' ↦ (ok 0, w')
    | raise e ↦ (raise e, w)
  ]

  unfoldable pub store_plan :
      Tier → List ArchiveFile → Result Error (List Str) × W → Result Error ℕ × W
  unfolding store_items plan
  store_plan tier files (raise e, w) = (raise e, w)
  store_plan tier files (ok done, w) = store_items tier (plan files done) w

  -- `main`: the exit code.
  unfoldable pub seed : Request → InstrumentMap → Date → W → Result Error ℕ × W
  unfolding instrument_pairs files_for_window already_done store_plan leb_date
  seed r universe today w =
      if not (leb_date r.first r.last) then (ok 2, w) else elim (instrument_pairs universe) [
        | raise e ↦ (raise e, w)
        | ok pairs ↦
            let files = files_for_window pairs r.tier r.first r.last today in
            if r.dry_run then (ok 0, w) else store_plan r.tier files (already_done r w)
      ]
