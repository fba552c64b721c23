-- ===== src/Tests/Seed.antt =====
-- A run of awsnative/backfill/seed.py, over a client that records the keys that are put.
use realtime_finance_bot.Base.{◌≡◌, refl, Bool, false, List, [], ◌∷◌, Str, str, ok}
use realtime_finance_bot.Ingest.Instruments.{InstrumentMap}
use realtime_finance_bot.Native.Backfill.Tiers.{deep}
use realtime_finance_bot.Native.Backfill.Calendar.{Date}
use realtime_finance_bot.Native.Backfill.Seed.{Request, seed}

abbrev universe : InstrumentMap
universe = record {
  to_canonical = ((str "binance", str "BTCUSDT"), str "BTC-USD") ∷ [];
  by_venue = (str "binance", str "BTCUSDT" ∷ []) ∷ [];
}

abbrev day : Date
day = record { year = 2026; month = 7; day = 2 }

abbrev request : Bool → Request
request fresh = record {
  tier = deep;
  first = day;
  last = day;
  database = str "md";
  fresh = fresh;
  dry_run = false;
}

-- One day is planned and put; a run that finds it done puts nothing.
put_run :
    seed {W = List Str}
      (λ sql limit w. (ok [], w))
      (λ key body w. ok (key ∷ w))
      (request false)
      universe
      (record { year = 2026; month = 7; day = 20 })
      []
    ≡ (ok 0, str "_backfill/items/deep.jsonl" ∷ [])
unfolding realtime_finance_bot.Base.get realtime_finance_bot.Base.lower
    realtime_finance_bot.Base.pair_Eq realtime_finance_bot.Base.str_eq
    realtime_finance_bot.Ingest.Instruments.canonical
    realtime_finance_bot.Ingest.Instruments.symbols_for
    realtime_finance_bot.Native.Backfill.Calendar.add_days
    realtime_finance_bot.Native.Backfill.Calendar.days_in_month
    realtime_finance_bot.Native.Backfill.Calendar.eq_date
    realtime_finance_bot.Native.Backfill.Calendar.first_of_month
    realtime_finance_bot.Native.Backfill.Calendar.iso_date
    realtime_finance_bot.Native.Backfill.Calendar.last_of_month
    realtime_finance_bot.Native.Backfill.Calendar.leb_date
    realtime_finance_bot.Native.Backfill.Calendar.max_date
    realtime_finance_bot.Native.Backfill.Calendar.min_date
    realtime_finance_bot.Native.Backfill.Calendar.next_day
    realtime_finance_bot.Native.Backfill.Calendar.year_month
    realtime_finance_bot.Native.Backfill.Manifest.contains
    realtime_finance_bot.Native.Backfill.Manifest.done_keys
    realtime_finance_bot.Native.Backfill.Manifest.fields_of_dict
    realtime_finance_bot.Native.Backfill.Manifest.items_key
    realtime_finance_bot.Native.Backfill.Manifest.plan
    realtime_finance_bot.Native.Backfill.Manifest.staging_key_for
    realtime_finance_bot.Native.Backfill.Manifest.staging_prefix
    realtime_finance_bot.Native.Backfill.Manifest.to_json
    realtime_finance_bot.Native.Backfill.Manifest.to_jsonl
    realtime_finance_bot.Native.Backfill.Manifest.work_item
    realtime_finance_bot.Native.Backfill.Seed.already_done
    realtime_finance_bot.Native.Backfill.Seed.done_keys_sql
    realtime_finance_bot.Native.Backfill.Seed.instrument_pairs
    realtime_finance_bot.Native.Backfill.Seed.keys_of
    realtime_finance_bot.Native.Backfill.Seed.pairs_of
    realtime_finance_bot.Native.Backfill.Seed.store_items
    realtime_finance_bot.Native.Backfill.Seed.store_plan
    realtime_finance_bot.Native.Backfill.Tiers.daily_files
    realtime_finance_bot.Native.Backfill.Tiers.dataset
    realtime_finance_bot.Native.Backfill.Tiers.days_between
    realtime_finance_bot.Native.Backfill.Tiers.days_rounds
    realtime_finance_bot.Native.Backfill.Tiers.file_key
    realtime_finance_bot.Native.Backfill.Tiers.filename
    realtime_finance_bot.Native.Backfill.Tiers.files_for_window
    realtime_finance_bot.Native.Backfill.Tiers.folder
    realtime_finance_bot.Native.Backfill.Tiers.granularity_value
    realtime_finance_bot.Native.Backfill.Tiers.insert_file
    realtime_finance_bot.Native.Backfill.Tiers.interval_segment
    realtime_finance_bot.Native.Backfill.Tiers.leb_file
    realtime_finance_bot.Native.Backfill.Tiers.leb_str
    realtime_finance_bot.Native.Backfill.Tiers.month_files
    realtime_finance_bot.Native.Backfill.Tiers.months_rounds
    realtime_finance_bot.Native.Backfill.Tiers.name_infix
    realtime_finance_bot.Native.Backfill.Tiers.pair_files
    realtime_finance_bot.Native.Backfill.Tiers.pairs_files
    realtime_finance_bot.Native.Backfill.Tiers.sort_files
    realtime_finance_bot.Native.Backfill.Tiers.tier_value realtime_finance_bot.Python.Json.dumps
    realtime_finance_bot.Python.Json.dumps_string realtime_finance_bot.Python.Number.show_int
    realtime_finance_bot.Python.Number.show_nat seed
put_run = refl

done_run :
    seed {W = List Str}
      (λ sql limit w. (
        ok (
            ((str "archive_key", str "data/spot/daily/klines/BTCUSDT/1m/BTCUSDT-1m-2026-07-02.zip")
              ∷ [])
            ∷ []),
        w,
      ))
      (λ key body w. ok (key ∷ w))
      (request false)
      universe
      (record { year = 2026; month = 7; day = 20 })
      []
    ≡ (ok 0, [])
unfolding realtime_finance_bot.Base.get realtime_finance_bot.Base.lower
    realtime_finance_bot.Base.pair_Eq realtime_finance_bot.Base.str_eq
    realtime_finance_bot.Ingest.Instruments.canonical
    realtime_finance_bot.Ingest.Instruments.symbols_for
    realtime_finance_bot.Native.Backfill.Calendar.add_days
    realtime_finance_bot.Native.Backfill.Calendar.days_in_month
    realtime_finance_bot.Native.Backfill.Calendar.eq_date
    realtime_finance_bot.Native.Backfill.Calendar.first_of_month
    realtime_finance_bot.Native.Backfill.Calendar.iso_date
    realtime_finance_bot.Native.Backfill.Calendar.last_of_month
    realtime_finance_bot.Native.Backfill.Calendar.leb_date
    realtime_finance_bot.Native.Backfill.Calendar.max_date
    realtime_finance_bot.Native.Backfill.Calendar.min_date
    realtime_finance_bot.Native.Backfill.Calendar.next_day
    realtime_finance_bot.Native.Backfill.Calendar.year_month
    realtime_finance_bot.Native.Backfill.Manifest.contains
    realtime_finance_bot.Native.Backfill.Manifest.done_keys
    realtime_finance_bot.Native.Backfill.Manifest.fields_of_dict
    realtime_finance_bot.Native.Backfill.Manifest.items_key
    realtime_finance_bot.Native.Backfill.Manifest.plan
    realtime_finance_bot.Native.Backfill.Manifest.staging_key_for
    realtime_finance_bot.Native.Backfill.Manifest.staging_prefix
    realtime_finance_bot.Native.Backfill.Manifest.to_json
    realtime_finance_bot.Native.Backfill.Manifest.to_jsonl
    realtime_finance_bot.Native.Backfill.Manifest.work_item
    realtime_finance_bot.Native.Backfill.Seed.already_done
    realtime_finance_bot.Native.Backfill.Seed.done_keys_sql
    realtime_finance_bot.Native.Backfill.Seed.instrument_pairs
    realtime_finance_bot.Native.Backfill.Seed.keys_of
    realtime_finance_bot.Native.Backfill.Seed.pairs_of
    realtime_finance_bot.Native.Backfill.Seed.store_items
    realtime_finance_bot.Native.Backfill.Seed.store_plan
    realtime_finance_bot.Native.Backfill.Tiers.daily_files
    realtime_finance_bot.Native.Backfill.Tiers.dataset
    realtime_finance_bot.Native.Backfill.Tiers.days_between
    realtime_finance_bot.Native.Backfill.Tiers.days_rounds
    realtime_finance_bot.Native.Backfill.Tiers.file_key
    realtime_finance_bot.Native.Backfill.Tiers.filename
    realtime_finance_bot.Native.Backfill.Tiers.files_for_window
    realtime_finance_bot.Native.Backfill.Tiers.folder
    realtime_finance_bot.Native.Backfill.Tiers.granularity_value
    realtime_finance_bot.Native.Backfill.Tiers.insert_file
    realtime_finance_bot.Native.Backfill.Tiers.interval_segment
    realtime_finance_bot.Native.Backfill.Tiers.leb_file
    realtime_finance_bot.Native.Backfill.Tiers.leb_str
    realtime_finance_bot.Native.Backfill.Tiers.month_files
    realtime_finance_bot.Native.Backfill.Tiers.months_rounds
    realtime_finance_bot.Native.Backfill.Tiers.name_infix
    realtime_finance_bot.Native.Backfill.Tiers.pair_files
    realtime_finance_bot.Native.Backfill.Tiers.pairs_files
    realtime_finance_bot.Native.Backfill.Tiers.sort_files
    realtime_finance_bot.Native.Backfill.Tiers.tier_value realtime_finance_bot.Python.Json.dumps
    realtime_finance_bot.Python.Json.dumps_string realtime_finance_bot.Python.Number.show_int
    realtime_finance_bot.Python.Number.show_nat seed
done_run = refl
