-- ===== src/Tests/Backfill.antt =====
-- The backfill, the queries and the context of the perpetuals on concrete data.
use realtime_finance_bot.Base.{
  ℕ, ◌+◌, ◌*◌, ◌≤◌, ◌<◌, ◌≡◌, ◌↔◌, refl, Bool, true, false, not, ◌&&◌, leb, Option, none, some,
  List, [], ◌∷◌, ◌++◌, length, map, keep, All, arith, if◌then◌else◌, Str, str, strip, split_on,
  lower, ℤ, pos, ◌⊎◌, inl, inr, Result, ok, raise, Dict,
}
use realtime_finance_bot.Python.Json.{Json, integer, string, object, field, end}
use realtime_finance_bot.Python.Values.{Python}
use realtime_finance_bot.Native.Athena.{Execution, start_and_wait, split_statements, is_filled}
use realtime_finance_bot.Native.Athena.Split.{split_statements-plain}
use realtime_finance_bot.Native.Athena.Wait.{IsWaited, start_and_wait-IsWaited}
use realtime_finance_bot.Native.Backfill.Calendar.{Date, days_in_month, IsDate, leb_date}
use realtime_finance_bot.Native.Backfill.Checksum.{parse_checksum, verify}
use realtime_finance_bot.Native.Backfill.Checksum.Verify.{
  sha256sum_line, verify-eq-ok, parse_checksum-sha256sum_line,
}
use realtime_finance_bot.Native.Backfill.Epoch.{
  TimestampUnit, millis, micros, Normaliser, normalise, unit_of, to_micros,
}
use realtime_finance_bot.Native.Backfill.Epoch.Range.{IsInstant, normalise_lem}
use realtime_finance_bot.Native.Backfill.Loader.{Loader}
use realtime_finance_bot.Native.Backfill.Loader.Load.{IsDone, IsUnstaged, IsEscaped, load-cases}
use realtime_finance_bot.Native.Backfill.Manifest.{WorkItem, to_json, from_json, work_item, plan}
use realtime_finance_bot.Native.Backfill.Manifest.Trips.{from_json-to_json, plan-plan}
use realtime_finance_bot.Native.Backfill.Parsers.{ArchiveKline, parse_klines}
use realtime_finance_bot.Native.Backfill.Parsers.Units.{
  Matches, IsReadIn, filled_fields, parse_klines-IsOneUnit,
}
use realtime_finance_bot.Native.Backfill.Epoch.{TimestampUnit}
use realtime_finance_bot.Native.Backfill.Tiers.{
  Tier, hot, deep, Granularity, monthly, daily, ArchiveFile, filename, file_key, files_for_window,
}
use realtime_finance_bot.Native.Backfill.Tiers.Days.{count}
use realtime_finance_bot.Native.Backfill.Tiers.Plan.{covers, times, files_for_window-count}
use realtime_finance_bot.Native.Enrichment.Perp as Perp
use realtime_finance_bot.Native.Enrichment.Perp.Rows.{IsGridPoint, AreRowsOf, build_rows-AreRowsOf}

abbrev btc : Str
btc = str "BTCUSDT"

abbrev pair : Str × Str
pair = (str "BTC-USD", btc)

abbrev date : ℕ → ℕ → ℕ → Date
date y m d = record { year = y; month = m; day = d }

IsDate-july : IsDate (date 2026 6 29)
unfolding days_in_month
IsDate-july = record {
  month_low = omega arith;
  month_high = omega arith;
  day_low = omega arith;
  day_high = omega arith;
}

IsDate-august : IsDate (date 2026 8 2)
unfolding days_in_month
IsDate-august = record {
  month_low = omega arith;
  month_high = omega arith;
  day_low = omega arith;
  day_high = omega arith;
}

IsDate-middle : IsDate (date 2026 7 15)
unfolding days_in_month
IsDate-middle = record {
  month_low = omega arith;
  month_high = omega arith;
  day_low = omega arith;
  day_high = omega arith;
}

files_for_window-count_example :
    count
      (covers pair (date 2026 7 15))
      (files_for_window (pair ∷ []) deep (date 2026 6 29) (date 2026 8 2) (date 2026 8 20))
    ≡ (if leb_date (date 2026 6 29) (date 2026 7 15) && leb_date (date 2026 7 15) (date 2026 8 2)
        then times pair (pair ∷ [])
        else 0)
files_for_window-count_example =
    files_for_window-count (pair ∷ []) deep (date 2026 6 29) (date 2026 8 2) (date 2026 8 20)
      (date 2026 7 15) pair IsDate-july IsDate-august IsDate-middle

-- Two days of June, July as a whole and two days of August.
five_files :
    length (files_for_window (pair ∷ []) deep (date 2026 6 29) (date 2026 8 2) (date 2026 8 20)) ≡ 5
unfolding files_for_window realtime_finance_bot.Native.Backfill.Tiers.sort_files
    realtime_finance_bot.Native.Backfill.Tiers.insert_file
    realtime_finance_bot.Native.Backfill.Tiers.pairs_files
    realtime_finance_bot.Native.Backfill.Tiers.pair_files
    realtime_finance_bot.Native.Backfill.Tiers.months_rounds
    realtime_finance_bot.Native.Backfill.Tiers.month_files
    realtime_finance_bot.Native.Backfill.Tiers.daily_files
    realtime_finance_bot.Native.Backfill.Tiers.days_between
    realtime_finance_bot.Native.Backfill.Tiers.days_rounds
    realtime_finance_bot.Native.Backfill.Tiers.leb_file
    realtime_finance_bot.Native.Backfill.Tiers.leb_str
    realtime_finance_bot.Native.Backfill.Tiers.granularity_value leb_date
    realtime_finance_bot.Native.Backfill.Calendar.first_of_month
    realtime_finance_bot.Native.Backfill.Calendar.last_of_month
    realtime_finance_bot.Native.Backfill.Calendar.max_date
    realtime_finance_bot.Native.Backfill.Calendar.min_date
    realtime_finance_bot.Native.Backfill.Calendar.next_day
    realtime_finance_bot.Native.Backfill.Calendar.add_days
    realtime_finance_bot.Native.Backfill.Calendar.eq_date
    realtime_finance_bot.Native.Backfill.Calendar.year_month
    realtime_finance_bot.Native.Backfill.Calendar.iso_date days_in_month
    realtime_finance_bot.Base.str_eq realtime_finance_bot.Python.Number.show_nat
five_files = refl

abbrev july : ArchiveFile
july = record {
  tier = deep;
  instrument_id = str "BTC-USD";
  venue_symbol = btc;
  granularity = monthly;
  period = str "2026-07";
  dt = date 2026 7 1;
}

from_json-to_json_example : from_json (to_json (work_item july)) ≡ ok (work_item july)
from_json-to_json_example = from_json-to_json (work_item july)

plan-plan_example :
    plan (july ∷ []) (map (λ (i : WorkItem). i.archive_key) (plan (july ∷ []) []) ++ []) ≡ []
plan-plan_example = plan-plan (july ∷ []) []

abbrev digest : Str
digest = str "CECB517EAF2FB3814BA7B8364C3F6038D04FF96B1E83282C4D99FAF94DD4B6F4"

abbrev zip_name : Str
zip_name = str "BTCUSDT-1m-2026-07.zip"

parse_checksum-sha256sum_line_example :
    parse_checksum (sha256sum_line digest zip_name)
    ≡ ok (record { sha256 = lower digest; filename = zip_name })
unfolding realtime_finance_bot.Native.Backfill.Checksum.is_hex_int
parse_checksum-sha256sum_line_example =
    parse_checksum-sha256sum_line digest zip_name refl refl (ground arith) (ground arith)
      (omega arith)

abbrev digest_of : List ℕ → Str
digest_of blob = lower digest

verify-eq-ok_example :
    (verify digest_of (1 ∷ []) (sha256sum_line digest zip_name) zip_name ≡ ok (lower digest)) ↔ (
      (lower digest ≡ digest_of (1 ∷ []))
      × (parse_checksum (sha256sum_line digest zip_name)
          ≡ ok (record { sha256 = lower digest; filename = zip_name })))
verify-eq-ok_example =
    verify-eq-ok digest_of (1 ∷ []) (sha256sum_line digest zip_name) zip_name (lower digest)

-- An archive whose one member has no rows.
abbrev loader : Loader
loader = record {
  fetch = λ url. ok (sha256sum_line digest zip_name);
  put_object = λ key body. none;
  delete_prefix = λ prefix. 0;
  digest_of = digest_of;
  decode = λ bytes. some bytes;
  unzip = λ bytes. some ([] ∷ []);
  splitlines = λ text. [];
  gzip = λ text. text;
  message = λ fault. str "fault";
}

load-cases_example :
    IsDone loader (work_item july)
    ⊎ (IsUnstaged loader (work_item july) ⊎ IsEscaped loader (work_item july))
load-cases_example = load-cases loader (work_item july) (λ key body f e. ground (arith, e))

normalise_lem_example :
    IsInstant (pos 1786752000286000)
    × (u : TimestampUnit) × (◌≡◌ {A = Normaliser} (some millis) (some u))
    × (unit_of (pos 1786752000286) ≡ ok u)
    × (pos 1786752000286000 ≡ to_micros (pos 1786752000286) u)
    × ((◌≡◌ {A = Normaliser} none none) ⊎ (◌≡◌ {A = Normaliser} none (some u)))
unfolding normalise unit_of to_micros realtime_finance_bot.Native.Backfill.Epoch.hold
    realtime_finance_bot.Base.scale
normalise_lem_example =
    normalise_lem none (pos 1786752000286) (pos 1786752000286000) (some millis) refl

abbrev kline_line : Str
kline_line =
    str
      "1786752000000,64000.1,64010.0,63990.5,64005.2,12.5,1786752059999,800000.1,120,6.2,400000.3,0"

abbrev kline : ArchiveKline
kline = record {
  open_time_us = pos 1786752000000000;
  close_time_us = pos 1786752059999000;
  open_price = str "64000.1";
  high = str "64010.0";
  low = str "63990.5";
  close = str "64005.2";
  volume = str "12.5";
  quote_volume = str "800000.1";
  trade_count = pos 120;
  taker_buy_base_volume = str "6.2";
  taker_buy_quote_volume = str "400000.3";
}

parse_klines-IsOneUnit_example :
    (u : TimestampUnit) × Matches (IsReadIn u) (filled_fields (kline_line ∷ [] ∷ [])) (kline ∷ [])
unfolding parse_klines realtime_finance_bot.Native.Backfill.Parsers.parse_lines
    realtime_finance_bot.Native.Backfill.Parsers.parse_fields
    realtime_finance_bot.Native.Backfill.Parsers.fields_of strip
    realtime_finance_bot.Native.Backfill.Parsers.kline_of split_on
    realtime_finance_bot.Native.Backfill.Parsers.read_int
    realtime_finance_bot.Python.Number.parse_int normalise unit_of
    realtime_finance_bot.Native.Backfill.Epoch.hold to_micros realtime_finance_bot.Base.scale
parse_klines-IsOneUnit_example = parse_klines-IsOneUnit (kline_line ∷ [] ∷ []) (kline ∷ []) refl

abbrev running : Str → Execution
running state = record {
  state = state;
  data_scanned = some 1024;
  total_time = none;
  state_change_reason = none;
}

abbrev described : ℕ → Execution
described n = if leb n 1 then running (str "RUNNING") else running (str "SUCCEEDED")

start_and_wait-IsWaited_example :
    IsWaited 2000 900000 (str "q1") described (start_and_wait 2000 900000 (str "q1") described)
start_and_wait-IsWaited_example =
    start_and_wait-IsWaited 2000 900000 (str "q1") described (omega arith)

split_statements-plain_example :
    split_statements (str "drop table a; select 1 ;\n")
    ≡ keep is_filled (map strip (split_on b';' (str "drop table a; select 1 ;\n")))
split_statements-plain_example =
    split_statements-plain (str "drop table a; select 1 ;\n") (ground arith)

quoted : split_statements (str "select ';' -- a;b\n; drop c") ≡ str "select ';'" ∷ str "drop c" ∷ []
unfolding split_statements strip
quoted = refl

abbrev market : List Json
market =
    object (
      field (str "symbol") (string btc) (
        field (str "markPrice") (string (str "64000.1"))
          (field (str "time") (integer (pos 1786752000000)) end)))
    ∷ object (field (str "symbol") (string (str "XRPUSDT")) end)
    ∷ []

abbrev py : Python
py = record { loads = λ s. none; container_repr = λ v. []; truncate = λ s. none }

abbrev absent : Perp.RatioObservation
absent = record { ratio = []; long_component = []; short_component = []; source_ts_us = pos 0 }

abbrev context : Perp.PerpContext
context = record {
  instrument_id = str "BTC-USD";
  venue_symbol = btc;
  poll_ts_us = pos 1786752123000000;
  snapshot_ts_us = pos 1786752000000000;
  mark_price = str "64000.1";
  index_price = [];
  estimated_settle_price = [];
  last_funding_rate = [];
  interest_rate = [];
  next_funding_time_us = pos 0;
  premium_index_ts_us = pos 1786752000000000;
  open_interest = [];
  open_interest_ts_us = pos 0;
  accounts = absent;
  positions = absent;
  globals = absent;
  taker = absent;
}

build_rows-AreRowsOf_example :
    (snapshot : ℤ) × IsGridPoint snapshot (pos 1786752123000000)
    × AreRowsOf py (pos 1786752123000000) snapshot market (pair ∷ []) (context ∷ [])
unfolding Perp.build_rows Perp.floor_to_grid_us Perp.index_by_symbol Perp.index_rows Perp.is_wanted
    Perp.rows_of_pairs Perp.add_rows Perp.get_or Perp.build_row Perp.text_at Perp.instant_at
    Perp.millis_to_micros Perp.latest Perp.absent Perp.family_name realtime_finance_bot.Base.get
    realtime_finance_bot.Base.put realtime_finance_bot.Base.str_eq realtime_finance_bot.Base.scale
    realtime_finance_bot.Python.Values.index realtime_finance_bot.Python.Values.get_default
    realtime_finance_bot.Python.Values.text_of realtime_finance_bot.Python.Values.int_of
    realtime_finance_bot.Python.Json.lookup
build_rows-AreRowsOf_example =
    build_rows-AreRowsOf py (pair ∷ []) market [] [] (pos 1786752123000000) (context ∷ []) refl
