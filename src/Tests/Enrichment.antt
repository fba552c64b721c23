-- ===== src/Tests/Enrichment.antt =====
-- The collectors of awsnative/enrichment over a client whose endpoints mostly do not answer.
use realtime_finance_bot.Base.{
  ◌≡◌, ◌≢◌, refl, ap, inl, inr, Bool, true, false, not, if◌then◌else◌, Option, none, some, List, [],
  ◌∷◌, ◌++◌, keep, map, arith, Str, str, str_eq, Dict, get, put, ℤ, pos, Result, ok, raise, ◌>>=◌,
}
use realtime_finance_bot.Python.Values.{Python, value_error, external_error, Error}
use realtime_finance_bot.Python.Json.{Json, Fields, string, integer, object, field, end}
use realtime_finance_bot.Native.Enrichment.Perp
use realtime_finance_bot.Native.Enrichment.Macro.{
  MacroSeries, series, macro_series, MacroObservation, alfred_csv_url, parse_alfred_csv, str_lt,
}
use realtime_finance_bot.Native.Enrichment.Macro.Vintage.{
  parse_alfred_csv-since, parse_alfred_csv-wrong_series,
}
use realtime_finance_bot.Native.Enrichment.Collect.{
  answered, unavailable, Client, macro_key, store_rows, collect_macro, premium_url, interest_url,
  ratio_url, perp_key, collect_perp, http_fetch, other_error,
}
use realtime_finance_bot.Native.Enrichment.Collect.Macros.{after_fetches, collect_macro-AreRead}
use realtime_finance_bot.Native.Enrichment.Collect.Perps.{premium_only}
use realtime_finance_bot.Native.Enrichment.Collect.Outage.{collect_perp-premium_only}

abbrev vintage : Str
vintage = str "2026-01-15"

abbrev rows : List (Result Error (List Str))
rows =
    ok (str "observation_date" ∷ str "CPIAUCSL_20260115" ∷ [])
    ∷ ok (str "2025-08-01" ∷ str "323.364" ∷ [])
    ∷ ok (str "2025-10-01" ∷ str " " ∷ [])
    ∷ ok (str "2025-11-01" ∷ str "325.031" ∷ [])
    ∷ []

parse_alfred_csv-since_example :
    parse_alfred_csv (str "CPIAUCSL") vintage (some (str "2025-09-01")) rows ≡ (
      parse_alfred_csv (str "CPIAUCSL") vintage none rows >>= λ os.
      ok (keep (λ o. not (str_lt o.observation_date (str "2025-09-01"))) os))
parse_alfred_csv-since_example =
    parse_alfred_csv-since (str "CPIAUCSL") vintage (str "2025-09-01") rows

abbrev november : MacroObservation
november = record {
  series_id = str "CPIAUCSL";
  observation_date = str "2025-11-01";
  vintage_date = vintage;
  value = str "325.031";
}

-- The empty cell of October is skipped.
parsed_run :
    parse_alfred_csv (str "CPIAUCSL") vintage (some (str "2025-09-01")) rows ≡ ok (november ∷ [])
unfolding parse_alfred_csv realtime_finance_bot.Base.starts_with realtime_finance_bot.Base.strip
parsed_run = refl

abbrev two_year : MacroSeries
two_year =
    macro_series (str "DGS2") (str "2-year Treasury constant maturity yield") (str "daily") false

abbrev ten_year : MacroSeries
ten_year =
    macro_series (str "DGS10") (str "10-year Treasury constant maturity yield") (str "daily") false

two_ten : two_year.series_id ≢ ten_year.series_id
two_ten e = ground (arith, ap (λ s. str_eq s (str "DGS2")) e)

parse_alfred_csv-wrong_series_example :
    parse_alfred_csv
      (str "DGS2")
      vintage
      none
      (ok (str "observation_date" ∷ (str "DGS10" ++ str "_20260115") ∷ []) ∷ [])
    ≡ raise value_error
parse_alfred_csv-wrong_series_example =
    parse_alfred_csv-wrong_series two_year ten_year vintage none (str "observation_date")
      (str "_20260115") [] (inr (inl refl)) (inr (inr (inl refl))) two_ten

-- The outside is the list of the URLs and keys that were asked for, the last first. Only the
-- consumer prices are answered for.
abbrev client : Client (List Str)
client = record {
  fetch = λ url w. (
    (if str_eq url (alfred_csv_url (str "CPIAUCSL") vintage)
        then answered (str "text")
        else unavailable),
    url ∷ w,
  );
  store = λ key body w. ok (key ∷ w);
  loads_array = λ body. some [];
  loads = λ body. none;
  decode = λ body. some body;
  csv_reader = λ text. rows;
  compress = λ body. body;
  utc_day = λ t. ok vintage;
}

collect_macro-AreRead_example : collect_macro client vintage (some (str "2025-09-01")) [] ≡ (
  ok ((str "rows", str "1") ∷ (str "key", macro_key vintage) ∷ []),
  macro_key vintage ∷ after_fetches client vintage (some (str "2025-09-01")) series [],
)
unfolding parse_alfred_csv alfred_csv_url str_eq realtime_finance_bot.Base.starts_with
    realtime_finance_bot.Base.strip realtime_finance_bot.Python.Number.show_int
collect_macro-AreRead_example =
    collect_macro-AreRead client vintage (some (str "2025-09-01")) []
      ([] ∷ [] ∷ [] ∷ [] ∷ [] ∷ (november ∷ []) ∷ [])
      (refl, (refl, (refl, (refl, (refl, ((str "text", refl, refl), tt))))))

abbrev btc : Str
btc = str "BTCUSDT"

abbrev market : List Json
market =
    object (
      field (str "symbol") (string btc) (
        field (str "markPrice") (string (str "64000.1"))
          (field (str "time") (integer (pos 1786752000000)) end)))
    ∷ []

abbrev interest : Dict Str Json
interest = (btc, object (field (str "openInterest") (string (str "81.5")) end)) ∷ []

abbrev py : Python
py = record { loads = λ s. none; container_repr = λ v. []; truncate = λ s. none }

abbrev absent : Perp.RatioObservation
absent = record { ratio = []; long_component = []; short_component = []; source_ts_us = pos 0 }

abbrev context : Perp.PerpContext
context = record {
  instrument_id = str "BTC-USD";
  venue_symbol = btc;
  poll_ts_us = pos 1786752123000000;
  snapshot_ts_us = pos 1786752000000000;
  mark_price = str "64000.1";
  index_price = [];
  estimated_settle_price = [];
  last_funding_rate = [];
  interest_rate = [];
  next_funding_time_us = pos 0;
  premium_index_ts_us = pos 1786752000000000;
  open_interest = str "81.5";
  open_interest_ts_us = pos 0;
  accounts = absent;
  positions = absent;
  globals = absent;
  taker = absent;
}

-- Only premiumIndex answers.
abbrev premium_client : Client (List Str)
premium_client = record client {
  fetch = λ url w. ((if str_eq url premium_url then answered [] else unavailable), url ∷ w);
  loads_array = λ body. some market;
}

no_interest :
    (symbol : Str) (w : List Str) → (premium_client.fetch (interest_url symbol) w).0 ≡ unavailable
unfolding interest_url premium_url str_eq
no_interest symbol w = refl

no_ratio :
    (endpoint symbol : Str) (w : List Str)
    → (premium_client.fetch (ratio_url endpoint symbol) w).0 ≡ unavailable
unfolding ratio_url premium_url str_eq
no_ratio endpoint symbol w = refl

collect_perp-premium_only_example :
    (w' : List Str) × (collect_perp premium_client py
        ((str "BTC-USD", btc) ∷ [])
        (pos 1786752123000000)
        []
      ≡ store_rows premium_client
          (perp_key vintage (pos 1786752123000000))
          (map Perp.context_to_json (map premium_only (context ∷ [])))
          w')
unfolding premium_url str_eq Perp.build_rows Perp.floor_to_grid_us Perp.index_by_symbol
    Perp.index_rows Perp.is_wanted Perp.rows_of_pairs Perp.add_rows Perp.get_or Perp.build_row
    Perp.text_at Perp.instant_at Perp.millis_to_micros Perp.latest Perp.absent Perp.family_name
    realtime_finance_bot.Base.get realtime_finance_bot.Base.put realtime_finance_bot.Base.scale
    realtime_finance_bot.Python.Values.index realtime_finance_bot.Python.Values.get_default
    realtime_finance_bot.Python.Values.text_of realtime_finance_bot.Python.Values.int_of
    realtime_finance_bot.Python.Json.lookup
collect_perp-premium_only_example =
    collect_perp-premium_only premium_client no_interest no_ratio py ((str "BTC-USD", btc) ∷ [])
      (pos 1786752123000000) [] [] market interest [] (context ∷ []) vintage refl refl refl refl

-- A time-out while an answer is awaited is neither an HTTPError nor a URLError, and ends the poll.
abbrev slow_client : Client (List Str)
slow_client = record client { fetch = λ url w. (http_fetch (other_error external_error), url ∷ w) }

slow_run :
    (collect_perp slow_client py ((str "BTC-USD", btc) ∷ []) (pos 1786752123000000) []).0
    ≡ raise external_error
unfolding collect_perp http_fetch
slow_run = refl
