-- ===== src/Native/Enrichment/Collect.antt =====
-- awsnative/enrichment/collect.py: the two collectors. What a fetch answers and what a put does to
-- the outside is a parameter, as is what the standard library does with text and bytes. The ratio
-- endpoints and premiumIndex are documented to answer with an array.
pub mod Macros
pub mod Perps
pub mod Outage
use realtime_finance_bot.Base.{
  ℕ, Option, none, some, List, [], ◌∷◌, ◌++◌, map, length, Str, str, Dict, put, str_Eq, ℤ, pos,
  Result, ok, raise, ◌>>=◌,
}
use realtime_finance_bot.Python.Json.{Json, Fields, string, object, field, end, dumps}
use realtime_finance_bot.Python.Number.{show_int}
use realtime_finance_bot.Python.Values.{Python, Error, value_error}
use realtime_finance_bot.Native.Enrichment.Perp.{
  Family, toptrader_accounts, toptrader_positions, global_accounts, taker_volume, family_name,
  build_rows, context_to_json,
}
use realtime_finance_bot.Native.Enrichment.Macro.{
  MacroSeries, series, MacroObservation, observation_to_json, alfred_csv_url, parse_alfred_csv,
}

abbrev pub Bytes : Type 0
Bytes = List ℕ

-- What `fetch` answers: `unavailable` is UpstreamUnavailable, and `failed` any other exception.
pub data Fetched : Type 0 where
  answered : Bytes → Fetched
  unavailable : Fetched
  failed : Error → Fetched

-- What `urlopen` and the read of its answer do: a body, an HTTPError, a URLError, or an exception that
-- is neither, as a time-out while the answer is awaited.
pub data Opened : Type 0 where
  read_body : Bytes → Opened
  http_error url_error : Opened
  other_error : Error → Opened

-- `_http_fetch`
unfoldable pub http_fetch : Opened → Fetched
http_fetch (read_body body) = answered body
http_fetch http_error = unavailable
http_fetch url_error = unavailable
http_fetch (other_error e) = failed e

pub record Client (W : Type 0) : Type 0 where
  pub fetch : Str → W → Fetched × W
  pub store : Str → Bytes → W → Result Error W
  -- `json.loads` of an answer that is an array, and of any; `none` is its ValueError
  pub loads_array : Bytes → Option (List Json)
  pub loads : Bytes → Option Json
  -- `.decode()`; `none` is its UnicodeDecodeError, which is a ValueError
  pub decode : Bytes → Option Str
  pub csv_reader : Str → List (Result Error (List Str))
  -- `gzip.compress(…, mtime=0)`
  pub compress : Bytes → Bytes
  -- the UTC day of an instant in microseconds
  pub utc_day : ℤ → Result Error Str

-- `RATIO_ENDPOINTS`, in its order.
abbrev pub ratio_endpoints : List (Family × Str)
ratio_endpoints =
    (toptrader_accounts, str "topLongShortAccountRatio")
    ∷ (toptrader_positions, str "topLongShortPositionRatio")
    ∷ (global_accounts, str "globalLongShortAccountRatio")
    ∷ (taker_volume, str "takerlongshortRatio")
    ∷ []

abbrev pub fapi_base : Str
fapi_base = str "https://fapi.binance.com"

unfoldable pub premium_url : Str
premium_url = fapi_base ++ str "/fapi/v1/premiumIndex"

unfoldable pub interest_url : Str → Str
interest_url venue_symbol = fapi_base ++ (str "/fapi/v1/openInterest?symbol=" ++ venue_symbol)

unfoldable pub ratio_url : Str → Str → Str
ratio_url endpoint venue_symbol =
    fapi_base
    ++ (str "/futures/data/"
        ++ (endpoint ++ (str "?symbol=" ++ (venue_symbol ++ str "&period=5m&limit=2"))))

-- An exception leaves the outside as it was when it was raised.
abbrev pub Act : Type 0 → Type 0 → Type 0
Act W A = W → Result Error A × W

unfoldable pub then : {W A B : Type 0} → Result Error A × W → (A → Act W B) → Result Error B × W
then (ok a, w) next = next a w
then (raise e, w) next = (raise e, w)

-- `_json`: what an endpoint answered, or none.
unfoldable pub json_of : {A : Type 0} → (Bytes → Option A) → Fetched → Result Error (Option A)
json_of loads (answered body) = elim (loads body) [
  | none ↦ raise value_error
  | some v ↦ ok (some v)
]
json_of loads unavailable = ok none
json_of loads (failed e) = raise e

unfoldable pub string_fields : Dict Str Str → Fields
string_fields [] = end
string_fields ((k, v) ∷ d) = field k (string v) (string_fields d)

unfoldable pub jsonl : List (Dict Str Str) → Str
unfolding string_fields dumps
jsonl [] = []
jsonl (row ∷ rows) = dumps (object (string_fields row)) ++ (10 ∷ jsonl rows)

unfoldable pub macro_key : Str → Str
macro_key vintage_date =
    str "bronze_macro_observations/ingest_date="
    ++ (vintage_date ++ (str "/macro-" ++ (vintage_date ++ str ".jsonl.gz")))

unfoldable pub perp_key : Str → ℤ → Str
unfolding show_int
perp_key day poll_ts_us =
    str "bronze_perp_context/ingest_date="
    ++ (day ++ (str "/perp-" ++ (show_int poll_ts_us ++ str ".jsonl.gz")))

-- The dictionaries of the answers; JSON's null is Python's None.
unfoldable pub add_interest : Str → Option Json → Dict Str Json → Dict Str Json
add_interest symbol none d = d
add_interest symbol (some Json.null) d = d
add_interest symbol (some interest) d = put symbol interest d

unfoldable pub add_family : Str → Option (List Json) → Dict Str (List Json) → Dict Str (List Json)
add_family family none d = d
add_family family (some []) d = d
add_family family (some (row ∷ rows)) d = put family (row ∷ rows) d

unfoldable pub or_empty : Option (List Json) → List Json
or_empty none = []
or_empty (some rows) = rows

module _ {W : Type 0} (client : Client W) where
  -- `self.put(key, jsonl_gz(…))` and the counts that a collector returns.
  unfoldable pub store_rows : Str → List (Dict Str Str) → Act W (Dict Str Str)
  unfolding jsonl show_int
  store_rows key rows w = elim (client.store key (client.compress (jsonl rows)) w) [
    | ok w' ↦ (ok ((str "rows", show_int (pos (length rows))) ∷ (str "key", key) ∷ []), w')
    | raise e ↦ (raise e, w)
  ]

  module _ (vintage_date : Str) (since : Option Str) where
    -- One series of `MacroCollector.collect`.
    unfoldable pub read_series : MacroSeries → Fetched → Result Error (List MacroObservation)
    unfolding parse_alfred_csv
    read_series s unavailable = ok []
    read_series s (failed e) = raise e
    read_series s (answered body) = elim (client.decode body) [
      | none ↦ raise value_error
      | some text ↦ parse_alfred_csv s.series_id vintage_date since (client.csv_reader text)
    ]

    unfoldable pub read_all : List MacroSeries → Act W (List MacroObservation)
    unfolding read_series alfred_csv_url then
    read_all [] w = (ok [], w)
    read_all (s ∷ ss) w =
        let (answer, w1) = client.fetch (alfred_csv_url s.series_id vintage_date) w in
        then (read_series s answer, w1)
          (λ os w2. then (read_all ss w2) (λ more w3. (ok (os ++ more), w3)))

    unfoldable pub collect_macro : Act W (Dict Str Str)
    unfolding read_all store_rows macro_key observation_to_json then
    collect_macro w =
        then (read_all series w)
          (λ os. store_rows (macro_key vintage_date) (map observation_to_json os))

  -- The loop over `RATIO_ENDPOINTS`.
  unfoldable pub fetch_families :
      Str → List (Family × Str) → Dict Str (List Json) → Act W (Dict Str (List Json))
  unfolding ratio_url json_of add_family family_name then
  fetch_families symbol [] families w = (ok families, w)
  fetch_families symbol ((family, endpoint) ∷ endpoints) families w =
      let (answer, w1) = client.fetch (ratio_url endpoint symbol) w in
      then (json_of client.loads_array answer, w1)
        (λ payload.
          fetch_families symbol endpoints (add_family (family_name family) payload families))

  abbrev pub Gathered : Type 0
  Gathered = Dict Str Json × Dict Str (Dict Str (List Json))

  -- The loop over `pairs`.
  unfoldable pub fetch_pairs :
      List (Str × Str) → Dict Str Json → Dict Str (Dict Str (List Json)) → Act W Gathered
  unfolding interest_url json_of add_interest fetch_families then
  fetch_pairs [] open_interest ratios w = (ok (open_interest, ratios), w)
  fetch_pairs ((_, symbol) ∷ pairs) open_interest ratios w =
      let (answer, w1) = client.fetch (interest_url symbol) w in
      then (json_of client.loads answer, w1)
        (λ interest w2. then (fetch_families symbol ratio_endpoints [] w2) (λ families.
          fetch_pairs pairs (add_interest symbol interest open_interest)
            (put symbol families ratios)))

  module _ (py : Python) (pairs : List (Str × Str)) (poll_ts_us : ℤ) where
    -- The rows and their object, once everything is fetched.
    unfoldable pub store_poll : List Json → Gathered → Act W (Dict Str Str)
    unfolding build_rows perp_key store_rows context_to_json then
    store_poll premium_index (open_interest, ratios) w =
        let keyed : Result Error (Str × List (Dict Str Str)) = (do
          rows ← build_rows py pairs premium_index open_interest ratios poll_ts_us
          day ← client.utc_day poll_ts_us
          ok (perp_key day poll_ts_us, map context_to_json rows)) in
        then (keyed, w) (λ stored. store_rows stored.0 stored.1)

    unfoldable pub collect_perp : Act W (Dict Str Str)
    unfolding premium_url json_of or_empty fetch_pairs store_poll then
    collect_perp w =
        let (answer, w1) = client.fetch premium_url w in
        then (json_of client.loads_array answer, w1)
          (λ premium w2. then (fetch_pairs pairs [] [] w2) (store_poll (or_empty premium)))
