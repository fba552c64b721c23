-- ===== src/Native/Enrichment/Perp.antt =====
-- awsnative/enrichment/perp.py: the answers of the endpoints to one row for each instrument. An
-- answer is decoded JSON; `open_interest` and `ratios` are dictionaries by the venue's symbol.
pub mod Rows
use realtime_finance_bot.Base.{
  ℕ, ◌+◌, ◌-◌, ◌*◌, ◌%◌, Bool, true, false, Option, none, some, List, [], ◌∷◌, ◌++◌, ◌==◌,
  if◌then◌else◌, last?, Str, str, str_eq, str_Eq, Dict, get, put, ℤ, pos, negsuc, scale, Result, ok,
  raise, ◌>>=◌,
}
use realtime_finance_bot.Python.Json.{
  Json, null, boolean, integer, float, string, array, object, end,
}
use realtime_finance_bot.Python.Number.{show_int}
use realtime_finance_bot.Python.Values.{
  Python, Error, value_error, index, get_default, text_of, int_of,
}

abbrev pub grid_us : ℕ
grid_us = 5 * 60 * 1000000

pub data Family : Type 0 where
  toptrader_accounts toptrader_positions global_accounts taker_volume : Family

-- `RATIO_FIELDS`: the names of the ratio, of the long side and of the short side.
unfoldable pub ratio_fields : Family → Str × Str × Str
ratio_fields taker_volume = (str "buySellRatio", str "buyVol", str "sellVol")
ratio_fields _ = (str "longShortRatio", str "longAccount", str "shortAccount")

unfoldable pub family_name : Family → Str
family_name toptrader_accounts = str "toptrader_accounts"
family_name toptrader_positions = str "toptrader_positions"
family_name global_accounts = str "global_accounts"
family_name taker_volume = str "taker_volume"

pub record RatioObservation : Type 0 where
  pub ratio : Str
  pub long_component : Str
  pub short_component : Str
  pub source_ts_us : ℤ

unfoldable pub absent : RatioObservation
absent = record { ratio = []; long_component = []; short_component = []; source_ts_us = pos 0 }

pub record PerpContext : Type 0 where
  pub instrument_id : Str
  pub venue_symbol : Str
  pub poll_ts_us : ℤ
  pub snapshot_ts_us : ℤ
  pub mark_price : Str
  pub index_price : Str
  pub estimated_settle_price : Str
  pub last_funding_rate : Str
  pub interest_rate : Str
  pub next_funding_time_us : ℤ
  pub premium_index_ts_us : ℤ
  pub open_interest : Str
  pub open_interest_ts_us : ℤ
  pub accounts : RatioObservation
  pub positions : RatioObservation
  pub globals : RatioObservation
  pub taker : RatioObservation

unfoldable pub floor_to_grid_us : ℤ → Result Error ℤ
floor_to_grid_us (pos n) = if n == 0 then raise value_error else ok (pos (n - n % grid_us))
floor_to_grid_us (negsuc n) = raise value_error

module _ (py : Python) where
  unfoldable pub from_payload : Family → Json → Result Error RatioObservation
  from_payload family payload = do
    let (ratio_field, long_field, short_field) = ratio_fields family
    ratio ← index ratio_field payload
    long_component ← index long_field payload
    short_component ← index short_field payload
    timestamp ← index (str "timestamp") payload
    millis ← int_of py timestamp
    ok (record {
      ratio = text_of py ratio;
      long_component = text_of py long_component;
      short_component = text_of py short_component;
      source_ts_us = scale millis 1000;
    })

  -- `_latest`; the endpoints list the oldest first.
  unfoldable pub latest : Family → Option (List Json) → Result Error RatioObservation
  latest family none = ok absent
  latest family (some payload) = elim (last? payload) [
    | none ↦ ok absent
    | some row ↦ from_payload family row
  ]

  -- `_millis_to_micros`
  unfoldable pub millis_to_micros : Json → Result Error ℤ
  millis_to_micros null = ok (pos 0)
  millis_to_micros (string []) = ok (pos 0)
  millis_to_micros value = int_of py value >>= λ millis. ok (scale millis 1000)

  -- `str(payload.get(key, ""))` and `_millis_to_micros(payload.get(key))`
  unfoldable pub text_at : Str → Json → Result Error Str
  text_at key payload = get_default key payload (string []) >>= λ v. ok (text_of py v)

  unfoldable pub instant_at : Str → Json → Result Error ℤ
  instant_at key payload = get_default key payload null >>= λ v. millis_to_micros v

  unfoldable pub is_wanted : Str → List (Str × Str) → Bool
  is_wanted symbol [] = false
  is_wanted symbol ((i, s) ∷ pairs) = if str_eq s symbol then true else is_wanted symbol pairs

  unfoldable pub index_rows :
      List (Str × Str) → List Json → Dict Str Json → Result Error (Dict Str Json)
  unfolding is_wanted
  index_rows pairs [] indexed = ok indexed
  index_rows pairs (row ∷ rows) indexed = index (str "symbol") row >>= λ v.
      (let symbol = text_of py v in
        index_rows pairs rows (if is_wanted symbol pairs then put symbol row indexed else indexed))

  unfoldable pub index_by_symbol : List Json → List (Str × Str) → Result Error (Dict Str Json)
  index_by_symbol payload pairs = index_rows pairs payload []

  -- The row of one instrument that premiumIndex answered for.
  unfoldable pub build_row :
      ℤ → ℤ → Str × Str → Json → Json → Dict Str (List Json) → Result Error PerpContext
  build_row poll_ts_us snapshot_ts_us pair premium interest family_payloads = do
    mark_price ← text_at (str "markPrice") premium
    index_price ← text_at (str "indexPrice") premium
    estimated_settle_price ← text_at (str "estimatedSettlePrice") premium
    last_funding_rate ← text_at (str "lastFundingRate") premium
    interest_rate ← text_at (str "interestRate") premium
    next_funding_time_us ← instant_at (str "nextFundingTime") premium
    premium_index_ts_us ← instant_at (str "time") premium
    open_interest ← text_at (str "openInterest") interest
    open_interest_ts_us ← instant_at (str "time") interest
    accounts ← latest toptrader_accounts (get (family_name toptrader_accounts) family_payloads)
    positions ← latest toptrader_positions (get (family_name toptrader_positions) family_payloads)
    globals ← latest global_accounts (get (family_name global_accounts) family_payloads)
    taker ← latest taker_volume (get (family_name taker_volume) family_payloads)
    ok (record {
      instrument_id = pair.0;
      venue_symbol = pair.1;
      poll_ts_us = poll_ts_us;
      snapshot_ts_us = snapshot_ts_us;
      mark_price = mark_price;
      index_price = index_price;
      estimated_settle_price = estimated_settle_price;
      last_funding_rate = last_funding_rate;
      interest_rate = interest_rate;
      next_funding_time_us = next_funding_time_us;
      premium_index_ts_us = premium_index_ts_us;
      open_interest = open_interest;
      open_interest_ts_us = open_interest_ts_us;
      accounts = accounts;
      positions = positions;
      globals = globals;
      taker = taker;
    })

  unfoldable pub add_rows :
      Result Error PerpContext → Result Error (List PerpContext) → Result Error (List PerpContext)
  add_rows row rest = row >>= λ r. rest >>= λ rows. ok (r ∷ rows)

  unfoldable pub get_or {ℓ} : {A : Type ℓ} → Option A → A → A
  get_or none a = a
  get_or (some b) a = b

  -- The loop of `build_rows`.
  unfoldable pub rows_of_pairs :
      ℤ
      → ℤ
      → Dict Str Json
      → Dict Str Json
      → Dict Str (Dict Str (List Json))
      → List (Str × Str)
      → Result Error (List PerpContext)
  rows_of_pairs poll snapshot indexed open_interest ratios [] = ok []
  rows_of_pairs poll snapshot indexed open_interest ratios (pair ∷ pairs) =
      let rest = rows_of_pairs poll snapshot indexed open_interest ratios pairs in
      elim (get pair.1 indexed) [
        | none ↦ rest
        | some premium ↦
            add_rows
              (build_row poll snapshot pair premium (get_or (get pair.1 open_interest) (object end))
                (get_or (get pair.1 ratios) []))
              rest
      ]

  unfoldable pub build_rows :
      List (Str × Str)
      → List Json
      → Dict Str Json
      → Dict Str (Dict Str (List Json))
      → ℤ
      → Result Error (List PerpContext)
  build_rows pairs premium_index open_interest ratios poll_ts_us = do
    snapshot_ts_us ← floor_to_grid_us poll_ts_us
    indexed ← index_by_symbol premium_index pairs
    rows_of_pairs poll_ts_us snapshot_ts_us indexed open_interest ratios pairs

unfoldable pub observation_fields : Str → RatioObservation → Dict Str Str
observation_fields family o =
    (family ++ str "_ratio", o.ratio)
    ∷ (family ++ str "_long", o.long_component)
    ∷ (family ++ str "_short", o.short_component)
    ∷ (family ++ str "_ts_us", show_int o.source_ts_us)
    ∷ []

-- `PerpContext.to_json`
unfoldable pub context_to_json : PerpContext → Dict Str Str
context_to_json c =
    (str "instrument_id", c.instrument_id)
    ∷ (str "venue_symbol", c.venue_symbol)
    ∷ (str "venue", str "binance")
    ∷ (str "poll_ts_us", show_int c.poll_ts_us)
    ∷ (str "snapshot_ts_us", show_int c.snapshot_ts_us)
    ∷ (str "mark_price", c.mark_price)
    ∷ (str "index_price", c.index_price)
    ∷ (str "estimated_settle_price", c.estimated_settle_price)
    ∷ (str "last_funding_rate", c.last_funding_rate)
    ∷ (str "interest_rate", c.interest_rate)
    ∷ (str "next_funding_time_us", show_int c.next_funding_time_us)
    ∷ (str "premium_index_ts_us", show_int c.premium_index_ts_us)
    ∷ (str "open_interest", c.open_interest)
    ∷ (str "open_interest_ts_us", show_int c.open_interest_ts_us)
    ∷ (observation_fields (family_name toptrader_accounts) c.accounts
        ++ (observation_fields (family_name toptrader_positions) c.positions
            ++ (observation_fields (family_name global_accounts) c.globals
                ++ observation_fields (family_name taker_volume) c.taker)))
