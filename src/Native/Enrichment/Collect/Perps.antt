-- ===== src/Native/Enrichment/Collect/Perps.antt =====
-- `PerpCollector.collect` of awsnative/enrichment/collect.py: what the premium index's answer gives
-- does not depend on the other endpoints.
use realtime_finance_bot.Base.{
  ◌≡◌, refl, ap, ◌∙◌, Option, none, some, List, [], ◌∷◌, map, Str, str, str_Eq, Dict, get, ℤ, pos,
  Result, ok, >>=-eq-ok, ok-injective,
}
use realtime_finance_bot.Python.Json.{Json, object, end, lookup}
use realtime_finance_bot.Python.Values.{Python, Error, get_default, text_of}
use realtime_finance_bot.Native.Enrichment.Perp.{
  text_at, instant_at, millis_to_micros, latest, absent, family_name, toptrader_accounts,
  toptrader_positions, global_accounts, taker_volume, PerpContext, floor_to_grid_us,
  index_by_symbol, build_row, add_rows, get_or, rows_of_pairs, build_rows,
}

-- The row where only premiumIndex answered.
abbrev pub premium_only : PerpContext → PerpContext
premium_only r = record r {
  open_interest = [];
  open_interest_ts_us = pos 0;
  accounts = absent;
  positions = absent;
  globals = absent;
  taker = absent;
}

module _ (py : Python) where
  -- Dictionaries that hold nothing of what the other endpoints answer.
  abbrev pub IsBare : Dict Str Json → Dict Str (Dict Str (List Json)) → Type 0
  IsBare open_interest ratios =
      (symbol : Str)
      → (get_or py (get symbol open_interest) (object end) ≡ object end)
        × (get_or py (get symbol ratios) [] ≡ [])

  bare_row :
      (poll snapshot : ℤ) (pair : Str × Str) (premium : Json)
      (mark_price index_price settle_price funding_rate interest_rate : Str)
      (next_funding_time premium_time : ℤ)
      → text_at py (str "markPrice") premium ≡ ok mark_price
      → text_at py (str "indexPrice") premium ≡ ok index_price
      → text_at py (str "estimatedSettlePrice") premium ≡ ok settle_price
      → text_at py (str "lastFundingRate") premium ≡ ok funding_rate
      → text_at py (str "interestRate") premium ≡ ok interest_rate
      → instant_at py (str "nextFundingTime") premium ≡ ok next_funding_time
      → instant_at py (str "time") premium ≡ ok premium_time
      → build_row py poll snapshot pair premium (object end) []
        ≡ ok (record {
          instrument_id = pair.0;
          venue_symbol = pair.1;
          poll_ts_us = poll;
          snapshot_ts_us = snapshot;
          mark_price = mark_price;
          index_price = index_price;
          estimated_settle_price = settle_price;
          last_funding_rate = funding_rate;
          interest_rate = interest_rate;
          next_funding_time_us = next_funding_time;
          premium_index_ts_us = premium_time;
          open_interest = [];
          open_interest_ts_us = pos 0;
          accounts = absent;
          positions = absent;
          globals = absent;
          taker = absent;
        })
  unfolding build_row text_at instant_at get_default lookup millis_to_micros latest text_of get
  bare_row poll snapshot pair premium a1 a2 a3 a4 a5 a6 a7 m1 m2 m3 m4 m5 m6 m7 =
      rw (m1, m2, m3, m4, m5, m6, m7) refl

  build_row-premium_only :
      (poll snapshot : ℤ) (pair : Str × Str) (premium interest : Json)
      (ratios : Dict Str (List Json)) (r : PerpContext)
      → build_row py poll snapshot pair premium interest ratios ≡ ok r
      → build_row py poll snapshot pair premium (object end) [] ≡ ok (premium_only r)
  unfolding build_row
  build_row-premium_only poll snapshot pair premium interest ratios r e =
      let (a1, m1, e1) = >>=-eq-ok (text_at py (str "markPrice") premium) _ e in
      let (a2, m2, e2) = >>=-eq-ok (text_at py (str "indexPrice") premium) _ e1 in
      let (a3, m3, e3) = >>=-eq-ok (text_at py (str "estimatedSettlePrice") premium) _ e2 in
      let (a4, m4, e4) = >>=-eq-ok (text_at py (str "lastFundingRate") premium) _ e3 in
      let (a5, m5, e5) = >>=-eq-ok (text_at py (str "interestRate") premium) _ e4 in
      let (a6, m6, e6) = >>=-eq-ok (instant_at py (str "nextFundingTime") premium) _ e5 in
      let (a7, m7, e7) = >>=-eq-ok (instant_at py (str "time") premium) _ e6 in
      let (a8, _, e8) = >>=-eq-ok (text_at py (str "openInterest") interest) _ e7 in
      let (a9, _, e9) = >>=-eq-ok (instant_at py (str "time") interest) _ e8 in
      let (b1, _, f1) =
        >>=-eq-ok (latest py toptrader_accounts (get (family_name toptrader_accounts) ratios)) _
          e9 in
      let (b2, _, f2) =
        >>=-eq-ok (latest py toptrader_positions (get (family_name toptrader_positions) ratios)) _
          f1 in
      let (b3, _, f3) =
        >>=-eq-ok (latest py global_accounts (get (family_name global_accounts) ratios)) _ f2 in
      let (b4, _, f4) =
        >>=-eq-ok (latest py taker_volume (get (family_name taker_volume) ratios)) _ f3 in
      bare_row poll snapshot pair premium a1 a2 a3 a4 a5 a6 a7 m1 m2 m3 m4 m5 m6 m7
      ∙ ap (λ c. ok (premium_only c)) (ok-injective f4)

  add_rows-premium_only :
      (row bare : Result Error PerpContext) (rest others : Result Error (List PerpContext))
      (rows : List PerpContext)
      → ((r : PerpContext) → row ≡ ok r → bare ≡ ok (premium_only r))
      → ((rs : List PerpContext) → rest ≡ ok rs → others ≡ ok (map premium_only rs))
      → add_rows py row rest ≡ ok rows
      → add_rows py bare others ≡ ok (map premium_only rows)
  unfolding add_rows
  add_rows-premium_only row bare rest others rows h k e =
      let (r, made, e1) = >>=-eq-ok row _ e in
      let (rs, more, e2) = >>=-eq-ok rest _ e1 in rw (h r made, k rs more, ← ok-injective e2) refl

  pair_rows-premium_only :
      (o : Option Json) (row bare : Json → Result Error PerpContext)
      (rest others : Result Error (List PerpContext)) (rows : List PerpContext)
      → ((premium : Json) (r : PerpContext)
          → row premium ≡ ok r
          → bare premium ≡ ok (premium_only r))
      → ((rs : List PerpContext) → rest ≡ ok rs → others ≡ ok (map premium_only rs))
      → elim o [ none ↦ rest | some premium ↦ add_rows py (row premium) rest ] ≡ ok rows
      → elim o [ none ↦ others | some premium ↦ add_rows py (bare premium) others ]
        ≡ ok (map premium_only rows)
  pair_rows-premium_only none row bare rest others rows h k e = k rows e
  pair_rows-premium_only (some premium) row bare rest others rows h k e =
      add_rows-premium_only (row premium) (bare premium) rest others rows (h premium) k e

  module _ (open_interest none_open : Dict Str Json)
      (ratios no_ratios : Dict Str (Dict Str (List Json))) (bare : IsBare none_open no_ratios) where
    rows_of_pairs-premium_only :
        (poll snapshot : ℤ) (indexed : Dict Str Json) (pairs : List (Str × Str))
        (rows : List PerpContext)
        → rows_of_pairs py poll snapshot indexed open_interest ratios pairs ≡ ok rows
        → rows_of_pairs py poll snapshot indexed none_open no_ratios pairs
          ≡ ok (map premium_only rows)
    unfolding rows_of_pairs
    rows_of_pairs-premium_only poll snapshot indexed [] rows e = rw (← ok-injective e) refl
    rows_of_pairs-premium_only poll snapshot indexed (pair ∷ pairs) rows e =
        pair_rows-premium_only (get pair.1 indexed) _ _ _ _ rows
          (λ premium r made.
            let (b0, b1) = bare pair.1 in
            rw (b0, b1) (build_row-premium_only poll snapshot pair premium _ _ r made))
          (λ rs. rows_of_pairs-premium_only poll snapshot indexed pairs rs) e

    -- A poll whose rows can be built has the same rows, for the same instruments and with the same
    -- fields of the premium index, where no other endpoint answered; the open interest and the four
    -- ratios are then absent.
    pub build_rows-premium_only :
        (pairs : List (Str × Str)) (premium_index : List Json) (poll : ℤ) (rows : List PerpContext)
        → build_rows py pairs premium_index open_interest ratios poll ≡ ok rows
        → build_rows py pairs premium_index none_open no_ratios poll ≡ ok (map premium_only rows)
    unfolding build_rows
    build_rows-premium_only pairs premium_index poll rows e =
        let (snapshot, floored, e1) = >>=-eq-ok (floor_to_grid_us poll) _ e in
        let (indexed, found, e2) = >>=-eq-ok (index_by_symbol py premium_index pairs) _ e1 in
        rw (floored, found) (rows_of_pairs-premium_only poll snapshot indexed pairs rows e2)
