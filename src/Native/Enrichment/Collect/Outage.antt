-- ===== src/Native/Enrichment/Collect/Outage.antt =====
-- `PerpCollector.collect` of awsnative/enrichment/collect.py where only the premium index answers.
use realtime_finance_bot.Base.{
  ◌≡◌, refl, inl, inr, Option, some, List, [], ◌∷◌, map, Bool-cases, Str, str_eq, str_Eq, Dict, get,
  put, get-put, ℤ, ok,
}
use realtime_finance_bot.Python.Json.{Json}
use realtime_finance_bot.Python.Values.{Python}
use realtime_finance_bot.Native.Enrichment.Perp.{
  Family, PerpContext, get_or, build_rows, context_to_json,
}
use realtime_finance_bot.Native.Enrichment.Collect.{
  Bytes, answered, unavailable, Client, ratio_endpoints, premium_url, interest_url, ratio_url, then,
  json_of, add_interest, add_family, or_empty, perp_key, store_rows, fetch_families, fetch_pairs,
  store_poll, collect_perp,
}
use realtime_finance_bot.Native.Enrichment.Collect.Perps.{
  premium_only, IsBare, build_rows-premium_only,
}

IsBare-put :
    (py : Python) (symbol : Str) (open_interest : Dict Str Json)
    (ratios : Dict Str (Dict Str (List Json)))
    → IsBare py open_interest ratios
    → IsBare py open_interest (put symbol [] ratios)
unfolding get_or
IsBare-put py symbol open_interest ratios h = λ s. (
  (h s).0,
  rw (get-put symbol s [] ratios) (elim (Bool-cases (str_eq symbol s)) [
    | inl same ↦ rw same refl
    | inr other ↦ rw other (h s).1
  ]),
)

IsBare-none : (py : Python) → IsBare py [] []
unfolding get_or get
IsBare-none py symbol = (refl, refl)

json_of-answered :
    {A : Type 0} (loads : Bytes → Option A) (body : Bytes) (v : A)
    → loads body ≡ some v
    → json_of loads (answered body) ≡ ok (some v)
unfolding json_of
json_of-answered loads body v e = rw (json_of, e) refl

module _ {W : Type 0} (client : Client W)
    (no_interest : (symbol : Str) (w : W) → (client.fetch (interest_url symbol) w).0 ≡ unavailable)
    (no_ratio : (endpoint symbol : Str) (w : W)
      → (client.fetch (ratio_url endpoint symbol) w).0 ≡ unavailable) where
  fetch_families-unavailable :
      (symbol : Str) (endpoints : List (Family × Str)) (families : Dict Str (List Json)) (w : W)
      → (w' : W) × (fetch_families client symbol endpoints families w ≡ (ok families, w'))
  unfolding fetch_families then json_of add_family
  fetch_families-unavailable symbol [] families w = (w, refl)
  fetch_families-unavailable symbol ((family, endpoint) ∷ endpoints) families w =
      rw (no_ratio endpoint symbol w) (fetch_families-unavailable symbol endpoints families _)

  module _ (py : Python) where
    fetch_pairs-IsBare :
        (pairs : List (Str × Str)) (open_interest : Dict Str Json)
        (ratios : Dict Str (Dict Str (List Json))) (w : W)
        → IsBare py open_interest ratios
        → (ratios' : Dict Str (Dict Str (List Json))) × (w' : W) × (fetch_pairs client pairs
              open_interest ratios w
            ≡ (ok (open_interest, ratios'), w'))
          × IsBare py open_interest ratios'
    unfolding fetch_pairs then json_of add_interest
    fetch_pairs-IsBare [] open_interest ratios w h = (ratios, w, refl, h)
    fetch_pairs-IsBare ((_, symbol) ∷ pairs) open_interest ratios w h =
        let (w1, e) =
          fetch_families-unavailable symbol ratio_endpoints []
            (client.fetch (interest_url symbol) w).1 in
        rw (no_interest symbol w, e)
          (fetch_pairs-IsBare pairs open_interest (put symbol [] ratios) w1
            (IsBare-put py symbol open_interest ratios h))

    -- Where the premium index answers and every other endpoint is unavailable, the poll still puts
    -- its object, under the key of its day and instant, with the rows that it would have had, less
    -- the open interest and the ratios.
    pub collect_perp-premium_only :
        (pairs : List (Str × Str)) (poll : ℤ) (w : W) (body : Bytes) (premium_index : List Json)
        (open_interest : Dict Str Json) (ratios : Dict Str (Dict Str (List Json)))
        (rows : List PerpContext) (day : Str)
        → (client.fetch premium_url w).0 ≡ answered body
        → client.loads_array body ≡ some premium_index
        → client.utc_day poll ≡ ok day
        → build_rows py pairs premium_index open_interest ratios poll ≡ ok rows
        → (w' : W) × (collect_perp client py pairs poll w
            ≡ store_rows client
                (perp_key day poll)
                (map context_to_json (map premium_only rows))
                w')
    unfolding collect_perp store_poll then or_empty
    collect_perp-premium_only pairs poll w body premium_index open_interest ratios rows day fetched
          loaded dated built =
        let (ratios', w', gathered, bare) =
          fetch_pairs-IsBare pairs [] [] (client.fetch premium_url w).1 (IsBare-none py) in
        (
          w',
          rw
              (
                fetched,
                json_of-answered client.loads_array body premium_index loaded,
                gathered,
                build_rows-premium_only py open_interest [] ratios ratios' bare pairs premium_index
                    poll rows built,
                dated,
              )
              refl,
        )
