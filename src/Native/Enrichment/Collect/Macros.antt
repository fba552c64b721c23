-- ===== src/Native/Enrichment/Collect/Macros.antt =====
-- `MacroCollector.collect` of awsnative/enrichment/collect.py: what each series contributes.
use realtime_finance_bot.Base.{
  ℕ, ◌≡◌, refl, ap, ◌∙◌, Option, some, List, [], ◌∷◌, ◌++◌, map, length, length-map, Str, str, Dict,
  pos, Result, ok, raise,
}
use realtime_finance_bot.Python.Json.{object, dumps}
use realtime_finance_bot.Python.Number.{show_int}
use realtime_finance_bot.Python.Values.{Error}
use realtime_finance_bot.Native.Enrichment.Macro.{
  MacroSeries, series, MacroObservation, observation_to_json, alfred_csv_url, parse_alfred_csv,
}
use realtime_finance_bot.Native.Enrichment.Collect.{
  Fetched, answered, unavailable, failed, Client, then, string_fields, jsonl, macro_key, store_rows,
  read_series, read_all, collect_macro,
}

abbrev pub concat : List (List MacroObservation) → List MacroObservation
concat [] = []
concat (os ∷ parts) = os ++ concat parts

-- The text of the object: one line of JSON for each observation.
abbrev pub object_text : List MacroObservation → Str
object_text [] = []
object_text (o ∷ os) =
    dumps (object (string_fields (observation_to_json o))) ++ (10 ∷ object_text os)

jsonl-object_text :
    (os : List MacroObservation) → jsonl (map observation_to_json os) ≡ object_text os
unfolding jsonl
jsonl-object_text [] = refl
jsonl-object_text (o ∷ os) =
    ap (λ (s : Str). dumps (object (string_fields (observation_to_json o))) ++ (10 ∷ s))
      (jsonl-object_text os)

module _ {W : Type 0} (client : Client W) (vintage_date : Str) (since : Option Str) where
  -- What one answer contributes: a series that did not answer has no observations, and another has
  -- those of its own response.
  abbrev pub IsRead : MacroSeries → Fetched → List MacroObservation → Type 0
  IsRead s unavailable os = os ≡ []
  IsRead s (failed e) os = ⊥
  IsRead s (answered body) os =
      (text : Str) × (client.decode body ≡ some text)
      × (parse_alfred_csv s.series_id vintage_date since (client.csv_reader text) ≡ ok os)

  -- One fetch for each series, in order, with what each contributes.
  abbrev pub AreRead : List MacroSeries → W → List (List MacroObservation) → Type 0
  AreRead [] w [] = Unit
  AreRead [] w (_ ∷ _) = ⊥
  AreRead (s ∷ ss) w [] = ⊥
  AreRead (s ∷ ss) w (os ∷ parts) =
      let (answer, w1) = client.fetch (alfred_csv_url s.series_id vintage_date) w in
      IsRead s answer os × AreRead ss w1 parts

  abbrev pub after_fetches : List MacroSeries → W → W
  after_fetches [] w = w
  after_fetches (s ∷ ss) w =
      after_fetches ss (client.fetch (alfred_csv_url s.series_id vintage_date) w).1

  read_series-IsRead :
      (s : MacroSeries) (answer : Fetched) (os : List MacroObservation)
      → IsRead s answer os
      → read_series client vintage_date since s answer ≡ ok os
  unfolding read_series
  read_series-IsRead s unavailable os h = rw h refl
  read_series-IsRead s (failed e) os h = absurd h
  read_series-IsRead s (answered body) os (text, decoded, parsed) = rw (read_series, decoded) parsed

  read_all-AreRead :
      (ss : List MacroSeries) (w : W) (parts : List (List MacroObservation))
      → AreRead ss w parts
      → read_all client vintage_date since ss w ≡ (ok (concat parts), after_fetches ss w)
  unfolding read_all then
  read_all-AreRead [] w [] h = refl
  read_all-AreRead [] w (_ ∷ _) h = absurd h
  read_all-AreRead (s ∷ ss) w [] h = absurd h
  read_all-AreRead (s ∷ ss) w (os ∷ parts) (h, hs) =
      rw (read_series-IsRead s _ os h, read_all-AreRead ss _ parts hs) refl

  -- What the one put gives: the counts of a body that is stored, with the outside after the put, or
  -- the put's exception.
  abbrev pub after_store : ℕ → Result Error W → W → Result Error (Dict Str Str) × W
  after_store count (ok w') w =
      (ok ((str "rows", show_int (pos count)) ∷ (str "key", macro_key vintage_date) ∷ []), w')
  after_store count (raise e) w = (raise e, w)

  store_rows-after_store :
      (rows : List (Dict Str Str)) (w : W)
      → store_rows client (macro_key vintage_date) rows w
        ≡ after_store
            (length rows)
            (client.store (macro_key vintage_date) (client.compress (jsonl rows)) w)
            w
  unfolding store_rows
  store_rows-after_store rows w =
      branches (client.store (macro_key vintage_date) (client.compress (jsonl rows)) w)
    where
      branches :
          (r : Result Error W)
          → elim r [
            | ok w' ↦ (
              ok (
                  (str "rows", show_int (pos (length rows)))
                  ∷ (str "key", macro_key vintage_date)
                  ∷ []),
              w',
            )
            | raise e ↦ (raise e, w)
          ]
            ≡ after_store (length rows) r w
      branches (ok w') = refl
      branches (raise e) = refl

  store_rows-object :
      (os : List MacroObservation) (w : W)
      → store_rows client (macro_key vintage_date) (map observation_to_json os) w
        ≡ after_store
            (length os)
            (client.store (macro_key vintage_date) (client.compress (object_text os)) w)
            w
  store_rows-object os w =
      store_rows-after_store (map observation_to_json os) w
      ∙ (ap
            (λ (n : ℕ).
              after_store n
                (client.store (macro_key vintage_date)
                  (client.compress (jsonl (map observation_to_json os))) w)
                w)
            (length-map observation_to_json os)
          ∙ ap
              (λ (s : Str).
                after_store (length os)
                  (client.store (macro_key vintage_date) (client.compress s) w) w)
              (jsonl-object_text os))

  -- Where every series is unavailable or answers with a response of its own that can be read, each of
  -- the six is fetched once, in order, and then `store` is called once: under the vintage's key, on
  -- the compressed lines of the observations of every series that answered, in order. A series that
  -- is unavailable costs none of the others. The run gives the number of observations and the key, or
  -- the exception of the put.
  pub collect_macro-AreRead :
      (w : W) (parts : List (List MacroObservation))
      → AreRead series w parts
      → collect_macro client vintage_date since w
        ≡ after_store
            (length (concat parts))
            (client.store
              (macro_key vintage_date)
              (client.compress (object_text (concat parts)))
              (after_fetches series w))
            (after_fetches series w)
  unfolding collect_macro then
  collect_macro-AreRead w parts h =
      rw (read_all-AreRead series w parts h)
        (store_rows-object (concat parts) (after_fetches series w))
