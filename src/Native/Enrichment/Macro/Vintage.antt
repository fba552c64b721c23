-- ===== src/Native/Enrichment/Macro/Vintage.antt =====
-- What `parse_alfred_csv` of awsnative/enrichment/macro.py keeps, and what it refuses.
use realtime_finance_bot.Base.{
  ◌≡◌, refl, ap, ◌≢◌, ◌⊎◌, inl, inr, Bool, true, false, not, ◌||◌, Option, none, some, List, [],
  ◌∷◌, ◌++◌, ◌==◌, keep, all, arith, Bool-cases, Str, str_eq, str_eq→eq, strip, starts_with, Result,
  ok, raise, ◌>>=◌,
}
use realtime_finance_bot.Python.Values.{Error, value_error}
use realtime_finance_bot.Native.Enrichment.Macro.{
  MacroSeries, series, MacroObservation, str_lt, is_before, read_cells, read_row, cons_read,
  read_rows, read_header, parse_alfred_csv,
}

abbrev pub is_since : Str → MacroObservation → Bool
is_since since o = not (str_lt o.observation_date since)

keep_since : Str → Result Error (List MacroObservation) → Result Error (List MacroObservation)
keep_since since observations = observations >>= λ os. ok (keep (is_since since) os)

module _ (series_id vintage_date since : Str) where
  cells_since :
      (date value : Str) (os : List MacroObservation)
      → cons_read series_id vintage_date
          (some since)
          (read_cells series_id vintage_date (some since) date value)
          (keep (is_since since) os)
        ≡ keep (is_since since) (
            cons_read series_id vintage_date none
              (read_cells series_id vintage_date none date value)
              os)
  unfolding read_cells cons_read is_before
  cells_since date [] os = refl
  cells_since date (c ∷ value) os = elim (Bool-cases (str_lt date since)) [
    | inl b ↦ rw b refl
    | inr b ↦ rw b refl
  ]

  row_since :
      (cells : List Str) (os : List MacroObservation)
      → cons_read series_id vintage_date
          (some since)
          (read_row series_id vintage_date (some since) cells)
          (keep (is_since since) os)
        ≡ keep
            (is_since since)
            (cons_read series_id vintage_date none (read_row series_id vintage_date none cells) os)
  unfolding read_row cons_read
  row_since [] os = refl
  row_since (_ ∷ []) os = refl
  row_since (date ∷ value ∷ []) os = cells_since (strip date) (strip value) os
  row_since (_ ∷ _ ∷ _ ∷ _) os = refl

  rest_since :
      (cells : List Str) (rest : Result Error (List MacroObservation))
      → (keep_since since rest >>= λ os. ok (
          cons_read series_id vintage_date
            (some since)
            (read_row series_id vintage_date (some since) cells)
            os))
        ≡ keep_since since (
            rest >>= λ os.
            ok (
              cons_read series_id vintage_date none
                (read_row series_id vintage_date none cells)
                os))
  unfolding keep_since
  rest_since cells (raise e) = refl
  rest_since cells (ok os) = ap (λ xs. ok xs) (row_since cells os)

  rows_since :
      (rows : List (Result Error (List Str)))
      → read_rows series_id vintage_date (some since) rows
        ≡ keep_since since (read_rows series_id vintage_date none rows)
  unfolding read_rows keep_since
  rows_since [] = refl
  rows_since (raise e ∷ rows) = refl
  rows_since (ok cells ∷ rows) =
      rw (rows_since rows) (rest_since cells (read_rows series_id vintage_date none rows))

  header_since :
      (rows : List (Result Error (List Str))) (header : List Str)
      → read_header series_id vintage_date (some since) rows header
        ≡ keep_since since (read_header series_id vintage_date none rows header)
  unfolding read_header keep_since
  header_since rows [] = refl
  header_since rows (_ ∷ []) = refl
  header_since rows (_ ∷ value_column ∷ []) =
      elim (Bool-cases (starts_with value_column series_id)) [
        | inl b ↦ rw b (rows_since rows)
        | inr b ↦ rw b refl
      ]
  header_since rows (_ ∷ _ ∷ _ ∷ _) = refl

  -- With `since`, the observations are those of the whole response whose date is not before it, in
  -- order; and the same responses are refused.
  pub parse_alfred_csv-since :
      (rows : List (Result Error (List Str)))
      → parse_alfred_csv series_id vintage_date (some since) rows ≡ (
          parse_alfred_csv series_id vintage_date none rows >>= λ os.
          ok (keep (λ o. not (str_lt o.observation_date since)) os))
  unfolding parse_alfred_csv keep_since
  parse_alfred_csv-since [] = refl
  parse_alfred_csv-since (raise e ∷ rows) = refl
  parse_alfred_csv-since (ok header ∷ rows) = header_since rows header

-- The two differ at some position that both have.
diverge : Str → Str → Bool
diverge [] _ = false
diverge (_ ∷ _) [] = false
diverge (a ∷ s) (b ∷ t) = not (a == b) || diverge s t

starts_with-diverge : (s t suffix : Str) → diverge s t ≡ true → starts_with (t ++ suffix) s ≡ false
unfolding diverge starts_with
starts_with-diverge [] t suffix h = absurd (ground arith)
starts_with-diverge (_ ∷ _) [] suffix h = absurd (ground arith)
starts_with-diverge (a ∷ s) (b ∷ t) suffix h = ground (arith, starts_with-diverge s t suffix)

are_apart : MacroSeries → MacroSeries → Bool
are_apart s t = str_eq s.series_id t.series_id || diverge s.series_id t.series_id

all_apart : all (λ s. all (are_apart s) series) series ≡ true
unfolding are_apart diverge str_eq
all_apart = refl

abbrev pub IsIn : MacroSeries → List MacroSeries → Type 0
IsIn s [] = ⊥
IsIn s (t ∷ ts) = (s ≡ t) ⊎ IsIn s ts

all-IsIn :
    (p : MacroSeries → Bool) (ts : List MacroSeries) (s : MacroSeries)
    → all p ts ≡ true
    → IsIn s ts
    → p s ≡ true
all-IsIn p [] s h m = absurd m
all-IsIn p (t ∷ ts) s h (inl e) = rw e (ground arith)
all-IsIn p (t ∷ ts) s h (inr m) = all-IsIn p ts s (ground arith) m

IsIn-are_apart : (s t : MacroSeries) → IsIn s series → IsIn t series → are_apart s t ≡ true
IsIn-are_apart s t m n =
    all-IsIn (are_apart s) series t (all-IsIn (λ u. all (are_apart u) series) series s all_apart m)
      n

diverge-are_apart :
    (s t : MacroSeries)
    → are_apart s t ≡ true
    → s.series_id ≢ t.series_id
    → diverge s.series_id t.series_id ≡ true
unfolding are_apart
diverge-are_apart s t h differ = elim (Bool-cases (str_eq s.series_id t.series_id)) [
  | inl same ↦ absurd (differ (str_eq→eq _ _ same))
  | inr other ↦ rw other at h
]

-- A response that names another of the six series is refused, whatever follows the name and the
-- header.
pub parse_alfred_csv-wrong_series :
    (s t : MacroSeries) (vintage_date : Str) (since : Option Str) (date_column suffix : Str)
    (rows : List (Result Error (List Str)))
    → IsIn s series
    → IsIn t series
    → s.series_id ≢ t.series_id
    → parse_alfred_csv s.series_id vintage_date since
        (ok (date_column ∷ (t.series_id ++ suffix) ∷ []) ∷ rows)
      ≡ raise value_error
unfolding parse_alfred_csv read_header
parse_alfred_csv-wrong_series s t vintage_date since date_column suffix rows m n differ =
    rw
      (starts_with-diverge s.series_id t.series_id suffix
        (diverge-are_apart s t (IsIn-are_apart s t m n) differ))
      refl
