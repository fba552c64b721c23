-- ===== src/Native/Enrichment/Macro.antt =====
-- awsnative/enrichment/macro.py: the macro series, and a CSV export as observations of one vintage.
-- The rows are those of `csv.reader`, a parameter of what reads the text; a row may raise.
pub mod Vintage
use realtime_finance_bot.Base.{
  Bool, true, false, Option, none, some, List, [], ◌∷◌, ◌++◌, if◌then◌else◌, ltb, ◌==◌, ◌||◌, ◌&&◌,
  Str, str, strip, starts_with, Dict, Result, ok, raise, ◌>>=◌,
}
use realtime_finance_bot.Python.Values.{Error, value_error}

pub record MacroSeries : Type 0 where
  pub series_id : Str
  pub description : Str
  pub frequency : Str
  pub revised : Bool

abbrev pub macro_series : Str → Str → Str → Bool → MacroSeries
macro_series series_id description frequency revised = record {
  series_id = series_id;
  description = description;
  frequency = frequency;
  revised = revised;
}

-- `SERIES`
abbrev pub series : List MacroSeries
series =
    macro_series (str "DTWEXBGS") (str "Nominal broad U.S. dollar index") (str "daily") false
    ∷ macro_series (str "DGS2") (str "2-year Treasury constant maturity yield") (str "daily") false
    ∷ macro_series (str "DGS10") (str "10-year Treasury constant maturity yield") (str "daily")
        false
    ∷ macro_series (str "VIXCLS") (str "CBOE volatility index") (str "daily") false
    ∷ macro_series (str "SP500") (str "S&P 500 index") (str "daily") false
    ∷ macro_series (str "CPIAUCSL") (str "CPI, all urban consumers, seasonally adjusted")
        (str "monthly") true
    ∷ []

pub record MacroObservation : Type 0 where
  pub series_id : Str
  pub observation_date : Str
  pub vintage_date : Str
  pub value : Str

-- `MacroObservation.to_json`
unfoldable pub observation_to_json : MacroObservation → Dict Str Str
observation_to_json o =
    (str "series_id", o.series_id)
    ∷ (str "observation_date", o.observation_date)
    ∷ (str "vintage_date", o.vintage_date)
    ∷ (str "value", o.value)
    ∷ []

unfoldable pub alfred_csv_url : Str → Str → Str
alfred_csv_url series_id vintage_date =
    str "https://alfred.stlouisfed.org/graph/alfredgraph.csv"
    ++ (str "?id=" ++ (series_id ++ (str "&vintage_date=" ++ vintage_date)))

-- `s < t` on strings: by code points.
unfoldable pub str_lt : Str → Str → Bool
str_lt s [] = false
str_lt [] (_ ∷ _) = true
str_lt (a ∷ s) (b ∷ t) = ltb a b || (a == b && str_lt s t)

-- `since is not None and observation_date < since`
unfoldable pub is_before : Option Str → Str → Bool
unfolding str_lt
is_before none date = false
is_before (some since) date = str_lt date since

module _ (series_id vintage_date : Str) (since : Option Str) where
  -- A row of two cells; one with an empty value, or of a date before `since`, is skipped.
  unfoldable pub read_cells : Str → Str → Option MacroObservation
  unfolding is_before
  read_cells observation_date [] = none
  read_cells observation_date (c ∷ value) =
      if is_before since observation_date
      then none
      else some (record {
        series_id = series_id;
        observation_date = observation_date;
        vintage_date = vintage_date;
        value = c ∷ value;
      })

  unfoldable pub read_row : List Str → Option MacroObservation
  unfolding read_cells
  read_row (date ∷ value ∷ []) = read_cells (strip date) (strip value)
  read_row _ = none

  unfoldable pub cons_read : Option MacroObservation → List MacroObservation → List MacroObservation
  cons_read none os = os
  cons_read (some o) os = o ∷ os

  -- The loop of `parse_alfred_csv`.
  unfoldable pub read_rows : List (Result Error (List Str)) → Result Error (List MacroObservation)
  unfolding read_row cons_read
  read_rows [] = ok []
  read_rows (row ∷ rows) =
      row >>= λ cells. read_rows rows >>= λ os. ok (cons_read (read_row cells) os)

  unfoldable pub read_header :
      List (Result Error (List Str)) → List Str → Result Error (List MacroObservation)
  unfolding read_rows
  read_header rows (_ ∷ value_column ∷ []) =
      if starts_with value_column series_id then read_rows rows else raise value_error
  read_header rows _ = raise value_error

  unfoldable pub parse_alfred_csv :
      List (Result Error (List Str)) → Result Error (List MacroObservation)
  unfolding read_header
  parse_alfred_csv [] = raise value_error
  parse_alfred_csv (header ∷ rows) = header >>= read_header rows
