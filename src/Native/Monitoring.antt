-- ===== src/Native/Monitoring.antt =====
-- awsnative/monitoring/collect.py: the metrics and the statement that are derived from the rows of the
-- health query. Python's `float` is a parameter; a cell's text is as Athena gives it.
use realtime_finance_bot.Base.{
  ℕ, ◌-◌, Bool, true, false, ◌&&◌, Option, none, some, List, [], ◌∷◌, ◌++◌, map, leb, if◌then◌else◌,
  length, pos, Str, str, ends_with, str_eq, str_Eq, lower, split_on, join, Dict, get, Result, ok,
  raise, ◌>>=◌,
}
use realtime_finance_bot.Python.Number.{show_int}
use realtime_finance_bot.Python.Values.{Error, key_error}
use realtime_finance_bot.Native.Render.{health_metrics_select_statement}

-- `_METRIC_COLUMNS`
abbrev pub metric_columns : List Str
metric_columns =
    str "row_count"
    ∷ str "file_count"
    ∷ str "avg_file_size_mb"
    ∷ str "small_file_pct"
    ∷ str "delete_file_count"
    ∷ str "snapshot_count"
    ∷ str "oldest_snapshot_age_seconds"
    ∷ str "freshness_lag_seconds"
    ∷ str "quarantine_rate_pct"
    ∷ []

-- `_INSERT_COLUMNS`
abbrev pub insert_columns : List Str
insert_columns = str "metric_ts" ∷ str "table_name" ∷ str "tier" ∷ metric_columns

-- `part.capitalize()`
unfoldable pub capitalize : Str → Str
unfolding lower
capitalize [] = []
capitalize (c ∷ s) = (if leb 97 c && leb c 122 then c - 32 else c) ∷ lower s

unfoldable pub concat : List Str → Str
concat [] = []
concat (s ∷ ss) = s ++ concat ss

unfoldable pub pascal_case : Str → Str
unfolding capitalize concat split_on
pascal_case column = concat (map capitalize (split_on b'_' column))

-- `column.endswith("_seconds")`
unfoldable pub metric_unit : Str → Str
unfolding ends_with
metric_unit column = if ends_with column (str "_seconds") then str "Seconds" else str "None"

-- The rendering of a cell back into SQL.
unfoldable pub sql_literal : Option Str → Bool → Str
sql_literal none quote = str "NULL"
sql_literal (some []) quote = str "NULL"
sql_literal (some (c ∷ s)) true = b'\'' ∷ c ∷ (s ++ (b'\'' ∷ []))
sql_literal (some (c ∷ s)) false = c ∷ s

-- `column in _STRING_COLUMNS`
unfoldable pub is_string_column : Str → Bool
is_string_column column =
    if str_eq column (str "metric_ts")
    then true
    else if str_eq column (str "table_name")
    then true
    else str_eq column (str "tier")

unfoldable pub literals : Dict Str Str → List Str → List Str
unfolding sql_literal is_string_column
literals row [] = []
literals row (column ∷ columns) =
    sql_literal (get column row) (is_string_column column) ∷ literals row columns

unfoldable pub value_rows : List (Dict Str Str) → List Str
unfolding literals
value_rows [] = []
value_rows (row ∷ rows) =
    (b'(' ∷ (join (str ", ") (literals row insert_columns) ++ str ")")) ∷ value_rows rows

unfoldable pub insert_statement : Str → List (Dict Str Str) → Str
unfolding value_rows
insert_statement database rows =
    str "INSERT INTO "
    ++ (database
        ++ (str ".native_health_metrics ("
            ++ (join (str ", ") insert_columns
                ++ (str ") VALUES " ++ join (str ", ") (value_rows rows)))))

module _ {Float : Type 0} (float : Str → Option Float) where
  -- One entry of `PutMetricData`.
  pub record Metric : Type 0 where
    pub metric_name : Str
    pub table : Str
    pub value : Float
    pub unit : Str

  -- `_f`
  unfoldable pub cell_value : Option Str → Option Float
  cell_value none = none
  cell_value (some []) = none
  cell_value (some (c ∷ s)) = float (c ∷ s)

  unfoldable pub add_metric : Str → Str → Option Float → List Metric → List Metric
  unfolding pascal_case metric_unit
  add_metric table column none entries = entries
  add_metric table column (some value) entries =
      record {
        metric_name = pascal_case column;
        table = table;
        value = value;
        unit = metric_unit column;
      }
      ∷ entries

  unfoldable pub row_metrics : Str → Dict Str Str → List Str → List Metric
  unfolding add_metric cell_value
  row_metrics table row [] = []
  row_metrics table row (column ∷ columns) =
      add_metric table column (cell_value (get column row)) (row_metrics table row columns)

  -- `row["table_name"]`
  unfoldable pub table_name : Dict Str Str → Result Error Str
  table_name row = elim (get (str "table_name") row) [ none ↦ raise key_error | some t ↦ ok t ]

  unfoldable pub metric_data : List (Dict Str Str) → Result Error (List Metric)
  unfolding row_metrics table_name
  metric_data [] = ok []
  metric_data (row ∷ rows) = do
    table ← table_name row
    rest ← metric_data rows
    ok (row_metrics table row metric_columns ++ rest)

  -- `health_metrics_handler`: the runner's query and statement, and the call that publishes, act on
  -- the outside.
  module _ {W : Type 0} (query : Str → ℕ → W → Result Error (List (Dict Str Str)) × W)
      (statement : Str → W → Result Error (Unit {0}) × W) (publish : List Metric → W → W) where
    unfoldable pub publish_some : List Metric → W → W
    publish_some [] w = w
    publish_some (entry ∷ entries) w = publish (entry ∷ entries) w

    unfoldable pub after_insert : ℕ → Result Error (Unit {0}) × W → Result Error (Dict Str Str) × W
    unfolding show_int
    after_insert count (raise e, w) = (raise e, w)
    after_insert count (ok _, w) = (ok ((str "tables", show_int (pos count)) ∷ []), w)

    unfoldable pub store_metrics :
        Str → List (Dict Str Str) → Result Error (List Metric) → W → Result Error (Dict Str Str) × W
    unfolding publish_some insert_statement after_insert
    store_metrics database rows (raise e) w = (raise e, w)
    store_metrics database rows (ok entries) w =
        after_insert (length rows)
          (statement (insert_statement database rows) (publish_some entries w))

    unfoldable pub after_query :
        Str → Result Error (List (Dict Str Str)) × W → Result Error (Dict Str Str) × W
    unfolding store_metrics metric_data
    after_query database (raise e, w) = (raise e, w)
    after_query database (ok rows, w) = store_metrics database rows (metric_data rows) w

    unfoldable pub health_metrics_handler :
        (Str → Result Error Str) → Str → List Str → W → Result Error (Dict Str Str) × W
    unfolding after_query health_metrics_select_statement
    health_metrics_handler read_sql database tables w =
        elim (health_metrics_select_statement read_sql database tables (pos 1)) [
          | raise e ↦ (raise e, w)
          | ok sql ↦ after_query database (query sql (length tables) w)
        ]
