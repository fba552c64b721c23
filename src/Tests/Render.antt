-- ===== src/Tests/Render.antt =====
-- Statements of awsnative/render.py on small texts.
use realtime_finance_bot.Base.{
  ◌≡◌, refl, none, some, [], ◌∷◌, ◌++◌, Str, str, str_eq, str_Eq, Dict, get, pos, ok, raise, ◌>>=◌,
}
use realtime_finance_bot.Python.Values.{key_error, value_error}
use realtime_finance_bot.Native.Render.{
  render, maintenance_statements, health_metrics_select_statement,
}
use realtime_finance_bot.Native.Render.Template.{is_name_start, is_name_char}
use realtime_finance_bot.Native.Render.Placeholder.{render-placeholder}
use realtime_finance_bot.Native.Monitoring.{metric_data, literals}

abbrev params : Dict Str Str
params = (str "database", str "md") ∷ []

render-placeholder_example :
    render (str "SELECT 1 FROM " ++ str "${database}.t") params
    ≡ elim (get (str "database") params) [
      | none ↦ raise key_error
      | some v ↦ render (str ".t") params >>= λ r. ok (str "SELECT 1 FROM " ++ (v ++ r))
    ]
unfolding is_name_start is_name_char
render-placeholder_example =
    render-placeholder params (str "SELECT 1 FROM ") b'd' (str "atabase") (str ".t") refl refl refl

rendered_run : render (str "$$${database}.$database!") params ≡ ok (str "$md.md!")
unfolding render get str_eq
rendered_run = refl

missing_run : render (str "x ${warehouse}") params ≡ raise key_error
unfolding render get str_eq
missing_run = refl

lone_run : render (str "a $ b") params ≡ raise value_error
unfolding render
lone_run = refl

-- A table without an entry has no OPTIMIZE.
vacuum_only :
    (maintenance_statements (λ name. ok (str "${database} ${table}")) (str "md") (pos 1) >>= λ ts.
    ok (get (str "silver_macro") ts))
    ≡ ok (some (str "md silver_macro", none))
unfolding maintenance_statements get str_eq
vacuum_only = refl

no_tier :
    health_metrics_select_statement (λ name. ok []) (str "md") (str "unknown" ∷ []) (pos 1)
    ≡ raise key_error
unfolding health_metrics_select_statement get str_eq
no_tier = refl

-- An empty cell is no metric, and NULL in the statement.
metrics_run :
    metric_data
      (λ text. some text)
      (((str "table_name", str "silver_macro")
          ∷ (str "row_count", str "7")
          ∷ (str "quarantine_rate_pct", [])
          ∷ (str "freshness_lag_seconds", str "30")
          ∷ [])
        ∷ [])
    ≡ ok (
        record {
          metric_name = str "RowCount";
          table = str "silver_macro";
          value = str "7";
          unit = str "None";
        }
        ∷ record {
          metric_name = str "FreshnessLagSeconds";
          table = str "silver_macro";
          value = str "30";
          unit = str "Seconds";
        }
        ∷ [])
unfolding metric_data get
metrics_run = refl

literals_run :
    literals
      ((str "table_name", str "t") ∷ (str "row_count", str "7") ∷ [])
      (str "table_name" ∷ str "row_count" ∷ str "tier" ∷ [])
    ≡ str "'t'" ∷ str "7" ∷ str "NULL" ∷ []
unfolding literals get str_eq
literals_run = refl
