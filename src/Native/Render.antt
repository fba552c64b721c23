-- ===== src/Native/Render.antt =====
-- awsnative/render.py: the statements, from the texts of the .sql files, which are a parameter; a
-- file that cannot be read raises.
pub mod Template
pub mod Placeholder
use realtime_finance_bot.Base.{
  ◌==◌, Bool, true, false, Option, none, some, List, [], ◌∷◌, ◌++◌, last?, if◌then◌else◌, Str, str,
  str_eq, str_Eq, join, Dict, get, put, ℤ, Result, ok, raise, ◌>>=◌,
}
use realtime_finance_bot.Python.Number.{show_int}
use realtime_finance_bot.Python.Values.{Error, key_error}
use realtime_finance_bot.Native.Render.Template.{substitute}

-- `render`
unfoldable pub render : Str → Dict Str Str → Result Error Str
unfolding substitute
render text params = substitute params text

abbrev pub ddl_files : List Str
ddl_files =
    str "010_silver_trades.sql"
    ∷ str "020_silver_trades_quarantine.sql"
    ∷ str "030_gold_bars_1m.sql"
    ∷ str "040_backfill_manifest.sql"
    ∷ str "041_archive_staging_klines.sql"
    ∷ str "042_archive_staging_trades.sql"
    ∷ str "043_backfill_outcomes.sql"
    ∷ str "050_bronze_perp_context.sql"
    ∷ str "051_bronze_macro_observations.sql"
    ∷ str "052_silver_perp_context.sql"
    ∷ str "053_silver_macro.sql"
    ∷ str "054_native_health_metrics.sql"
    ∷ []

-- `MAINTAINED_TABLES`
abbrev pub maintained_tables : List Str
maintained_tables =
    str "silver_trades"
    ∷ str "silver_trades_quarantine"
    ∷ str "gold_bars_1m"
    ∷ str "silver_perp_context"
    ∷ str "silver_macro"
    ∷ str "native_health_metrics"
    ∷ []

-- `MAINTENANCE_PARTITION_PREDICATES`
abbrev pub partition_predicates : Dict Str Str
partition_predicates =
    (str "silver_trades", str "event_ts >= current_date - interval '${lookback_days}' day")
    ∷ (
      str "silver_trades_quarantine",
      str "ingest_date >= date_format(current_date - interval '${lookback_days}' day, '%Y-%m-%d')",
    )
    ∷ (str "gold_bars_1m", str "window_end_ts >= current_date - interval '${lookback_days}' day")
    ∷ (
      str "silver_perp_context",
      str "snapshot_ts >= current_date - interval '${lookback_days}' day",
    )
    ∷ (
      str "native_health_metrics",
      str "metric_ts >= current_date - interval '${lookback_days}' day",
    )
    ∷ []

-- `HEALTH_METRICS_FRESHNESS_EXPR`
abbrev pub freshness_templates : Dict Str Str
freshness_templates =
    (
      str "silver_trades",
      str
          "(SELECT to_unixtime(current_timestamp) - to_unixtime(max(event_ts)) FROM ${database}.silver_trades)",
    )
    ∷ (
      str "gold_bars_1m",
      str
          "(SELECT to_unixtime(current_timestamp) - to_unixtime(max(window_end_ts)) FROM ${database}.gold_bars_1m)",
    )
    ∷ (
      str "silver_perp_context",
      str
          "(SELECT to_unixtime(current_timestamp) - to_unixtime(max(snapshot_ts)) FROM ${database}.silver_perp_context)",
    )
    ∷ (
      str "silver_macro",
      str
          "(SELECT to_unixtime(current_timestamp) - to_unixtime(CAST(max(vintage_date) AS TIMESTAMP)) FROM ${database}.silver_macro)",
    )
    ∷ []

abbrev pub quarantine_template : Str
quarantine_template =
    str
      "(SELECT 100.0 * (SELECT count(*) FROM ${database}.silver_trades_quarantine WHERE ingest_date >= date_format(current_date - interval '${lookback_days}' day, '%Y-%m-%d')) / NULLIF((SELECT count(*) FROM ${database}.silver_trades WHERE event_ts >= current_date - interval '${lookback_days}' day), 0))"

-- `HEALTH_METRICS_TIER`
abbrev pub metrics_tiers : Dict Str Str
metrics_tiers =
    (str "silver_trades", str "fast")
    ∷ (str "silver_trades_quarantine", str "fast")
    ∷ (str "gold_bars_1m", str "fast")
    ∷ (str "silver_perp_context", str "fast")
    ∷ (str "silver_macro", str "slow")
    ∷ (str "native_health_metrics", str "fast")
    ∷ []

-- `warehouse` with a slash at its end.
unfoldable pub with_slash : Str → Str
with_slash warehouse = elim (last? warehouse) [
  | none ↦ str "/"
  | some c ↦ if c == b'/' then warehouse else warehouse ++ str "/"
]

abbrev pub database_only : Str → Dict Str Str
database_only database = (str "database", database) ∷ []

abbrev pub with_lookback : Str → ℤ → Dict Str Str
with_lookback database lookback_days =
    (str "database", database) ∷ (str "lookback_days", show_int lookback_days) ∷ []

module _ (read_sql : Str → Result Error Str) where
  -- One file by its name, and a list of files.
  unfoldable pub render_file : Str → Dict Str Str → Result Error Str
  unfolding render
  render_file relative params = read_sql relative >>= λ text. render text params

  unfoldable pub ddl_of : Dict Str Str → List Str → Result Error (Dict Str Str)
  unfolding render_file
  ddl_of params [] = ok []
  ddl_of params (name ∷ names) = do
    sql ← render_file (str "ddl/" ++ name) params
    rest ← ddl_of params names
    ok ((name, sql) ∷ rest)

  unfoldable pub ddl_statements : Str → Str → Str → Result Error (Dict Str Str)
  unfolding ddl_of with_slash
  ddl_statements database warehouse projection_start_date =
      ddl_of
        ((str "database", database)
          ∷ (str "warehouse", with_slash warehouse)
          ∷ (str "projection_start_date", projection_start_date)
          ∷ [])
        ddl_files

  unfoldable pub valid_expr : Result Error Str
  valid_expr = read_sql (str "fragments/valid_trade.sql")

  unfoldable pub dirty_from_bronze : Str → ℤ → Result Error Str
  unfolding render_file show_int
  dirty_from_bronze database lookback_days =
      render_file (str "fragments/dirty_from_bronze.sql") (with_lookback database lookback_days)

  unfoldable pub merge_statements : Str → ℤ → Result Error (Dict Str Str)
  unfolding valid_expr dirty_from_bronze render_file show_int
  merge_statements database lookback_days = do
    expr ← valid_expr
    silver ←
        render_file (str "merge_silver_trades.sql")
          ((str "valid_expr", expr) ∷ with_lookback database lookback_days)
    quarantine ←
        render_file (str "merge_silver_quarantine.sql")
          ((str "valid_expr", expr) ∷ with_lookback database lookback_days)
    gold_text ← read_sql (str "merge_gold_bars_1m.sql")
    dirty ← dirty_from_bronze database lookback_days
    gold ← render gold_text ((str "dirty_cte", dirty) ∷ database_only database)
    ok (
        (str "merge_silver_trades.sql", silver)
        ∷ (str "merge_silver_quarantine.sql", quarantine)
        ∷ (str "merge_gold_bars_1m.sql", gold)
        ∷ [])

  unfoldable pub backfill_of : Str → List Str → Result Error (Dict Str Str)
  unfolding render_file
  backfill_of database [] = ok []
  backfill_of database (name ∷ names) = do
    sql ← render_file name (database_only database)
    rest ← backfill_of database names
    ok ((name, sql) ∷ rest)

  unfoldable pub backfill_statements : Str → Result Error (Dict Str Str)
  unfolding backfill_of
  backfill_statements database = backfill_of database (
      str "merge_manifest_outcomes.sql"
      ∷ str "merge_silver_from_archive.sql"
      ∷ str "merge_gold_from_archive.sql"
      ∷ [])

  unfoldable pub enrichment_statements : Str → ℤ → Result Error (Dict Str Str)
  unfolding render_file show_int
  enrichment_statements database lookback_days = do
    perp ← render_file (str "merge_silver_perp_context.sql") (with_lookback database lookback_days)
    macro ← render_file (str "merge_silver_macro.sql") (database_only database)
    ok ((str "merge_silver_perp_context.sql", perp) ∷ (str "merge_silver_macro.sql", macro) ∷ [])

  unfoldable pub optimize_of : Str → ℤ → Str → Str → Option Str → Result Error (Option Str)
  unfolding render show_int
  optimize_of database lookback_days template table none = ok none
  optimize_of database lookback_days template table (some predicate_template) = do
    predicate ← render predicate_template ((str "lookback_days", show_int lookback_days) ∷ [])
    sql ← render template (
        (str "database", database)
        ∷ (str "table", table)
        ∷ (str "partition_predicate", predicate)
        ∷ [])
    ok (some sql)

  -- For each table, `vacuum` and `optimize`.
  unfoldable pub maintenance_of :
      Str → ℤ → Str → Str → List Str → Result Error (Dict Str (Str × Option Str))
  unfolding optimize_of render
  maintenance_of database lookback_days vacuum_template optimize_template [] = ok []
  maintenance_of database lookback_days vacuum_template optimize_template (table ∷ tables) = do
    vacuum ← render vacuum_template ((str "database", database) ∷ (str "table", table) ∷ [])
    optimize ←
        optimize_of database lookback_days optimize_template table (get table partition_predicates)
    rest ← maintenance_of database lookback_days vacuum_template optimize_template tables
    ok ((table, (vacuum, optimize)) ∷ rest)

  unfoldable pub maintenance_statements : Str → ℤ → Result Error (Dict Str (Str × Option Str))
  unfolding maintenance_of
  maintenance_statements database lookback_days = do
    vacuum_template ← read_sql (str "vacuum_table.sql")
    optimize_template ← read_sql (str "optimize_table.sql")
    maintenance_of database lookback_days vacuum_template optimize_template maintained_tables

  unfoldable pub freshness_of : Str → Option Str → Result Error Str
  unfolding render
  freshness_of database none = ok (str "CAST(NULL AS bigint)")
  freshness_of database (some template) = render template (database_only database)

  unfoldable pub quarantine_of : Str → ℤ → Str → Result Error Str
  unfolding render show_int
  quarantine_of database lookback_days table =
      if str_eq table (str "silver_trades_quarantine")
      then render quarantine_template (with_lookback database lookback_days)
      else ok (str "CAST(NULL AS double)")

  -- `HEALTH_METRICS_TIER[table]`
  unfoldable pub metrics_tier_of : Str → Result Error Str
  metrics_tier_of table = elim (get table metrics_tiers) [
    | none ↦ raise key_error
    | some tier ↦ ok tier
  ]

  unfoldable pub health_rows : Str → ℤ → Str → List Str → Result Error (List Str)
  unfolding freshness_of quarantine_of metrics_tier_of render
  health_rows database lookback_days row_template [] = ok []
  health_rows database lookback_days row_template (table ∷ tables) = do
    freshness ← freshness_of database (get table freshness_templates)
    quarantine ← quarantine_of database lookback_days table
    tier ← metrics_tier_of table
    row ← render row_template (
        (str "database", database)
        ∷ (str "table", table)
        ∷ (str "tier", tier)
        ∷ (str "freshness_expr", freshness)
        ∷ (str "quarantine_expr", quarantine)
        ∷ [])
    rest ← health_rows database lookback_days row_template tables
    ok (row ∷ rest)

  unfoldable pub health_metrics_select_statement : Str → List Str → ℤ → Result Error Str
  unfolding health_rows
  health_metrics_select_statement database tables lookback_days = do
    row_template ← read_sql (str "health_metrics_row.sql")
    rows ← health_rows database lookback_days row_template tables
    ok (join (str "\nUNION ALL\n") rows)
