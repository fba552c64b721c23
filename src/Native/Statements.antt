-- ===== src/Native/Statements.antt =====
-- awsnative/ddl.py and query.py: the loops over statements, as what they return and do to the outside.
-- The arguments, and the rows that query.py reads back to
-- print them, are not modelled.
use realtime_finance_bot.Base.{
  ℕ, ◌+◌, ◌==◌, List, [], ◌∷◌, if◌then◌else◌, Str, str, has_part, Dict, Result, ok, raise,
}
use realtime_finance_bot.Native.Athena.{QueryOutcome, AthenaError, split_statements}

-- The runner's `execute` on the outside, and the text of its error.
module _ {W : Type 0} (execute : Str → W → Result AthenaError QueryOutcome × W)
    (message : AthenaError → Str) where
  unfoldable pub after_ddl : (W → ℕ × W) → Result AthenaError QueryOutcome × W → ℕ × W
  unfolding has_part
  after_ddl next (ok outcome, w) = next w
  after_ddl next (raise e, w) =
      let rest = next w in if has_part (message e) (str "AlreadyExists") then rest else (1, w)

  -- `main` of ddl.py: the exit code.
  unfoldable pub run_ddl : Dict Str Str → W → ℕ × W
  unfolding after_ddl
  run_ddl [] w = (0, w)
  run_ddl ((name, sql) ∷ statements) w = after_ddl (run_ddl statements) (execute sql w)

  -- `main` of query.py: a statement that fails is counted, and the others are run.
  unfoldable pub after_query : (ℕ → W → ℕ × W) → ℕ → Result AthenaError QueryOutcome × W → ℕ × W
  after_query next failures (ok outcome, w) = next failures w
  after_query next failures (raise e, w) = next (failures + 1) w

  unfoldable pub run_queries : List Str → ℕ → W → ℕ × W
  unfolding after_query
  run_queries [] failures w = (if failures == 0 then 0 else 1, w)
  run_queries (sql ∷ statements) failures w =
      after_query (run_queries statements) failures (execute sql w)

  unfoldable pub run_file : Str → W → ℕ × W
  unfolding run_queries split_statements
  run_file text w = elim (split_statements text) [
    | [] ↦ (1, w)
    | sql ∷ statements ↦ run_queries (sql ∷ statements) 0 w
  ]
