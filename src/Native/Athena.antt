-- ===== src/Native/Athena.antt =====
-- awsnative/athena.py: the splitting of a file of statements, the wait for a query and its first
-- page of rows. The client's answers are inputs, and durations are whole milliseconds.
pub mod Split
pub mod Wait
use realtime_finance_bot.Base.{
  ℕ, zero, suc, ◌+◌, ◌/◌, min, Bool, true, false, not, ◌&&◌, Option, none, some, List, [], ◌∷◌,
  ◌++◌, map, keep, leb, ◌==◌, if◌then◌else◌, Str, str, str_eq, str_Eq, strip, Dict, put, Result, ok,
  raise,
}

-- Where the scan of `split_statements` is.
pub data Mode : Type 0 where
  plain in_single_quote in_line_comment : Mode

-- Whether the next character is a minus sign.
abbrev pub minus_next : Str → Bool
minus_next [] = false
minus_next (c ∷ s) = c == b'-'

-- The mode after a character, given what follows it.
unfoldable pub next_mode : Mode → ℕ → Str → Mode
next_mode in_line_comment c s = if c == 10 then plain else in_line_comment
next_mode in_single_quote c s = if c == 39 then plain else in_single_quote
next_mode plain c s =
    if c == 39
    then in_single_quote
    else if c == b'-' && minus_next s
    then in_line_comment
    else plain

-- Whether the character is kept, and whether it ends a statement.
unfoldable pub is_kept : Mode → ℕ → Str → Bool
is_kept in_line_comment c s = c == 10
is_kept in_single_quote c s = true
is_kept plain c s = not (c == b'-' && minus_next s)

unfoldable pub is_separator : Mode → ℕ → Bool
is_separator plain c = c == b';'
is_separator _ c = false

-- The statements from a mode on, with what is read of the current one.
unfoldable pub scan : Mode → Str → Str → List Str
unfolding next_mode is_kept is_separator
scan mode current [] = current ∷ []
scan mode current (c ∷ s) =
    let mode' = next_mode mode c s in
    let next =
      if is_separator mode c
      then []
      else if is_kept mode c s
      then current ++ (c ∷ [])
      else current in
    let rest = scan mode' next s in if is_separator mode c then current ∷ rest else rest

abbrev pub is_filled : Str → Bool
is_filled [] = false
is_filled (_ ∷ _) = true

unfoldable pub split_statements : Str → List Str
unfolding scan
split_statements text = keep is_filled (map strip (scan plain [] text))

-- What `get_query_execution` says of a query.
pub record Execution : Type 0 where
  pub state : Str
  pub data_scanned : Option ℕ
  pub total_time : Option ℕ
  pub state_change_reason : Option Str

pub record QueryOutcome : Type 0 where
  pub query_execution_id : Str
  pub state : Str
  pub data_scanned_bytes : ℕ
  pub elapsed_ms : ℕ
  pub reason : Option Str

-- The two messages of `AthenaError`.
pub data AthenaError : Type 0 where
  ended : Str → Str → Option Str → AthenaError
  still_running : Str → Str → AthenaError

unfoldable pub is_terminal : Str → Bool
is_terminal state =
    if str_eq state (str "SUCCEEDED")
    then true
    else if str_eq state (str "FAILED")
    then true
    else str_eq state (str "CANCELLED")

abbrev pub or_zero : Option ℕ → ℕ
or_zero none = 0
or_zero (some n) = n

unfoldable pub outcome_of : Str → Execution → QueryOutcome
outcome_of id e = record {
  query_execution_id = id;
  state = e.state;
  data_scanned_bytes = or_zero e.data_scanned;
  elapsed_ms = or_zero e.total_time;
  reason = e.state_change_reason;
}

module _ (poll_interval timeout : ℕ) (id : Str) (described : ℕ → Execution) where
  -- The loop of `start_and_wait`, from the answer of the given number; `none` is out of fuel.
  unfoldable pub wait_from : ℕ → ℕ → ℕ → Option (Result AthenaError QueryOutcome)
  wait_from zero answer waited = none
  wait_from (suc fuel) answer waited =
      let later = wait_from fuel (answer + 1) (waited + poll_interval) in
      if is_terminal (described answer).state
      then some (ok (outcome_of id (described answer)))
      else if leb timeout waited
      then some (raise (still_running id (described answer).state))
      else later

  -- `start_and_wait`, for a query that has been started.
  unfoldable pub start_and_wait : Option (Result AthenaError QueryOutcome)
  start_and_wait = wait_from (timeout + 1) 0 0

  unfoldable pub checked : Result AthenaError QueryOutcome → Result AthenaError QueryOutcome
  checked (raise e) = raise e
  checked (ok outcome) =
      if str_eq outcome.state (str "SUCCEEDED")
      then ok outcome
      else raise (ended outcome.query_execution_id outcome.state outcome.reason)

  unfoldable pub execute : Option (Result AthenaError QueryOutcome)
  unfolding checked
  execute = elim start_and_wait [ none ↦ none | some r ↦ some (checked r) ]

-- `dict(zip(header, cells, strict=False))`; a cell without a value is empty.
abbrev pub cell_text : Option Str → Str
cell_text none = []
cell_text (some s) = s

unfoldable pub zip_row : List (Option Str) → List (Option Str) → Dict Str Str → Dict Str Str
zip_row (h ∷ hs) (c ∷ cs) d = zip_row hs cs (put (cell_text h) (cell_text c) d)
zip_row _ _ d = d

unfoldable pub rows_below : List (Option Str) → List (List (Option Str)) → List (Dict Str Str)
rows_below header [] = []
rows_below header (row ∷ rows) = zip_row header row [] ∷ rows_below header rows

-- `fetch_rows`, for the client's answer to a number of results.
unfoldable pub fetch_rows : (ℕ → List (List (Option Str))) → ℕ → List (Dict Str Str)
fetch_rows results max_rows = elim (results (min (max_rows + 1) 1000)) [
  | [] ↦ []
  | header ∷ rows ↦ rows_below header rows
]
