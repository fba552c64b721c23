-- ===== src/Native/Athena/Wait.antt =====
-- The wait ends, and how; and how many rows a page has.
use Prim.Native.Nat.mul as times
use realtime_finance_bot.Base.{
  ℕ, zero, suc, ◌+◌, ◌*◌, ◌≤◌, ◌<◌, ◌≡◌, refl, ◌⊎◌, inl, inr, min, true, false, Option, some, List,
  [], ◌∷◌, length, leb, arith, Bool-cases, Str, Result, ok, raise,
}
use realtime_finance_bot.Native.Athena.{
  Execution, QueryOutcome, AthenaError, still_running, is_terminal, outcome_of, wait_from,
  start_and_wait, rows_below, fetch_rows,
}

le_mul : (n d : ℕ) → 1 ≤ d → n ≤ n * d
le_mul n zero h = absurd (omega (arith, h))
le_mul n (suc d) h = omega (arith, times.suc n d)

no_wait : (d : ℕ) → 0 * d ≡ 0
no_wait d = omega arith

times_next : (n d : ℕ) → (n + 1) * d ≡ n * d + d
times_next n d = omega (arith, times.suc n d)

module _ (poll_interval timeout : ℕ) (id : Str) (described : ℕ → Execution) where
  -- The answers before the given number are not terminal.
  abbrev pub IsUnfinishedBelow : ℕ → Type 0
  IsUnfinishedBelow n = (i : ℕ) → i < n → is_terminal (described i).state ≡ false

  -- The answers before the given number come before the time is over.
  abbrev pub IsEarlyBelow : ℕ → Type 0
  IsEarlyBelow n = (i : ℕ) → i < n → i * poll_interval < timeout

  -- The wait ends at the first answer that is terminal or comes once the time is over: with its
  -- outcome in the first case, and with the error where it is not terminal.
  abbrev pub IsWaited : Option (Result AthenaError QueryOutcome) → Type 0
  IsWaited r =
      (n : ℕ) × IsUnfinishedBelow n
      × IsEarlyBelow n
      × (((is_terminal (described n).state ≡ true) × (r ≡ some (ok (outcome_of id (described n)))))
          ⊎ ((is_terminal (described n).state ≡ false)
              × (timeout ≤ n * poll_interval)
              × (r ≡ some (raise (still_running id (described n).state)))))

  below_next :
      (n : ℕ)
      → IsUnfinishedBelow n
      → is_terminal (described n).state ≡ false
      → IsUnfinishedBelow (n + 1)
  below_next n h now i lt = elim (Bool-cases (leb n i)) [
    | inl reached ↦ let same : i ≡ n = ground (arith, reached, lt) in rw same now
    | inr before ↦ h i (ground (arith, before))
  ]

  early_next :
      (n : ℕ) → IsEarlyBelow n → leb timeout (n * poll_interval) ≡ false → IsEarlyBelow (n + 1)
  early_next n h now i lt = elim (Bool-cases (leb n i)) [
    | inl reached ↦ let same : i ≡ n = ground (arith, reached, lt) in rw same (ground (arith, now))
    | inr before ↦ h i (ground (arith, before))
  ]

  in_time_next :
      (n : ℕ) → 1 ≤ poll_interval → leb timeout (n * poll_interval) ≡ false → n + 1 ≤ timeout
  in_time_next n interval early = ground (arith, le_mul n poll_interval interval, early)

  next-IsWaited :
      (fuel n : ℕ)
      → IsWaited
          (wait_from poll_interval timeout id described fuel (n + 1) ((n + 1) * poll_interval))
      → IsWaited (
          wait_from poll_interval timeout id described fuel
            (n + 1)
            (n * poll_interval + poll_interval))
  next-IsWaited fuel n h = rw (times_next n poll_interval) at h

  first-IsWaited :
      (fuel : ℕ)
      → IsWaited (wait_from poll_interval timeout id described fuel 0 (0 * poll_interval))
      → IsWaited (wait_from poll_interval timeout id described fuel 0 0)
  first-IsWaited fuel h = rw (no_wait poll_interval) at h

  wait_from-IsWaited :
      (fuel n : ℕ)
      → 1 ≤ poll_interval
      → n ≤ timeout
      → timeout < n + fuel
      → IsUnfinishedBelow n
      → IsEarlyBelow n
      → IsWaited (wait_from poll_interval timeout id described fuel n (n * poll_interval))
  unfolding wait_from
  wait_from-IsWaited zero n interval in_time enough below early_before =
      absurd (omega (arith, in_time, enough))
  wait_from-IsWaited (suc fuel) n interval in_time enough below early_before =
      elim (Bool-cases (is_terminal (described n).state)) [
        | inl over ↦ rw over (n, below, early_before, inl (over, refl))
        | inr going ↦ elim (Bool-cases (leb timeout (n * poll_interval))) [
          | inl late ↦
              rw (going, late) (n, below, early_before, inr (going, ground (arith, late), refl))
          | inr early ↦
              rw (going, early)
                (next-IsWaited fuel n (
                  wait_from-IsWaited fuel (n + 1) interval (in_time_next n interval early)
                    (omega (arith, enough)) (below_next n below going)
                    (early_next n early_before early)))
        ]
      ]

  -- Where the interval is positive, the wait for a query returns. It ends at the first description
  -- that is terminal or comes when the time-out is reached: a terminal one is its outcome, and one
  -- that is not is the error that the query still runs.
  pub start_and_wait-IsWaited :
      1 ≤ poll_interval → IsWaited (start_and_wait poll_interval timeout id described)
  unfolding start_and_wait
  start_and_wait-IsWaited interval = first-IsWaited (timeout + 1) (
      wait_from-IsWaited (timeout + 1) 0 interval (omega arith) (omega arith)
        (λ i lt. absurd (omega (arith, lt))) (λ i lt. absurd (omega (arith, lt))))

length-rows_below :
    (header : List (Option Str)) (rows : List (List (Option Str)))
    → length (rows_below header rows) ≡ length rows
unfolding rows_below
length-rows_below header [] = refl
length-rows_below header (row ∷ rows) = omega (arith, length-rows_below header rows)

-- Where the client returns no more results than it is asked for, a page has at most the number of
-- rows that is asked for, and never more than 999, whatever that number is.
pub length-fetch_rows :
    (results : ℕ → List (List (Option Str))) (max_rows : ℕ)
    → ((n : ℕ) → length (results n) ≤ n)
    → (length (fetch_rows results max_rows) ≤ max_rows)
      × (length (fetch_rows results max_rows) ≤ 999)
unfolding fetch_rows
length-fetch_rows results max_rows bounded = page (results (min (max_rows + 1) 1000)) (bounded _)
  where
    page :
        (rs : List (List (Option Str)))
        → length rs ≤ min (max_rows + 1) 1000
        → (length (elim rs [ [] ↦ [] | header ∷ rows ↦ rows_below header rows ]) ≤ max_rows)
          × (length (elim rs [ [] ↦ [] | header ∷ rows ↦ rows_below header rows ]) ≤ 999)
    page [] h = (omega arith, omega arith)
    page (header ∷ rows) h =
        let same = length-rows_below header rows in (omega (arith, same, h), omega (arith, same, h))
