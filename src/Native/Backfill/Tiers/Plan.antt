-- ===== src/Native/Backfill/Tiers/Plan.antt =====
-- `files_for_window` of awsnative/backfill/tiers.py covers every day of the window once.
use realtime_finance_bot.Base.{
  ℕ, zero, suc, ◌+◌, ◌≤◌, ◌<◌, ◌≡◌, refl, Bool, ◌&&◌, List, [], ◌∷◌, arith, leb, ◌==◌,
  if◌then◌else◌, Bool-cases, inl, inr, Str, str_eq,
}
use realtime_finance_bot.Native.Backfill.Calendar.{
  Date, IsDate, leb_date, eq_date, max_date, min_date, next_day, add_days, first_of_month,
  last_of_month, key,
}
use realtime_finance_bot.Native.Backfill.Calendar.Order.{
  IsDate-le_31, leb_date-key, next_day-IsDate, first_of_month-IsDate, last_of_month-IsDate,
  key-next_day, key-next_day_lt, same_length,
}
use realtime_finance_bot.Native.Backfill.Tiers.{
  Tier, Granularity, monthly, daily, ArchiveFile, days_between, rounds_to, daily_files, month_files,
  months_rounds, pair_files, pairs_files, insert_file, sort_files, files_for_window,
}
use realtime_finance_bot.Native.Backfill.Tiers.Days.{
  count, count-append, one_if, days_between-count,
}

-- Whether the rows of `day` are in the file.
abbrev pub covers_as : Granularity → Date → Date → Bool
covers_as monthly dt day = dt.year == day.year && dt.month == day.month
covers_as daily dt day = eq_date dt day

abbrev pub is_pair : Str × Str → Str × Str → Bool
is_pair p q = str_eq p.0 q.0 && str_eq p.1 q.1

-- Whether the file has the rows of `day` for an instrument and its symbol.
abbrev pub covers : Str × Str → Date → ArchiveFile → Bool
covers pair day f =
    is_pair (f.instrument_id, f.venue_symbol) pair && covers_as f.granularity f.dt day

-- How often the pairs name `pair`.
abbrev pub times : Str × Str → List (Str × Str) → ℕ
times pair [] = 0
times pair (q ∷ qs) = one_if (is_pair q pair) + times pair qs

next_month-day : (c : Date) → (next_day (last_of_month c)).day ≡ 1
unfolding next_day last_of_month
next_month-day c = ground arith

last_of_month_le : (c : Date) → IsDate c → key c ≤ key (last_of_month c)
unfolding last_of_month
last_of_month_le c hc = omega arith

first_of_month_le : (c : Date) → IsDate c → key (first_of_month c) ≤ key c
unfolding first_of_month
first_of_month_le c hc = omega arith

first_of_month-day : (c : Date) → (first_of_month c).day ≡ 1
unfolding first_of_month
first_of_month-day c = refl

module _ (tier : Tier) (pair : Str × Str) (day : Date) (hd : IsDate day) where
  daily_files-count :
      (q : Str × Str) (ds : List Date)
      → count (covers pair day) (daily_files tier q ds)
        ≡ (if is_pair q pair then count (λ d. eq_date d day) ds else 0)
  unfolding daily_files
  daily_files-count q [] = ground arith
  daily_files-count q (d ∷ ds) = ground (arith, daily_files-count q ds)

  month_of_key :
      (c : Date)
      → IsDate c
      → c.day ≡ 1
      → covers_as monthly c day ≡ (leb (key c) (key day) && leb (key day) (key (last_of_month c)))
  unfolding last_of_month
  month_of_key c hc one = ground (
    arith,
    IsDate-le_31 (last_of_month c) (last_of_month-IsDate c hc),
    IsDate-le_31 day hd,
    same_length c day,
  )

  module _ (start end today : Date) (hs : IsDate start) (he : IsDate end) where
    abbrev in_window : Bool
    in_window = leb (key start) (key day) && leb (key day) (key end)

    max_date-IsDate : (a b : Date) → IsDate a → IsDate b → IsDate (max_date a b)
    unfolding max_date
    max_date-IsDate a b ha hb = elim (Bool-cases (leb_date b a)) [
      | inl t ↦ rw t ha
      | inr f ↦ rw f hb
    ]

    min_date-IsDate : (a b : Date) → IsDate a → IsDate b → IsDate (min_date a b)
    unfolding min_date
    min_date-IsDate a b ha hb = elim (Bool-cases (leb_date a b)) [
      | inl t ↦ rw t ha
      | inr f ↦ rw f hb
    ]

    leb-max_date :
        (a b : Date) (x : ℕ)
        → IsDate a
        → IsDate b
        → leb (key (max_date a b)) x ≡ (leb (key a) x && leb (key b) x)
    unfolding max_date
    leb-max_date a b x ha hb = ground (arith, leb_date-key b a hb ha)

    leb-min_date :
        (a b : Date) (x : ℕ)
        → IsDate a
        → IsDate b
        → leb x (key (min_date a b)) ≡ (leb x (key a) && leb x (key b))
    unfolding min_date
    leb-min_date a b x ha hb = ground (arith, leb_date-key a b ha hb)

    month_files-count :
        (q : Str × Str) (c : Date)
        → IsDate c
        → c.day ≡ 1
        → count (covers pair day) (month_files tier start end today q c (last_of_month c))
          ≡ one_if (
              is_pair q pair
              && ((leb (key c) (key day) && leb (key day) (key (last_of_month c))) && in_window))
    unfolding month_files
    month_files-count q c hc one =
        let hl = last_of_month-IsDate c hc in
        elim (Bool-cases (
          leb_date start c
          && leb_date (last_of_month c) end
          && leb_date (add_days 7 (last_of_month c)) today)) [
            | inl whole ↦ rw whole (
                ground (
                  arith,
                  whole,
                  month_of_key c hc one,
                  leb_date-key start c hs hc,
                  leb_date-key (last_of_month c) end hl he,
                ))
            | inr parts ↦ rw parts (
                ground (
                  arith,
                  daily_files-count q
                      (days_between (max_date c start) (min_date (last_of_month c) end)),
                  days_between-count (max_date c start) (min_date (last_of_month c) end) day
                      (max_date-IsDate c start hc hs) (min_date-IsDate (last_of_month c) end hl he)
                      hd,
                  leb-max_date c start (key day) hc hs,
                  leb-min_date (last_of_month c) end (key day) hl he,
                ))
          ]

    next_month_fuel :
        (fuel : ℕ) (c : Date)
        → IsDate c
        → key end < key c + suc fuel
        → key end < key (next_day (last_of_month c)) + fuel
    next_month_fuel fuel c hc f = omega (
      arith,
      key-next_day_lt (last_of_month c) (last_of_month-IsDate c hc),
      last_of_month_le c hc,
    )

    -- The months from `cursor` on cover the days from `cursor` on that are in the window.
    months_rounds-count :
        (fuel : ℕ) (q : Str × Str) (cursor : Date)
        → IsDate cursor
        → cursor.day ≡ 1
        → key end < key cursor + fuel
        → count (covers pair day) (months_rounds tier start end today fuel q cursor)
          ≡ one_if (is_pair q pair && (leb (key cursor) (key day) && in_window))
    unfolding months_rounds
    months_rounds-count zero q cursor hc one f = ground arith
    months_rounds-count (suc fuel) q cursor hc one f =
        let last = last_of_month cursor in
        let hl = last_of_month-IsDate cursor hc in
        ground (
          arith,
          leb_date-key cursor end hc he,
          count-append (covers pair day) (month_files tier start end today q cursor last)
              (months_rounds tier start end today fuel q (next_day last)),
          month_files-count q cursor hc one,
          months_rounds-count fuel q (next_day last) (next_day-IsDate last hl)
              (next_month-day cursor) (next_month_fuel fuel cursor hc f),
          key-next_day last day hl hd,
          last_of_month_le cursor hc,
        )

    pair_files-count :
        (q : Str × Str)
        → count (covers pair day) (pair_files tier start end today q)
          ≡ one_if (is_pair q pair && in_window)
    unfolding pair_files
    pair_files-count q =
        let first = first_of_month start in
        ground (
          arith,
          first_of_month_le start hs,
          months_rounds-count (rounds_to first end) q first (first_of_month-IsDate start hs)
              (first_of_month-day start) (omega arith),
        )

    pairs_files-count :
        (qs : List (Str × Str))
        → count (covers pair day) (pairs_files tier start end today qs)
          ≡ (if in_window then times pair qs else 0)
    unfolding pairs_files
    pairs_files-count [] = ground arith
    pairs_files-count (q ∷ qs) = ground (
      arith,
      count-append (covers pair day) (pair_files tier start end today q)
          (pairs_files tier start end today qs),
      pair_files-count q,
      pairs_files-count qs,
    )

count-insert_file :
    (p : ArchiveFile → Bool) (f : ArchiveFile) (fs : List ArchiveFile)
    → count p (insert_file f fs) ≡ count p (f ∷ fs)
unfolding insert_file
count-insert_file p f [] = refl
count-insert_file p f (g ∷ gs) = ground (arith, count-insert_file p f gs)

count-sort_files :
    (p : ArchiveFile → Bool) (fs : List ArchiveFile) → count p (sort_files fs) ≡ count p fs
unfolding sort_files
count-sort_files p [] = refl
count-sort_files p (f ∷ fs) = rw count-insert_file (ground (arith, count-sort_files p fs))

-- For each pair that the plan is asked for, every day of the window is covered by exactly one file
-- of the plan, monthly or daily, and a day outside it by none, whatever `today` is. (A pair that is
-- listed twice is planned twice.)
pub files_for_window-count :
    (pairs : List (Str × Str)) (tier : Tier) (start end today day : Date) (pair : Str × Str)
    → IsDate start
    → IsDate end
    → IsDate day
    → count (covers pair day) (files_for_window pairs tier start end today)
      ≡ (if leb_date start day && leb_date day end then times pair pairs else 0)
unfolding files_for_window
files_for_window-count pairs tier start end today day pair hs he hd = ground (
  arith,
  leb_date-key start end hs he,
  leb_date-key start day hs hd,
  leb_date-key day end hd he,
  count-sort_files (covers pair day) (pairs_files tier start end today pairs),
  pairs_files-count tier pair day hd start end today hs he pairs,
)
