-- ===== src/Native/Backfill/Tiers.antt =====
-- awsnative/backfill/tiers.py: which archive files a window needs, and where they are.
pub mod Days
pub mod Plan
use realtime_finance_bot.Base.{
  ℕ, zero, suc, ◌+◌, ◌-◌, Bool, true, false, ◌&&◌, ◌||◌, List, [], ◌∷◌, ◌++◌, leb, ltb, ◌==◌,
  if◌then◌else◌, Str, str, str_eq,
}
use realtime_finance_bot.Native.Backfill.Calendar.{
  Date, leb_date, eq_date, max_date, min_date, next_day, add_days, first_of_month, last_of_month,
  key, year_month, iso_date,
}

pub data Tier : Type 0 where
  deep hot : Tier

pub data Granularity : Type 0 where
  monthly daily : Granularity

unfoldable pub tier_value : Tier → Str
tier_value deep = str "DEEP"
tier_value hot = str "HOT"

unfoldable pub granularity_value : Granularity → Str
granularity_value monthly = str "monthly"
granularity_value daily = str "daily"

-- The fields of `_LAYOUTS`.
unfoldable pub dataset : Tier → Str
dataset deep = str "klines"
dataset hot = str "aggTrades"

unfoldable pub interval_segment : Tier → Str
interval_segment deep = str "1m/"
interval_segment hot = []

unfoldable pub name_infix : Tier → Str
name_infix deep = str "1m"
name_infix hot = str "aggTrades"

abbrev pub archive_venue : Str
archive_venue = str "binance"

abbrev pub archive_base_url : Str
archive_base_url = str "https://data.binance.vision"

pub record ArchiveFile : Type 0 where
  pub tier : Tier
  pub instrument_id : Str
  pub venue_symbol : Str
  pub granularity : Granularity
  pub period : Str
  pub dt : Date

unfoldable pub filename : ArchiveFile → Str
unfolding name_infix
filename f = f.venue_symbol ++ (b'-' ∷ (name_infix f.tier ++ (b'-' ∷ (f.period ++ str ".zip"))))

-- The path of the file, up to its name.
unfoldable pub folder : ArchiveFile → Str
unfolding granularity_value dataset interval_segment
folder f =
    str "data/spot/"
    ++ (granularity_value f.granularity
        ++ (b'/'
            ∷ (dataset f.tier ++ (b'/' ∷ (f.venue_symbol ++ (b'/' ∷ interval_segment f.tier))))))

unfoldable pub file_key : ArchiveFile → Str
unfolding folder filename
file_key f = folder f ++ filename f

unfoldable pub url : ArchiveFile → Str
unfolding file_key
url f = archive_base_url ++ (b'/' ∷ file_key f)

unfoldable pub checksum_url : ArchiveFile → Str
unfolding url
checksum_url f = url f ++ str ".CHECKSUM"

-- `_days_between`: the days from `cursor` to `end`, on fuel; one round for each key is enough.
unfoldable pub days_rounds : ℕ → Date → Date → List Date
days_rounds zero cursor end = []
days_rounds (suc fuel) cursor end =
    let rest = days_rounds fuel (next_day cursor) end in
    if leb_date cursor end then cursor ∷ rest else []

abbrev pub rounds_to : Date → Date → ℕ
rounds_to start end = key end + 1 - key start

unfoldable pub days_between : Date → Date → List Date
days_between start end = days_rounds (rounds_to start end) start end

abbrev pub file_of : Tier → Str × Str → Granularity → Str → Date → ArchiveFile
file_of tier pair granularity period dt = record {
  tier = tier;
  instrument_id = pair.0;
  venue_symbol = pair.1;
  granularity = granularity;
  period = period;
  dt = dt;
}

unfoldable pub daily_files : Tier → Str × Str → List Date → List ArchiveFile
daily_files tier pair [] = []
daily_files tier pair (d ∷ ds) = file_of tier pair daily (iso_date d) d ∷ daily_files tier pair ds

module _ (tier : Tier) (start end today : Date) where
  -- The files of one month of the window: the body of the loop of `files_for_window`.
  unfoldable pub month_files : Str × Str → Date → Date → List ArchiveFile
  month_files pair first last =
      if leb_date start first && leb_date last end && leb_date (add_days 7 last) today
      then file_of tier pair monthly (year_month first) first ∷ []
      else daily_files tier pair (days_between (max_date first start) (min_date last end))

  -- The loop over `_months_between`, from the month whose first day is `cursor`.
  unfoldable pub months_rounds : ℕ → Str × Str → Date → List ArchiveFile
  months_rounds zero pair cursor = []
  months_rounds (suc fuel) pair cursor =
      let last = last_of_month cursor in
      let rest = months_rounds fuel pair (next_day last) in
      if leb_date cursor end then month_files pair cursor last ++ rest else []

  unfoldable pub pair_files : Str × Str → List ArchiveFile
  pair_files pair =
      let cursor = first_of_month start in months_rounds (rounds_to cursor end) pair cursor

  unfoldable pub pairs_files : List (Str × Str) → List ArchiveFile
  pairs_files [] = []
  pairs_files (pair ∷ pairs) = pair_files pair ++ pairs_files pairs

-- The order of texts.
unfoldable pub leb_str : Str → Str → Bool
leb_str [] t = true
leb_str (a ∷ s) [] = false
leb_str (a ∷ s) (b ∷ t) = ltb a b || (a == b && leb_str s t)

-- The order of `(instrument_id, dt, granularity.value)`.
unfoldable pub leb_file : ArchiveFile → ArchiveFile → Bool
unfolding leb_str granularity_value
leb_file f g =
    if str_eq f.instrument_id g.instrument_id
    then (if eq_date f.dt g.dt
        then leb_str (granularity_value f.granularity) (granularity_value g.granularity)
        else leb_date f.dt g.dt)
    else leb_str f.instrument_id g.instrument_id

-- `sorted` is stable: an item goes in front of those that are not less.
unfoldable pub insert_file : ArchiveFile → List ArchiveFile → List ArchiveFile
insert_file f [] = f ∷ []
insert_file f (g ∷ gs) = if leb_file f g then f ∷ g ∷ gs else g ∷ insert_file f gs

unfoldable pub sort_files : List ArchiveFile → List ArchiveFile
unfolding insert_file
sort_files [] = []
sort_files (f ∷ fs) = insert_file f (sort_files fs)

unfoldable pub files_for_window : List (Str × Str) → Tier → Date → Date → Date → List ArchiveFile
files_for_window pairs tier start end today =
    if leb_date start end then sort_files (pairs_files tier start end today pairs) else []
