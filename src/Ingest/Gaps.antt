-- ===== src/Ingest/Gaps.antt =====
-- ingest/core/gaps.py: gaps in the sequence numbers of a stream.
pub mod Coverage
use realtime_finance_bot.Base.{
  Option, none, some, List, [], ◌∷◌, if◌then◌else◌, Str, Dict, get, put, pop, pair_Eq, ℤ, pos, ◌+ℤ◌,
  ◌-ℤ◌, leb_ℤ, max_ℤ,
}

pub record Gap : Type 0 where
  pub venue : Str
  pub venue_symbol : Str
  pub last_seen : ℤ
  pub next_seen : ℤ

unfoldable pub missing_count : Gap → ℤ
missing_count g = g.next_seen -ℤ g.last_seen -ℤ pos 1

-- The watermark of each (venue, symbol).
abbrev pub Tracker : Type 0
Tracker = Dict (Str × Str) ℤ

unfoldable pub new_tracker : Tracker
new_tracker = []

-- `observe` of a number, where `last` is the watermark.
unfoldable pub observe_after : Str → Str → Option ℤ → ℤ → Tracker → Option Gap × Tracker
observe_after venue symbol none sequence t = (none, put (venue, symbol) sequence t)
observe_after venue symbol (some last) sequence t =
    let t' = put (venue, symbol) (max_ℤ sequence last) t in
    if leb_ℤ sequence (last +ℤ pos 1) then (none, t') else (
      some
          (record { venue = venue; venue_symbol = symbol; last_seen = last; next_seen = sequence }),
      t',
    )

unfoldable pub observe : Str → Str → Option ℤ → Tracker → Option Gap × Tracker
unfolding observe_after
observe venue symbol none t = (none, t)
observe venue symbol (some sequence) t =
    observe_after venue symbol (get (venue, symbol) t) sequence t

unfoldable pub reset : Str → Str → Tracker → Tracker
reset venue symbol t = pop (venue, symbol) t

abbrev pub cons_gap : Option Gap → List Gap → List Gap
cons_gap none gaps = gaps
cons_gap (some g) gaps = g ∷ gaps

-- A run of observations under one key: the gaps in order, and the tracker at the end.
unfoldable pub observe_all : Str → Str → List ℤ → Tracker → List Gap × Tracker
observe_all venue symbol [] t = ([], t)
observe_all venue symbol (n ∷ ns) t =
    let (gap, t') = observe venue symbol (some n) t in
    let (gaps, t'') = observe_all venue symbol ns t' in (cons_gap gap gaps, t'')
