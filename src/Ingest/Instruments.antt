-- ===== src/Ingest/Instruments.antt =====
-- ingest/core/instruments.py: the map from a venue's symbols to canonical instruments. The parsed
-- YAML document is the list of its entries.
pub mod Lookup
use realtime_finance_bot.Base.{
  Bool, true, false, Option, none, some, List, [], ◌∷◌, ◌++◌, if◌then◌else◌, Str, Dict, get, put,
  str_Eq, pair_Eq,
}

-- One entry of `doc["instruments"]`: its `id` and its `venues`.
pub record Instrument : Type 0 where
  pub id : Str
  pub venues : List (Str × Str)

pub record InstrumentMap : Type 0 where
  pub to_canonical : Dict (Str × Str) Str
  pub by_venue : Dict Str (List Str)

abbrev pub or_empty : Option (List Str) → List Str
or_empty none = []
or_empty (some symbols) = symbols

-- `by_venue.setdefault(venue, []).append(symbol)`
unfoldable pub append_symbol : Str → Str → Dict Str (List Str) → Dict Str (List Str)
append_symbol venue symbol d = put venue (or_empty (get venue d) ++ (symbol ∷ [])) d

unfoldable pub add_venues : Str → List (Str × Str) → InstrumentMap → InstrumentMap
unfolding append_symbol
add_venues id [] m = m
add_venues id ((venue, symbol) ∷ rest) m = add_venues id rest (record {
  to_canonical = put (venue, symbol) id m.to_canonical;
  by_venue = append_symbol venue symbol m.by_venue;
})

unfoldable pub add_instruments : List Instrument → InstrumentMap → InstrumentMap
unfolding add_venues
add_instruments [] m = m
add_instruments (i ∷ rest) m = add_instruments rest (add_venues i.id i.venues m)

unfoldable pub from_yaml : List Instrument → InstrumentMap
unfolding add_instruments
from_yaml instruments = add_instruments instruments (record { to_canonical = []; by_venue = [] })

-- `none` is the `KeyError` of a symbol that is not mapped.
unfoldable pub canonical : Str → Str → InstrumentMap → Option Str
canonical venue symbol m = get (venue, symbol) m.to_canonical

unfoldable pub symbols_for : Str → InstrumentMap → List Str
symbols_for venue m = or_empty (get venue m.by_venue)
