-- ===== src/Ingest/Instruments/Lookup.antt =====
-- The two dictionaries of an `InstrumentMap` agree.
use realtime_finance_bot.Base.{
  ◌≡◌, refl, inl, inr, Bool, true, false, ◌||◌, Option, none, some, List, [], ◌∷◌, ◌++◌, Str,
  str_eq, str_eq_iff, get, put, str_Eq, pair_Eq, get-put, arith, Bool-cases,
}
use realtime_finance_bot.Ingest.Instruments.{
  Instrument, InstrumentMap, append_symbol, add_venues, add_instruments, from_yaml, canonical,
  symbols_for,
}

abbrev pub contains : List Str → Str → Bool
contains [] s = false
contains (t ∷ ts) s = str_eq t s || contains ts s

contains-append :
    (xs : List Str) (t s : Str) → contains (xs ++ (t ∷ [])) s ≡ (contains xs s || str_eq t s)
contains-append [] t s = ground arith
contains-append (x ∷ xs) t s = ground (arith, contains-append xs t s)

abbrev pub is_some {ℓ} : {A : Type ℓ} → Option A → Bool
is_some none = false
is_some (some _) = true

-- A symbol is listed for a venue exactly if it has a canonical instrument there.
abbrev pub IsConsistent : InstrumentMap → Type 0
IsConsistent m =
    (venue symbol : Str)
    → contains (symbols_for venue m) symbol ≡ is_some (canonical venue symbol m)

add-IsConsistent :
    (id venue symbol : Str) (m : InstrumentMap)
    → IsConsistent m
    → IsConsistent (record {
      to_canonical = put (venue, symbol) id m.to_canonical;
      by_venue = append_symbol venue symbol m.by_venue;
    })
unfolding symbols_for canonical append_symbol pair_Eq
add-IsConsistent id venue symbol m h v s =
    rw (get-put, get-put)
      (elim (Bool-cases (str_eq venue v)) [
        | inl same ↦ rw (same, (str_eq_iff venue v).0 same, contains-append) (ground (arith, h v s))
        | inr differ ↦ rw differ (h v s)
      ])

add_venues-IsConsistent :
    (id : Str) (venues : List (Str × Str)) (m : InstrumentMap)
    → IsConsistent m
    → IsConsistent (add_venues id venues m)
unfolding add_venues
add_venues-IsConsistent id [] m h = h
add_venues-IsConsistent id ((venue, symbol) ∷ rest) m h =
    add_venues-IsConsistent id rest _ (add-IsConsistent id venue symbol m h)

add_instruments-IsConsistent :
    (instruments : List Instrument) (m : InstrumentMap)
    → IsConsistent m
    → IsConsistent (add_instruments instruments m)
unfolding add_instruments
add_instruments-IsConsistent [] m h = h
add_instruments-IsConsistent (i ∷ rest) m h =
    add_instruments-IsConsistent rest _ (add_venues-IsConsistent i.id i.venues m h)

-- Of every universe, `symbols_for` lists a symbol for a venue exactly if `canonical` knows it there.
pub from_yaml-IsConsistent : (instruments : List Instrument) → IsConsistent (from_yaml instruments)
unfolding from_yaml
from_yaml-IsConsistent instruments =
    add_instruments-IsConsistent instruments _
      (unfold symbols_for canonical get in λ venue symbol. refl)
