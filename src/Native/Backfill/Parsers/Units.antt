-- ===== src/Native/Backfill/Parsers/Units.antt =====
-- awsnative/backfill/parsers.py: the bars of a file against its lines, and the one unit of its times.
use mathlib.Core.Path.{subst}
use realtime_finance_bot.Base.{
  ◌≡◌, refl, sym, ap, ◌∙◌, ◌⊎◌, inl, inr, Option, none, some, List, [], ◌∷◌, arith, get_elem?, Str,
  ℤ, Result, ok, >>=-eq-ok, ok-injective,
}
use realtime_finance_bot.Native.Backfill.Fault.{Fault}
use realtime_finance_bot.Native.Backfill.Epoch.{
  Normaliser, normalise, TimestampUnit, millis, unit_of, to_micros,
}
use realtime_finance_bot.Native.Backfill.Epoch.Range.{IsInstant, normalise_lem}
use realtime_finance_bot.Native.Backfill.Parsers.{
  ArchiveKline, read_int, fields_of, kline_of, parse_fields, parse_lines, parse_klines,
}

abbrev pub add_filled : Option (List Str) → List (List Str) → List (List Str)
add_filled none rest = rest
add_filled (some fields) rest = fields ∷ rest

-- The fields of the lines that are not blank.
abbrev pub filled_fields : List Str → List (List Str)
filled_fields [] = []
filled_fields (line ∷ lines) = add_filled (fields_of line) (filled_fields lines)

-- Two lists of one length whose elements are related, one by one.
abbrev pub Matches {ℓ κ} : {A : Type ℓ} {B : Type κ} → (A → B → Type 0) → List A → List B → Type 0
Matches R [] [] = Unit
Matches R [] (_ ∷ _) = ⊥
Matches R (_ ∷ _) [] = ⊥
Matches R (x ∷ xs) (y ∷ ys) = R x y × Matches R xs ys

-- A time of a row is an instant in range, that of an integer field whose magnitude is of the unit.
abbrev pub IsTimeOf : TimestampUnit → Option Str → ℤ → Type 0
IsTimeOf u none t = ⊥
IsTimeOf u (some text) t =
    (value : ℤ) × (read_int text ≡ ok value)
    × (unit_of value ≡ ok u)
    × (t ≡ to_micros value u)
    × IsInstant t

-- A bar whose two times are the first and the seventh of the fields, both in the unit.
abbrev pub IsReadIn : TimestampUnit → List Str → ArchiveKline → Type 0
IsReadIn u fields row =
    IsTimeOf u (get_elem? fields 0) row.open_time_us
    × IsTimeOf u (get_elem? fields 6) row.close_time_us

-- The unit may be the one that the normaliser holds.
abbrev IsHeldBy : Normaliser → TimestampUnit → Type 0
IsHeldBy n u = (n ≡ none) ⊎ (n ≡ some u)

held_same : (s : Normaliser) (u v : TimestampUnit) → s ≡ some u → IsHeldBy s v → v ≡ u
held_same s u v e h = ground arith

held_unit : (n : Normaliser) → (u : TimestampUnit) × IsHeldBy n u
held_unit none = (millis, inl refl)
held_unit (some u) = (u, inr refl)

IsTimeOf-normalise :
    (n n' : Normaliser) (text : Str) (value t t' : ℤ)
    → read_int text ≡ ok value
    → normalise n value ≡ ok (t, n')
    → t ≡ t'
    → (u : TimestampUnit) × (n' ≡ some u) × IsHeldBy n u × IsTimeOf u (some text) t'
IsTimeOf-normalise n n' text value t t' read normal e =
    let (i, u, at, unit, time, before) = normalise_lem n value t n' normal in
    (u, at, before, (value, read, unit, sym e ∙ time, rw e at i))

IsReadIn-normalise :
    (n n' n'' : Normaliser) (x y : Str) (a b s t s' t' : ℤ)
    → read_int x ≡ ok a
    → normalise n a ≡ ok (s, n')
    → read_int y ≡ ok b
    → normalise n' b ≡ ok (t, n'')
    → s ≡ s'
    → t ≡ t'
    → (u : TimestampUnit) × (n'' ≡ some u)
      × IsHeldBy n u
      × IsTimeOf u (some x) s'
      × IsTimeOf u (some y) t'
IsReadIn-normalise n n' n'' x y a b s t s' t' read_x first read_y second es et =
    let (u, at, before, opening) = IsTimeOf-normalise n n' x a s s' read_x first es in
    let (v, after, held, closing) = IsTimeOf-normalise n' n'' y b t t' read_y second et in
    let same = held_same n' u v at held in
    (u, after ∙ ap some same, before, opening, subst (λ w. IsTimeOf w (some y) t') same closing)

kline_of-IsReadIn :
    (n : Normaliser) (fields : List Str) (row : ArchiveKline) (n' : Normaliser)
    → kline_of n fields ≡ ok (row, n')
    → (u : TimestampUnit) × (n' ≡ some u) × IsHeldBy n u × IsReadIn u fields row
unfolding kline_of
kline_of-IsReadIn n (t ∷ o ∷ h ∷ l ∷ c ∷ v ∷ ct ∷ qv ∷ count ∷ tb ∷ tq ∷ ignored ∷ []) row n' e =
    let (open_value, read_t, e1) = >>=-eq-ok (read_int t) _ e in
    let (p, first, e2) = >>=-eq-ok (normalise n open_value) _ e1 in
    let (close_value, read_ct, e3) = >>=-eq-ok (read_int ct) _ e2 in
    let (q, second, e4) = >>=-eq-ok (normalise p.1 close_value) _ e3 in
    let (trades, _, e5) = >>=-eq-ok (read_int count) _ e4 in
    let made = ok-injective e5 in
    let left = ap (λ (r : ArchiveKline × Normaliser). r.1) made in
    let (u, at, held, opened, closed) =
      IsReadIn-normalise n p.1 q.1 t ct open_value close_value p.0 q.0 row.open_time_us
        row.close_time_us read_t first read_ct second
        (ap (λ (r : ArchiveKline × Normaliser). r.0.open_time_us) made)
        (ap (λ (r : ArchiveKline × Normaliser). r.0.close_time_us) made) in
    (u, sym left ∙ at, held, (opened, closed))
kline_of-IsReadIn n _ row n' e = ground arith

-- What a run of the parser gives, from a normaliser on.
abbrev IsParsedFrom : Normaliser → List (List Str) → List ArchiveKline → Type 0
IsParsedFrom n fields rows = (u : TimestampUnit) × IsHeldBy n u × Matches (IsReadIn u) fields rows

parse_fields-IsParsedFrom :
    (o : Option (List Str)) (n : Normaliser) (rest : Normaliser → Result Fault (List ArchiveKline))
    (more : List (List Str)) (rows : List ArchiveKline)
    → ((n' : Normaliser) (rows' : List ArchiveKline)
        → rest n' ≡ ok rows'
        → IsParsedFrom n' more rows')
    → parse_fields kline_of n o rest ≡ ok rows
    → IsParsedFrom n (add_filled o more) rows
unfolding parse_fields
parse_fields-IsParsedFrom none n rest more rows ih e = ih n rows e
parse_fields-IsParsedFrom (some fields) n rest more rows ih e =
    let (pair, made, e') = >>=-eq-ok (kline_of n fields) _ e in
    let (rows', later, e'') = >>=-eq-ok (rest pair.1) _ e' in
    let (u, at, held, times) = kline_of-IsReadIn n fields pair.0 pair.1 made in
    let (v, held', matched) = ih pair.1 rows' later in
    let same = held_same pair.1 u v at held' in
    rw (← ok-injective e'')
      (u, held, (times, subst (λ w. Matches (IsReadIn w) more rows') same matched))

parse_lines-IsParsedFrom :
    (n : Normaliser) (lines : List Str) (rows : List ArchiveKline)
    → parse_lines kline_of n lines ≡ ok rows
    → IsParsedFrom n (filled_fields lines) rows
unfolding parse_lines
parse_lines-IsParsedFrom n [] rows e =
    let (u, held) = held_unit n in rw (← ok-injective e) (u, held, tt)
parse_lines-IsParsedFrom n (line ∷ lines) rows e =
    parse_fields-IsParsedFrom (fields_of line) n _ (filled_fields lines) rows
      (λ n' rows' h. parse_lines-IsParsedFrom n' lines rows' h) e

-- A parsed file of bars has one bar for each line that is not blank, in order, and one unit for the
-- whole file: the magnitudes of the open and the close time of every line are of that unit, and the
-- bar has these two times in microseconds, in range.
pub parse_klines-IsOneUnit :
    (lines : List Str) (rows : List ArchiveKline)
    → parse_klines lines ≡ ok rows
    → (u : TimestampUnit) × Matches (IsReadIn u) (filled_fields lines) rows
unfolding parse_klines
parse_klines-IsOneUnit lines rows e =
    let (u, _, matched) = parse_lines-IsParsedFrom none lines rows e in (u, matched)
