-- ===== src/Native/Enrichment/Perp/Rows.antt =====
-- Which instruments get a row, and on which grid point the rows stand.
use mathlib.Core.Path.{subst}
use realtime_finance_bot.Base.{
  ℕ, ◌-◌, ◌%◌, ◌≡◌, refl, ap, sym, Bool, true, false, Option, none, some, List, [], ◌∷◌, ◌∙◌, inl,
  inr, if◌then◌else◌, Bool-cases, All, All-imp, arith, Str, str, str_eq, str_Eq, str_eq→eq,
  str_eq_refl, Dict, get, put, get-put, ℤ, pos, ◌≤ℤ◌, ◌<ℤ◌, ◌+ℤ◌, int_laws, Result, ok, raise,
  >>=-eq-ok, ok-injective,
}
use realtime_finance_bot.Python.Json.{Json}
use realtime_finance_bot.Python.Values.{Python, Error, index, text_of}
use realtime_finance_bot.Native.Enrichment.Perp.{
  grid_us, text_at, instant_at, latest, family_name, toptrader_accounts, toptrader_positions,
  global_accounts, taker_volume, PerpContext, floor_to_grid_us, is_wanted, index_rows,
  index_by_symbol, build_row, add_rows, rows_of_pairs, build_rows,
}

-- The grid point of an instant: a multiple of five minutes, not after the instant, and less than
-- five minutes before it.
abbrev pub IsGridPoint : ℤ → ℤ → Type 0
IsGridPoint snapshot poll =
    (n : ℕ) × (snapshot ≡ pos n)
    × (n % grid_us ≡ 0)
    × (snapshot ≤ℤ poll)
    × (poll <ℤ (snapshot +ℤ pos grid_us))

floor_pos : (n : ℕ) (s : ℤ) → floor_to_grid_us (pos n) ≡ ok s → s ≡ pos (n - n % grid_us)
unfolding floor_to_grid_us
floor_pos n s e = ground (arith, e)

pub floor_to_grid_us-IsGridPoint : (poll s : ℤ) → floor_to_grid_us poll ≡ ok s → IsGridPoint s poll
unfolding floor_to_grid_us
floor_to_grid_us-IsGridPoint (pos n) s e =
    rw (floor_pos n s e) (n - n % grid_us, refl, omega arith, omega arith, omega (int_laws))
floor_to_grid_us-IsGridPoint (ℤ.negsuc n) s e = ground (arith, e)

true≢false : true ≡ false → ⊥
true≢false e = ground arith

module _ (py : Python) where
  -- Whether a row of premiumIndex names a symbol.
  abbrev pub symbol_is : Str → Json → Bool
  symbol_is s row = elim (index (str "symbol") row) [
    | ok v ↦ str_eq (text_of py v) s
    | raise e ↦ false
  ]

  -- The last of the rows that names a symbol, if any, or else what is given.
  abbrev pub last_named : Str → List Json → Option Json → Option Json
  last_named s [] o = o
  last_named s (row ∷ rows) o = last_named s rows (if symbol_is s row then some row else o)

  -- The row of an instrument in one poll, with the price of the premium's row.
  abbrev pub IsRowOf : ℤ → ℤ → Json → Str × Str → PerpContext → Type 0
  IsRowOf poll snapshot premium pair r =
      (r.instrument_id ≡ pair.0)
      × (r.venue_symbol ≡ pair.1)
      × (r.poll_ts_us ≡ poll)
      × (r.snapshot_ts_us ≡ snapshot)
      × (text_at py (str "markPrice") premium ≡ ok r.mark_price)

  -- The first row is the pair's where its symbol is answered for, and the others are as given.
  abbrev pub IsNext :
      ℤ → ℤ → Option Json → Str × Str → (List PerpContext → Type 0) → List PerpContext → Type 0
  IsNext poll snapshot none pair Rest rows = Rest rows
  IsNext poll snapshot (some premium) pair Rest [] = ⊥
  IsNext poll snapshot (some premium) pair Rest (r ∷ rows) =
      IsRowOf poll snapshot premium pair r × Rest rows

  -- One row for each pair whose symbol is answered for, in the pairs' order.
  abbrev pub AreRowsOf : ℤ → ℤ → List Json → List (Str × Str) → List PerpContext → Type 0
  AreRowsOf poll snapshot answer [] rows = rows ≡ []
  AreRowsOf poll snapshot answer (pair ∷ pairs) rows =
      IsNext poll snapshot (last_named pair.1 answer none) pair
        (AreRowsOf poll snapshot answer pairs) rows

  put_named :
      (wanted : Bool) (symbol s : Str) (row : Json) (indexed : Dict Str Json)
      → (str_eq symbol s ≡ true → wanted ≡ true)
      → get s (if wanted then put symbol row indexed else indexed)
        ≡ (if str_eq symbol s then some row else get s indexed)
  put_named true symbol s row indexed h = get-put symbol s row indexed
  put_named false symbol s row indexed h = elim (Bool-cases (str_eq symbol s)) [
    | inl same ↦ absurd (true≢false (sym (h same)))
    | inr differ ↦ rw differ refl
  ]

  symbol_is_found :
      (row v : Json) (s : Str)
      → index (str "symbol") row ≡ ok v
      → symbol_is s row ≡ str_eq (text_of py v) s
  symbol_is_found row v s found = rw (symbol_is, found) refl

  -- The index has, for a symbol that is wanted, the last row that names it.
  index_rows-get :
      (pairs : List (Str × Str)) (rows : List Json) (indexed d : Dict Str Json) (s : Str)
      → is_wanted py s pairs ≡ true
      → index_rows py pairs rows indexed ≡ ok d
      → get s d ≡ last_named s rows (get s indexed)
  unfolding index_rows
  index_rows-get pairs [] indexed d s wanted e = ap (get s) (sym (ok-injective e))
  index_rows-get pairs (row ∷ rows) indexed d s wanted e =
      let (v, found, e') = >>=-eq-ok (index (str "symbol") row) _ e in
      let symbol = text_of py v in
      index_rows-get pairs rows _ d s wanted e'
      ∙ ap (last_named s rows) (
          put_named (is_wanted py symbol pairs) symbol s row indexed
            (λ same. ap (λ t. is_wanted py t pairs) (str_eq→eq symbol s same) ∙ wanted)
          ∙ ap (λ b. if b then some row else get s indexed) (sym (symbol_is_found row v s found)))

  wanted_more :
      (p : Str × Str) (pairs : List (Str × Str)) (s : Str)
      → is_wanted py s pairs ≡ true
      → is_wanted py s (p ∷ pairs) ≡ true
  unfolding is_wanted
  wanted_more p pairs s h = ground (arith, h)

  wanted_first : (p : Str × Str) (pairs : List (Str × Str)) → is_wanted py p.1 (p ∷ pairs) ≡ true
  unfolding is_wanted
  wanted_first p pairs = rw (str_eq_refl p.1) refl

  wanted-All :
      (pairs : List (Str × Str)) → All (λ (p : Str × Str). is_wanted py p.1 pairs ≡ true) pairs
  wanted-All [] = tt
  wanted-All (p ∷ pairs) = (
    wanted_first p pairs,
    All-imp (λ (q : Str × Str). is_wanted py q.1 pairs ≡ true)
        (λ (q : Str × Str). is_wanted py q.1 (p ∷ pairs) ≡ true) (λ q h. wanted_more p pairs q.1 h)
        pairs (wanted-All pairs),
  )

  build_row-lem :
      (poll snapshot : ℤ) (pair : Str × Str) (premium interest : Json)
      (ratios : Dict Str (List Json)) (r : PerpContext)
      → build_row py poll snapshot pair premium interest ratios ≡ ok r
      → IsRowOf poll snapshot premium pair r
  unfolding build_row
  build_row-lem poll snapshot pair premium interest ratios r e =
      let (a1, price, e1) = >>=-eq-ok (text_at py (str "markPrice") premium) _ e in
      let (a2, _, e2) = >>=-eq-ok (text_at py (str "indexPrice") premium) _ e1 in
      let (a3, _, e3) = >>=-eq-ok (text_at py (str "estimatedSettlePrice") premium) _ e2 in
      let (a4, _, e4) = >>=-eq-ok (text_at py (str "lastFundingRate") premium) _ e3 in
      let (a5, _, e5) = >>=-eq-ok (text_at py (str "interestRate") premium) _ e4 in
      let (a6, _, e6) = >>=-eq-ok (instant_at py (str "nextFundingTime") premium) _ e5 in
      let (a7, _, e7) = >>=-eq-ok (instant_at py (str "time") premium) _ e6 in
      let (a8, _, e8) = >>=-eq-ok (text_at py (str "openInterest") interest) _ e7 in
      let (a9, _, e9) = >>=-eq-ok (instant_at py (str "time") interest) _ e8 in
      let (b1, _, f1) =
        >>=-eq-ok (latest py toptrader_accounts (get (family_name toptrader_accounts) ratios)) _
          e9 in
      let (b2, _, f2) =
        >>=-eq-ok (latest py toptrader_positions (get (family_name toptrader_positions) ratios)) _
          f1 in
      let (b3, _, f3) =
        >>=-eq-ok (latest py global_accounts (get (family_name global_accounts) ratios)) _ f2 in
      let (b4, _, f4) =
        >>=-eq-ok (latest py taker_volume (get (family_name taker_volume) ratios)) _ f3 in
      let made = ok-injective f4 in
      (
        ap (λ (c : PerpContext). c.instrument_id) (sym made),
        ap (λ (c : PerpContext). c.venue_symbol) (sym made),
        ap (λ (c : PerpContext). c.poll_ts_us) (sym made),
        ap (λ (c : PerpContext). c.snapshot_ts_us) (sym made),
        price ∙ ap (λ (c : PerpContext). ok c.mark_price) made,
      )

  add_rows-IsNext :
      (poll snapshot : ℤ) (pair : Str × Str) (o : Option Json)
      (row : Json → Result Error PerpContext) (rest : Result Error (List PerpContext))
      (rows : List PerpContext) (Rest : List PerpContext → Type 0)
      → ((premium : Json) (r : PerpContext)
          → row premium ≡ ok r
          → IsRowOf poll snapshot premium pair r)
      → ((rows' : List PerpContext) → rest ≡ ok rows' → Rest rows')
      → elim o [ none ↦ rest | some premium ↦ add_rows py (row premium) rest ] ≡ ok rows
      → IsNext poll snapshot o pair Rest rows
  unfolding add_rows
  add_rows-IsNext poll snapshot pair none row rest rows Rest rule ih e = ih rows e
  add_rows-IsNext poll snapshot pair (some premium) row rest rows Rest rule ih e =
      let (r, made, e1) = >>=-eq-ok (row premium) _ e in
      let (rows', more, e2) = >>=-eq-ok rest _ e1 in
      rw (← ok-injective e2) (rule premium r made, ih rows' more)

  module _ (poll snapshot : ℤ) (answer : List Json) (indexed open_interest : Dict Str Json)
      (ratios : Dict Str (Dict Str (List Json))) where
    rows_of_pairs-AreRowsOf :
        (pairs : List (Str × Str)) (rows : List PerpContext)
        → All (λ (p : Str × Str). get p.1 indexed ≡ last_named p.1 answer none) pairs
        → rows_of_pairs py poll snapshot indexed open_interest ratios pairs ≡ ok rows
        → AreRowsOf poll snapshot answer pairs rows
    unfolding rows_of_pairs
    rows_of_pairs-AreRowsOf [] rows h e = sym (ok-injective e)
    rows_of_pairs-AreRowsOf (pair ∷ pairs) rows (h, hs) e =
        subst (λ o. IsNext poll snapshot o pair (AreRowsOf poll snapshot answer pairs) rows) h
          (add_rows-IsNext poll snapshot pair (get pair.1 indexed) _ _ rows
            (AreRowsOf poll snapshot answer pairs)
            (λ premium r made. build_row-lem poll snapshot pair premium _ _ r made)
            (λ rows' more. rows_of_pairs-AreRowsOf pairs rows' hs more) e)

  -- The rows of a poll that raises nothing: one for each pair whose symbol a row of premiumIndex
  -- names, in the pairs' order, and none for the other pairs. Each has the instrument and the symbol
  -- of its pair, the mark price of the last row that names the symbol, the poll's instant, and the one
  -- grid point that is at most five minutes before it.
  pub build_rows-AreRowsOf :
      (pairs : List (Str × Str)) (premium_index : List Json) (open_interest : Dict Str Json)
      (ratios : Dict Str (Dict Str (List Json))) (poll : ℤ) (rows : List PerpContext)
      → build_rows py pairs premium_index open_interest ratios poll ≡ ok rows
      → (snapshot : ℤ) × IsGridPoint snapshot poll
        × AreRowsOf poll snapshot premium_index pairs rows
  unfolding build_rows index_by_symbol get
  build_rows-AreRowsOf pairs premium_index open_interest ratios poll rows e =
      let (snapshot, floored, e1) = >>=-eq-ok (floor_to_grid_us poll) _ e in
      let (indexed, found, e2) = >>=-eq-ok (index_by_symbol py premium_index pairs) _ e1 in
      (
        snapshot,
        floor_to_grid_us-IsGridPoint poll snapshot floored,
        rows_of_pairs-AreRowsOf poll snapshot premium_index indexed open_interest ratios pairs rows
            (All-imp (λ (p : Str × Str). is_wanted py p.1 pairs ≡ true)
              (λ (p : Str × Str). get p.1 indexed ≡ last_named p.1 premium_index none)
              (λ p h. index_rows-get pairs premium_index [] indexed p.1 h found) pairs
              (wanted-All pairs))
            e2,
      )
