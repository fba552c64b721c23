-- ===== src/Ingest/Binance/Repair.antt =====
-- What a repair over REST recovers.
use realtime_finance_bot.Base.{
  ℕ, ◌+◌, ◌≡◌, refl, Bool, true, not, Option, none, some, List, [], ◌∷◌, if◌then◌else◌, Str, str,
  str_eq, arith, All, Bool-cases, inl, inr, ℤ, ◌<ℤ◌, leb_ℤ, scale, ok, >>=-eq-ok,
}
use realtime_finance_bot.Ingest.Gaps.{Gap}
use realtime_finance_bot.Ingest.Instruments.{InstrumentMap, canonical}
use realtime_finance_bot.Ingest.Models.{Trade, buy, sell, Source, rest_repair}
use realtime_finance_bot.Python.Json.{
  Json, Items, boolean, integer, string, array, object, nil, cons, field, end, lookup,
}
use realtime_finance_bot.Python.Values.{Python, index, iterate, truth, text_of, int_of}
use realtime_finance_bot.Python.Number.{show_int}
use realtime_finance_bot.Ingest.Rows.{is_stream, add_row, All-same, add_row-All}
use realtime_finance_bot.Ingest.Binance.{
  venue, make_trade, mapped_trade, trade_of_symbol, trade_of_row, to_trade, repair_row, repair_rows,
  repair,
}

-- A row of /api/v3/aggTrades, its fields in the order of the documentation.
pub record AggTrade : Type 0 where
  pub id : ℤ
  pub price : Str
  pub quantity : Str
  pub first_id : ℤ
  pub last_id : ℤ
  pub time : ℤ
  pub buyer_maker : Bool
  pub best_match : Bool

abbrev pub row_of : AggTrade → Json
row_of r = object (
    field (str "a") (integer r.id) (
      field (str "p") (string r.price) (
        field (str "q") (string r.quantity) (
          field (str "f") (integer r.first_id) (
            field (str "l") (integer r.last_id) (
              field (str "T") (integer r.time) (
                field (str "m") (boolean r.buyer_maker)
                  (field (str "M") (boolean r.best_match) end))))))))

abbrev pub rows_of : List AggTrade → Items
rows_of [] = nil
rows_of (r ∷ rs) = cons (row_of r) (rows_of rs)

-- The trade of a row, and those of the rows below `bound`, in order.
unfoldable pub trade_of : Str → Str → ℤ → AggTrade → Trade
trade_of symbol id now r = record {
  venue = venue;
  venue_symbol = symbol;
  instrument_id = id;
  trade_id = show_int r.id;
  event_ts_us = scale r.time 1000;
  ingest_ts_us = now;
  price = r.price;
  size = r.quantity;
  side = if r.buyer_maker then sell else buy;
  sequence = some r.id;
  is_backfill = true;
  source = rest_repair;
}

unfoldable pub trades_below : ℤ → (ℕ → AggTrade → Trade) → ℕ → List AggTrade → List Trade
trades_below bound make i [] = []
trades_below bound make i (r ∷ rs) =
    let rest = trades_below bound make (i + 1) rs in
    if leb_ℤ bound r.id then rest else make i r ∷ rest

module _ (py : Python) (instruments : InstrumentMap) where
  to_trade-row :
      (symbol id : Str) (c : ℕ) (s : Str) (now : ℤ) (r : AggTrade)
      → symbol ≡ c ∷ s
      → canonical venue symbol instruments ≡ some id
      → to_trade py instruments (some symbol) rest_repair now (row_of r)
        ≡ ok (some (trade_of symbol id now r))
  unfolding to_trade mapped_trade make_trade index lookup str_eq int_of text_of truth trade_of
  to_trade-row symbol id c s now r e mapped = rw e (rw (rw e at mapped))

  module _ (gap : Gap) (clock : ℕ → ℤ) where
    repair_rows-expected :
        (id : Str) (c : ℕ) (s : Str) (i : ℕ) (rs : List AggTrade)
        → gap.venue_symbol ≡ c ∷ s
        → canonical venue gap.venue_symbol instruments ≡ some id
        → repair_rows py instruments gap clock i (rows_of rs)
          ≡ ok (trades_below gap.next_seen (λ j. trade_of gap.venue_symbol id (clock j)) i rs)
    unfolding repair_rows repair_row add_row index lookup str_eq int_of trades_below
    repair_rows-expected id c s i [] e mapped = refl
    repair_rows-expected id c s i (r ∷ rs) e mapped = elim (Bool-cases (leb_ℤ gap.next_seen r.id)) [
      | inl beyond ↦ rw beyond (repair_rows-expected id c s (i + 1) rs e mapped)
      | inr below ↦ rw (
        below,
        to_trade-row gap.venue_symbol id c s (clock i) r e mapped,
        repair_rows-expected id c s (i + 1) rs e mapped,
      )
    ]

    -- Of a response of well-formed rows for a mapped symbol, a repair returns exactly the trades whose
    -- id is below the gap's end, in the order of the rows, marked as REST backfill.
    pub repair-trades_below :
        (id : Str) (c : ℕ) (s : Str) (rs : List AggTrade)
        → gap.venue_symbol ≡ c ∷ s
        → canonical venue gap.venue_symbol instruments ≡ some id
        → repair py instruments gap clock (array (rows_of rs))
          ≡ ok (trades_below gap.next_seen (λ j. trade_of gap.venue_symbol id (clock j)) 0 rs)
    unfolding repair iterate
    repair-trades_below id c s rs e mapped = repair_rows-expected id c s 0 rs e mapped

-- A trade of a repair: marked as REST backfill, with a sequence number below the gap's end.
abbrev pub IsRecovered : Gap → Trade → Type 0
IsRecovered gap t =
    (t.source ≡ rest_repair)
    × (t.is_backfill ≡ true)
    × (id : ℤ) × (t.sequence ≡ some id)
    × (id <ℤ gap.next_seen)

-- What a row with the id `n` gives.
abbrev HasFields : Source → ℤ → Trade → Type 0
HasFields source n t =
    (t.source ≡ source) × (t.is_backfill ≡ not (is_stream source)) × (t.sequence ≡ some n)

module _ (py : Python) (instruments : InstrumentMap) (source : Source) (now : ℤ) (row a : Json)
    (n : ℤ) (at : index (str "a") row ≡ ok a) (number : int_of py a ≡ ok n) where
  make_trade-HasFields :
      (symbol id : Str) (t : Trade)
      → make_trade py instruments symbol id source now row ≡ ok t
      → HasFields source n t
  unfolding make_trade
  make_trade-HasFields symbol id t e = ground (arith, at, number)

  mapped_trade-HasFields :
      (symbol : Str) (o : Option Str) (t : Trade)
      → mapped_trade py instruments symbol o source now row ≡ ok (some t)
      → HasFields source n t
  unfolding mapped_trade
  mapped_trade-HasFields symbol none t e = ground arith
  mapped_trade-HasFields symbol (some id) t e =
      let (t', made, same) = >>=-eq-ok (make_trade py instruments symbol id source now row) _ e in
      make_trade-HasFields symbol id t (ground (arith, made, same))

  trade_of_symbol-HasFields :
      (symbol : Json) (t : Trade)
      → trade_of_symbol py instruments symbol source now row ≡ ok (some t)
      → HasFields source n t
  unfolding trade_of_symbol
  trade_of_symbol-HasFields (string s) t e = mapped_trade-HasFields s _ t e
  trade_of_symbol-HasFields _ t e = ground arith

  trade_of_row-HasFields :
      (t : Trade) → trade_of_row py instruments source now row ≡ ok (some t) → HasFields source n t
  unfolding trade_of_row
  trade_of_row-HasFields t e =
      let (symbol, _, made) = >>=-eq-ok (index (str "s") row) _ e in
      trade_of_symbol-HasFields symbol t made

  to_trade-HasFields :
      (symbol : Option Str) (t : Trade)
      → to_trade py instruments symbol source now row ≡ ok (some t)
      → HasFields source n t
  unfolding to_trade
  to_trade-HasFields none t e = trade_of_row-HasFields t e
  to_trade-HasFields (some []) t e = trade_of_row-HasFields t e
  to_trade-HasFields (some (c ∷ s)) t e = mapped_trade-HasFields (c ∷ s) _ t e

module _ (py : Python) (instruments : InstrumentMap) (gap : Gap) where
  repair_row-IsRecovered :
      (now : ℤ) (row : Json) (t : Trade)
      → repair_row py instruments gap now row ≡ ok (some t)
      → IsRecovered gap t
  unfolding repair_row
  repair_row-IsRecovered now row t e =
      let (a, at, e') = >>=-eq-ok (index (str "a") row) _ e in
      let (n, number, e'') = >>=-eq-ok (int_of py a) _ e' in
      elim (Bool-cases (leb_ℤ gap.next_seen n)) [
        | inl beyond ↦ ground (arith, rw beyond at e'')
        | inr below ↦
            let (source, backfill, sequence) =
              to_trade-HasFields py instruments rest_repair now row a n at number
                (some gap.venue_symbol) t (rw below at e'') in
            (source, backfill, n, sequence, ground arith)
      ]

  repair_rows-All :
      (clock : ℕ → ℤ) (i : ℕ) (rows : Items) (ts : List Trade)
      → repair_rows py instruments gap clock i rows ≡ ok ts
      → All (IsRecovered gap) ts
  unfolding repair_rows
  repair_rows-All clock i nil ts e = All-same (IsRecovered gap) [] ts e tt
  repair_rows-All clock i (cons row rows) ts e =
      add_row-All (IsRecovered gap) (repair_row py instruments gap (clock i) row) _ ts
        (λ t h. repair_row-IsRecovered (clock i) row t h)
        (λ ts' h. repair_rows-All clock (i + 1) rows ts' h) e

  -- Whatever the response holds, every trade that a repair returns is marked as REST backfill and has
  -- a sequence number below the gap's end.
  pub repair-IsRecovered :
      (clock : ℕ → ℤ) (response : Json) (ts : List Trade)
      → repair py instruments gap clock response ≡ ok ts
      → All (IsRecovered gap) ts
  unfolding repair
  repair-IsRecovered clock response ts e =
      let (rows, _, h) = >>=-eq-ok (iterate response) _ e in repair_rows-All clock 0 rows ts h
