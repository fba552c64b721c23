-- ===== src/Ingest/Coinbase/Frames.antt =====
-- What the trades of a frame and of a repair carry.
use realtime_finance_bot.Base.{
  ℕ, ◌+◌, ◌≡◌, sym, ◌∙◌, true, not, Option, none, some, List, [], ◌∷◌, Str, str, arith, All,
  All-imp, ok-injective, ℤ, Result, ok, >>=-eq-ok, Bool-cases, inl, inr,
}
use realtime_finance_bot.Ingest.Gaps.{Gap}
use realtime_finance_bot.Ingest.Instruments.{InstrumentMap}
use realtime_finance_bot.Ingest.Models.{Trade, Source, stream, rest_repair}
use realtime_finance_bot.Ingest.Rows.{is_stream, All-same, add_row-All}
use realtime_finance_bot.Python.Json.{Json, Items, null, string, array, nil, cons}
use realtime_finance_bot.Python.Values.{Python, Error, index, get_default, iterate}
use realtime_finance_bot.Ingest.Coinbase.{
  venue, sequence_of, make_trade, mapped_trade, trade_of_symbol, to_trade, parse_rows, parse_events,
  parse_frame, repair_rows, repair_from, repair, repair_products, set_default, is_text,
}

-- A trade from the ticker endpoint.
abbrev pub IsRepaired : Trade → Type 0
IsRepaired t =
    (t.venue ≡ venue) × (t.source ≡ rest_repair) × (t.is_backfill ≡ true) × (t.sequence ≡ none)

module _ (py : Python) (timestamp_us : Str → Option ℤ) (instruments : InstrumentMap) where
  -- A trade of Coinbase from this source, with the sequence number that `sequence` stands for.
  abbrev pub IsFrom : Json → Source → Trade → Type 0
  IsFrom sequence source t =
      (t.venue ≡ venue)
      × (t.source ≡ source)
      × (t.is_backfill ≡ not (is_stream source))
      × (sequence_of py timestamp_us instruments sequence ≡ ok t.sequence)

  module _ (sequence : Json) (source : Source) (now : ℤ) (row : Json) where
    make_trade-IsFrom :
        (symbol id : Str) (t : Trade)
        → make_trade py timestamp_us instruments symbol id sequence source now row ≡ ok t
        → IsFrom sequence source t
    unfolding make_trade
    make_trade-IsFrom symbol id t e = ground arith

    mapped_trade-IsFrom :
        (symbol : Str) (o : Option Str) (t : Trade)
        → mapped_trade py timestamp_us instruments symbol o sequence source now row ≡ ok (some t)
        → IsFrom sequence source t
    unfolding mapped_trade
    mapped_trade-IsFrom symbol none t e = ground arith
    mapped_trade-IsFrom symbol (some id) t e =
        let (t', made, same) =
          >>=-eq-ok (make_trade py timestamp_us instruments symbol id sequence source now row) _
            e in
        make_trade-IsFrom symbol id t (ground (arith, made, same))

    trade_of_symbol-IsFrom :
        (symbol : Json) (t : Trade)
        → trade_of_symbol py timestamp_us instruments symbol sequence source now row ≡ ok (some t)
        → IsFrom sequence source t
    unfolding trade_of_symbol
    trade_of_symbol-IsFrom (string s) t e = mapped_trade-IsFrom s _ t e
    trade_of_symbol-IsFrom _ t e = ground arith

    to_trade-IsFrom :
        (t : Trade)
        → to_trade py timestamp_us instruments sequence source now row ≡ ok (some t)
        → IsFrom sequence source t
    unfolding to_trade
    to_trade-IsFrom t e =
        let (symbol, _, made) = >>=-eq-ok (index (str "product_id") row) _ e in
        trade_of_symbol-IsFrom symbol t made

  module _ (clock : ℕ → ℤ) where
    parse_rows-All :
        (sequence : Json) (i : ℕ) (rows : Items) (more : ℕ → Result Error (List Trade))
        (ts : List Trade)
        → ((j : ℕ) (ts' : List Trade) → more j ≡ ok ts' → All (IsFrom sequence stream) ts')
        → parse_rows py timestamp_us instruments sequence clock i rows more ≡ ok ts
        → All (IsFrom sequence stream) ts
    unfolding parse_rows
    parse_rows-All sequence i nil more ts h e = h i ts e
    parse_rows-All sequence i (cons row rows) more ts h e =
        add_row-All (IsFrom sequence stream) _ _ ts
          (λ t made. to_trade-IsFrom sequence stream (clock i) row t made)
          (λ ts' e'. parse_rows-All sequence (i + 1) rows more ts' h e') e

    parse_events-All :
        (sequence : Json) (i : ℕ) (events : Items) (ts : List Trade)
        → parse_events py timestamp_us instruments sequence clock i events ≡ ok ts
        → All (IsFrom sequence stream) ts
    unfolding parse_events
    parse_events-All sequence i nil ts e = All-same (IsFrom sequence stream) [] ts e tt
    parse_events-All sequence i (cons event events) ts e =
        let (trades, _, e') = >>=-eq-ok (get_default (str "trades") event (array nil)) _ e in
        let (rows, _, e'') = >>=-eq-ok (iterate trades) _ e' in
        parse_rows-All sequence i rows _ ts (λ j ts' h. parse_events-All sequence j events ts' h)
          e''

    -- Every trade of a frame is a live trade of Coinbase with the frame's own sequence number.
    pub parse_frame-All :
        (frame sequence : Json) (ts : List Trade)
        → get_default (str "sequence_num") frame null ≡ ok sequence
        → parse_frame py timestamp_us instruments clock frame ≡ ok ts
        → All (IsFrom sequence stream) ts
    unfolding parse_frame
    parse_frame-All frame sequence ts at e =
        let (channel, _, e') = >>=-eq-ok (get_default (str "channel") frame null) _ e in
        elim (Bool-cases (is_text (str "market_trades") channel)) [
          | inl trades ↦
              let (sequence', at', e'') =
                >>=-eq-ok (get_default (str "sequence_num") frame null) _ (rw trades at e') in
              let (found, _, e3) = >>=-eq-ok (get_default (str "events") frame (array nil)) _ e'' in
              let (events, _, e4) = >>=-eq-ok (iterate found) _ e3 in
              rw (ok-injective (sym at' ∙ at)) at (parse_events-All sequence' 0 events ts e4)
          | inr other ↦ All-same (IsFrom sequence stream) [] ts (rw other at e') tt
        ]

    repair_rows-All :
        (product : Str) (i : ℕ) (rows : Items) (more : ℕ → Result Error (List Trade))
        (ts : List Trade)
        → ((j : ℕ) (ts' : List Trade) → more j ≡ ok ts' → All (IsFrom null rest_repair) ts')
        → repair_rows py timestamp_us instruments product clock i rows more ≡ ok ts
        → All (IsFrom null rest_repair) ts
    unfolding repair_rows
    repair_rows-All product i nil more ts h e = h i ts e
    repair_rows-All product i (cons row rows) more ts h e =
        let (row', _, e') = >>=-eq-ok (set_default (str "product_id") (string product) row) _ e in
        add_row-All (IsFrom null rest_repair) _ _ ts
          (λ t made. to_trade-IsFrom null rest_repair (clock i) row' t made)
          (λ ts' e''. repair_rows-All product (i + 1) rows more ts' h e'') e'

    repair_from-All :
        (fetch : Str → Result Error Json) (i : ℕ) (products : List Str) (ts : List Trade)
        → repair_from py timestamp_us instruments fetch clock i products ≡ ok ts
        → All (IsFrom null rest_repair) ts
    unfolding repair_from
    repair_from-All fetch i [] ts e = All-same (IsFrom null rest_repair) [] ts e tt
    repair_from-All fetch i (product ∷ products) ts e =
        let (answer, _, e1) = >>=-eq-ok (fetch product) _ e in
        let (trades, _, e2) = >>=-eq-ok (get_default (str "trades") answer (array nil)) _ e1 in
        let (rows, _, e3) = >>=-eq-ok (iterate trades) _ e2 in
        repair_rows-All product i rows _ ts (λ j ts' h. repair_from-All fetch j products ts' h) e3

    -- Every trade that a repair recovers is marked as REST backfill and has no sequence number, so
    -- that it cannot move a watermark.
    pub repair-All :
        (fetch : Str → Result Error Json) (gap : Gap) (ts : List Trade)
        → repair py timestamp_us instruments fetch clock gap ≡ ok ts
        → All IsRepaired ts
    unfolding repair sequence_of
    repair-All fetch gap ts e =
        All-imp (IsFrom null rest_repair) IsRepaired repaired ts
          (repair_from-All fetch 0 (repair_products py timestamp_us instruments gap) ts e)
      where
        repaired : (t : Trade) → IsFrom null rest_repair t → IsRepaired t
        repaired t (at, source, backfill, none_of) =
            (at, source, backfill, ok-injective (sym none_of))
