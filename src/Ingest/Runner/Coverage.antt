-- ===== src/Ingest/Runner/Coverage.antt =====
-- ingest/runner.py: what the repairs that `handle_message` starts make up for, when the frames of
-- several venues and symbols are interleaved.
use realtime_finance_bot.Base.{
  ◌≡◌, refl, sym, ◌∙◌, ◌⊎◌, inl, inr, ◌≢◌, Option, none, some, List, [], ◌∷◌, ◌++◌, arith, Str, get,
  ap, true, false, pair_beq, pair_beq_iff, pair_Eq, ℤ, pos, ◌+ℤ◌, ◌≤ℤ◌, ◌<ℤ◌, leb_ℤ, eq_of_parts,
  int_laws, Bool-cases, leb→le,
}
use mathlib.Core.Option.{some-injective}
use realtime_finance_bot.Ingest.Gaps.{Gap, observe, observe_after}
use realtime_finance_bot.Ingest.Gaps.Coverage.{
  raise, IsMissing, get-observe, raise_below, observe_other_key,
}
use realtime_finance_bot.Ingest.Models.{Trade}
use realtime_finance_bot.Ingest.Runner.{
  Connector, Runner, symbol_or, add_repair, handle_trade, handle_trades,
}

abbrev pub key_of : Connector → Trade → Str × Str
key_of connector trade = (trade.venue, symbol_or connector.sequence_symbol trade.venue_symbol)

-- Some trade of the key has the number `x`.
abbrev pub IsCarried : Connector → Str × Str → ℤ → List Trade → Type 0
IsCarried connector key x [] = ⊥
IsCarried connector key x (trade ∷ trades) =
    ((key_of connector trade ≡ key) × (trade.sequence ≡ some x)) ⊎ IsCarried connector key x trades

-- Some repair is of a gap of the key that misses `x`.
abbrev pub IsScheduled : Str × Str → ℤ → List Gap → Type 0
IsScheduled key x [] = ⊥
IsScheduled key x (g ∷ gaps) =
    (((g.venue, g.venue_symbol) ≡ key) × IsMissing x g) ⊎ IsScheduled key x gaps

IsScheduled-add_repair :
    (key : Str × Str) (x : ℤ) (o : Option Gap) (gaps : List Gap)
    → IsScheduled key x gaps
    → IsScheduled key x (add_repair o gaps)
IsScheduled-add_repair key x none gaps h = h
IsScheduled-add_repair key x (some g) [] h = elim h [ ]
IsScheduled-add_repair key x (some g) (g' ∷ gaps) (inl h) = inl h
IsScheduled-add_repair key x (some g) (g' ∷ gaps) (inr h) =
    inr (IsScheduled-add_repair key x (some g) gaps h)

IsScheduled-last :
    (key : Str × Str) (x : ℤ) (g : Gap) (gaps : List Gap)
    → (g.venue, g.venue_symbol) ≡ key
    → IsMissing x g
    → IsScheduled key x (gaps ++ (g ∷ []))
IsScheduled-last key x g [] e h = inl (e, h)
IsScheduled-last key x g (g' ∷ gaps) e h = inr (IsScheduled-last key x g gaps e h)

-- A trade of the key carried `x`, or a repair of the key is to fetch it.
abbrev pub IsAccounted : Connector → Str × Str → ℤ → List Trade → List Gap → Type 0
IsAccounted connector key x trades repairs =
    IsCarried connector key x trades ⊎ IsScheduled key x repairs

IsAccounted-cons :
    (connector : Connector) (key : Str × Str) (x : ℤ) (trade : Trade) (trades : List Trade)
    (repairs : List Gap)
    → IsAccounted connector key x trades repairs
    → IsAccounted connector key x (trade ∷ trades) repairs
IsAccounted-cons connector key x trade trades repairs (inl carried) = inl (inr carried)
IsAccounted-cons connector key x trade trades repairs (inr scheduled) = inr scheduled

sequence_cases : (o : Option ℤ) → (o ≡ none) ⊎ ((n : ℤ) × (o ≡ some n))
sequence_cases none = inl refl
sequence_cases (some n) = inr (n, refl)

pub true-false : true ≡ false → ⊥
true-false e = ground arith

module _ (connector : Connector) where
  -- A repair that was started is not taken back.
  IsScheduled-handle_trades :
      (key : Str × Str) (x : ℤ) (trades : List Trade) (r : Runner)
      → IsScheduled key x r.repairs
      → IsScheduled key x (handle_trades connector trades r).repairs
  unfolding handle_trades handle_trade
  IsScheduled-handle_trades key x [] r h = h
  IsScheduled-handle_trades key x (trade ∷ trades) r h =
      IsScheduled-handle_trades key x trades (handle_trade connector trade r)
        (IsScheduled-add_repair key x _ r.repairs h)

  -- A trade of the key moves the watermark, and a jump over `x` starts a repair.
  handle_trade-same :
      (venue symbol : Str) (w n x : ℤ) (trade : Trade) (r : Runner)
      → key_of connector trade ≡ (venue, symbol)
      → trade.sequence ≡ some n
      → get (venue, symbol) r.tracker ≡ some w
      → (get (venue, symbol) (handle_trade connector trade r).tracker ≡ some (raise (some w) n))
        × (w <ℤ x → x <ℤ n → IsScheduled (venue, symbol) x (handle_trade connector trade r).repairs)
  unfolding handle_trade observe observe_after
  handle_trade-same venue symbol w n x trade r k q e =
      let kv : trade.venue ≡ venue = ap (λ (p : Str × Str). p.0) k in
      let ks : symbol_or connector.sequence_symbol trade.venue_symbol ≡ symbol =
        ap (λ (p : Str × Str). p.1) k in
      rw (kv, ks, q)
        (
          get-observe venue symbol n r.tracker e,
          λ above below. rw e (elim (Bool-cases (leb_ℤ n (w +ℤ pos 1))) [
            | inl b ↦ absurd (let le = leb→le _ _ b in omega int_laws)
            | inr b ↦ rw b (IsScheduled-last (venue, symbol) x _ r.repairs refl (above, below))
          ]),
        )

  -- A trade of another key, and one without a number, leave the watermark alone.
  handle_trade-other :
      (venue symbol : Str) (trade : Trade) (r : Runner)
      → (key_of connector trade ≢ (venue, symbol)) ⊎ (trade.sequence ≡ none)
      → get (venue, symbol) (handle_trade connector trade r).tracker ≡ get (venue, symbol) r.tracker
  unfolding handle_trade observe
  handle_trade-other venue symbol trade r (inl h) =
      observe_other_key trade.venue (symbol_or connector.sequence_symbol trade.venue_symbol) venue
        symbol trade.sequence r.tracker h
  handle_trade-other venue symbol trade r (inr q) = rw q refl

  -- One trade, where the rest of the run is accounted for from any watermark below `x`.
  IsAccounted-step :
      (venue symbol : Str) (w x : ℤ) (trade : Trade) (trades : List Trade) (r : Runner)
      → let r' = handle_trade connector trade r in
        get (venue, symbol) r.tracker ≡ some w
        → w <ℤ x
        → ((w' : ℤ)
            → get (venue, symbol) r'.tracker ≡ some w'
            → w' <ℤ x
            → IsAccounted connector
                (venue, symbol)
                x
                (trade ∷ trades)
                (handle_trades connector trades r').repairs)
        → IsAccounted connector
            (venue, symbol)
            x
            (trade ∷ trades)
            (handle_trades connector trades r').repairs
  IsAccounted-step venue symbol w x trade trades r e h ih = elim (sequence_cases trade.sequence) [
    | inl q ↦ ih w (handle_trade-other venue symbol trade r (inr q) ∙ e) h
    | inr (n, q) ↦ elim (Bool-cases (pair_beq (key_of connector trade) (venue, symbol))) [
      | inr b ↦
          ih w
            (handle_trade-other venue symbol trade r
                (inl (λ k. true-false (sym ((pair_beq_iff _ _).1 k) ∙ b)))
              ∙ e)
            h
      | inl b ↦ at_key n ((pair_beq_iff _ _).0 b) q
    ]
  ]
    where
      r' : Runner
      r' = handle_trade connector trade r

      at_key :
          (n : ℤ)
          → key_of connector trade ≡ (venue, symbol)
          → trade.sequence ≡ some n
          → IsAccounted connector
              (venue, symbol)
              x
              (trade ∷ trades)
              (handle_trades connector trades r').repairs
      at_key n k q =
          let (moved, jumped) = handle_trade-same venue symbol w n x trade r k q e in
          elim (Bool-cases (leb_ℤ x n)) [
            | inl low ↦ elim (Bool-cases (leb_ℤ n x)) [
              | inl high ↦
                  inl (inl (k, q ∙ ap (λ (m : ℤ). some m) (eq_of_parts n x (ground arith))))
              | inr below ↦
                  inr (
                    IsScheduled-handle_trades (venue, symbol) x trades r' (jumped h (ground arith)))
            ]
            | inr above ↦ ih (raise (some w) n) moved (raise_below w n x h (ground arith))
          ]

  -- A number above a key's watermark and up to its last one was carried by one of the trades of the
  -- key, or is in a gap of the key whose repair is started; trades of other keys and trades without
  -- a number may come between.
  pub handle_trades-IsAccounted :
      (venue symbol : Str) (w last x : ℤ) (trades : List Trade) (r : Runner)
      → get (venue, symbol) r.tracker ≡ some w
      → get (venue, symbol) (handle_trades connector trades r).tracker ≡ some last
      → w <ℤ x
      → x ≤ℤ last
      → IsAccounted connector (venue, symbol) x trades (handle_trades connector trades r).repairs
  unfolding handle_trades
  handle_trades-IsAccounted venue symbol w last x [] r e f h k =
      let p : w ≡ last = some-injective w last (sym e ∙ f) in
      absurd (let k' : x ≤ℤ w = (rw (← p) at k) in omega arith)
  handle_trades-IsAccounted venue symbol w last x (trade ∷ trades) r e f h k =
      IsAccounted-step venue symbol w x trade trades r e h (λ w' e' h'.
        IsAccounted-cons connector (venue, symbol) x trade trades _
          (handle_trades-IsAccounted venue symbol w' last x trades (handle_trade connector trade r)
            e' f h' k))
