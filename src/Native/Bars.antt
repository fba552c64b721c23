-- ===== src/Native/Bars.antt =====
-- awsnative/bars.py: a bar of trades, and the roll-up of bars. A Decimal is the number of its smallest
-- unit, an amount of money that of the product: sums and products within Decimal's 28 digits are
-- exact. A quotient of Decimals and the floats are parameters.
pub mod Measured
pub mod Compose
use realtime_finance_bot.Base.{
  ℕ, zero, suc, ◌+◌, Bool, true, false, Option, none, some, List, [], ◌∷◌, map, length, sum,
  if◌then◌else◌, Str, str, str_eq, ℤ, pos, ◌+ℤ◌, ◌-ℤ◌, leb_ℤ, max_ℤ, Result, ok, raise, ◌>>=◌,
}
use realtime_finance_bot.Python.Values.{Error, value_error}

-- What the module takes from `decimal` and `math`: `log(float(close) / float(open)) ** 2`, which may
-- raise, the sum of floats and its root, and the division of Decimals.
pub record Numeric : Type 1 where
  pub Float : Type 0
  pub Quotient : Type 0
  pub times : ℤ → ℤ → ℤ
  pub divide : ℤ → ℤ → Quotient
  pub squared_log : ℤ → ℤ → Result Error Float
  pub zero_float : Float
  pub add_float : Float → Float → Float
  pub root : Float → Float

-- Python's `min(a, b)`.
abbrev pub min_ℤ : ℤ → ℤ → ℤ
min_ℤ a b = if leb_ℤ a b then a else b

-- `max` and `min` of a list that is not empty, from the left.
unfoldable pub fold_from : (ℤ → ℤ → ℤ) → ℤ → List ℤ → ℤ
fold_from op a [] = a
fold_from op a (b ∷ bs) = fold_from op (op a b) bs

-- `values[-1]`
unfoldable pub last_from : ℤ → List ℤ → ℤ
last_from a [] = a
last_from a (b ∷ bs) = last_from b bs

unfoldable pub total : List ℤ → ℤ
total [] = pos 0
total (a ∷ bs) = a +ℤ total bs

module _ (py : Numeric) where
  pub record Bar : Type 0 where
    pub open_price : ℤ
    pub high : ℤ
    pub low : ℤ
    pub close_price : ℤ
    pub volume : ℤ
    pub notional : ℤ
    pub buy_vol : ℤ
    pub sell_vol : ℤ
    pub sq_log_return : py.Float
    pub trade_count : ℕ

  pub record Measures : Type 0 where
    pub vwap : py.Quotient
    pub high : ℤ
    pub low : ℤ
    pub realized_vol : py.Float
    pub flow_imbalance : py.Quotient
    pub volume : ℤ
    pub trade_count : ℕ

  -- The sums over `zip(…, strict=True)`, which raises where the lengths differ.
  unfoldable pub notional_of : List ℤ → List ℤ → Result Error ℤ
  notional_of [] [] = ok (pos 0)
  notional_of [] (_ ∷ _) = raise value_error
  notional_of (_ ∷ _) [] = raise value_error
  notional_of (p ∷ ps) (s ∷ ss) = notional_of ps ss >>= λ n. ok (py.times p s +ℤ n)

  unfoldable pub volume_of : Str → List ℤ → List Str → Result Error ℤ
  volume_of side [] [] = ok (pos 0)
  volume_of side [] (_ ∷ _) = raise value_error
  volume_of side (_ ∷ _) [] = raise value_error
  volume_of side (s ∷ ss) (d ∷ ds) =
      volume_of side ss ds >>= λ n. ok (if str_eq d side then s +ℤ n else n)

  unfoldable pub bar_from_trades : List ℤ → List ℤ → List Str → Result Error Bar
  unfolding notional_of volume_of fold_from last_from total
  bar_from_trades [] sizes sides = raise value_error
  bar_from_trades (p ∷ ps) sizes sides = do
    notional ← notional_of (p ∷ ps) sizes
    buy_vol ← volume_of (str "BUY") sizes sides
    sell_vol ← volume_of (str "SELL") sizes sides
    sq_log_return ← py.squared_log (last_from p ps) p
    ok (record {
      open_price = p;
      high = fold_from max_ℤ p ps;
      low = fold_from min_ℤ p ps;
      close_price = last_from p ps;
      volume = total sizes;
      notional = notional;
      buy_vol = buy_vol;
      sell_vol = sell_vol;
      sq_log_return = sq_log_return;
      trade_count = suc (length ps);
    })

  unfoldable pub sum_floats : py.Float → List Bar → py.Float
  sum_floats f [] = f
  sum_floats f (b ∷ bs) = sum_floats (py.add_float f b.sq_log_return) bs

  abbrev pub column : (Bar → ℤ) → List Bar → List ℤ
  column field bars = map field bars

  unfoldable pub rollup : List Bar → Result Error Measures
  unfolding fold_from total sum_floats
  rollup [] = raise value_error
  rollup (b ∷ bs) =
      let volume = total (column (λ x. x.volume) (b ∷ bs)) in
      if leb_ℤ volume (pos 0)
      then raise value_error
      else ok (record {
        vwap = py.divide (total (column (λ x. x.notional) (b ∷ bs))) volume;
        high = fold_from max_ℤ b.high (column (λ x. x.high) bs);
        low = fold_from min_ℤ b.low (column (λ x. x.low) bs);
        realized_vol = py.root (sum_floats py.zero_float (b ∷ bs));
        flow_imbalance =
            py.divide
              (total (column (λ x. x.buy_vol) (b ∷ bs))
                -ℤ total (column (λ x. x.sell_vol) (b ∷ bs)))
              volume;
        volume = volume;
        trade_count = sum (map (λ (x : Bar). x.trade_count) (b ∷ bs));
      })
