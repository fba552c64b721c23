-- ===== src/Tests/Bars.antt =====
-- Two bars of awsnative/bars.py and the bar of their trades. Floats are left out of the arithmetic.
use realtime_finance_bot.Base.{
  ℕ, ◌+◌, ◌≡◌, refl, List, [], ◌∷◌, Str, str, ℤ, pos, pos_part, scale, ok,
}
use realtime_finance_bot.Native.Bars.{Numeric, Bar, Measures, bar_from_trades, rollup}
use realtime_finance_bot.Native.Bars.Measured.{Chunk}
use realtime_finance_bot.Native.Bars.Compose.{Agree, rollup-joined_all}

abbrev py : Numeric
py = record {
  Float = ℕ;
  Quotient = ℤ × ℤ;
  times = λ a b. scale a (pos_part b);
  divide = λ a b. (a, b);
  squared_log = λ close first. ok 1;
  zero_float = 0;
  add_float = λ a b. a + b;
  root = λ a. a;
}

abbrev early : Chunk
early = record {
  prices = pos 100 ∷ pos 130 ∷ [];
  sizes = pos 2 ∷ pos 1 ∷ [];
  sides = str "BUY" ∷ str "SELL" ∷ [];
}

abbrev late : Chunk
late = record { prices = pos 90 ∷ []; sizes = pos 4 ∷ []; sides = str "SELL" ∷ [] }

abbrev early_bar : Bar py
early_bar = record {
  open_price = pos 100;
  high = pos 130;
  low = pos 100;
  close_price = pos 130;
  volume = pos 3;
  notional = pos 330;
  buy_vol = pos 2;
  sell_vol = pos 1;
  sq_log_return = 1;
  trade_count = 2;
}

abbrev late_bar : Bar py
late_bar = record {
  open_price = pos 90;
  high = pos 90;
  low = pos 90;
  close_price = pos 90;
  volume = pos 4;
  notional = pos 360;
  buy_vol = pos 0;
  sell_vol = pos 4;
  sq_log_return = 1;
  trade_count = 1;
}

abbrev whole_bar : Bar py
whole_bar = record {
  open_price = pos 100;
  high = pos 130;
  low = pos 90;
  close_price = pos 90;
  volume = pos 7;
  notional = pos 690;
  buy_vol = pos 2;
  sell_vol = pos 5;
  sq_log_return = 1;
  trade_count = 3;
}

abbrev measures : Measures py
measures = record {
  vwap = (pos 690, pos 7);
  high = pos 130;
  low = pos 90;
  realized_vol = 2;
  flow_imbalance = (ℤ.negsuc 2, pos 7);
  volume = pos 7;
  trade_count = 3;
}

rollup-joined_all_example :
    (m : Measures py) × (rollup py (whole_bar ∷ []) ≡ ok m) × Agree py measures m
unfolding bar_from_trades rollup realtime_finance_bot.Base.◌+ℤ◌ realtime_finance_bot.Base.str_eq
    scale realtime_finance_bot.Base.◌-ℤ◌
rollup-joined_all_example =
    rollup-joined_all py early (late ∷ []) early_bar (late_bar ∷ []) whole_bar measures refl
      (refl, tt) refl refl
