-- ===== src/Native/Bars/Measured.antt =====
-- What `bar_from_trades` of awsnative/bars.py measures, and the measures of trades put together.
use realtime_finance_bot.Base.{
  ℕ, ◌+◌, ◌≡◌, refl, sym, ap, ◌∙◌, Bool, true, false, List, [], ◌∷◌, ◌++◌, length, length-append,
  arith, if◌then◌else◌, Str, str, str_eq, ℤ, pos, ◌+ℤ◌, max_ℤ, int_laws, Result, ok, >>=-eq-ok,
  ok-injective,
}
use realtime_finance_bot.Python.Values.{Error}
use realtime_finance_bot.Native.Bars.{
  Numeric, min_ℤ, fold_from, last_from, total, Bar, notional_of, volume_of, bar_from_trades,
}

pub plus_assoc : (a b c : ℤ) → a +ℤ b +ℤ c ≡ a +ℤ (b +ℤ c)
plus_assoc a b c = omega int_laws

pub plus_zero : (a : ℤ) → a +ℤ pos 0 ≡ a
plus_zero a = omega int_laws

zero_plus : (a : ℤ) → pos 0 +ℤ a ≡ a
zero_plus a = omega int_laws

pub plus_zero_ℕ : (a : ℕ) → a + 0 ≡ a
plus_zero_ℕ a = omega arith

max_assoc : (a b c : ℤ) → max_ℤ (max_ℤ a b) c ≡ max_ℤ a (max_ℤ b c)
max_assoc a b c = ground arith

min_assoc : (a b c : ℤ) → min_ℤ (min_ℤ a b) c ≡ min_ℤ a (min_ℤ b c)
min_assoc a b c = ground arith

total-append : (xs ys : List ℤ) → total (xs ++ ys) ≡ total xs +ℤ total ys
unfolding total
total-append [] ys = sym (zero_plus (total ys))
total-append (x ∷ xs) ys =
    ap (λ t. x +ℤ t) (total-append xs ys) ∙ sym (plus_assoc x (total xs) (total ys))

module _ (op : ℤ → ℤ → ℤ) (assoc : (a b c : ℤ) → op (op a b) c ≡ op a (op b c)) where
  fold_from-op : (a y : ℤ) (ys : List ℤ) → fold_from op (op a y) ys ≡ op a (fold_from op y ys)
  unfolding fold_from
  fold_from-op a y [] = refl
  fold_from-op a y (z ∷ zs) = ap (λ b. fold_from op b zs) (assoc a y z) ∙ fold_from-op a (op y z) zs

  fold_from-append :
      (a y : ℤ) (xs ys : List ℤ)
      → fold_from op a (xs ++ (y ∷ ys)) ≡ op (fold_from op a xs) (fold_from op y ys)
  unfolding fold_from
  fold_from-append a y [] ys = fold_from-op a y ys
  fold_from-append a y (x ∷ xs) ys = fold_from-append (op a x) y xs ys

-- The trades of one bar.
pub record Chunk : Type 0 where
  pub prices : List ℤ
  pub sizes : List ℤ
  pub sides : List Str

abbrev pub joined : Chunk → Chunk → Chunk
joined c d = record {
  prices = c.prices ++ d.prices;
  sizes = c.sizes ++ d.sizes;
  sides = c.sides ++ d.sides;
}

abbrev pub joined_all : Chunk → List Chunk → Chunk
joined_all c [] = c
joined_all c (d ∷ ds) = joined_all (joined c d) ds

module _ (py : Numeric) where
  notional_of-append :
      (ps qs ss ts : List ℤ) (m n : ℤ)
      → notional_of py ps ss ≡ ok m
      → notional_of py qs ts ≡ ok n
      → notional_of py (ps ++ qs) (ss ++ ts) ≡ ok (m +ℤ n)
  unfolding notional_of
  notional_of-append [] qs [] ts m n e f =
      rw f (ap (λ k. ok k) (sym (zero_plus n) ∙ ap (λ k. k +ℤ n) (ok-injective e)))
  notional_of-append [] qs (_ ∷ _) ts m n e f = cc
  notional_of-append (_ ∷ _) qs [] ts m n e f = cc
  notional_of-append (p ∷ ps) qs (s ∷ ss) ts m n e f =
      let (k, rest, e') = >>=-eq-ok (notional_of py ps ss) _ e in
      rw (notional_of-append ps qs ss ts k n rest f)
        (ap (λ j. ok j) (sym (plus_assoc (py.times p s) k n) ∙ ap (λ j. j +ℤ n) (ok-injective e')))

  volume_of-append :
      (side : Str) (ss ts : List ℤ) (ds es : List Str) (m n : ℤ)
      → volume_of py side ss ds ≡ ok m
      → volume_of py side ts es ≡ ok n
      → volume_of py side (ss ++ ts) (ds ++ es) ≡ ok (m +ℤ n)
  unfolding volume_of
  volume_of-append side [] ts [] es m n e f =
      rw f (ap (λ k. ok k) (sym (zero_plus n) ∙ ap (λ k. k +ℤ n) (ok-injective e)))
  volume_of-append side [] ts (_ ∷ _) es m n e f = cc
  volume_of-append side (_ ∷ _) ts [] es m n e f = cc
  volume_of-append side (s ∷ ss) ts (d ∷ ds) es m n e f =
      let (k, rest, e') = >>=-eq-ok (volume_of py side ss ds) _ e in
      rw (volume_of-append side ss ts ds es k n rest f)
        (ap (λ j. ok j) (one (str_eq d side) k ∙ ap (λ j. j +ℤ n) (ok-injective e')))
    where
      one :
          (b : Bool) (k : ℤ)
          → (if b then s +ℤ (k +ℤ n) else (k +ℤ n)) ≡ (if b then s +ℤ k else k) +ℤ n
      one true k = sym (plus_assoc s k n)
      one false k = refl

  -- What a bar says of the trades of a chunk, apart from its first and last price.
  pub record IsMeasured (c : Chunk) (high low volume notional buy sell : ℤ) (count : ℕ)
      : Type 0 where
    pub first : ℤ
    pub others : List ℤ
    pub split : c.prices ≡ first ∷ others
    pub highest : fold_from max_ℤ first others ≡ high
    pub lowest : fold_from min_ℤ first others ≡ low
    pub sized : total c.sizes ≡ volume
    pub paid : notional_of py c.prices c.sizes ≡ ok notional
    pub bought : volume_of py (str "BUY") c.sizes c.sides ≡ ok buy
    pub sold : volume_of py (str "SELL") c.sizes c.sides ≡ ok sell
    pub counted : length c.prices ≡ count

  abbrev pub IsBarOf : Chunk → Bar py → Type 0
  IsBarOf c b = IsMeasured c b.high b.low b.volume b.notional b.buy_vol b.sell_vol b.trade_count

  abbrev pub bar_of : Chunk → Result Error (Bar py)
  bar_of c = bar_from_trades py c.prices c.sizes c.sides

  measured :
      (c : Chunk) (b : Bar py) (ps : List ℤ)
      → c.prices ≡ ps
      → bar_from_trades py ps c.sizes c.sides ≡ ok b
      → IsBarOf c b
  unfolding bar_from_trades
  measured c b [] q e = cc
  measured c b (p ∷ ps) q e =
      let (n, paid, e1) = >>=-eq-ok (notional_of py (p ∷ ps) c.sizes) _ e in
      let (bu, bought, e2) = >>=-eq-ok (volume_of py (str "BUY") c.sizes c.sides) _ e1 in
      let (se, sold, e3) = >>=-eq-ok (volume_of py (str "SELL") c.sizes c.sides) _ e2 in
      let (f, _, e4) = >>=-eq-ok (py.squared_log (last_from p ps) p) _ e3 in
      rw (← ok-injective e4) (record {
        first = p;
        others = ps;
        split = q;
        highest = refl;
        lowest = refl;
        sized = refl;
        paid = rw q paid;
        bought = bought;
        sold = sold;
        counted = ap length q;
      })

  pub bar_of-IsBarOf : (c : Chunk) (b : Bar py) → bar_of c ≡ ok b → IsBarOf c b
  bar_of-IsBarOf c b e = measured c b c.prices refl e

  pub IsMeasured-joined :
      (c d : Chunk) (h l v n bu se h' l' v' n' bu' se' : ℤ) (k k' : ℕ)
      → IsMeasured c h l v n bu se k
      → IsMeasured d h' l' v' n' bu' se' k'
      → IsMeasured
          (joined c d)
          (max_ℤ h h')
          (min_ℤ l l')
          (v +ℤ v')
          (n +ℤ n')
          (bu +ℤ bu')
          (se +ℤ se')
          (k + k')
  IsMeasured-joined c d h l v n bu se h' l' v' n' bu' se' k k' m m' = record {
    first = m.first;
    others = m.others ++ (m'.first ∷ m'.others);
    split = rw (m.split, m'.split) refl;
    highest =
        fold_from-append max_ℤ max_assoc m.first m'.first m.others m'.others
        ∙ rw (m.highest, m'.highest) refl;
    lowest =
        fold_from-append min_ℤ min_assoc m.first m'.first m.others m'.others
        ∙ rw (m.lowest, m'.lowest) refl;
    sized = total-append c.sizes d.sizes ∙ rw (m.sized, m'.sized) refl;
    paid = notional_of-append c.prices d.prices c.sizes d.sizes n n' m.paid m'.paid;
    bought = volume_of-append (str "BUY") c.sizes d.sizes c.sides d.sides bu bu' m.bought m'.bought;
    sold = volume_of-append (str "SELL") c.sizes d.sizes c.sides d.sides se se' m.sold m'.sold;
    counted = length-append c.prices d.prices ∙ rw (m.counted, m'.counted) refl;
  }
