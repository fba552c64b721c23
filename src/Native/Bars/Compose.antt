-- ===== src/Native/Bars/Compose.antt =====
-- The measures of awsnative/bars.py compose: bars of the parts roll up to what one bar of all the
-- trades gives.
use realtime_finance_bot.Base.{
  ℕ, ◌+◌, ◌≡◌, refl, sym, ◌∙◌, inl, inr, List, [], ◌∷◌, map, sum, arith, Bool-cases, if◌then◌else◌,
  ℤ, pos, ◌+ℤ◌, ◌-ℤ◌, leb_ℤ, max_ℤ, Result, ok, raise, ok-injective,
}
use realtime_finance_bot.Python.Values.{Error, value_error}
use realtime_finance_bot.Native.Bars.{
  Numeric, min_ℤ, fold_from, total, Bar, Measures, sum_floats, column, rollup,
}
use realtime_finance_bot.Native.Bars.Measured.{
  plus_assoc, plus_zero, plus_zero_ℕ, Chunk, joined, joined_all, IsMeasured, bar_of, bar_of-IsBarOf,
  IsMeasured-joined,
}

module _ (py : Numeric) where
  -- Each chunk with its bar.
  abbrev pub AreBarsOf : List Chunk → List (Bar py) → Type 0
  AreBarsOf [] [] = Unit
  AreBarsOf [] (_ ∷ _) = ⊥
  AreBarsOf (_ ∷ _) [] = ⊥
  AreBarsOf (c ∷ cs) (b ∷ bs) = (bar_of py c ≡ ok b) × AreBarsOf cs bs

  plus_assoc_ℕ : (a b c : ℕ) → a + b + c ≡ a + (b + c)
  plus_assoc_ℕ a b c = omega arith

  IsMeasured-joined_all :
      (c : Chunk) (h l v n bu se : ℤ) (k : ℕ) (cs : List Chunk) (bs : List (Bar py))
      → IsMeasured py c h l v n bu se k
      → AreBarsOf cs bs
      → IsMeasured py
          (joined_all c cs)
          (fold_from max_ℤ h (column py (λ x. x.high) bs))
          (fold_from min_ℤ l (column py (λ x. x.low) bs))
          (v +ℤ total (column py (λ x. x.volume) bs))
          (n +ℤ total (column py (λ x. x.notional) bs))
          (bu +ℤ total (column py (λ x. x.buy_vol) bs))
          (se +ℤ total (column py (λ x. x.sell_vol) bs))
          (k + sum (map (λ (x : Bar py). x.trade_count) bs))
  unfolding fold_from total
  IsMeasured-joined_all c h l v n bu se k [] [] m all =
      rw (plus_zero v, plus_zero n, plus_zero bu, plus_zero se, plus_zero_ℕ k) m
  IsMeasured-joined_all c h l v n bu se k [] (_ ∷ _) m all = absurd all
  IsMeasured-joined_all c h l v n bu se k (_ ∷ _) [] m all = absurd all
  IsMeasured-joined_all c h l v n bu se k (d ∷ ds) (b ∷ bs) m (e, all) =
      rw
        (
          ← plus_assoc v b.volume (total (column py (λ x. x.volume) bs)),
          ← plus_assoc n b.notional (total (column py (λ x. x.notional) bs)),
          ← plus_assoc bu b.buy_vol (total (column py (λ x. x.buy_vol) bs)),
          ← plus_assoc se b.sell_vol (total (column py (λ x. x.sell_vol) bs)),
          ← plus_assoc_ℕ k b.trade_count (sum (map (λ (x : Bar py). x.trade_count) bs)),
        )
        (IsMeasured-joined_all (joined c d) _ _ _ _ _ _ _ ds bs
          (IsMeasured-joined py c d h l v n bu se _ _ _ _ _ _ k _ m (bar_of-IsBarOf py d b e)) all)

  first_of : {p q : ℤ} {ps qs : List ℤ} → ◌≡◌ {A = List ℤ} (p ∷ ps) (q ∷ qs) → (p ≡ q) × (ps ≡ qs)
  first_of e = (cc, cc)

  -- What is measured of a chunk is determined by it.
  IsMeasured-unique :
      (c : Chunk) (h l v n bu se h' l' v' n' bu' se' : ℤ) (k k' : ℕ)
      → IsMeasured py c h l v n bu se k
      → IsMeasured py c h' l' v' n' bu' se' k'
      → (h ≡ h') × (l ≡ l') × (v ≡ v') × (n ≡ n') × (bu ≡ bu') × (se ≡ se') × (k ≡ k')
  IsMeasured-unique c h l v n bu se h' l' v' n' bu' se' k k' m m' =
      let (p, ps) = first_of (sym m.split ∙ m'.split) in
      (
        sym m.highest ∙ (rw (p, ps) m'.highest),
        sym m.lowest ∙ (rw (p, ps) m'.lowest),
        sym m.sized ∙ m'.sized,
        ok-injective (sym m.paid ∙ m'.paid),
        ok-injective (sym m.bought ∙ m'.bought),
        ok-injective (sym m.sold ∙ m'.sold),
        sym m.counted ∙ m'.counted,
      )

  -- Everything but the volatility, which depends on the grain by its definition.
  abbrev pub Agree : Measures py → Measures py → Type 0
  Agree m m' =
      (m.vwap ≡ m'.vwap)
      × (m.high ≡ m'.high)
      × (m.low ≡ m'.low)
      × (m.flow_imbalance ≡ m'.flow_imbalance)
      × (m.volume ≡ m'.volume)
      × (m.trade_count ≡ m'.trade_count)

  abbrev made_of : ℤ → ℤ → ℤ → ℤ → ℤ → ℤ → ℕ → py.Float → Result Error (Measures py)
  made_of h l v n bu se k f =
      if leb_ℤ v (pos 0)
      then raise value_error
      else ok (record {
        vwap = py.divide n v;
        high = h;
        low = l;
        realized_vol = f;
        flow_imbalance = py.divide (bu -ℤ se) v;
        volume = v;
        trade_count = k;
      })

  rollup_one :
      (b : Bar py)
      → rollup py (b ∷ [])
        ≡ made_of b.high b.low b.volume b.notional b.buy_vol b.sell_vol b.trade_count
            (py.root (py.add_float py.zero_float b.sq_log_return))
  unfolding rollup fold_from total sum_floats
  rollup_one b =
      rw
        (
          plus_zero b.volume,
          plus_zero b.notional,
          plus_zero b.buy_vol,
          plus_zero b.sell_vol,
          plus_zero_ℕ b.trade_count,
        )
        refl

  made_of-Agree :
      (h l v n bu se : ℤ) (k : ℕ) (f g : py.Float) (m : Measures py)
      → made_of h l v n bu se k f ≡ ok m
      → (m' : Measures py) × (made_of h l v n bu se k g ≡ ok m') × Agree m m'
  made_of-Agree h l v n bu se k f g m e = elim (Bool-cases (leb_ℤ v (pos 0))) [
    | inl none_sold ↦ absurd (
        let e' : ◌≡◌ {A = Result Error (Measures py)} (raise value_error) (ok m) =
          (rw none_sold at e) in
        cc)
    | inr some_sold ↦
        let e' = (rw some_sold at e) in
        rw (some_sold, ← ok-injective e') (_, refl, (refl, refl, refl, refl, refl, refl))
  ]

  made_of-same :
      (h l v n bu se h' l' v' n' bu' se' : ℤ) (k k' : ℕ) (f : py.Float)
      → (h ≡ h') × (l ≡ l') × (v ≡ v') × (n ≡ n') × (bu ≡ bu') × (se ≡ se') × (k ≡ k')
      → made_of h l v n bu se k f ≡ made_of h' l' v' n' bu' se' k' f
  made_of-same h l v n bu se h' l' v' n' bu' se' k k' f (a, b, c, d, e, g, i) =
      rw (a, b, c, d, e, g, i) refl

  -- Where the trades of an interval are split into parts that each have a bar, the bars roll up to
  -- the same average price, high, low, imbalance, volume and count as the one bar of all the trades,
  -- and the roll-up of that bar returns where that of the parts does.
  pub rollup-joined_all :
      (c : Chunk) (cs : List Chunk) (b : Bar py) (bs : List (Bar py)) (whole : Bar py)
      (m : Measures py)
      → bar_of py c ≡ ok b
      → AreBarsOf cs bs
      → bar_of py (joined_all c cs) ≡ ok whole
      → rollup py (b ∷ bs) ≡ ok m
      → (m' : Measures py) × (rollup py (whole ∷ []) ≡ ok m') × Agree m m'
  unfolding rollup total
  rollup-joined_all c cs b bs whole m made all at rolled =
      let parts = IsMeasured-joined_all c _ _ _ _ _ _ _ cs bs (bar_of-IsBarOf py c b made) all in
      let (m', e, agree) =
        made_of-Agree (fold_from max_ℤ b.high (column py (λ x. x.high) bs))
          (fold_from min_ℤ b.low (column py (λ x. x.low) bs))
          (total (column py (λ x. x.volume) (b ∷ bs)))
          (total (column py (λ x. x.notional) (b ∷ bs)))
          (total (column py (λ x. x.buy_vol) (b ∷ bs)))
          (total (column py (λ x. x.sell_vol) (b ∷ bs)))
          (sum (map (λ (x : Bar py). x.trade_count) (b ∷ bs)))
          (py.root (sum_floats py py.zero_float (b ∷ bs)))
          (py.root (py.add_float py.zero_float whole.sq_log_return)) m rolled in
      (
        m',
        rollup_one whole
            ∙ made_of-same _ _ _ _ _ _ _ _ _ _ _ _ _ _ _ (
                IsMeasured-unique (joined_all c cs) _ _ _ _ _ _ _ _ _ _ _ _ _ _
                  (bar_of-IsBarOf py (joined_all c cs) whole at) parts)
            ∙ e,
        agree,
      )
