-- ===== src/Ingest/Gaps/Coverage.antt =====
-- The gaps that `SequenceTracker` reports are the numbers that were not seen.
use realtime_finance_bot.Base.{
  All, ◌≡◌, refl, sym, ◌∙◌, ◌⊎◌, inl, inr, ◌≢◌, Option, none, some, List, [], ◌∷◌, arith, Str, get,
  put, pair_Eq, get-put, get-pop, beq_refl, beq_ne, ℤ, pos, ◌+ℤ◌, ◌≤ℤ◌, ◌<ℤ◌, leb_ℤ, max_ℤ,
  eq_of_parts, int_laws, Bool-cases, leb→le,
}
use mathlib.Core.Option.{some-injective}
use realtime_finance_bot.Ingest.Gaps.{
  Gap, missing_count, Tracker, observe, observe_after, reset, observe_all, cons_gap,
}

-- The watermark after `n` is observed.
abbrev pub raise : Option ℤ → ℤ → ℤ
raise none n = n
raise (some last) n = max_ℤ n last

abbrev pub Has : ℤ → List ℤ → Type 0
Has x [] = ⊥
Has x (n ∷ ns) = (x ≡ n) ⊎ Has x ns

All-Has : (P : ℤ → Type 0) (ns : List ℤ) → ((x : ℤ) → Has x ns → P x) → All P ns
All-Has P [] h = tt
All-Has P (n ∷ ns) h = (h n (inl refl), All-Has P ns (λ x m. h x (inr m)))

-- A number strictly between the two that the gap names.
abbrev pub IsMissing : ℤ → Gap → Type 0
IsMissing x g = (g.last_seen <ℤ x) × (x <ℤ g.next_seen)

abbrev pub IsReported : ℤ → List Gap → Type 0
IsReported x [] = ⊥
IsReported x (g ∷ gaps) = IsMissing x g ⊎ IsReported x gaps

get-observe_after :
    (venue symbol : Str) (o : Option ℤ) (n : ℤ) (t : Tracker)
    → get (venue, symbol) (observe_after venue symbol o n t).1 ≡ some (raise o n)
unfolding observe_after
get-observe_after venue symbol none n t = rw (get-put, beq_refl {K = Str × Str} (venue, symbol))
get-observe_after venue symbol (some last) n t = elim (Bool-cases (leb_ℤ n (last +ℤ pos 1))) [
  | inl b ↦ rw b (rw (get-put, beq_refl {K = Str × Str} (venue, symbol)))
  | inr b ↦ rw b (rw (get-put, beq_refl {K = Str × Str} (venue, symbol)))
]

IsReported-cons_gap :
    (x : ℤ) (gap : Option Gap) (gaps : List Gap)
    → IsReported x gaps
    → IsReported x (cons_gap gap gaps)
IsReported-cons_gap x none gaps h = h
IsReported-cons_gap x (some g) gaps h = inr h

pub raise_below : (w n x : ℤ) → w <ℤ x → n <ℤ x → raise (some w) n <ℤ x
raise_below w n x h k = elim (Bool-cases (leb_ℤ w n)) [ inl b ↦ rw b k | inr b ↦ rw b h ]

raise_above : (w n x : ℤ) → (x ≤ℤ w) ⊎ (x ≤ℤ n) → x ≤ℤ raise (some w) n
raise_above w n x h = elim (Bool-cases (leb_ℤ w n)) [
  | inl b ↦ rw b (ground (arith, leb→le _ _ b))
  | inr b ↦ rw b (ground arith)
]

raise-le : (o : Option ℤ) (n x : ℤ) → x ≡ n → x ≤ℤ raise o n
raise-le none n x e = rw e (omega arith)
raise-le (some w) n x e = raise_above w n x (inr (rw e (omega arith)))

-- A report names the watermark and the number observed, which is beyond the next.
observe_after-report :
    (venue symbol : Str) (o : Option ℤ) (n : ℤ) (t : Tracker) (g : Gap)
    → (observe_after venue symbol o n t).0 ≡ some g
    → (o ≡ some g.last_seen) × (g.last_seen +ℤ pos 1 <ℤ g.next_seen)
unfolding observe_after
observe_after-report venue symbol none n t g e = ground arith
observe_after-report venue symbol (some last) n t g e = ground arith

module _ (venue symbol : Str) where
  pub get-observe :
      {o : Option ℤ} (n : ℤ) (t : Tracker)
      → get (venue, symbol) t ≡ o
      → get (venue, symbol) (observe venue symbol (some n) t).1 ≡ some (raise o n)
  unfolding observe
  get-observe {o} n t e = rw e (get-observe_after venue symbol o n t)

  -- A jump over `x` is reported.
  observe-IsReported :
      (w n x : ℤ) (t : Tracker) (gaps : List Gap)
      → get (venue, symbol) t ≡ some w
      → w <ℤ x
      → x <ℤ n
      → IsReported x (cons_gap (observe venue symbol (some n) t).0 gaps)
  unfolding observe observe_after
  observe-IsReported w n x t gaps e h k = rw e (elim (Bool-cases (leb_ℤ n (w +ℤ pos 1))) [
    | inl b ↦ absurd (let le = leb→le _ _ b in omega int_laws)
    | inr b ↦ rw b (inl (h, k))
  ])

  -- Every number above the first watermark and up to the last is observed or in a reported gap.
  pub observe_all-covers :
      (w : ℤ) (ns : List ℤ) (t : Tracker) (last x : ℤ)
      → get (venue, symbol) t ≡ some w
      → get (venue, symbol) (observe_all venue symbol ns t).1 ≡ some last
      → w <ℤ x
      → x ≤ℤ last
      → Has x ns ⊎ IsReported x (observe_all venue symbol ns t).0
  unfolding observe_all
  observe_all-covers w [] t last x e f h k =
      let p : w ≡ last = some-injective w last (sym e ∙ f) in
      absurd (let k' : x ≤ℤ w = (rw (← p) at k) in omega arith)
  observe_all-covers w (n ∷ ns) t last x e f h k = elim (Bool-cases (leb_ℤ x n)) [
    | inl low ↦ elim (Bool-cases (leb_ℤ n x)) [
      | inl high ↦ inl (inl (eq_of_parts x n (ground arith)))
      | inr below ↦ inr (observe-IsReported w n x t _ e h (ground arith))
    ]
    | inr above ↦ later (
        observe_all-covers (raise (some w) n) ns (observe venue symbol (some n) t).1 last x
          (get-observe n t e) f (raise_below w n x h (ground arith)) k)
  ]
    where
      later :
          Has x ns
            ⊎ IsReported x (observe_all venue symbol ns (observe venue symbol (some n) t).1).0
          → Has x (n ∷ ns)
            ⊎ IsReported x (
                cons_gap
                  (observe venue symbol (some n) t).0
                  (observe_all venue symbol ns (observe venue symbol (some n) t).1).0)
      later (inl seen) = inl (inr seen)
      later (inr missing) = inr (IsReported-cons_gap x _ _ missing)

  -- A watermark never falls.
  watermark_mono :
      (w : ℤ) (ns : List ℤ) (t : Tracker) (last : ℤ)
      → get (venue, symbol) t ≡ some w
      → get (venue, symbol) (observe_all venue symbol ns t).1 ≡ some last
      → w ≤ℤ last
  unfolding observe_all
  watermark_mono w [] t last e f = rw (some-injective w last (sym e ∙ f)) (omega arith)
  watermark_mono w (n ∷ ns) t last e f =
      let h = watermark_mono (raise (some w) n) ns _ last (get-observe n t e) f in
      omega (arith, h, raise_above w n w (inl (omega arith)))

  -- Nor is it below what was observed.
  watermark-bound :
      (o : Option ℤ) (ns : List ℤ) (t : Tracker) (last x : ℤ)
      → get (venue, symbol) t ≡ o
      → get (venue, symbol) (observe_all venue symbol ns t).1 ≡ some last
      → Has x ns
      → x ≤ℤ last
  unfolding observe_all
  watermark-bound o [] t last x e f h = absurd h
  watermark-bound o (n ∷ ns) t last x e f (inl p) =
      let h = watermark_mono (raise o n) ns _ last (get-observe n t e) f in
      omega (arith, h, raise-le o n x p)
  watermark-bound o (n ∷ ns) t last x e f (inr h) =
      watermark-bound (some (raise o n)) ns _ last x (get-observe n t e) f h

  -- No number that was observed before is in a gap that an observation reports, and the gap is not
  -- empty.
  pub observe-gap_unseen :
      (ns : List ℤ) (t : Tracker) (n : ℤ) (g : Gap)
      → (observe venue symbol (some n) (observe_all venue symbol ns t).1).0 ≡ some g
      → All (λ x. ¬ (IsMissing x g)) ns × (pos 0 <ℤ missing_count g)
  unfolding observe observe_after missing_count
  observe-gap_unseen ns t n g e =
      let (at, above) = observe_after-report venue symbol _ n _ g e in
      (
        All-Has (λ x. ¬ (IsMissing x g)) ns
            (λ x h m. absurd (
              let le = watermark-bound (get (venue, symbol) t) ns t g.last_seen x refl at h in
              omega arith)),
        omega (int_laws),
      )

-- What is observed under one key leaves every other key's watermark alone; `reset` forgets its
-- own key's, so that the next observation reports nothing.
pub observe_other_key :
    (v s v' s' : Str) (o : Option ℤ) (t : Tracker)
    → ◌≢◌ {A = Str × Str} (v, s) (v', s')
    → get (v', s') (observe v s o t).1 ≡ get (v', s') t
unfolding observe observe_after
observe_other_key v s v' s' none t h = refl
observe_other_key v s v' s' (some n) t h = untouched (get (v, s) t)
  where
    other : (w : ℤ) → get (v', s') (put (v, s) w t) ≡ get (v', s') t
    other w = rw (get-put, beq_ne {K = Str × Str} (v, s) (v', s') h)

    untouched : (o : Option ℤ) → get (v', s') (observe_after v s o n t).1 ≡ get (v', s') t
    untouched none = other n
    untouched (some last) = elim (Bool-cases (leb_ℤ n (last +ℤ pos 1))) [
      | inl b ↦ rw b (other _)
      | inr b ↦ rw b (other _)
    ]

pub observe-reset :
    (v s : Str) (n : ℤ) (t : Tracker) → (observe v s (some n) (reset v s t)).0 ≡ none
unfolding observe observe_after reset
observe-reset v s n t = rw (get-pop, beq_refl {K = Str × Str} (v, s))
