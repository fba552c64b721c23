-- ===== src/Base/Dicts.antt =====
-- Python's `dict` in insertion order, over keys with a Boolean equality.
use mathlib.Core.Path.{◌≡◌, refl}
use mathlib.Core.Logic.{◌↔◌, ◌≢◌, inl, inr}
use mathlib.Core.Bool.{Bool, true, false, ◌&&◌}
use mathlib.Core.Option.{Option, none, some}
use mathlib.Core.List.{List, [], ◌∷◌}
use native.Mathlib.Omega.{arith}
use realtime_finance_bot.Base.Tests.{Bool-cases, if◌then◌else◌}
use realtime_finance_bot.Base.Text.{Str, str_eq, str_eq_iff}

pub record Eq {ℓ} (A : Type ℓ) : Type ℓ where
  pub beq : A → A → Bool
  pub beq_iff : (left right : A) → (beq left right ≡ true) ↔ (left ≡ right)

instance abbrev pub str_Eq : Eq Str
str_Eq = record { beq = str_eq; beq_iff = str_eq_iff }

pub pair_beq : Str × Str → Str × Str → Bool
pair_beq a b = str_eq a.0 b.0 && str_eq a.1 b.1

pub pair_beq_iff : (a b : Str × Str) → (pair_beq a b ≡ true) ↔ (a ≡ b)
unfolding pair_beq
pair_beq_iff a b = ground (arith, str_eq_iff a.0 b.0, str_eq_iff a.1 b.1)

instance unfoldable pub pair_Eq : Eq (Str × Str)
unfolding pair_beq
pair_Eq = record { beq = pair_beq; beq_iff = pair_beq_iff }

abbrev pub Dict {ℓ κ} : Type ℓ → Type κ → Type (ℓ ⊔ κ)
Dict K V = List (K × V)

module _ {ℓ κ} {K : Type ℓ} {V : Type κ} ⦃e : Eq K⦄ where
  -- `d.get(k)`
  unfoldable pub get : K → Dict K V → Option V
  get k [] = none
  get k ((j, v) ∷ d) = if e.beq j k then some v else get k d

  -- `d[k] = v`
  unfoldable pub put : K → V → Dict K V → Dict K V
  put k v [] = (k, v) ∷ []
  put k v ((j, w) ∷ d) = if e.beq j k then (j, v) ∷ d else (j, w) ∷ put k v d

  -- `d.pop(k, None)`
  unfoldable pub pop : K → Dict K V → Dict K V
  pop k [] = []
  pop k ((j, w) ∷ d) = let rest = pop k d in if e.beq j k then rest else (j, w) ∷ rest

  pub get-put :
      (k j : K) (v : V) (d : Dict K V) → get j (put k v d) ≡ (if e.beq k j then some v else get j d)
  unfolding get put
  get-put k j v [] = refl
  get-put k j v ((i, w) ∷ d) =
      ground (arith, e.beq_iff i k, e.beq_iff i j, e.beq_iff k j, get-put k j v d)

  pub get-pop : (k j : K) (d : Dict K V) → get j (pop k d) ≡ (if e.beq k j then none else get j d)
  unfolding get pop
  get-pop k j [] = ground arith
  get-pop k j ((i, w) ∷ d) =
      ground (arith, e.beq_iff i k, e.beq_iff i j, e.beq_iff k j, get-pop k j d)

pub beq_refl {ℓ} : {K : Type ℓ} ⦃e : Eq K⦄ (k : K) → e.beq k k ≡ true
beq_refl ⦃e⦄ k = (e.beq_iff k k).1 refl

pub beq_ne {ℓ} : {K : Type ℓ} ⦃e : Eq K⦄ (k j : K) → k ≢ j → e.beq k j ≡ false
beq_ne ⦃e⦄ k j h = elim (Bool-cases (e.beq k j)) [
  | inl same ↦ absurd (h ((e.beq_iff k j).0 same))
  | inr differ ↦ differ
]
