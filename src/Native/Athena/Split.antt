-- ===== src/Native/Athena/Split.antt =====
-- On a text without quotes and comments, the scan is the plain split; a quoted text is not split.
use realtime_finance_bot.Base.{
  ℕ, ◌≡◌, ◌≢◌, refl, ap, sym, ◌∙◌, true, false, List, [], ◌∷◌, ◌++◌, append_assoc, append-nil, map,
  keep, All, arith, ◌==◌, Bool-cases, inl, inr, Str, strip, split_on, add_first,
}
use realtime_finance_bot.Native.Athena.{
  plain, next_mode, is_kept, is_separator, scan, is_filled, split_statements,
}

-- No quote, and no minus sign.
abbrev pub IsPlainChar : ℕ → Type 0
IsPlainChar c = (c ≢ 39) × (c ≢ b'-')

abbrev prefix_first : Str → List Str → List Str
prefix_first p [] = p ∷ []
prefix_first p (f ∷ fs) = (p ++ f) ∷ fs

is_not : (c d : ℕ) → c ≢ d → c == d ≡ false
is_not c d h = ground (arith, h)

scan-separator :
    (current : Str) (c : ℕ) (s : Str)
    → IsPlainChar c
    → c == b';' ≡ true
    → scan plain current (c ∷ s) ≡ current ∷ scan plain [] s
unfolding scan next_mode is_kept is_separator
scan-separator current c s (quote, minus) sep =
    rw (sep, is_not c 39 quote, is_not c b'-' minus) refl

scan-other :
    (current : Str) (c : ℕ) (s : Str)
    → IsPlainChar c
    → c == b';' ≡ false
    → scan plain current (c ∷ s) ≡ scan plain (current ++ (c ∷ [])) s
unfolding scan next_mode is_kept is_separator
scan-other current c s (quote, minus) other =
    rw (other, is_not c 39 quote, is_not c b'-' minus) refl

split_on-separator :
    (c : ℕ) (s : Str) → c == b';' ≡ true → split_on b';' (c ∷ s) ≡ [] ∷ split_on b';' s
unfolding split_on
split_on-separator c s sep = rw sep refl

split_on-other :
    (c : ℕ) (s : Str) → c == b';' ≡ false → split_on b';' (c ∷ s) ≡ add_first c (split_on b';' s)
unfolding split_on
split_on-other c s other = rw other refl

prefix_first-add_first :
    (p : Str) (c : ℕ) (fs : List Str)
    → prefix_first p (add_first c fs) ≡ prefix_first (p ++ (c ∷ [])) fs
unfolding add_first
prefix_first-add_first p c [] = refl
prefix_first-add_first p c (f ∷ fs) = ap (λ x. x ∷ fs) (sym (append_assoc p (c ∷ []) f))

prefix_added : (c : ℕ) (fs : List Str) → prefix_first [] (add_first c fs) ≡ add_first c fs
unfolding add_first
prefix_added c [] = refl
prefix_added c (f ∷ fs) = refl

prefix_first-split_on : (s : Str) → prefix_first [] (split_on b';' s) ≡ split_on b';' s
unfolding split_on
prefix_first-split_on [] = refl
prefix_first-split_on (c ∷ s) = elim (Bool-cases (c == b';')) [
  | inl sep ↦ rw sep refl
  | inr other ↦ rw other (prefix_added c (split_on b';' s))
]

scan-plain :
    (current text : Str)
    → All IsPlainChar text
    → scan plain current text ≡ prefix_first current (split_on b';' text)
unfolding scan split_on
scan-plain current [] h = ap (λ p. p ∷ []) (sym (append-nil current))
scan-plain current (c ∷ s) (h, hs) = elim (Bool-cases (c == b';')) [
  | inl sep ↦
      scan-separator current c s h sep
      ∙ (ap (λ r. current ∷ r) (scan-plain [] s hs ∙ prefix_first-split_on s)
          ∙ (ap (λ p. p ∷ split_on b';' s) (sym (append-nil current))
              ∙ ap (prefix_first current) (sym (split_on-separator c s sep))))
  | inr other ↦
      scan-other current c s h other
      ∙ (scan-plain (current ++ (c ∷ [])) s hs
          ∙ (sym (prefix_first-add_first current c (split_on b';' s))
              ∙ ap (prefix_first current) (sym (split_on-other c s other))))
]

-- On a text without quotes and minus signs, the statements are the parts between semicolons,
-- stripped, without the empty ones.
pub split_statements-plain :
    (text : Str)
    → All IsPlainChar text
    → split_statements text ≡ keep is_filled (map strip (split_on b';' text))
unfolding split_statements
split_statements-plain text h =
    ap (λ parts. keep is_filled (map strip parts))
      (scan-plain [] text h ∙ prefix_first-split_on text)
