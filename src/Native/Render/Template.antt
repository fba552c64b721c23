-- ===== src/Native/Render/Template.antt =====
-- `string.Template.substitute` as awsnative/render.py calls it, on names of ASCII letters.
use realtime_finance_bot.Base.{
  ℕ, Bool, true, false, ◌&&◌, ◌||◌, none, some, [], ◌∷◌, ◌++◌, if◌then◌else◌, leb, ◌==◌, Str,
  str_Eq, Dict, get, Result, ok, raise, ◌>>=◌,
}
use realtime_finance_bot.Python.Values.{Error, key_error, value_error}

-- `[_a-z]` and `[_a-z0-9]`, in either case.
unfoldable pub is_name_start : ℕ → Bool
is_name_start c = c == b'_' || (leb 97 c && leb c 122) || (leb 65 c && leb c 90)

unfoldable pub is_name_char : ℕ → Bool
unfolding is_name_start
is_name_char c = is_name_start c || (leb 48 c && leb c 57)

-- Where the scan stands: in the text, behind a dollar, in a name, in a name in braces, with the
-- name so far.
pub data Scan : Type 0 where
  plain dollar : Scan
  named braced : Str → Scan

abbrev pub is_named : Str → Bool
is_named [] = false
is_named (_ ∷ _) = true

module _ (params : Dict Str Str) where
  unfoldable pub value_of : Str → Result Error Str
  value_of name = elim (get name params) [ none ↦ raise key_error | some v ↦ ok v ]

  unfoldable pub step_plain : ℕ → Result Error Str × Scan
  step_plain c = if c == b'$' then (ok [], dollar) else (ok (c ∷ []), plain)

  unfoldable pub step_dollar : ℕ → Result Error Str × Scan
  step_dollar c =
      if c == b'$'
      then (ok (b'$' ∷ []), plain)
      else if c == b'{'
      then (ok [], braced [])
      else if is_name_start c
      then (ok [], named (c ∷ []))
      else (raise value_error, plain)

  -- The character behind a name, which stands in the text.
  unfoldable pub behind_name : Result Error Str → Result Error Str × Scan → Result Error Str × Scan
  behind_name value (out, scan) = (value >>= λ v. out >>= λ o. ok (v ++ o), scan)

  unfoldable pub step_named : Str → ℕ → Result Error Str × Scan
  unfolding value_of step_plain behind_name is_name_char
  step_named name c =
      if is_name_char c
      then (ok [], named (name ++ (c ∷ [])))
      else behind_name (value_of name) (step_plain c)

  unfoldable pub step_braced : Str → ℕ → Result Error Str × Scan
  unfolding value_of is_name_start is_name_char
  step_braced [] c =
      if is_name_start c then (ok [], braced (c ∷ [])) else (raise value_error, plain)
  step_braced (n ∷ name) c =
      if c == b'}'
      then (value_of (n ∷ name), plain)
      else if is_name_char c
      then (ok [], braced (n ∷ (name ++ (c ∷ []))))
      else (raise value_error, plain)

  unfoldable pub step : Scan → ℕ → Result Error Str × Scan
  unfolding step_plain step_dollar step_named step_braced
  step plain c = step_plain c
  step dollar c = step_dollar c
  step (named name) c = step_named name c
  step (braced name) c = step_braced name c

  unfoldable pub scan_end : Scan → Result Error Str
  unfolding value_of
  scan_end plain = ok []
  scan_end (named name) = value_of name
  scan_end _ = raise value_error

  unfoldable pub scan : Str → Scan → Result Error Str
  unfolding step scan_end
  scan [] at = scan_end at
  scan (c ∷ s) at = let (out, at') = step at c in out >>= λ o. scan s at' >>= λ rest. ok (o ++ rest)

  unfoldable pub substitute : Str → Result Error Str
  unfolding scan
  substitute text = scan text plain
