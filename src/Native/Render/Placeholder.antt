-- ===== src/Native/Render/Placeholder.antt =====
-- What `render` of awsnative/render.py makes of a placeholder.
use realtime_finance_bot.Base.{
  ℕ, ◌≡◌, refl, sym, ◌∙◌, inl, inr, Bool, true, false, not, Option, none, some, [], ◌∷◌, ◌++◌,
  append_assoc, append-nil, all, ◌==◌, arith, Bool-cases, Str, str_Eq, Dict, get, Result, ok, raise,
  ◌>>=◌,
}
use realtime_finance_bot.Python.Values.{Error, key_error}
use realtime_finance_bot.Native.Render.{render}
use realtime_finance_bot.Native.Render.Template.{
  is_name_start, is_name_char, plain, braced, value_of, step, step_plain, step_dollar, step_braced,
  scan, substitute,
}

abbrev pub is_text : ℕ → Bool
is_text c = not (c == b'$')

bind_ok : (x : Result Error Str) → (x >>= λ r. ok r) ≡ x
bind_ok (ok r) = refl
bind_ok (raise e) = refl

bind_cons :
    (c : ℕ) (pre : Str) (x : Result Error Str)
    → ((x >>= λ r. ok (pre ++ r)) >>= λ rest. ok (c ∷ rest)) ≡ (x >>= λ r. ok (c ∷ (pre ++ r)))
bind_cons c pre (ok r) = refl
bind_cons c pre (raise e) = refl

bind_prefix :
    (pre : Str) (value rest : Result Error Str)
    → ((value >>= λ v. rest >>= λ r. ok (v ++ r)) >>= λ r. ok (pre ++ r))
      ≡ (value >>= λ v. rest >>= λ r. ok (pre ++ (v ++ r)))
bind_prefix pre (ok v) (ok r) = refl
bind_prefix pre (ok v) (raise e) = refl
bind_prefix pre (raise e) rest = refl

by_value :
    (pre : Str) (o : Option Str) (rest : Result Error Str)
    → (elim o [ none ↦ raise key_error | some v ↦ ok v ] >>= λ v.
        rest >>= λ r. ok (pre ++ (v ++ r)))
      ≡ elim o [ none ↦ raise key_error | some v ↦ rest >>= λ r. ok (pre ++ (v ++ r)) ]
by_value pre none rest = refl
by_value pre (some v) rest = refl

name_char : (c : ℕ) → is_name_char c ≡ true → (c == b'}') ≡ false
unfolding is_name_char is_name_start
name_char c h = ground arith

module _ (params : Dict Str Str) where
  scan-text :
      (pre s : Str)
      → all is_text pre ≡ true
      → scan params (pre ++ s) plain ≡ (scan params s plain >>= λ r. ok (pre ++ r))
  unfolding scan step step_plain
  scan-text [] s h = sym (bind_ok (scan params s plain))
  scan-text (c ∷ pre) s h = elim (Bool-cases (c == b'$')) [
    | inl b ↦ absurd (ground arith)
    | inr b ↦ rw (b, scan-text pre s (ground arith)) (bind_cons c pre (scan params s plain))
  ]

  scan-braced :
      (n : ℕ) (name rest post : Str)
      → all is_name_char rest ≡ true
      → scan params (rest ++ (b'}' ∷ post)) (braced (n ∷ name)) ≡ (
          value_of params (n ∷ (name ++ rest)) >>= λ v. scan params post plain >>= λ r. ok (v ++ r))
  unfolding scan step step_braced
  scan-braced n name [] post h = rw (append-nil name) refl
  scan-braced n name (c ∷ rest) post h =
      let k : is_name_char c ≡ true = (ground arith) in
      rw (name_char c k, k)
        (bind_ok (scan params (rest ++ (b'}' ∷ post)) (braced (n ∷ (name ++ (c ∷ [])))))
          ∙ scan-braced n (name ++ (c ∷ [])) rest post (ground arith)
          ∙ rw (append_assoc name (c ∷ []) rest) refl)

  scan-opening :
      (n : ℕ) (s : Str)
      → is_name_start n ≡ true
      → scan params (b'$' ∷ b'{' ∷ n ∷ s) plain ≡ scan params s (braced (n ∷ []))
  unfolding scan step step_plain step_dollar step_braced
  scan-opening n s h = rw h (bind_ok _ ∙ bind_ok _ ∙ bind_ok (scan params s (braced (n ∷ []))))

  -- A text without dollars is kept, and the placeholder behind it becomes its parameter; where no
  -- parameter has the name, and nowhere silently, `render` raises the KeyError, whatever follows.
  pub render-placeholder :
      (pre : Str) (n : ℕ) (rest post : Str)
      → all is_text pre ≡ true
      → is_name_start n ≡ true
      → all is_name_char rest ≡ true
      → render (pre ++ (b'$' ∷ b'{' ∷ n ∷ (rest ++ (b'}' ∷ post)))) params
        ≡ elim (get (n ∷ rest) params) [
          | none ↦ raise key_error
          | some v ↦ render post params >>= λ r. ok (pre ++ (v ++ r))
        ]
  unfolding render substitute value_of
  render-placeholder pre n rest post t start chars =
      scan-text pre (b'$' ∷ b'{' ∷ n ∷ (rest ++ (b'}' ∷ post))) t
      ∙ rw (scan-opening n (rest ++ (b'}' ∷ post)) start, scan-braced n [] rest post chars)
          (bind_prefix pre (value_of params (n ∷ rest)) (scan params post plain)
            ∙ by_value pre (get (n ∷ rest) params) (scan params post plain))
