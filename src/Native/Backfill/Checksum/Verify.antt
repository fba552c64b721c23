-- ===== src/Native/Backfill/Checksum/Verify.antt =====
-- What a verified file satisfies, and that `sha256sum`'s own format is read back.
use realtime_finance_bot.Base.{
  ℕ, ◌≤◌, ◌≡◌, ◌↔◌, refl, ap, ◌∙◌, true, false, List, [], ◌∷◌, ◌++◌, arith, length, All, is_space,
  Str, str, str_eq_iff, str_eq_refl, add_first, strip, lstrip, rstrip, words, lower, ok, >>=-eq-ok,
}
use realtime_finance_bot.Native.Backfill.Checksum.{
  is_hex_int, checksum_of, parse_checksum, compare_with, verify,
}

pub verified :
    (digest_of : List ℕ → Str) (blob : List ℕ) (text filename digest : Str)
    → verify digest_of blob text filename ≡ ok digest
    → (digest ≡ digest_of blob)
      × (parse_checksum text ≡ ok (record { sha256 = digest; filename = filename }))
unfolding verify compare_with
verified digest_of blob text filename digest e =
    let (expected, parsed, e1) = >>=-eq-ok (parse_checksum text) _ e in
    ground (
      arith,
      str_eq_iff expected.filename filename,
      str_eq_iff (digest_of blob) expected.sha256,
      parsed,
    )

accepts :
    (digest_of : List ℕ → Str) (blob : List ℕ) (text filename : Str)
    → parse_checksum text ≡ ok (record { sha256 = digest_of blob; filename = filename })
    → verify digest_of blob text filename ≡ ok (digest_of blob)
unfolding verify compare_with
accepts digest_of blob text filename e =
    rw (e, str_eq_refl filename, str_eq_refl (digest_of blob)) refl

-- A digest is returned exactly when it is that of the bytes and the checksum file is well formed
-- and names this file and this digest.
pub verify-eq-ok :
    (digest_of : List ℕ → Str) (blob : List ℕ) (text filename digest : Str)
    → (verify digest_of blob text filename ≡ ok digest) ↔ (
        (digest ≡ digest_of blob)
        × (parse_checksum text ≡ ok (record { sha256 = digest; filename = filename })))
verify-eq-ok digest_of blob text filename digest = (
  verified digest_of blob text filename digest,
  λ (same, parsed). rw same (accepts digest_of blob text filename (rw same at parsed)),
)

abbrev pub NoSpace : ℕ → Type 0
NoSpace c = is_space c ≡ false

-- The lines of `sha256sum`.
abbrev pub sha256sum_line : Str → Str → Str
sha256sum_line digest filename = digest ++ (str "  " ++ (filename ++ (10 ∷ [])))

lstrip-word : (c : ℕ) (s : Str) → NoSpace c → lstrip (c ∷ s) ≡ c ∷ s
unfolding lstrip
lstrip-word c s h = rw h refl

rstrip-line : (s : Str) → All NoSpace s → rstrip (s ++ (10 ∷ [])) ≡ s
unfolding rstrip
rstrip-line [] h = refl
rstrip-line (c ∷ []) (h, hs) = rw h refl
rstrip-line (c ∷ d ∷ s) (h, hs) = rw (rstrip-line (d ∷ s) hs) refl

words-step :
    (c d : ℕ) (s : Str) → NoSpace c → NoSpace d → words (c ∷ d ∷ s) ≡ add_first c (words (d ∷ s))
unfolding words
words-step c d s k h = rw (k, h) refl

words-word : (s : Str) → All NoSpace s → (c : ℕ) → NoSpace c → words (c ∷ s) ≡ (c ∷ s) ∷ []
unfolding words
words-word [] h c k = rw k refl
words-word (d ∷ s) (h, hs) c k = words-step c d s k h ∙ ap (add_first c) (words-word s hs d h)

words-space : (t : Str) (c : ℕ) → NoSpace c → words (c ∷ 32 ∷ t) ≡ (c ∷ []) ∷ words t
unfolding words
words-space t c k = rw k refl

words_of_two :
    (s t : Str) (c : ℕ)
    → NoSpace c
    → All NoSpace s
    → words (c ∷ (s ++ (32 ∷ t))) ≡ (c ∷ s) ∷ words t
unfolding add_first
words_of_two [] t c k h = words-space t c k
words_of_two (d ∷ s) t c k (h, hs) =
    words-step c d (s ++ (32 ∷ t)) k h ∙ ap (add_first c) (words_of_two s t d h hs)

rstrip-spaces :
    (f : ℕ) (t : Str)
    → All NoSpace (f ∷ t)
    → rstrip (32 ∷ 32 ∷ ((f ∷ t) ++ (10 ∷ []))) ≡ 32 ∷ 32 ∷ f ∷ t
unfolding rstrip
rstrip-spaces f t h = rw (rstrip-line (f ∷ t) h) refl

rstrip-keep :
    (s t : Str)
    → All NoSpace s
    → (c : ℕ) (r : Str) → rstrip t ≡ c ∷ r
    → rstrip (s ++ t) ≡ s ++ (c ∷ r)
unfolding rstrip
rstrip-keep [] t h c r e = e
rstrip-keep (d ∷ []) t (h, hs) c r e = rw e refl
rstrip-keep (d ∷ b ∷ s) t (h, hs) c r e = rw (rstrip-keep (b ∷ s) t hs c r e) refl

strip-sha256sum_line :
    (c f : ℕ) (s t : Str)
    → NoSpace c
    → All NoSpace s
    → All NoSpace (f ∷ t)
    → strip (sha256sum_line (c ∷ s) (f ∷ t)) ≡ (c ∷ s) ++ (32 ∷ 32 ∷ f ∷ t)
unfolding strip
strip-sha256sum_line c f s t hc hs hf =
    ap rstrip (lstrip-word c (s ++ (32 ∷ 32 ∷ ((f ∷ t) ++ (10 ∷ [])))) hc)
    ∙ rstrip-keep (c ∷ s) (32 ∷ 32 ∷ ((f ∷ t) ++ (10 ∷ []))) (hc, hs) 32 (32 ∷ f ∷ t)
        (rstrip-spaces f t hf)

words-sha256sum_line :
    (c f : ℕ) (s t : Str)
    → NoSpace c
    → All NoSpace s
    → All NoSpace (f ∷ t)
    → words (strip (sha256sum_line (c ∷ s) (f ∷ t))) ≡ (c ∷ s) ∷ (f ∷ t) ∷ []
unfolding words
words-sha256sum_line c f s t hc hs hf =
    ap words (strip-sha256sum_line c f s t hc hs hf)
    ∙ (words_of_two s (32 ∷ f ∷ t) c hc hs ∙ ap (λ r. (c ∷ s) ∷ r) (words-word t hf.1 f hf.0))

-- A line of `sha256sum`, a digest of 64 hexadecimal digits and a name without white space, is read
-- as that digest, in lower case, and that name.
pub parse_checksum-sha256sum_line :
    (digest filename : Str)
    → length digest ≡ 64
    → is_hex_int digest ≡ true
    → All NoSpace digest
    → All NoSpace filename
    → 1 ≤ length filename
    → parse_checksum (sha256sum_line digest filename)
      ≡ ok (record { sha256 = lower digest; filename = filename })
unfolding parse_checksum checksum_of
parse_checksum-sha256sum_line [] filename len hex hd hf nonempty =
    absurd (omega (arith, len, nonempty))
parse_checksum-sha256sum_line (c ∷ s) [] len hex hd hf nonempty =
    absurd (omega (arith, len, nonempty))
parse_checksum-sha256sum_line (c ∷ s) (f ∷ t) len hex (hc, hs) (hn, ht) nonempty =
    rw (words-sha256sum_line c f s t hc hs (hn, ht), len, hex) refl
