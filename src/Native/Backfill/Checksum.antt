-- ===== src/Native/Backfill/Checksum.antt =====
-- awsnative/backfill/checksum.py: an archive file against its `.CHECKSUM`. SHA-256 is a parameter.
pub mod Verify
use realtime_finance_bot.Base.{
  ℕ, ◌+◌, ◌-◌, ◌*◌, Bool, true, false, not, ◌&&◌, ◌||◌, List, [], ◌∷◌, leb, ◌==◌, if◌then◌else◌,
  length, Str, str_eq, strip, words, lower, Result, ok, raise, ◌>>=◌,
}
use realtime_finance_bot.Native.Backfill.Fault.{
  ChecksumFault, wrong_format, wrong_length, not_hexadecimal, other_file, mismatch,
}

pub record Checksum : Type 0 where
  pub sha256 : Str
  pub filename : Str

abbrev pub is_hex_digit : ℕ → Bool
is_hex_digit c = (leb 48 c && leb c 57) || (leb 65 c && leb c 70) || (leb 97 c && leb c 102)

-- The digits of `int(text, 16)`: one underscore may stand between two, and, where the text has the
-- prefix, before the first.
unfoldable pub hex_rest : Bool → Str → Bool
hex_rest after_digit [] = after_digit
hex_rest after_digit (c ∷ s) =
    let rest = hex_rest (is_hex_digit c) s in (is_hex_digit c || (c == b'_' && after_digit)) && rest

unfoldable pub hex_unsigned : Str → Bool
unfolding hex_rest
hex_unsigned (a ∷ b ∷ c ∷ s) =
    if a == b'0' && (b == b'x' || b == b'X')
    then hex_rest false (if c == b'_' then s else c ∷ s)
    else hex_rest false (a ∷ b ∷ c ∷ s)
hex_unsigned s = hex_rest false s

-- Whether `int(text, 16)` accepts a text without white space.
unfoldable pub is_hex_int : Str → Bool
unfolding hex_unsigned
is_hex_int [] = false
is_hex_int (c ∷ s) = if c == b'-' || c == b'+' then hex_unsigned s else hex_unsigned (c ∷ s)

unfoldable pub checksum_of : Str → List Str → Result ChecksumFault Checksum
checksum_of text (digest ∷ filename ∷ []) =
    if not (length digest == 64)
    then raise (wrong_length (length digest))
    else if is_hex_int digest
    then ok (record { sha256 = lower digest; filename = filename })
    else raise (not_hexadecimal digest)
checksum_of text fields = raise (wrong_format (strip text))

unfoldable pub parse_checksum : Str → Result ChecksumFault Checksum
parse_checksum text = checksum_of text (words (strip text))

unfoldable pub compare_with : (List ℕ → Str) → List ℕ → Checksum → Str → Result ChecksumFault Str
compare_with digest_of blob expected expected_filename =
    if not (str_eq expected.filename expected_filename)
    then raise (other_file expected.filename expected_filename)
    else if not (str_eq (digest_of blob) expected.sha256)
    then raise (mismatch expected_filename expected.sha256 (digest_of blob))
    else ok (digest_of blob)

-- `verify`, for the digest function and the digest's text in lower-case hexadecimal.
unfoldable pub verify : (List ℕ → Str) → List ℕ → Str → Str → Result ChecksumFault Str
verify digest_of blob checksum_text expected_filename = do
  expected ← parse_checksum checksum_text
  compare_with digest_of blob expected expected_filename
