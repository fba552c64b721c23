-- ===== src/Python/Number.antt =====
-- `str(n)` and `int(text)`. White space, a sign and single underscores are accepted as `int` does;
-- digits of other scripts than ASCII are not.
use realtime_finance_bot.Base.{
  ℕ, zero, suc, ◌+◌, ◌-◌, ◌*◌, ◌/◌, ◌%◌, ◌≤◌, ◌<◌, ◌≡◌, refl, Bool, true, false, ◌&&◌, ◌||◌, Option,
  none, some, [], ◌∷◌, ◌++◌, append_assoc, arith, leb, ltb, ◌==◌, if◌then◌else◌, Str, strip, ℤ, pos,
  negsuc, sub_ℕ, Bool-cases, inl, inr, All, All-append, append-nil, ◌∙◌, lstrip, rstrip,
}

-- The decimal digits of `n`, on fuel: `n` rounds are enough.
digits : ℕ → ℕ → Str
digits zero n = (48 + n) ∷ []
digits (suc f) n =
    let more = digits f (n / 10) ++ ((48 + n % 10) ∷ []) in if ltb n 10 then (48 + n) ∷ [] else more

digits_small : (f n : ℕ) → ltb n 10 ≡ true → digits (suc f) n ≡ (48 + n) ∷ []
unfolding digits
digits_small f n h = rw h

digits_big :
    (f n : ℕ) → ltb n 10 ≡ false → digits (suc f) n ≡ digits f (n / 10) ++ ((48 + n % 10) ∷ [])
unfolding digits
digits_big f n h = rw h

unfoldable pub show_nat : ℕ → Str
unfolding digits
show_nat n = digits n n

unfoldable pub show_int : ℤ → Str
unfolding show_nat
show_int (pos n) = show_nat n
show_int (negsuc n) = b'-' ∷ show_nat (suc n)

abbrev pub is_digit : ℕ → Bool
is_digit c = leb 48 c && leb c 57

-- The value of a run of digits; an underscore may stand between two digits.
unfoldable pub read_digits : ℕ → Bool → Str → Option ℕ
read_digits acc after_digit [] = if after_digit then some acc else none
read_digits acc after_digit (c ∷ s) =
    let rest = read_digits (if is_digit c then acc * 10 + (c - 48) else acc) (is_digit c) s in
    if is_digit c || (c == b'_' && after_digit) then rest else none

negate : Option ℕ → Option ℤ
negate none = none
negate (some n) = some (sub_ℕ 0 n)

plain : Option ℕ → Option ℤ
plain none = none
plain (some n) = some (pos n)

read_signed : Str → Option ℤ
unfolding read_digits negate plain
read_signed [] = none
read_signed (c ∷ s) =
    if c == b'-'
    then negate (read_digits 0 false s)
    else if c == b'+'
    then plain (read_digits 0 false s)
    else plain (read_digits 0 false (c ∷ s))

-- `int(text)`; `none` is a `ValueError`.
unfoldable pub parse_int : Str → Option ℤ
unfolding read_signed strip
parse_int s = read_signed (strip s)

abbrev IsDigit : ℕ → Type 0
IsDigit c = (48 ≤ c) × (c ≤ 57)

digits-IsDigit : (f n : ℕ) → n ≤ f → All IsDigit (digits f n)
unfolding digits
digits-IsDigit zero n h = (omega arith, tt)
digits-IsDigit (suc f) n h = elim (Bool-cases (ltb n 10)) [
  | inl small ↦ rw (digits_small f n small) (ground arith, tt)
  | inr big ↦ rw (digits_big f n big) (
      All-append IsDigit (digits f (n / 10)) _ (digits-IsDigit f (n / 10) (ground arith))
        (omega arith, tt))
]

-- Reading the digits of `n` and then the rest.
read_one :
    (q d : ℕ) (b : Bool) (rest : Str)
    → d < 10
    → read_digits q b ((48 + d) ∷ rest) ≡ read_digits (q * 10 + d) true rest
unfolding read_digits
read_one q d b rest h = let e : 48 + d - 48 ≡ d = omega arith in ground arith

read-digits :
    (f n : ℕ) (b : Bool) (rest : Str)
    → n ≤ f
    → read_digits 0 b (digits f n ++ rest) ≡ read_digits n true rest
unfolding digits read_digits
read-digits zero n b rest h = let e : n ≡ 0 = omega arith in rw e (ground arith)
read-digits (suc f) n b rest h = elim (Bool-cases (ltb n 10)) [
  | inl small ↦ rw (digits_small f n small) (ground arith)
  | inr big ↦
      rw (digits_big f n big, append_assoc (digits f (n / 10)) _ rest)
        (read-digits f (n / 10) b _ (ground arith) ∙ ground arith)
]

rstrip-digits : (s : Str) → All IsDigit s → rstrip s ≡ s
unfolding rstrip
rstrip-digits [] h = refl
rstrip-digits (c ∷ s) (h, hs) = rw (rstrip-digits s hs) (ground arith)

lstrip-digits : (s : Str) → All IsDigit s → lstrip s ≡ s
unfolding lstrip
lstrip-digits [] h = refl
lstrip-digits (c ∷ s) (h, hs) = ground arith

read_signed-digits : (s : Str) → All IsDigit s → read_signed s ≡ plain (read_digits 0 false s)
unfolding read_signed read_digits
read_signed-digits [] h = refl
read_signed-digits (c ∷ s) (h, hs) = ground arith

-- `int(str(n))` is `n`.
pub parse_int-show_nat : (n : ℕ) → parse_int (show_nat n) ≡ some (pos n)
unfolding parse_int show_nat plain
parse_int-show_nat n =
    let h = digits-IsDigit n n (omega arith) in
    let e : read_digits 0 false (digits n n) ≡ some n =
      (rw (← append-nil (digits n n)) (read-digits n n false [] (omega arith))) in
    rw (
      lstrip-digits (digits n n) h,
      rstrip-digits (digits n n) h,
      read_signed-digits (digits n n) h,
      e,
    )
