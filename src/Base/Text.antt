-- ===== src/Base/Text.antt =====
-- Python's `str` as the list of its code points, and the methods of `str` that the program calls.
use Prim.Native.Nat.{ℕ, ◌+◌}
use Prim.Native.Char.{code}
use Prim.Native.String.{String}
use mathlib.Core.Path.{◌≡◌, refl}
use mathlib.Core.Logic.{◌↔◌}
use mathlib.Core.Bool.{Bool, true, false, ◌&&◌, ◌||◌}
use mathlib.Core.List.{List, [], ◌∷◌, ◌++◌}
use native.Mathlib.Omega.{arith}
use realtime_finance_bot.Base.Tests.{leb, ◌==◌, if◌then◌else◌}

abbrev pub Str : Type 0
Str = List ℕ

-- A literal of the source.
abbrev pub str : String → Str
str String.[] = []
str (String.◌∷◌ c s) = code c ∷ str s

unfoldable pub str_eq : Str → Str → Bool
str_eq [] [] = true
str_eq [] (_ ∷ _) = false
str_eq (_ ∷ _) [] = false
str_eq (a ∷ s) (b ∷ t) = a == b && str_eq s t

pub str_eq_refl : (s : Str) → str_eq s s ≡ true
unfolding str_eq
str_eq_refl [] = refl
str_eq_refl (a ∷ s) = ground (arith, str_eq_refl s)

pub str_eq→eq : (s t : Str) → str_eq s t ≡ true → s ≡ t
unfolding str_eq
str_eq→eq [] [] h = refl
str_eq→eq [] (_ ∷ _) h = ground arith
str_eq→eq (_ ∷ _) [] h = ground arith
str_eq→eq (a ∷ s) (b ∷ t) h = ground (arith, str_eq→eq s t)

pub str_eq_iff : (s t : Str) → (str_eq s t ≡ true) ↔ (s ≡ t)
str_eq_iff s t = (str_eq→eq s t, λ e. rw (← e) (str_eq_refl s))

-- `s.startswith(prefix)`
unfoldable pub starts_with : Str → Str → Bool
starts_with s [] = true
starts_with [] (_ ∷ _) = false
starts_with (a ∷ s) (b ∷ p) = a == b && starts_with s p

-- `s.endswith(suffix)` and `part in s`
unfoldable pub ends_with : Str → Str → Bool
unfolding str_eq
ends_with [] suffix = str_eq [] suffix
ends_with (c ∷ s) suffix = str_eq (c ∷ s) suffix || ends_with s suffix

unfoldable pub has_part : Str → Str → Bool
unfolding starts_with
has_part [] part = starts_with [] part
has_part (c ∷ s) part = starts_with (c ∷ s) part || has_part s part

-- ASCII white space, as `str.strip` and `str.split` see it.
abbrev pub is_space : ℕ → Bool
is_space c = c == 32 || (leb 9 c && leb c 13) || (leb 28 c && leb c 31)

unfoldable pub lstrip : Str → Str
lstrip [] = []
lstrip (c ∷ s) = if is_space c then lstrip s else c ∷ s

-- `s.rstrip()`: a suffix of white space is dropped.
unfoldable pub rstrip : Str → Str
rstrip [] = []
rstrip (c ∷ s) =
    let rest = rstrip s in elim rest [ [] ↦ if is_space c then [] else c ∷ [] | d ∷ r ↦ c ∷ d ∷ r ]

unfoldable pub strip : Str → Str
unfolding lstrip rstrip
strip s = rstrip (lstrip s)

-- `s.split(sep)` for a one-character separator: always at least one field.
unfoldable pub add_first : ℕ → List Str → List Str
add_first c [] = (c ∷ []) ∷ []
add_first c (f ∷ fs) = (c ∷ f) ∷ fs

unfoldable pub split_on : ℕ → Str → List Str
unfolding add_first
split_on sep [] = [] ∷ []
split_on sep (c ∷ s) = let rest = split_on sep s in if c == sep then [] ∷ rest else add_first c rest

-- `sep.join(fields)`
unfoldable pub join : Str → List Str → Str
join sep [] = []
join sep (f ∷ []) = f
join sep (f ∷ g ∷ fs) = f ++ (sep ++ join sep (g ∷ fs))

-- `s.split()`: the runs of what is not white space.
unfoldable pub words : Str → List Str
unfolding add_first
words [] = []
words (c ∷ s) =
    let rest = words s in
    if is_space c then rest else elim s [
      | [] ↦ (c ∷ []) ∷ []
      | d ∷ r ↦ if is_space d then (c ∷ []) ∷ rest else add_first c rest
    ]

-- `s.lower()` on ASCII letters
unfoldable pub lower : Str → Str
lower [] = []
lower (c ∷ s) = (if leb 65 c && leb c 90 then c + 32 else c) ∷ lower s
