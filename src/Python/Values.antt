-- ===== src/Python/Values.antt =====
-- Decoded JSON as dynamic values: indexing, `get`, `str`, `int` and truth, with the exceptions that
-- they raise. What Python does with floats and with the `repr` of a list or a dict is a parameter.
use realtime_finance_bot.Base.{
  Bool, true, false, not, Option, none, some, ◌==◌, if◌then◌else◌, Str, str, str_eq, ℤ, pos, Result,
  ok, raise, [], ◌∷◌,
}
use realtime_finance_bot.Python.Number.{show_int, parse_int}
use realtime_finance_bot.Python.Json.{
  Json, Items, Fields, null, boolean, integer, float, string, array, object, nil, cons, end, field,
  lookup,
}

pub data Error : Type 0 where
  key_error value_error type_error attribute_error overflow_error : Error
  -- raised by a library that the program calls
  external_error : Error

pub record Python : Type 0 where
  -- `json.loads`; `none` is its `ValueError`
  pub loads : Str → Option Json
  -- `str` of a list or a dict
  pub container_repr : Json → Str
  -- `int` of a float, by its `repr`; `none` is its `OverflowError`
  pub truncate : Str → Option ℤ

-- `value[key]`
unfoldable pub index : Str → Json → Result Error Json
unfolding lookup
index key (object fields) = elim (lookup key fields) [ none ↦ raise key_error | some v ↦ ok v ]
index key _ = raise type_error

-- `value.get(key, default)`
unfoldable pub get_default : Str → Json → Json → Result Error Json
unfolding lookup
get_default key (object fields) default = elim (lookup key fields) [
  | none ↦ ok default
  | some v ↦ ok v
]
get_default key _ default = raise attribute_error

-- The values that `for x in value` goes through: a dict gives its keys.
keys_of : Fields → Items
keys_of end = nil
keys_of (field k v fs) = cons (string k) (keys_of fs)

characters : Str → Items
characters [] = nil
characters (c ∷ s) = cons (string (c ∷ [])) (characters s)

unfoldable pub iterate : Json → Result Error Items
unfolding keys_of characters
iterate (array items) = ok items
iterate (object fields) = ok (keys_of fields)
iterate (string s) = ok (characters s)
iterate _ = raise type_error

unfoldable pub truth : Json → Bool
truth null = false
truth (boolean b) = b
truth (integer (pos n)) = not (n == 0)
truth (integer _) = true
truth (float repr) = not (if str_eq repr (str "0.0") then true else str_eq repr (str "-0.0"))
truth (string []) = false
truth (string (_ ∷ _)) = true
truth (array nil) = false
truth (array (cons _ _)) = true
truth (object end) = false
truth (object (field _ _ _)) = true

module _ (py : Python) where
  unfoldable pub text_of : Json → Str
  unfolding show_int
  text_of null = str "None"
  text_of (boolean true) = str "True"
  text_of (boolean false) = str "False"
  text_of (integer n) = show_int n
  text_of (float repr) = repr
  text_of (string s) = s
  text_of v = py.container_repr v

  unfoldable pub int_of : Json → Result Error ℤ
  unfolding parse_int
  int_of (boolean b) = ok (if b then pos 1 else pos 0)
  int_of (integer n) = ok n
  int_of (float repr) = elim (py.truncate repr) [ none ↦ raise overflow_error | some n ↦ ok n ]
  int_of (string s) = elim (parse_int s) [ none ↦ raise value_error | some n ↦ ok n ]
  int_of _ = raise type_error
