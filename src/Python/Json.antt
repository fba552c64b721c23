-- ===== src/Python/Json.antt =====
-- JSON values as `json.loads` returns them, and `json.dumps` with compact separators and the
-- default `ensure_ascii`. A float is kept as its `repr`.
use realtime_finance_bot.Base.{
  ℕ, ◌+◌, ◌-◌, ◌/◌, ◌%◌, Bool, true, false, ◌&&◌, Option, none, some, [], ◌∷◌, ◌++◌, leb, ltb, ◌==◌,
  if◌then◌else◌, Str, str, ℤ, str_eq,
}
use realtime_finance_bot.Python.Number.{show_int}

mutual
  pub data Json : Type 0 where
    null : Json
    boolean : Bool → Json
    integer : ℤ → Json
    float : Str → Json
    string : Str → Json
    array : Items → Json
    object : Fields → Json

  pub data Items : Type 0 where
    nil : Items
    cons : Json → Items → Items

  pub data Fields : Type 0 where
    end : Fields
    field : Str → Json → Fields → Fields

-- `d.get(key)` on a decoded object; a later duplicate of a key has been dropped by `json.loads`.
unfoldable pub lookup : Str → Fields → Option Json
lookup k end = none
lookup k (field j v fs) = if str_eq j k then some v else lookup k fs

hex_digit : ℕ → ℕ
hex_digit d = if ltb d 10 then 48 + d else 87 + d

-- `\uXXXX`
unicode_escape : ℕ → Str
unfolding hex_digit
unicode_escape c =
    92
    ∷ b'u'
    ∷ hex_digit (c / 4096 % 16)
    ∷ hex_digit (c / 256 % 16)
    ∷ hex_digit (c / 16 % 16)
    ∷ hex_digit (c % 16)
    ∷ []

escape : ℕ → Str
unfolding unicode_escape
escape c =
    if c == 34
    then 92 ∷ 34 ∷ []
    else if c == 92
    then 92 ∷ 92 ∷ []
    else if c == 10
    then 92 ∷ b'n' ∷ []
    else if c == 13
    then 92 ∷ b'r' ∷ []
    else if c == 9
    then 92 ∷ b't' ∷ []
    else if c == 8
    then 92 ∷ b'b' ∷ []
    else if c == 12
    then 92 ∷ b'f' ∷ []
    else if leb 32 c && leb c 126
    then c ∷ []
    else if leb c 65535
    then unicode_escape c
    else unicode_escape (55296 + (c - 65536) / 1024 % 1024)
      ++ unicode_escape (56320 + (c - 65536) % 1024)

escapes : Str → Str
escapes [] = []
escapes (c ∷ s) = escape c ++ escapes s

unfoldable pub dumps_string : Str → Str
unfolding escapes escape
dumps_string s = 34 ∷ (escapes s ++ (34 ∷ []))

unfoldable mutual
  unfolding dumps_string show_int

  pub dumps : Json → Str
  dumps null = str "null"
  dumps (boolean true) = str "true"
  dumps (boolean false) = str "false"
  dumps (integer n) = show_int n
  dumps (float repr) = repr
  dumps (string s) = dumps_string s
  dumps (array items) = b'[' ∷ (dumps_items items ++ (b']' ∷ []))
  dumps (object fields) = b'{' ∷ (dumps_fields fields ++ (b'}' ∷ []))

  pub dumps_items : Items → Str
  dumps_items nil = []
  dumps_items (cons v nil) = dumps v
  dumps_items (cons v (cons w vs)) = dumps v ++ (b',' ∷ dumps_items (cons w vs))

  pub dumps_fields : Fields → Str
  dumps_fields end = []
  dumps_fields (field k v end) = dumps_string k ++ (b':' ∷ dumps v)
  dumps_fields (field k v (field j w fs)) =
      dumps_string k ++ (b':' ∷ (dumps v ++ (b',' ∷ dumps_fields (field j w fs))))
