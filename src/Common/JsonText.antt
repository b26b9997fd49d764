-- ===== src/Common/JsonText.antt =====
-- The text of `json.dumps(value, ensure_ascii=False)`, and its length in UTF-8.
use Prim.Native.Nat.{ℕ, ◌+◌, ◌/◌, ◌%◌}
use mathlib.Core.Path.{◌≡◌, refl}
use mathlib.Core.Bool.{true, false}
use mathlib.Core.List.{[], ◌∷◌, ◌++◌}
use native.Mathlib.Omega.{arith}
use sales_girl_voice_agent.Common.Tests.{ltb, ◌==◌, if◌then◌else◌}
use sales_girl_voice_agent.Common.Texts.{Text, codes}
use sales_girl_voice_agent.Common.JsonBytes.{
  Json, null, bool, num, str, arr, obj, Items, nil, cons, Fields, end, field, utf8_bytes,
  utf8_length, char_bytes, chars_bytes, str_bytes, json_bytes, items_bytes, fields_bytes,
}

-- A lower-case hexadecimal digit.
abbrev hex : ℕ → ℕ
hex n = if ltb n 10 then 48 + n else 87 + n

escape : ℕ → Text
escape c =
    if c == 34
    then 92 ∷ 34 ∷ []
    else if c == 92
    then 92 ∷ 92 ∷ []
    else if c == 8
    then 92 ∷ b'b' ∷ []
    else if c == 9
    then 92 ∷ b't' ∷ []
    else if c == 10
    then 92 ∷ b'n' ∷ []
    else if c == 12
    then 92 ∷ b'f' ∷ []
    else if c == 13
    then 92 ∷ b'r' ∷ []
    else if ltb c 32
    then 92 ∷ b'u' ∷ b'0' ∷ b'0' ∷ hex (c / 16) ∷ hex (c % 16) ∷ []
    else c ∷ []

escape_all : Text → Text
unfolding escape
escape_all [] = []
escape_all (c ∷ s) = escape c ++ escape_all s

str_text : Text → Text
unfolding escape_all
str_text s = 34 ∷ (escape_all s ++ (34 ∷ []))

unfoldable mutual
  unfolding str_text

  pub json_text : Json → Text
  json_text null = codes "null"
  json_text (bool true) = codes "true"
  json_text (bool false) = codes "false"
  json_text (num s) = s
  json_text (str s) = str_text s
  json_text (arr nil) = codes "[]"
  json_text (arr (cons x xs)) = codes "[" ++ (json_text x ++ items_text xs)
  json_text (obj end) = codes "{}"
  json_text (obj (field k v fs)) =
      codes "{" ++ (str_text k ++ (codes ": " ++ (json_text v ++ fields_text fs)))

  -- The items past the first, and the closing bracket.
  pub items_text : Items → Text
  items_text nil = codes "]"
  items_text (cons x xs) = codes ", " ++ (json_text x ++ items_text xs)

  pub fields_text : Fields → Text
  fields_text end = codes "}"
  fields_text (field k v fs) =
      codes ", " ++ (str_text k ++ (codes ": " ++ (json_text v ++ fields_text fs)))

utf8_length-append : (s t : Text) → utf8_length (s ++ t) ≡ utf8_length s + utf8_length t
unfolding utf8_length
utf8_length-append [] t = omega arith
utf8_length-append (c ∷ s) t = omega (arith, utf8_length-append s t)

utf8_length-escape : (c : ℕ) → utf8_length (escape c) ≡ char_bytes c
unfolding utf8_length escape char_bytes utf8_bytes
utf8_length-escape c = ground arith

utf8_length-escape_all : (s : Text) → utf8_length (escape_all s) ≡ chars_bytes s
unfolding utf8_length escape_all chars_bytes
utf8_length-escape_all [] = refl
utf8_length-escape_all (c ∷ s) = omega (
  arith,
  utf8_length-append (escape c) (escape_all s),
  utf8_length-escape c,
  utf8_length-escape_all s,
)

utf8_length-str_text : (s : Text) → utf8_length (str_text s) ≡ str_bytes s
unfolding utf8_length str_text str_bytes utf8_bytes
utf8_length-str_text s =
    omega (arith, utf8_length-append (escape_all s) (34 ∷ []), utf8_length-escape_all s)

mutual
  unfolding json_text json_bytes utf8_length utf8_bytes

  json_text_bytes : (j : Json) → utf8_length (json_text j) ≡ json_bytes j
  json_text_bytes null = refl
  json_text_bytes (bool true) = refl
  json_text_bytes (bool false) = refl
  json_text_bytes (num s) = refl
  json_text_bytes (str s) = utf8_length-str_text s
  json_text_bytes (arr nil) = refl
  json_text_bytes (arr (cons x xs)) = omega (
    arith,
    utf8_length-append (json_text x) (items_text xs),
    json_text_bytes x,
    items_text_bytes xs,
  )
  json_text_bytes (obj end) = refl
  json_text_bytes (obj (field k v fs)) = omega (
    arith,
    utf8_length-append (str_text k) (codes ": " ++ (json_text v ++ fields_text fs)),
    utf8_length-append (json_text v) (fields_text fs),
    utf8_length-str_text k,
    json_text_bytes v,
    fields_text_bytes fs,
  )

  items_text_bytes : (xs : Items) → utf8_length (items_text xs) ≡ items_bytes xs + 1
  items_text_bytes nil = refl
  items_text_bytes (cons x xs) = omega (
    arith,
    utf8_length-append (json_text x) (items_text xs),
    json_text_bytes x,
    items_text_bytes xs,
  )

  fields_text_bytes : (fs : Fields) → utf8_length (fields_text fs) ≡ fields_bytes fs + 1
  fields_text_bytes end = refl
  fields_text_bytes (field k v fs) = omega (
    arith,
    utf8_length-append (str_text k) (codes ": " ++ (json_text v ++ fields_text fs)),
    utf8_length-append (json_text v) (fields_text fs),
    utf8_length-str_text k,
    json_text_bytes v,
    fields_text_bytes fs,
  )

-- `json_bytes` is the UTF-8 length of the text that `json.dumps` prints.
pub utf8_length-json_text : (j : Json) → utf8_length (json_text j) ≡ json_bytes j
utf8_length-json_text j = json_text_bytes j
