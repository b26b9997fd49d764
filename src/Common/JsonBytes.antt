-- ===== src/Common/JsonBytes.antt =====
-- JSON values, and the number of bytes of `json.dumps(value, ensure_ascii=False)` in UTF-8.
use Prim.Native.Nat.{ℕ, ◌+◌}
use mathlib.Core.Bool.{Bool, true, false, ◌&&◌, ◌||◌}
use mathlib.Core.List.{[], ◌∷◌}
use sales_girl_voice_agent.Common.Tests.{ltb, leb, ◌==◌, if◌then◌else◌}
use sales_girl_voice_agent.Common.Texts.{Text}

-- A number is the text that `json.dumps` prints for it.
mutual
  pub data Json : Type 0 where
    null : Json
    bool : Bool → Json
    num : Text → Json
    str : Text → Json
    arr : Items → Json
    obj : Fields → Json

  pub data Items : Type 0 where
    nil : Items
    cons : Json → Items → Items

  pub data Fields : Type 0 where
    end : Fields
    field : Text → Json → Fields → Fields

-- The UTF-8 length of a code point.
unfoldable pub utf8_bytes : ℕ → ℕ
utf8_bytes c = if ltb c 128 then 1 else if ltb c 2048 then 2 else if ltb c 65536 then 3 else 4

-- `len(text.encode("utf-8"))`
unfoldable pub utf8_length : Text → ℕ
unfolding utf8_bytes
utf8_length [] = 0
utf8_length (c ∷ s) = utf8_bytes c + utf8_length s

-- A character inside a JSON string: quote, backslash and the short control escapes take two bytes,
-- the other control characters `\u00XX`.
unfoldable pub char_bytes : ℕ → ℕ
unfolding utf8_bytes
char_bytes c =
    if c == 34 || c == 92 || (leb 8 c && leb c 10) || c == 12 || c == 13
    then 2
    else if ltb c 32
    then 6
    else utf8_bytes c

unfoldable pub chars_bytes : Text → ℕ
unfolding char_bytes
chars_bytes [] = 0
chars_bytes (c ∷ s) = char_bytes c + chars_bytes s

unfoldable pub str_bytes : Text → ℕ
unfolding chars_bytes
str_bytes s = chars_bytes s + 2

-- The separators are `", "` and `": "`, so each item past the first adds two bytes.
unfoldable mutual
  unfolding str_bytes utf8_length

  pub json_bytes : Json → ℕ
  json_bytes null = 4
  json_bytes (bool true) = 4
  json_bytes (bool false) = 5
  json_bytes (num s) = utf8_length s
  json_bytes (str s) = str_bytes s
  json_bytes (arr nil) = 2
  json_bytes (arr (cons x xs)) = json_bytes x + 2 + items_bytes xs
  json_bytes (obj end) = 2
  json_bytes (obj (field k v fs)) = str_bytes k + 2 + json_bytes v + 2 + fields_bytes fs

  pub items_bytes : Items → ℕ
  items_bytes nil = 0
  items_bytes (cons x xs) = json_bytes x + 2 + items_bytes xs

  pub fields_bytes : Fields → ℕ
  fields_bytes end = 0
  fields_bytes (field k v fs) = str_bytes k + 2 + json_bytes v + 2 + fields_bytes fs
