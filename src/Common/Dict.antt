-- ===== src/Common/Dict.antt =====
-- A Python dict of JSON values, in insertion order, and its methods.
use mathlib.Core.Path.{◌≡◌, refl}
use mathlib.Core.Bool.{Bool, true, false, ◌&&◌, ◌||◌, not}
use mathlib.Core.Option.{Option, none, some}
use mathlib.Core.List.{List}
use mathlib.Core.Logic.{inl, inr}
use native.Mathlib.Omega.{arith}
use sales_girl_voice_agent.Common.Tests.{◌==◌, if◌then◌else◌, Bool-cases}
use sales_girl_voice_agent.Common.Lists.{any, is_empty}
use sales_girl_voice_agent.Common.Texts.{Text, text_eq, text_eq→eq, text_eq_refl}
use sales_girl_voice_agent.Common.JsonBytes.{
  Json, null, bool, num, str, arr, obj, nil, cons, Fields, end, field,
}

-- `{key: value for key, value in d.items() if key in keys}`
unfoldable pub keep_keys : List Text → Fields → Fields
keep_keys ks end = end
keep_keys ks (field k v fs) =
    if any (text_eq k) ks then field k v (keep_keys ks fs) else keep_keys ks fs

-- `{key: value for key, value in d.items() if key not in keys}`
unfoldable pub drop_keys : List Text → Fields → Fields
drop_keys ks end = end
drop_keys ks (field k v fs) =
    if any (text_eq k) ks then drop_keys ks fs else field k v (drop_keys ks fs)

-- `d.pop(key, None)`; a dict holds a key once.
unfoldable pub pop : Text → Fields → Fields
pop key end = end
pop key (field k v fs) = if text_eq k key then fs else field k v (pop key fs)

-- `d[key] = value`
unfoldable pub put : Text → Json → Fields → Fields
put key x end = field key x end
put key x (field k v fs) = if text_eq k key then field k x fs else field k v (put key x fs)

-- `d.get(key)`
unfoldable pub get : Text → Fields → Option Json
get key end = none
get key (field k v fs) = if text_eq k key then some v else get key fs

-- `key in d`
unfoldable pub has_key : Text → Fields → Bool
has_key key end = false
has_key key (field k v fs) = text_eq k key || has_key key fs

abbrev pub all_keys : (Text → Bool) → Fields → Bool
all_keys p end = true
all_keys p (field k v fs) = p k && all_keys p fs

-- Python's truth of a value. A number is false where it prints as a zero.
abbrev pub truthy_json : Json → Bool
truthy_json null = false
truthy_json (bool b) = b
truthy_json (num s) = any (λ c. not (c == 48 || c == 46 || c == 45)) s
truthy_json (str s) = not (is_empty s)
truthy_json (arr nil) = false
truthy_json (arr (cons _ _)) = true
truthy_json (obj end) = false
truthy_json (obj (field _ _ _)) = true

abbrev pub truthy : Option Json → Bool
truthy none = false
truthy (some j) = truthy_json j

pub all_keys-keep :
    (ks : List Text) (fs : Fields) → all_keys (λ k. any (text_eq k) ks) (keep_keys ks fs) ≡ true
unfolding keep_keys
all_keys-keep ks end = refl
all_keys-keep ks (field k v fs) = ground (arith, all_keys-keep ks fs)

pub all_keys-drop :
    (ks : List Text) (fs : Fields)
    → all_keys (λ k. not (any (text_eq k) ks)) (drop_keys ks fs) ≡ true
unfolding drop_keys
all_keys-drop ks end = refl
all_keys-drop ks (field k v fs) = ground (arith, all_keys-drop ks fs)

pub all_keys-put :
    (p : Text → Bool) (key : Text) (x : Json) (fs : Fields)
    → p key ≡ true
    → all_keys p fs ≡ true
    → all_keys p (put key x fs) ≡ true
unfolding put
all_keys-put p key x end h all = ground arith
all_keys-put p key x (field k v fs) h all = ground (arith, all_keys-put p key x fs h)

pub all_keys-pop :
    (p : Text → Bool) (key : Text) (fs : Fields)
    → all_keys p fs ≡ true
    → all_keys p (pop key fs) ≡ true
unfolding pop
all_keys-pop p key end h = refl
all_keys-pop p key (field k v fs) h = ground (arith, all_keys-pop p key fs)

pub get-put : (key : Text) (x : Json) (fs : Fields) → get key (put key x fs) ≡ some x
unfolding put get
get-put key x end = ground (arith, text_eq_refl key)
get-put key x (field k v fs) = ground (arith, get-put key x fs)

pub get-put_ne :
    (key other : Text) (x : Json) (fs : Fields)
    → text_eq key other ≡ false
    → get other (put key x fs) ≡ get other fs
unfolding put get
get-put_ne key other x end h = ground arith
get-put_ne key other x (field k v fs) h = elim (Bool-cases (text_eq k key)) [
  | inl e ↦
      let same = text_eq→eq k key e in
      rw e (rw (let differs : text_eq k other ≡ false = rw same h in differs) refl)
  | inr e ↦ rw e (ground (arith, get-put_ne key other x fs h))
]

pub get-pop_ne :
    (key other : Text) (fs : Fields)
    → text_eq key other ≡ false
    → get other (pop key fs) ≡ get other fs
unfolding pop get
get-pop_ne key other end h = refl
get-pop_ne key other (field k v fs) h = elim (Bool-cases (text_eq k key)) [
  | inl e ↦
      let same = text_eq→eq k key e in
      rw e (rw (let differs : text_eq k other ≡ false = rw same h in differs) refl)
  | inr e ↦ rw e (ground (arith, get-pop_ne key other fs h))
]
