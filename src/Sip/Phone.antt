-- ===== src/Sip/Phone.antt =====
-- `normalize_phone` of latency_lab/sip_routing.py.
use sales_girl_voice_agent.Common.{
  ℕ, ◌≡◌, ◌≤◌, refl, Bool, true, false, ◌&&◌, ◌||◌, not, Option, none, some, List, [], ◌∷◌, ◌++◌,
  arith, Text, codes, text_eq, any, all, length, keep_if, drop, lower, strip, lstrip, is_empty,
  is_digit, is_space, starts_with, leb, ◌==◌, if◌then◌else◌, Bool-cases, inl, inr, ◌⊎◌,
}
use mathlib.Core.List.{reverse, reverse-reverse, reverse-cons}

abbrev pub hidden_names : List Text
hidden_names =
    codes "anonymous"
    ∷ codes "restricted"
    ∷ codes "unavailable"
    ∷ codes "unknown"
    ∷ codes "private"
    ∷ []

-- `[^;>\s@]`
abbrev is_user_char : ℕ → Bool
is_user_char c = not (c == 59 || c == 62 || c == 64 || is_space c)

-- `([^;>\s@]+)@` at the start of a text: what the group holds, after the characters taken so far.
unfoldable pub user_part : Text → Text → Option Text
user_part taken [] = none
user_part taken (c ∷ s) =
    let rest = user_part (taken ++ (c ∷ [])) s in
    if c == 64
    then (if is_empty taken then none else some taken)
    else if is_user_char c
    then rest
    else none

abbrev has_scheme : Text → Bool
has_scheme s = starts_with (codes "sip:") (lower s) || starts_with (codes "tel:") (lower s)

abbrev or_else : Option Text → Option Text → Option Text
or_else none b = b
or_else (some a) b = some a

-- `(?i)(?:sip:|tel:)?([^;>\s@]+)@` at the start of a text.
unfoldable pub match_user : Text → Option Text
unfolding user_part
match_user s = or_else (if has_scheme s then user_part [] (drop 4 s) else none) (user_part [] s)

-- `re.search` of it.
unfoldable pub search_user : Text → Option Text
unfolding match_user
search_user [] = match_user []
search_user (c ∷ s) = or_else (match_user (c ∷ s)) (search_user s)

abbrev pub or_empty : Option Text → Text
or_empty none = []
or_empty (some s) = s

abbrev pub has_at : Text → Bool
has_at = any (λ c. c == 64)

-- `while digits.startswith("00") and len(digits) > 2: digits = digits[2:]`
unfoldable pub strip_zeros : Text → Text
strip_zeros [] = []
strip_zeros (a ∷ []) = a ∷ []
strip_zeros (a ∷ b ∷ []) = a ∷ b ∷ []
strip_zeros (a ∷ b ∷ c ∷ s) =
    let rest = strip_zeros (c ∷ s) in if a == 48 && b == 48 then rest else a ∷ b ∷ c ∷ s

abbrev nigeria : Text
nigeria = codes "234"

abbrev starts_mobile : Text → Bool
starts_mobile [] = false
starts_mobile (c ∷ s) = c == 55 || c == 56 || c == 57

-- The two rules on local Nigerian numbers.
unfoldable pub with_country : Text → Text
with_country ds =
    if starts_with (codes "0") ds && (length ds == 10 || length ds == 11)
    then nigeria ++ drop 1 ds
    else if length ds == 10 && starts_mobile ds
    then nigeria ++ ds
    else ds

unfoldable pub phone_of_digits : Text → Text
unfolding strip_zeros with_country
phone_of_digits digits =
    let ds = with_country (strip_zeros digits) in if leb 7 (length ds) then 43 ∷ ds else []

unfoldable pub digits_of : Text → Text
digits_of = keep_if is_digit

-- The argument is `str(value or "")`.
unfoldable pub normalize_phone : Text → Text
unfolding phone_of_digits digits_of search_user
normalize_phone value =
    let raw = strip value in
    if is_empty raw || any (text_eq (lower raw)) hidden_names
    then []
    else phone_of_digits (digits_of (if has_at raw then or_empty (search_user raw) else raw))

-- Digits to which none of the rules applies.
pub record IsCanonical (ds : Text) : Type 0 where
  pub digits : all is_digit ds ≡ true
  pub no_zeros : strip_zeros ds ≡ ds
  pub with_code : with_country ds ≡ ds

all-keep_digits : (s : Text) → all is_digit (keep_if is_digit s) ≡ true
all-keep_digits [] = refl
all-keep_digits (c ∷ s) = ground (arith, all-keep_digits s)

keep_digits_all : (s : Text) → all is_digit s ≡ true → keep_if is_digit s ≡ s
keep_digits_all [] h = refl
keep_digits_all (c ∷ s) h = ground (arith, keep_digits_all s)

strip_zeros-digits : (s : Text) → all is_digit s ≡ true → all is_digit (strip_zeros s) ≡ true
unfolding strip_zeros
strip_zeros-digits [] h = h
strip_zeros-digits (a ∷ []) h = h
strip_zeros-digits (a ∷ b ∷ []) h = h
strip_zeros-digits (a ∷ b ∷ c ∷ s) h = elim (Bool-cases (a == 48 && b == 48)) [
  | inl e ↦ rw e (strip_zeros-digits (c ∷ s) (ground arith))
  | inr e ↦ rw e h
]

strip_zeros-strip_zeros : (s : Text) → strip_zeros (strip_zeros s) ≡ strip_zeros s
unfolding strip_zeros
strip_zeros-strip_zeros [] = refl
strip_zeros-strip_zeros (a ∷ []) = refl
strip_zeros-strip_zeros (a ∷ b ∷ []) = refl
strip_zeros-strip_zeros (a ∷ b ∷ c ∷ s) = elim (Bool-cases (a == 48 && b == 48)) [
  | inl e ↦ rw e (strip_zeros-strip_zeros (c ∷ s))
  | inr e ↦ rw e (rw e refl)
]

-- A number with the country code in front.
nigeria-IsCanonical : (t : Text) → all is_digit t ≡ true → IsCanonical (nigeria ++ t)
nigeria-IsCanonical t h = record {
  digits = h;
  no_zeros = unfold strip_zeros in refl;
  with_code = unfold with_country in ground arith;
}

with_country-IsCanonical :
    (ds : Text) → all is_digit ds ≡ true → strip_zeros ds ≡ ds → IsCanonical (with_country ds)
unfolding with_country
with_country-IsCanonical [] h z = record { digits = h; no_zeros = z; with_code = refl }
with_country-IsCanonical (c ∷ s) h z =
    elim (Bool-cases
      (starts_with (codes "0") (c ∷ s) && (length (c ∷ s) == 10 || length (c ∷ s) == 11))) [
        | inl e ↦ rw e (nigeria-IsCanonical s (ground arith))
        | inr e ↦ elim (Bool-cases (length (c ∷ s) == 10 && starts_mobile (c ∷ s))) [
          | inl f ↦ rw (e, f) (nigeria-IsCanonical (c ∷ s) h)
          | inr f ↦ rw (e, f) (record { digits = h; no_zeros = z; with_code = rw (e, f) refl })
        ]
      ]

le→leb : (m n : ℕ) → m ≤ n → leb m n ≡ true
le→leb m n h = ground arith

phone_of_canonical : (ds : Text) → IsCanonical ds → 7 ≤ length ds → phone_of_digits ds ≡ 43 ∷ ds
unfolding phone_of_digits
phone_of_canonical ds c h = rw (c.no_zeros, c.with_code, le→leb 7 (length ds) h) refl

-- A telephone number as the program keeps it.
pub record IsPhone (s : Text) : Type 0 where
  pub number : Text
  pub prefixed : s ≡ 43 ∷ number
  pub long_enough : 7 ≤ length number
  pub canonical : IsCanonical number

phone_of_digits-IsPhone :
    (ds : Text) → all is_digit ds ≡ true → (phone_of_digits ds ≡ []) ⊎ IsPhone (phone_of_digits ds)
unfolding phone_of_digits
phone_of_digits-IsPhone ds h =
    let c =
      with_country-IsCanonical (strip_zeros ds) (strip_zeros-digits ds h)
        (strip_zeros-strip_zeros ds) in
    let n = with_country (strip_zeros ds) in
    elim (Bool-cases (leb 7 (length n))) [
      | inl e ↦
          rw e (
            inr (record { number = n; prefixed = refl; long_enough = ground arith; canonical = c }))
      | inr e ↦ rw e (inl refl)
    ]

-- A normalized number is empty, or a plus sign and at least seven digits, without the international
-- prefix `00` and with the country code in the place of a local number's zero.
pub normalize_phone-IsPhone : (s : Text) → (normalize_phone s ≡ []) ⊎ IsPhone (normalize_phone s)
unfolding normalize_phone digits_of
normalize_phone-IsPhone s =
    elim (Bool-cases (is_empty (strip s) || any (text_eq (lower (strip s))) hidden_names)) [
      | inl e ↦ rw e (inl refl)
      | inr e ↦ rw e (
          let raw = if has_at (strip s) then or_empty (search_user (strip s)) else strip s in
          phone_of_digits-IsPhone (keep_if is_digit raw) (all-keep_digits raw))
    ]

all-append : (p : ℕ → Bool) (s t : Text) → all p s ≡ true → all p t ≡ true → all p (s ++ t) ≡ true
all-append p [] t h k = k
all-append p (c ∷ s) t h k = ground (arith, all-append p s t)

all-reverse : (p : ℕ → Bool) (s : Text) → all p s ≡ true → all p (reverse s) ≡ true
all-reverse p [] h = refl
all-reverse p (c ∷ s) h =
    rw (reverse-cons c s)
      (all-append p (reverse s) (c ∷ []) (all-reverse p s (ground arith)) (ground arith))

abbrev is_plain : ℕ → Bool
is_plain c = not (is_space c) && not (c == 64)

lstrip_plain : (s : Text) → all is_plain s ≡ true → lstrip s ≡ s
lstrip_plain [] h = refl
lstrip_plain (c ∷ s) h = ground arith

strip_plain : (s : Text) → all is_plain s ≡ true → strip s ≡ s
unfolding strip
strip_plain s h =
    rw (lstrip_plain s h)
      (rw (lstrip_plain (reverse s) (all-reverse is_plain s h)) (reverse-reverse s))

digits_plain : (s : Text) → all is_digit s ≡ true → all is_plain s ≡ true
digits_plain [] h = refl
digits_plain (c ∷ s) h = ground (arith, digits_plain s)

plain_no_at : (s : Text) → all is_plain s ≡ true → has_at s ≡ false
plain_no_at [] h = refl
plain_no_at (c ∷ s) h = ground (arith, plain_no_at s)

normalize_phone_number :
    (ds : Text) → IsCanonical ds → 7 ≤ length ds → normalize_phone (43 ∷ ds) ≡ 43 ∷ ds
unfolding normalize_phone digits_of
normalize_phone_number ds c h =
    let plain : all is_plain (43 ∷ ds) ≡ true = digits_plain ds c.digits in
    rw (strip_plain (43 ∷ ds) plain) (
      rw (plain_no_at ds (digits_plain ds c.digits), keep_digits_all ds c.digits)
        (phone_of_canonical ds c h))

-- Normalizing a normalized number changes nothing.
pub normalize_phone-normalize_phone :
    (s : Text) → normalize_phone (normalize_phone s) ≡ normalize_phone s
normalize_phone-normalize_phone s = elim (normalize_phone-IsPhone s) [
  | inl e ↦ rw e (unfold normalize_phone strip in refl)
  | inr p ↦ rw p.prefixed (normalize_phone_number p.number p.canonical p.long_enough)
]
