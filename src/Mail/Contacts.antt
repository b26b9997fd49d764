-- ===== src/Mail/Contacts.antt =====
-- The contacts of latency_lab/directory_email.py: `normalize_phone`, `save_contact` and
-- `_verified_contact`. A table is `none` where SQLite raises.
use sales_girl_voice_agent.Common.{
  join_words, ℕ, Bool, true, false, ◌&&◌, ◌||◌, not, Option, none, some, List, [], ◌∷◌, ◌++◌, Text,
  codes, text_eq, all, length, keep_if, take, drop, strip, is_empty, is_digit, is_space,
  starts_with, split, leb, ◌==◌, if◌then◌else◌,
}

-- `[\d ()-]`
abbrev is_phone_char : ℕ → Bool
is_phone_char c = is_digit c || c == 32 || c == 40 || c == 41 || c == 45

abbrev drop_plus : Text → Text
drop_plus [] = []
drop_plus (c ∷ s) = if c == 43 then s else c ∷ s

-- `re.fullmatch(r"\+?[\d ()-]+", raw)`
unfoldable pub is_phone_text : Text → Bool
is_phone_text raw = let s = drop_plus raw in not (is_empty s) && all is_phone_char s

abbrev drop_zeros : Text → Text
drop_zeros ds = if starts_with (codes "00") ds then drop 2 ds else ds

abbrev with_nigeria : Text → Text
with_nigeria ds =
    if length ds == 11 && starts_with (codes "0") ds then codes "234" ++ drop 1 ds else ds

unfoldable pub phone_of_digits : Text → Text
phone_of_digits digits =
    let ds = with_nigeria (drop_zeros digits) in
    if not (leb 10 (length ds) && leb (length ds) 15) || starts_with (codes "0") ds
    then []
    else 43 ∷ ds

-- The argument is `str(value or "")`.
unfoldable pub normalize_phone : Text → Text
unfolding is_phone_text phone_of_digits
normalize_phone value =
    let raw = strip value in
    if is_phone_text raw then phone_of_digits (keep_if is_digit raw) else []

-- `[^\s@]`
abbrev is_mail_char : ℕ → Bool
is_mail_char c = not (c == 64 || is_space c)

-- A dot with a character after it.
abbrev dot_inside : Text → Bool
dot_inside [] = false
dot_inside (c ∷ []) = false
dot_inside (c ∷ d ∷ s) = c == 46 || dot_inside (d ∷ s)

-- `[^\s@]+\.[^\s@]+`
abbrev is_domain : Text → Bool
is_domain s = all is_mail_char s && dot_inside (drop 1 s)

-- `[^\s@]+@[^\s@]+\.[^\s@]+`, where `some_read` says that the name before the `@` has begun.
unfoldable pub email_from : Bool → Text → Bool
email_from some_read [] = false
email_from some_read (c ∷ s) =
    let rest = email_from true s in
    if c == 64 then some_read && is_domain s else is_mail_char c && rest

unfoldable pub is_email : Text → Bool
unfolding email_from
is_email s = email_from false s

-- A row of `caller_contacts`.
pub record Contact : Type 0 where
  pub business_id : Text
  pub phone_e164 : Text
  pub email : Text
  pub full_name : Text
  pub active : Bool

abbrev pub has_key : Text → Text → Contact → Bool
has_key business phone c = text_eq c.business_id business && text_eq c.phone_e164 phone

-- `ON CONFLICT ... DO UPDATE`
abbrev pub saved : Text → Contact → Contact
saved email c = record c { email = if is_empty email then c.email else email; active = true }

unfoldable pub upsert : Text → Text → Text → List Contact → List Contact
upsert business phone email [] =
    record {
      business_id = business;
      phone_e164 = phone;
      email = email;
      full_name = [];
      active = true;
    }
    ∷ []
upsert business phone email (c ∷ cs) =
    let rest = upsert business phone email cs in
    if has_key business phone c then saved email c ∷ cs else c ∷ rest

abbrev pub named : Text → Contact → Contact
named name c = record c { full_name = take 120 (join_words (split name)) }

unfoldable pub set_name : Text → Text → Option Text → List Contact → List Contact
set_name business phone none cs = cs
set_name business phone (some name) [] = []
set_name business phone (some name) (c ∷ cs) =
    let rest = set_name business phone (some name) cs in
    if has_key business phone c then named name c ∷ rest else c ∷ rest

-- `none` is the ValueError.
unfoldable pub save_contact :
    Text → Text → Text → Option Text → List Contact → Option (List Contact)
unfolding normalize_phone is_email upsert set_name
save_contact business value address full_name contacts =
    let phone = normalize_phone value in
    let email = strip address in
    if is_empty phone || (not (is_empty email) && not (is_email email))
    then none
    else some (set_name business phone full_name (upsert business phone email contacts))

unfoldable pub find_contact : Text → Text → List Contact → Option Contact
find_contact business phone [] = none
find_contact business phone (c ∷ cs) =
    let rest = find_contact business phone cs in
    if has_key business phone c && c.active then some c else rest
