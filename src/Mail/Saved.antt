-- ===== src/Mail/Saved.antt =====
-- A contact that `save_contact` stores is the one that `_verified_contact` finds.
use sales_girl_voice_agent.Common.{
  ◌≡◌, refl, Bool, true, false, ◌&&◌, ◌||◌, not, Option, none, some, List, [], ◌∷◌, Text,
  text_eq_refl, strip, is_empty, if◌then◌else◌, Bool-cases, inl, inr,
}
use mathlib.Core.Path.{subst}
use mathlib.Core.Option.{none-ne-some, some-injective}
use sales_girl_voice_agent.Mail.Contacts.{
  Contact, has_key, saved, upsert, set_name, save_contact, find_contact, normalize_phone, is_email,
}

-- An active row with the address, or with any where the address is empty.
abbrev pub Found : Text → Option Contact → Type 0
Found email none = (true ≡ false)
Found email (some c) = is_empty email ≡ false → c.email ≡ email

if-Found :
    (email : Text) (b : Bool) (x y : Option Contact)
    → (b ≡ true → Found email x)
    → (b ≡ false → Found email y)
    → Found email (if b then x else y)
if-Found email true x y f g = f refl
if-Found email false x y f g = g refl

module _ (business phone email : Text) where
  find_saved :
      (c : Contact) (cs : List Contact)
      → has_key business phone c ≡ true
      → Found email (find_contact business phone (saved email c ∷ cs))
  unfolding find_contact
  find_saved c cs h = rw h λ e. rw e refl

  find_contact-upsert :
      (cs : List Contact)
      → Found email (find_contact business phone (upsert business phone email cs))
  unfolding find_contact upsert
  find_contact-upsert [] = rw (text_eq_refl business) (rw (text_eq_refl phone) λ _. refl)
  find_contact-upsert (c ∷ cs) = elim (Bool-cases (has_key business phone c)) [
    | inl e ↦ rw e (find_saved c cs e)
    | inr e ↦ rw e (rw e (find_contact-upsert cs))
  ]

  find_contact-set_name :
      (name : Option Text) (cs : List Contact)
      → Found email (find_contact business phone cs)
      → Found email (find_contact business phone (set_name business phone name cs))
  unfolding find_contact set_name
  find_contact-set_name none cs h = h
  find_contact-set_name (some name) [] h = h
  find_contact-set_name (some name) (c ∷ cs) h = elim (Bool-cases (has_key business phone c)) [
    | inl e ↦ elim (Bool-cases c.active) [
      | inl f ↦ rw e (rw e (rw f (rw f at (rw e at h))))
      | inr f ↦ rw e (rw e (rw f (find_contact-set_name (some name) cs (rw f at (rw e at h)))))
    ]
    | inr e ↦ rw e (rw e (find_contact-set_name (some name) cs (rw e at h)))
  ]

stored_as : (b : Bool) (x y : List Contact) → (if b then none else some x) ≡ some y → x ≡ y
stored_as true x y h = absurd (none-ne-some y h)
stored_as false x y h = some-injective x y h

-- `save_contact` refuses, or the caller's number then finds an active contact of the business, which
-- has the new address if one was given.
pub save_contact-find_contact :
    (business value address : Text) (full_name : Option Text) (contacts stored : List Contact)
    → save_contact business value address full_name contacts ≡ some stored
    → Found (strip address) (find_contact business (normalize_phone value) stored)
unfolding save_contact
save_contact-find_contact business value address full_name contacts stored h =
    let phone = normalize_phone value in
    let email = strip address in
    let after = set_name business phone full_name (upsert business phone email contacts) in
    let refused = is_empty phone || (not (is_empty email) && not (is_email email)) in
    subst (λ cs. Found email (find_contact business phone cs)) (stored_as refused after stored h)
      (find_contact-set_name business phone email full_name (upsert business phone email contacts)
        (find_contact-upsert business phone email contacts))
