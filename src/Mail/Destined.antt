-- ===== src/Mail/Destined.antt =====
-- The destination that `prepare` leaves.
use sales_girl_voice_agent.Common.{
  ◌≡◌, refl, Bool, true, false, ◌&&◌, not, Option, none, some, arith, Text, is_empty, strip,
  if◌then◌else◌, Fields,
}
use sales_girl_voice_agent.Mail.Contacts.{is_email}
use sales_girl_voice_agent.Mail.Prepare.{
  Prepared, DirectoryEmail, Verified, Lookup, unreadable, no_contact, contact, Reply, Arguments,
  prepare, prepare_with, prepare_contact, prepare_search, prepared_for, ready_with, destination,
  no_fields, bad_address, no_address, extra_arguments, no_search,
}

-- The saved address, or another that reads as an address.
pub record IsDestined (p : Prepared) : Type 0 where
  pub to_saved : p.alternate ≡ false → p.recipient ≡ p.saved_recipient
  pub to_other : p.alternate ≡ true → is_email p.recipient ≡ true

abbrev pub OptionDestined : Option Prepared → Type 0
OptionDestined none = Unit
OptionDestined (some p) = IsDestined p

abbrev pub PairDestined : DirectoryEmail × Reply → Type 0
PairDestined r = OptionDestined r.0.prepared

if-PairDestined :
    (b : Bool) (x y : DirectoryEmail × Reply)
    → (b ≡ true → PairDestined x)
    → (b ≡ false → PairDestined y)
    → PairDestined (if b then x else y)
if-PairDestined true x y f g = f refl
if-PairDestined false x y f g = g refl

prepared_for-IsDestined :
    (alternate : Text) (c : Verified) (filters : Fields)
    → (not (is_empty alternate) && not (is_email alternate)) ≡ false
    → IsDestined (prepared_for alternate c filters)
prepared_for-IsDestined alternate c filters h = record {
  to_saved = λ e. rw e refl;
  to_other = λ e. rw e (ground arith);
}

prepare_with-IsDestined :
    (alternate : Text) (c : Verified) (filters : Fields) (m : DirectoryEmail)
    → OptionDestined m.prepared
    → PairDestined (prepare_with alternate c filters m)
unfolding prepare_with
prepare_with-IsDestined alternate c filters m i =
    if-PairDestined (not (is_empty alternate) && not (is_email alternate)) (m, bad_address)
      (if is_empty alternate && is_empty c.email
        then (m, no_address)
        else if is_empty (destination alternate c)
        then (m, no_address)
        else ready_with alternate c filters m)
      (λ _. i)
      λ e.
        if-PairDestined (is_empty alternate && is_empty c.email) (m, no_address)
          (if is_empty (destination alternate c)
            then (m, no_address)
            else ready_with alternate c filters m)
          (λ _. i)
          λ _.
            if-PairDestined (is_empty (destination alternate c)) (m, no_address)
              (ready_with alternate c filters m) (λ _. i)
              λ _. prepared_for-IsDestined alternate c filters e

pub prepare-IsDestined :
    (arguments : Arguments) (found : Lookup) (m : DirectoryEmail)
    → PairDestined (prepare arguments found m)
unfolding prepare
prepare-IsDestined arguments found m =
    if-PairDestined arguments.others (record m { prepared = none }, extra_arguments)
      (prepare_contact (strip arguments.recipient_email) found (record m { prepared = none }))
      (λ _. tt) λ _. by_contact found
  where
    by_search :
        (alternate : Text) (c : Verified) (o : Option Fields)
        → PairDestined (prepare_search alternate c o (record m { prepared = none }))
    by_search alternate c none = tt
    by_search alternate c (some fs) =
        if-PairDestined (no_fields fs) (record m { prepared = none }, no_search)
          (prepare_with alternate c fs (record m { prepared = none })) (λ _. tt)
          λ _. prepare_with-IsDestined alternate c fs (record m { prepared = none }) tt

    by_contact :
        (l : Lookup)
        → PairDestined
            (prepare_contact (strip arguments.recipient_email) l (record m { prepared = none }))
    by_contact unreadable = tt
    by_contact no_contact = tt
    by_contact (contact c) = by_search (strip arguments.recipient_email) c m.filters
