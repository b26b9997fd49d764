-- ===== src/Mail/Right.antt =====
-- What a send goes on with, at each of its waits.
use sales_girl_voice_agent.Common.{
  ℕ, ◌≤◌, ◌≡◌, refl, Bool, true, false, ◌&&◌, ◌||◌, not, Option, none, some, List, [], ◌∷◌, arith,
  Text, text_eq→eq, is_empty, length, take, length-take_le, if◌then◌else◌, Bool-cases, inl, inr,
}
use sales_girl_voice_agent.Mail.Contacts.{Contact, is_email}
use sales_girl_voice_agent.Mail.Prepare.{
  contact_changed, no_sender, not_confirmed, not_refreshed, no_rows, Prepared, Verified, Lookup,
  unreadable, no_contact, contact, allowed, verified_contact,
}
use sales_girl_voice_agent.Mail.Send.{
  Settings, Sending, OutboxRow, Fresh, Recorded, Begun, answers, looks_up, Checked, replies,
  records, same_contact, begin_contact, begin_prepared, send_check, check_old, find_row, search_key,
  recording, Status, sending, accepted, failed, unknown,
}
use sales_girl_voice_agent.Mail.Destined.{IsDestined, OptionDestined}

-- A send for a caller whom the settings allow, with the contact as it was prepared, and with the
-- caller's word where the address is another than the saved one.
pub record IsAuthorized (s : Settings) (l : Sending) : Type 0 where
  pub destined : IsDestined l.prepared
  pub confirmed : l.prepared.alternate ≡ true → l.confirmed_alternate ≡ true
  pub allowed_caller : allowed s.directory s.context s.identity ≡ true
  pub same_phone : l.contact.phone ≡ l.prepared.phone
  pub same_email : l.contact.email ≡ l.prepared.saved_recipient

-- Of one to seven providers.
pub record IsSendable (s : Settings) (r : Recorded) : Type 0 where
  pub authorized : IsAuthorized s r.sent
  pub some_match : 1 ≤ length r.matches
  pub few_matches : length r.matches ≤ 7

pub allowed_contact :
    (s : Settings) (db : Option (List Contact)) (c : Verified)
    → verified_contact s.directory s.context s.identity s.path db ≡ contact c
    → allowed s.directory s.context s.identity ≡ true
unfolding verified_contact
allowed_contact s db c h = elim (Bool-cases (allowed s.directory s.context s.identity)) [
  | inl e ↦ e
  | inr e ↦ let f = rw e at h in absurd (ground arith)
]

-- What the start of a send goes on with, and what its check records.
abbrev pub BegunOk : Settings → Begun → Type 0
BegunOk s (answers _) = Unit
BegunOk s (looks_up l) = IsAuthorized s l

abbrev pub CheckedOk : Settings → Checked → Type 0
CheckedOk s (replies _) = Unit
CheckedOk s (records r) = IsSendable s r

module _ (s : Settings) where
  if-BegunOk :
      (b : Bool) (x y : Begun)
      → (b ≡ true → BegunOk s x)
      → (b ≡ false → BegunOk s y)
      → BegunOk s (if b then x else y)
  if-BegunOk true x y f g = f refl
  if-BegunOk false x y f g = g refl

  if-CheckedOk :
      (b : Bool) (x y : Checked)
      → (b ≡ true → CheckedOk s x)
      → (b ≡ false → CheckedOk s y)
      → CheckedOk s (if b then x else y)
  if-CheckedOk true x y f g = f refl
  if-CheckedOk false x y f g = g refl

  begin_contact-Ok :
      (p : Prepared) (confirmed : Bool) (found : Lookup) (key sender : Text)
      → IsDestined p
      → (p.alternate ≡ true → confirmed ≡ true)
      → ((c : Verified) → found ≡ contact c → allowed s.directory s.context s.identity ≡ true)
      → BegunOk s (begin_contact p confirmed found key sender)
  unfolding begin_contact
  begin_contact-Ok p confirmed unreadable key sender d q a = tt
  begin_contact-Ok p confirmed no_contact key sender d q a = tt
  begin_contact-Ok p confirmed (contact c) key sender d q a =
      if-BegunOk (not (same_contact c p)) (answers contact_changed)
        (if is_empty key || not (is_email sender) then answers no_sender else looks_up l) (λ _. tt)
        λ same.
          if-BegunOk (is_empty key || not (is_email sender)) (answers no_sender) (looks_up l)
            (λ _. tt)
            λ _. record {
              destined = d;
              confirmed = q;
              allowed_caller = a c refl;
              same_phone = text_eq→eq c.phone p.phone (ground arith);
              same_email = text_eq→eq c.email p.saved_recipient (ground arith);
            }
    where
      l : Sending
      l = record { prepared = p; confirmed_alternate = confirmed; contact = c }

  pub begin_prepared-Ok :
      (o : Option Prepared) (confirmed : Bool) (found : Lookup) (key sender : Text)
      → OptionDestined o
      → ((c : Verified) → found ≡ contact c → allowed s.directory s.context s.identity ≡ true)
      → BegunOk s (begin_prepared o confirmed found key sender)
  begin_prepared-Ok none confirmed found key sender d a = tt
  begin_prepared-Ok (some p) confirmed found key sender d a =
      if-BegunOk (p.alternate && not confirmed) (answers not_confirmed)
        (begin_contact p confirmed found key sender) (λ _. tt)
        λ e. begin_contact-Ok p confirmed found key sender d (λ f. ground arith) a

  check_old-Ok : (o : Option Status) (r : Recorded) → IsSendable s r → CheckedOk s (check_old o r)
  check_old-Ok none r h = h
  check_old-Ok (some accepted) r h = tt
  check_old-Ok (some sending) r h = tt
  check_old-Ok (some failed) r h = tt
  check_old-Ok (some unknown) r h = tt

  some_item : (rows : List Text) → is_empty rows ≡ false → 1 ≤ length rows
  some_item [] h = absurd (ground arith)
  some_item (r ∷ rows) h = omega arith

  pub send_check-Ok :
      (operation : ℕ) (l : Sending) (fresh : Fresh) (outbox : List OutboxRow)
      → IsAuthorized s l
      → CheckedOk s (send_check s operation l fresh outbox)
  unfolding send_check
  send_check-Ok operation l fresh outbox h =
      if-CheckedOk (not fresh.ok) (replies not_refreshed)
        (if is_empty rows then replies no_rows else check_old old r) (λ _. tt)
        λ _.
          if-CheckedOk (is_empty rows) (replies no_rows) (check_old old r) (λ _. tt)
            λ e. check_old-Ok old r (record {
              authorized = h;
              some_match = some_item rows e;
              few_matches = length-take_le 7 fresh.matches;
            })
    where
      rows : List Text
      rows = take 7 fresh.matches

      old : Option Status
      old = find_row (search_key s l.prepared) outbox

      r : Recorded
      r = recording s operation l rows
