-- ===== src/Mail/Send.antt =====
-- `send` of DirectoryEmail (latency_lab/directory_email.py), cut where it waits and at its
-- transactions on the outbox, which other processes share.
use sales_girl_voice_agent.Common.{
  ℕ, Bool, ◌&&◌, ◌||◌, not, Option, none, some, List, [], ◌∷◌, Text, codes, text_eq, any, length,
  take, lower, is_empty, leb, ltb, ◌==◌, if◌then◌else◌, Fields,
}
use sales_girl_voice_agent.Mail.Contacts.{is_email}
use sales_girl_voice_agent.Mail.Prepare.{
  Context, Identity, Prepared, DirectoryEmail, Verified, Lookup, unreadable, no_contact, contact,
  Reply, nothing_prepared, not_confirmed, contact_changed, contacts_unverified, no_sender,
  not_refreshed, no_rows, already_sent, already_tried, email_accepted, email_unconfirmed,
  email_refused,
}

-- What the calls of a session share; `hash` is the SHA-256 of the filters and the recipient.
pub record Settings : Type 0 where
  pub directory : Text
  pub context : Context
  pub identity : Identity
  pub path : Bool
  pub session_id : Text
  pub hash : Fields → Text → ℕ

-- The locals of a `send` that goes on.
pub record Sending : Type 0 where
  pub prepared : Prepared
  pub confirmed_alternate : Bool
  pub contact : Verified

pub data Begun : Type 0 where
  answers : Reply → Begun
  looks_up : Sending → Begun

abbrev pub same_contact : Verified → Prepared → Bool
same_contact c p = text_eq c.phone p.phone && text_eq c.email p.saved_recipient

unfoldable pub begin_contact : Prepared → Bool → Lookup → Text → Text → Begun
unfolding is_email
begin_contact p confirmed unreadable key sender = answers contacts_unverified
begin_contact p confirmed no_contact key sender = answers contact_changed
begin_contact p confirmed (contact c) key sender =
    if not (same_contact c p)
    then answers contact_changed
    else if is_empty key || not (is_email sender)
    then answers no_sender
    else looks_up (record { prepared = p; confirmed_alternate = confirmed; contact = c })

abbrev pub begin_prepared : Option Prepared → Bool → Lookup → Text → Text → Begun
begin_prepared none confirmed found key sender = answers nothing_prepared
begin_prepared (some p) confirmed found key sender =
    if p.alternate && not confirmed
    then answers not_confirmed
    else begin_contact p confirmed found key sender

-- Up to the fresh lookup of the providers.
unfoldable pub send_begin : Bool → Lookup → Text → Text → DirectoryEmail → DirectoryEmail × Begun
unfolding begin_contact
send_begin confirmed found key sender m =
    (record m { prepared = none }, begin_prepared m.prepared confirmed found key sender)

-- The columns of the outbox that are unique together.
pub record Key : Type 0 where
  pub business_id : Text
  pub agent_id : Text
  pub session_id : Text
  pub search_hash : ℕ

abbrev pub key_eq : Key → Key → Bool
key_eq a b =
    text_eq a.business_id b.business_id
    && text_eq a.agent_id b.agent_id
    && text_eq a.session_id b.session_id
    && a.search_hash == b.search_hash

pub data Status : Type 0 where
  sending accepted failed unknown : Status

-- A row of `directory_email_outbox`.
pub record OutboxRow : Type 0 where
  pub id : ℕ
  pub key : Key
  pub phone_e164 : Text
  pub recipient : Text
  pub status : Status
  pub result_count : ℕ

abbrev pub search_key : Settings → Prepared → Key
search_key s p = record {
  business_id = s.context.business_id;
  agent_id = s.context.agent_id;
  session_id = s.session_id;
  search_hash = s.hash p.filters (lower p.recipient);
}

-- The parts of the fresh lookup's answer.
pub record Fresh : Type 0 where
  pub ok : Bool
  pub matches : List Text

-- A send that is to be recorded.
pub record Recorded : Type 0 where
  pub row : OutboxRow
  pub sent : Sending
  pub matches : List Text

pub data Checked : Type 0 where
  replies : Reply → Checked
  records : Recorded → Checked

unfoldable pub find_row : Key → List OutboxRow → Option Status
find_row k [] = none
find_row k (r ∷ rs) = let rest = find_row k rs in if key_eq k r.key then some r.status else rest

abbrev pub recording : Settings → ℕ → Sending → List Text → Recorded
recording s operation l rows = record {
  row = record {
    id = operation;
    key = search_key s l.prepared;
    phone_e164 = l.prepared.phone;
    recipient = l.prepared.recipient;
    status = sending;
    result_count = length rows;
  };
  sent = l;
  matches = rows;
}

abbrev pub check_old : Option Status → Recorded → Checked
check_old none r = records r
check_old (some accepted) r = replies already_sent
check_old (some sending) r = replies already_tried
check_old (some failed) r = replies already_tried
check_old (some unknown) r = replies already_tried

-- From the fresh lookup to the SELECT; `operation` is the new UUID.
unfoldable pub send_check : Settings → ℕ → Sending → Fresh → List OutboxRow → Checked
unfolding find_row
send_check s operation l fresh outbox =
    let rows = take 7 fresh.matches in
    if not fresh.ok
    then replies not_refreshed
    else if is_empty rows
    then replies no_rows
    else check_old (find_row (search_key s l.prepared) outbox) (recording s operation l rows)

abbrev pub clashes : OutboxRow → OutboxRow → Bool
clashes a b = a.id == b.id || key_eq a.key b.key

-- The INSERT; `none` is the IntegrityError, which is answered as in progress.
unfoldable pub send_record : OutboxRow → List OutboxRow → Option (List OutboxRow)
send_record row outbox = if any (clashes row) outbox then none else some (row ∷ outbox)

-- The request's address, its providers and its reference.
pub record Payload : Type 0 where
  pub address : Text
  pub matches : List Text
  pub client_reference : ℕ

abbrev pub payload : Recorded → Payload
payload r = record {
  address = r.sent.prepared.recipient;
  matches = r.matches;
  client_reference = r.row.id;
}

-- The service's answer: an exception, a body that is no dict, or a dict with its error and codes.
pub data Answer : Type 0 where
  raises : Answer
  no_dict : ℕ → Answer
  body : ℕ → Bool → List Text → Answer

unfoldable pub answer_status : Answer → Status
answer_status raises = unknown
answer_status (no_dict code) = failed
answer_status (body code error parts) =
    if leb 200 code && ltb code 300 && not error && any (text_eq (codes "EM_104")) parts
    then accepted
    else failed

unfoldable pub set_status : ℕ → Status → List OutboxRow → List OutboxRow
set_status operation status [] = []
set_status operation status (r ∷ rs) =
    let rest = set_status operation status rs in
    if operation == r.id then record r { status = status } ∷ rest else r ∷ rest

abbrev reply_of : Status → Reply
reply_of accepted = email_accepted
reply_of unknown = email_unconfirmed
reply_of failed = email_refused
reply_of sending = email_refused

-- From the answer to the end.
unfoldable pub send_done : ℕ → Answer → List OutboxRow → List OutboxRow × Reply
unfolding answer_status set_status
send_done operation a outbox =
    (set_status operation (answer_status a) outbox, reply_of (answer_status a))
