-- ===== src/Mail/Tests.antt =====
-- Runs of latency_lab/directory_email.py.
use sales_girl_voice_agent.Common.{
  ℕ, ◌≡◌, ◌≤◌, refl, Bool, true, false, none, some, List, [], ◌∷◌, codes, All, strip, length, end,
  field, str,
}
use sales_girl_voice_agent.Mail.Contacts.{
  Contact, normalize_phone, is_email, save_contact, find_contact, upsert, set_name,
}
use sales_girl_voice_agent.Mail.Prepare.{
  Context, Identity, SearchBody, Arguments, remember, prepare, prepare_with, verified_contact,
  allowed,
}
use sales_girl_voice_agent.Mail.Send.{
  Settings, Key, OutboxRow, Fresh, Answer, raises, body, send_begin, send_check, send_record,
  send_done, begin_contact, unknown,
}
use sales_girl_voice_agent.Mail.World.{
  Event, searched, prepares, sends, refreshed, recorded, answered, step, run, new_world, on_sends,
  on_refreshed, on_recorded, on_answered,
}
use sales_girl_voice_agent.Mail.Once.{count, emailed_once}
use sales_girl_voice_agent.Mail.Right.{IsSendable}
use sales_girl_voice_agent.Mail.Addressed.{run-IsSendable}
use sales_girl_voice_agent.Mail.Saved.{Found, save_contact-find_contact}
use sales_girl_voice_agent.Common.{pick}

local_number : normalize_phone (codes " 0803 123 4567 ") ≡ codes "+2348031234567"
unfolding normalize_phone strip
local_number = refl

zeros_number : normalize_phone (codes "00234 803-123-4567") ≡ codes "+2348031234567"
unfolding normalize_phone strip
zeros_number = refl

word_number : normalize_phone (codes "anonymous") ≡ []
unfolding normalize_phone strip
word_number = refl

address_forms :
    ((is_email (codes "a.b@c.org") ≡ true) × (is_email (codes "a@c") ≡ false))
    × ((is_email (codes "@c.org") ≡ false) × (is_email (codes "a@b@c.org") ≡ false))
unfolding is_email
address_forms = ((refl, refl), (refl, refl))

abbrev context : Context
context = record {
  tools =
      record {
        name = codes "provider_lookup";
        url = codes "builtin://provider-directory";
        is_active = true;
      }
      ∷ record {
        name = codes "email_provider_results";
        url = codes "builtin://email-provider-results";
        is_active = true;
      }
      ∷ [];
  business_id = codes "b1";
  agent_id = codes "a1";
}

abbrev caller : Identity
caller = record {
  entry_surface = codes "aicc_inbound";
  sip_trunk_id = codes "t1";
  sip_caller_verified = true;
  business_id = codes "b1";
  config_agent_id = codes "a1";
  caller_phone = codes "08031234567";
}

abbrev settings : Settings
settings = record {
  directory = codes "provider_lookup";
  context = context;
  identity = caller;
  path = true;
  session_id = codes "s1";
  hash = λ filters address. length address;
}

abbrev contacts : List Contact
contacts =
    record {
      business_id = codes "b1";
      phone_e164 = codes "+2348031234567";
      email = codes "ada@x.org";
      full_name = codes "Ada";
      active = true;
    }
    ∷ []

abbrev search : SearchBody
search = record {
  ok = true;
  live_sheet = true;
  total_matches = 2;
  filters = some (field (codes "plan") (str (codes "gold")) end);
}

abbrev to_saved : Arguments
to_saved = record { others = false; recipient_email = [] }

abbrev to_other : Arguments
to_other = record { others = false; recipient_email = codes "bob@longer.org" }

abbrev found : Fresh
found = record { ok = true; matches = codes "Clinic" ∷ codes "Hospital" ∷ [] }

-- One e-mail to its end, with the caller's word on another address.
abbrev email_events : Arguments → Bool → ℕ → Answer → List Event
email_events arguments confirmed operation a =
    searched search
    ∷ prepares arguments (some contacts)
    ∷ sends confirmed (some contacts) (codes "key") (codes "amaka@x.org")
    ∷ refreshed 0 found operation
    ∷ recorded 0 true
    ∷ answered 0 a
    ∷ []

abbrev saved_key : Key
saved_key = record {
  business_id = codes "b1";
  agent_id = codes "a1";
  session_id = codes "s1";
  search_hash = 9;
}

abbrev unsure : List Event
unsure = email_events to_saved false 1 raises

-- An address is sent once, also after a restart.
sent_once : count saved_key (run settings unsure (new_world [])).posts ≡ 1
unfolding run step on_sends on_refreshed on_recorded on_answered remember prepare prepare_with
    verified_contact allowed normalize_phone find_contact strip send_begin begin_contact is_email
    send_check send_record send_done pick count
sent_once = refl

emailed_once_example :
    count saved_key
      (run settings
        (email_events to_saved false 1 (body 200 false (codes "EM_104" ∷ [])))
        (new_world [])).posts
    ≤ 1
emailed_once_example =
    emailed_once saved_key settings
      (email_events to_saved false 1 (body 200 false (codes "EM_104" ∷ []))) []

abbrev old_row : OutboxRow
old_row = record {
  id = 7;
  key = saved_key;
  phone_e164 = codes "+2348031234567";
  recipient = codes "ada@x.org";
  status = unknown;
  result_count = 2;
}

-- Another address waits for the caller's word.
unconfirmed_not_sent :
    (run settings (email_events to_other false 1 raises) (new_world [])).posts ≡ []
unfolding run step on_sends on_refreshed on_recorded on_answered remember prepare prepare_with
    verified_contact allowed normalize_phone find_contact strip send_begin begin_contact is_email
    send_check send_record send_done pick count
unconfirmed_not_sent = refl

confirmed_sent :
    length (run settings (email_events to_other true 1 raises) (new_world [])).posts ≡ 1
unfolding run step on_sends on_refreshed on_recorded on_answered remember prepare prepare_with
    verified_contact allowed normalize_phone find_contact strip send_begin begin_contact is_email
    send_check send_record send_done pick count
confirmed_sent = refl

run-IsSendable_example :
    All
      (IsSendable settings)
      (run settings (email_events to_other true 1 raises) (new_world [])).posts
run-IsSendable_example = run-IsSendable settings (email_events to_other true 1 raises) []

abbrev moved : List Contact
moved =
    record {
      business_id = codes "b1";
      phone_e164 = codes "+2348031234567";
      email = codes "ada@y.org";
      full_name = codes "Ada";
      active = true;
    }
    ∷ []

saves :
    save_contact (codes "b1") (codes "0803 123 4567") (codes " ada@y.org") none contacts
    ≡ some moved
unfolding save_contact normalize_phone is_email upsert set_name strip
saves = refl

save_contact-find_contact_example :
    Found
      (strip (codes " ada@y.org"))
      (find_contact (codes "b1") (normalize_phone (codes "0803 123 4567")) moved)
save_contact-find_contact_example =
    save_contact-find_contact (codes "b1") (codes "0803 123 4567") (codes " ada@y.org") none
      contacts moved saves
