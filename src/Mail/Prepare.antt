-- ===== src/Mail/Prepare.antt =====
-- `remember`, `_verified_contact` and `prepare` of DirectoryEmail (latency_lab/directory_email.py).
-- `casefold` is `lower`, and `speech_text`, which spells an address out, is left out of the replies.
use sales_girl_voice_agent.Common.{
  ℕ, Bool, true, false, ◌&&◌, ◌||◌, not, Option, none, some, List, [], Text, codes, text_eq, any,
  strip, lower, is_empty, ltb, if◌then◌else◌, Fields, end, field,
}
use sales_girl_voice_agent.Mail.Contacts.{Contact, normalize_phone, is_email, find_contact}

-- A tool of the agent; `is_active` is `t.get("is_active") is not False`.
pub record Tool : Type 0 where
  pub name : Text
  pub url : Text
  pub is_active : Bool

pub record Context : Type 0 where
  pub tools : List Tool
  pub business_id : Text
  pub agent_id : Text

pub record Identity : Type 0 where
  pub entry_surface : Text
  pub sip_trunk_id : Text
  pub sip_caller_verified : Bool
  pub business_id : Text
  pub config_agent_id : Text
  pub caller_phone : Text

abbrev has_tool : Text → Text → List Tool → Bool
has_tool name url = any (λ (t : Tool). text_eq t.name name && text_eq t.url url && t.is_active)

-- Both the directory's `enabled` and its own; `directory` is the name of the directory's tool.
unfoldable pub enabled : Text → Context → Bool
enabled directory context =
    has_tool directory (codes "builtin://provider-directory") context.tools
    && has_tool (codes "email_provider_results") (codes "builtin://email-provider-results")
        context.tools

-- What `prepare` keeps for `send`.
pub record Prepared : Type 0 where
  pub phone : Text
  pub saved_recipient : Text
  pub recipient : Text
  pub alternate : Bool
  pub full_name : Text
  pub filters : Fields

pub record DirectoryEmail : Type 0 where
  pub filters : Option Fields
  pub prepared : Option Prepared

-- The contact of the caller: what `_verified_contact` returns.
pub record Verified : Type 0 where
  pub phone : Text
  pub email : Text
  pub full_name : Text

pub data Lookup : Type 0 where
  unreadable : Lookup
  no_contact : Lookup
  contact : Verified → Lookup

unfoldable pub allowed : Text → Context → Identity → Bool
unfolding enabled
allowed directory context i =
    enabled directory context
    && text_eq i.entry_surface (codes "aicc_inbound")
    && not (is_empty i.sip_trunk_id)
    && i.sip_caller_verified
    && text_eq i.business_id context.business_id
    && text_eq i.config_agent_id context.agent_id

abbrev row_contact : Text → Option Contact → Lookup
row_contact phone none = no_contact
row_contact phone (some c) =
    contact (record { phone = phone; email = strip c.email; full_name = c.full_name })

abbrev read_contact : Text → Text → Option (List Contact) → Lookup
read_contact business phone none = unreadable
read_contact business phone (some cs) = row_contact phone (find_contact business phone cs)

-- `path` says that the database's path is set.
unfoldable pub verified_contact : Text → Context → Identity → Bool → Option (List Contact) → Lookup
unfolding allowed normalize_phone find_contact
verified_contact directory context i path db =
    let phone = normalize_phone i.caller_phone in
    if not (allowed directory context i) || is_empty phone || not path
    then no_contact
    else read_contact context.business_id phone db

unfoldable pub has_contact : Lookup → Bool
has_contact (contact c) = true
has_contact unreadable = false
has_contact no_contact = false

unfoldable pub caller_name : Lookup → Text
caller_name (contact c) = c.full_name
caller_name unreadable = []
caller_name no_contact = []

-- `none` is also the exception of a table that cannot be read.
unfoldable pub recipient : Lookup → Option (Text × Text)
recipient (contact c) = if is_empty c.email then none else some (c.phone, c.email)
recipient unreadable = none
recipient no_contact = none

-- The parts of a search's answer that `remember` reads; `filters` is `none` where it has none.
pub record SearchBody : Type 0 where
  pub ok : Bool
  pub live_sheet : Bool
  pub total_matches : ℕ
  pub filters : Option Fields

abbrev pub no_fields : Fields → Bool
no_fields end = true
no_fields (field k v fs) = false

abbrev pub has_filters : Option Fields → Bool
has_filters none = false
has_filters (some fs) = not (no_fields fs)

-- `dict(data["filters"])`, which raises and leaves the old filters where there are none.
abbrev copied : Option Fields → Option Fields → Option Fields
copied none old = old
copied (some fs) old = some fs

unfoldable pub remember : SearchBody → DirectoryEmail → DirectoryEmail
remember body m =
    let kept = if has_filters body.filters || not body.ok then none else m.filters in
    record m {
      filters =
          if body.ok && body.live_sheet && ltb 0 body.total_matches
          then copied body.filters kept
          else kept;
    }

-- The arguments of the model's call: whether it has a key beside `recipient_email`, and that one's text.
pub record Arguments : Type 0 where
  pub others : Bool
  pub recipient_email : Text

-- One constructor for each text.
pub data Reply : Type 0 where
  extra_arguments contacts_unreadable unknown_caller no_search bad_address no_address ready : Reply
  confirm_address : Text → Reply
  nothing_prepared not_confirmed contact_changed contacts_unverified no_sender : Reply
  not_refreshed no_rows already_sent already_tried in_progress : Reply
  email_accepted email_unconfirmed email_refused : Reply

abbrev pub is_other : Text → Verified → Bool
is_other alternate c = not (is_empty alternate) && not (text_eq (lower alternate) (lower c.email))

abbrev pub destination : Text → Verified → Text
destination alternate c = if is_other alternate c then alternate else c.email

abbrev pub prepared_for : Text → Verified → Fields → Prepared
prepared_for alternate c filters = record {
  phone = c.phone;
  saved_recipient = c.email;
  recipient = destination alternate c;
  alternate = is_other alternate c;
  full_name = c.full_name;
  filters = filters;
}

abbrev pub ready_with : Text → Verified → Fields → DirectoryEmail → DirectoryEmail × Reply
ready_with alternate c filters m = (
  record m { prepared = some (prepared_for alternate c filters) },
  if is_other alternate c then confirm_address (destination alternate c) else ready,
)

-- The contact is known, and the search has filters.
unfoldable pub prepare_with : Text → Verified → Fields → DirectoryEmail → DirectoryEmail × Reply
unfolding is_email
prepare_with alternate c filters m =
    if not (is_empty alternate) && not (is_email alternate)
    then (m, bad_address)
    else if is_empty alternate && is_empty c.email
    then (m, no_address)
    else if is_empty (destination alternate c)
    then (m, no_address)
    else ready_with alternate c filters m

abbrev pub prepare_search :
    Text → Verified → Option Fields → DirectoryEmail → DirectoryEmail × Reply
prepare_search alternate c none m = (m, no_search)
prepare_search alternate c (some fs) m =
    if no_fields fs then (m, no_search) else prepare_with alternate c fs m

abbrev pub prepare_contact : Text → Lookup → DirectoryEmail → DirectoryEmail × Reply
prepare_contact alternate unreadable m = (m, contacts_unreadable)
prepare_contact alternate no_contact m = (m, unknown_caller)
prepare_contact alternate (contact c) m = prepare_search alternate c m.filters m

unfoldable pub prepare : Arguments → Lookup → DirectoryEmail → DirectoryEmail × Reply
unfolding prepare_with
prepare arguments found m =
    let empty = record m { prepared = none } in
    if arguments.others
    then (empty, extra_arguments)
    else prepare_contact (strip arguments.recipient_email) found empty
