-- ===== src/Sip/Party.antt =====
-- `participant_identity` of latency_lab/sip_bootstrap.py: who calls whom, and for which agent.
use sales_girl_voice_agent.Common.{
  Bool, true, false, ◌&&◌, ◌||◌, not, Option, none, some, List, [], ◌∷◌, Text, codes, text_eq, any,
  lower, is_empty, if◌then◌else◌, Json, str, Fields, end, get, truthy,
}
use sales_girl_voice_agent.Sip.Bootstrap.{lookup, lookup_any, is_route, text_at}

abbrev pub Attributes : Type 0
Attributes = List (Text × Text)

unfoldable pub put_text : Text → Text → Attributes → Attributes
put_text key v [] = (key, v) ∷ []
put_text key v ((k, w) ∷ l) =
    let rest = put_text key v l in if text_eq k key then (k, v) ∷ l else (k, w) ∷ rest

-- The value of a key, empty without one.
unfoldable pub get_text : Text → Attributes → Text
get_text key [] = []
get_text key ((k, v) ∷ l) = let rest = get_text key l in if text_eq k key then v else rest

-- `lowered`: a later attribute replaces one whose name it equals but for the case.
unfoldable pub lowered_from : Attributes → Attributes → Attributes
unfolding put_text
lowered_from acc [] = acc
lowered_from acc ((k, v) ∷ l) = lowered_from (put_text (lower k) v acc) l

abbrev pub called_keys : List Text
called_keys =
    codes "sip.to"
    ∷ codes "sip.h.to"
    ∷ codes "sip.h.x-to"
    ∷ codes "sip.trunkphonenumber"
    ∷ codes "sip.trunk_phone_number"
    ∷ codes "sip.h.x-callee-number"
    ∷ codes "sip.h.x-odion-callee-number"
    ∷ codes "sip.x_callee_number"
    ∷ codes "sip.calleenumber"
    ∷ codes "sip.callee_number"
    ∷ codes "sip.called"
    ∷ []

abbrev pub caller_keys : List Text
caller_keys =
    codes "sip.phonenumber"
    ∷ codes "sip.phone_number"
    ∷ codes "sip.fromuser"
    ∷ codes "sip.from_user"
    ∷ codes "sip.from"
    ∷ []

abbrev pub is_caller_key : Text → Bool
is_caller_key key = any (text_eq key) caller_keys

-- `next((lowered.get(key) for key in keys if lowered.get(key)), "")`
unfoldable pub first_value : List Text → Attributes → Text
unfolding get_text
first_value [] l = []
first_value (key ∷ keys) l =
    if is_empty (get_text key l) then first_value keys l else get_text key l

unfoldable pub called_number : Text → Attributes → Text
unfolding first_value
called_number called_override lowered =
    if is_empty called_override then first_value called_keys lowered else called_override

-- `other_callee_values`
unfoldable pub other_values : Attributes → List Text
other_values [] = []
other_values ((k, v) ∷ l) =
    let rest = other_values l in
    if is_caller_key k || text_eq k (codes "sip.trunkid") then rest else v ∷ rest

abbrev or_route : Option Fields → Option Fields → Option Fields
or_route a b = if is_route a then a else b

unfoldable pub did_route : Option Fields → Text → Attributes → Option Fields
unfolding called_number other_values
did_route did_map called_override lowered =
    let called = called_number called_override lowered in
    let scanned = lookup_any did_map (other_values lowered) in
    or_route (lookup did_map called) (if is_empty called then scanned else none)

pub record Participant : Type 0 where
  pub is_sip : Bool
  pub identity : Text
  pub attributes : Attributes

unfoldable pub caller_number : Participant → Attributes → Text
unfolding first_value
caller_number p lowered =
    let caller = first_value caller_keys lowered in
    let raw = get_text (codes "sip.phoneNumber") p.attributes in
    if not (is_empty caller) then caller else if not (is_empty raw) then raw else p.identity

unfoldable pub caller_route : Option Fields → Participant → Text → Attributes → Option Fields
unfolding caller_number
caller_route caller_map p room_name lowered =
    or_route (lookup caller_map (caller_number p lowered))
      (lookup_any caller_map (p.identity ∷ room_name ∷ []))

abbrev is_true : Option Json → Bool
is_true (some (Json.bool b)) = b
is_true _ = false

abbrev fields_of : Option Fields → Fields
fields_of none = end
fields_of (some fs) = fs

-- The route of the call: the caller's own where the operator lets it override, else the dynamic one, that
-- of the called number, and the caller's.
unfoldable pub chosen_route : Option Fields → Option Fields → Option Fields → Fields
chosen_route caller dynamic did =
    if is_route caller && is_true (get (codes "override_did_routes") (fields_of caller))
    then fields_of caller
    else fields_of (or_route dynamic (or_route did (or_route caller (some end))))

abbrev dict_at : Text → Fields → Option Fields
dict_at key fs = elim (get key fs) [
  | some j ↦ elim j [ Json.obj gs ↦ some gs | _ ↦ none ]
  | none ↦ none
]

abbrev or_of : Text → Fields → Fields → Option Json
or_of key chosen route = if truthy (get key chosen) then get key chosen else get key route

abbrev or_blank : Option Json → Json
or_blank none = str []
or_blank (some j) = j

-- `chosen.get("voice_auth_required", route.get("voice_auth_required", True))`
abbrev policy_of : Fields → Fields → Json
policy_of chosen route = elim (get (codes "voice_auth_required") chosen) [
  | some j ↦ j
  | none ↦ elim (get (codes "voice_auth_required") route) [ some j ↦ j | none ↦ Json.bool true ]
]

pub record PartyIdentity : Type 0 where
  pub business_id : Option Json
  pub config_agent_id : Option Json
  pub configured_agent_name : Json
  pub voice_auth_required : Json
  pub end_user_id : Text
  pub caller_number : Text
  pub called_phone : Text
  pub outbound_required : Bool

-- `none` is the `ValueError`. The trunk's attribute has LiveKit's spelling. The parts of the
-- result that only repeat an argument are left out.
unfoldable pub participant_identity :
    Fields → Participant → Text → Text → Option Fields → Option PartyIdentity
unfolding lowered_from did_route caller_route chosen_route called_number
participant_identity route p room_name called_override dynamic =
    let lowered = lowered_from [] p.attributes in
    let did = did_route (dict_at (codes "did_routes") route) called_override lowered in
    let caller = caller_route (dict_at (codes "caller_routes") route) p room_name lowered in
    let chosen = chosen_route caller dynamic did in
    let raw = get_text (codes "sip.phoneNumber") p.attributes in
    if not p.is_sip
      || not (
          text_eq (get_text (codes "sip.trunkid") lowered)
            (text_at (codes "expected_trunk_id") route))
    then none
    else some (record {
      business_id = or_of (codes "business_id") chosen route;
      config_agent_id = or_of (codes "config_agent_id") chosen route;
      configured_agent_name = or_blank (or_of (codes "configured_agent_name") chosen route);
      voice_auth_required = policy_of chosen route;
      end_user_id = if is_empty raw then p.identity else raw;
      caller_number = caller_number p lowered;
      called_phone = called_number called_override lowered;
      outbound_required =
          is_true (get (codes "outbound_required") chosen)
          || is_true (get (codes "outbound_required") (fields_of did));
    })
