-- ===== src/Sip/Tests.antt =====
-- Numbers and calls of latency_lab/sip_routing.py, and its theorems at concrete inputs.
use sales_girl_voice_agent.Common.{
  Fields, arr, cons, nil, ◌≡◌, refl, true, false, Option, none, some, [], ◌∷◌, Text, codes, Json,
  str, obj, end, field, strip, is_empty, get,
}
use sales_girl_voice_agent.Sip.Phone.{
  normalize_phone, normalize_phone-normalize_phone, digits_of, phone_of_digits, strip_zeros,
  with_country, search_user, match_user, user_part,
}
use sales_girl_voice_agent.Sip.Routes.{
  SipAgentRoute, RouteMap, Participant, load_number_agent_map, resolve_sip_agent_route,
  extract_sip_party_number, is_sip_participant, same_line, load_from, route_of, add_route,
  put_route, get_route, find_route, choose_route, first_number, lowered_get, setting, agent_setting,
  business_setting, name_setting,
}
use sales_girl_voice_agent.Sip.Resolve.{Serves, resolve_sip_agent_route-Serves}

abbrev tens : Fields
tens = field (codes "business_id") (str (codes "first")) end

abbrev exact : Fields
exact = field (codes "business_id") (str (codes "exact")) end

abbrev dispatch : Fields
dispatch =
    field (codes "entry_surface") (str (codes "aicc_inbound"))
      (field (codes "sip_trunk_id") (str (codes "t-1")) end)

abbrev scope : Fields
scope = field (codes "trunk_ids") (arr (cons (str (codes "t-1")) nil)) (
    field (codes "room_prefix") (str (codes "aicc-")) (
      field (codes "business_id") (str (codes "b"))
        (field (codes "config_agent_id") (str (codes "a")) end)))

local_number : normalize_phone (codes " 0803 123 4567 ") ≡ codes "+2348031234567"
unfolding normalize_phone strip digits_of phone_of_digits strip_zeros with_country
local_number = refl

sip_address : normalize_phone (codes "<sip:002348031234567@bank.example>") ≡ codes "+2348031234567"
unfolding normalize_phone strip search_user match_user user_part digits_of phone_of_digits
    strip_zeros with_country
sip_address = refl

hidden_caller : normalize_phone (codes "Anonymous") ≡ []
unfolding normalize_phone strip
hidden_caller = refl

normalize_phone-normalize_phone_example :
    normalize_phone (normalize_phone (codes "08031234567")) ≡ normalize_phone (codes "08031234567")
normalize_phone-normalize_phone_example = normalize_phone-normalize_phone (codes "08031234567")

abbrev no_repr : Json → Text
no_repr j = []

abbrev config : Option Json
config = some (
    obj (
      field (codes "08031234567") (str (codes " agent-1 ")) (
        field (codes "bad") (str (codes "agent-2")) (
          field (codes "+447700900123") (obj (field (codes "agentId") (str (codes "agent-3")) end))
            end))))

abbrev first_route : SipAgentRoute
first_route = record {
  party_number = codes "+2348031234567";
  business_id = codes "b-1";
  agent_id = codes "agent-1";
  configured_name = [];
}

abbrev second_route : SipAgentRoute
second_route = record {
  party_number = codes "+447700900123";
  business_id = codes "b-1";
  agent_id = codes "agent-3";
  configured_name = [];
}

abbrev routes : RouteMap
routes = (codes "+2348031234567", first_route) ∷ (codes "+447700900123", second_route) ∷ []

config_loads : load_number_agent_map no_repr (codes "b-1") config ≡ routes
unfolding load_number_agent_map load_from route_of add_route put_route normalize_phone strip
    digits_of phone_of_digits strip_zeros with_country setting agent_setting business_setting
    name_setting get
config_loads = refl

abbrev participant : Text → Participant
participant number = record {
  identity = codes "sip_guest";
  attributes = some ((codes "SIP.PhoneNumber", number) ∷ []);
}

call_resolves :
    resolve_sip_agent_route
      (participant (codes "08031234567"))
      (load_number_agent_map no_repr (codes "b-1") config)
    ≡ some first_route
unfolding resolve_sip_agent_route is_sip_participant extract_sip_party_number first_number
    lowered_get choose_route get_route load_number_agent_map load_from route_of add_route put_route
    normalize_phone strip digits_of phone_of_digits strip_zeros with_country setting agent_setting
    business_setting name_setting get
call_resolves = refl

resolve_sip_agent_route-Serves_example :
    Serves (extract_sip_party_number (participant (codes "08031234567"))) first_route
resolve_sip_agent_route-Serves_example =
    resolve_sip_agent_route-Serves no_repr (codes "b-1") config (participant (codes "08031234567"))
      first_route call_resolves

abbrev stranger : Participant
stranger = participant (codes "07000000000")

stranger_unresolved : resolve_sip_agent_route stranger routes ≡ none
unfolding resolve_sip_agent_route is_sip_participant extract_sip_party_number first_number
    lowered_get choose_route get_route find_route same_line normalize_phone strip digits_of
    phone_of_digits strip_zeros with_country
stranger_unresolved = refl

stranger_calls : is_sip_participant stranger ≡ true
unfolding is_sip_participant
stranger_calls = refl

stranger_number : is_empty (extract_sip_party_number stranger) ≡ false
unfolding extract_sip_party_number first_number lowered_get normalize_phone strip digits_of
    phone_of_digits strip_zeros with_country
stranger_number = refl
