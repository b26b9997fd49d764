-- ===== src/Sip/Routes.antt =====
-- `load_number_agent_map`, `is_sip_participant`, `extract_sip_party_number` and
-- `resolve_sip_agent_route` of latency_lab/sip_routing.py. The environment's values are arguments, and
-- Python's text of a list or a dict, which the configuration has no use for, is a parameter.
use sales_girl_voice_agent.Common.{
  ◌-◌, Bool, ◌&&◌, ◌||◌, not, Option, none, some, List, [], ◌∷◌, ◌++◌, Text, codes, text_eq, any,
  length, drop, lower, strip, is_empty, starts_with, leb, if◌then◌else◌, Json, str, obj, Fields,
  end, field, get, truthy,
}
use sales_girl_voice_agent.Sip.Phone.{normalize_phone, digits_of}

pub record SipAgentRoute : Type 0 where
  pub party_number : Text
  pub business_id : Text
  pub agent_id : Text
  pub configured_name : Text

abbrev pub RouteMap : Type 0
RouteMap = List (Text × SipAgentRoute)

-- `routes[key] = route`
unfoldable pub put_route : Text → SipAgentRoute → RouteMap → RouteMap
put_route key r [] = (key, r) ∷ []
put_route key r ((k, q) ∷ rs) = if text_eq k key then (k, r) ∷ rs else (k, q) ∷ put_route key r rs

-- `routes.get(key)`
unfoldable pub get_route : Text → RouteMap → Option SipAgentRoute
get_route key [] = none
get_route key ((k, r) ∷ rs) = if text_eq k key then some r else get_route key rs

abbrev pub is_complete : SipAgentRoute → Bool
is_complete r = not (is_empty r.agent_id) && not (is_empty r.business_id)

unfoldable pub add_route : Option SipAgentRoute → RouteMap → RouteMap
unfolding put_route
add_route none routes = routes
add_route (some r) routes = if is_complete r then put_route r.party_number r routes else routes

-- `a or b` of two looked-up values.
abbrev or_value : Option Json → Option Json → Option Json
or_value a b = if truthy a then a else b

module _ (repr : Json → Text) where
  -- `str(value)`
  abbrev text_of : Json → Text
  text_of Json.null = codes "None"
  text_of (Json.bool b) = if b then codes "True" else codes "False"
  text_of (Json.num n) = n
  text_of (str s) = s
  text_of (Json.arr xs) = repr (Json.arr xs)
  text_of (obj fs) = repr (obj fs)

  -- `str(value or default).strip()`
  unfoldable pub setting : Option Json → Text → Text
  setting none default = strip default
  setting (some j) default = if truthy (some j) then strip (text_of j) else strip default

  -- The agent, the business and the name of an entry that is a dict.
  unfoldable pub agent_setting : Fields → Text
  unfolding setting
  agent_setting fs =
      setting
        (or_value (get (codes "config_agent_id") fs) (
          or_value (get (codes "configAgentId") fs)
            (or_value (get (codes "agent_id") fs) (get (codes "agentId") fs))))
        []

  unfoldable pub business_setting : Text → Fields → Text
  unfolding setting
  business_setting default fs =
      setting (or_value (get (codes "business_id") fs) (get (codes "businessId") fs)) default

  unfoldable pub name_setting : Fields → Text
  unfolding setting
  name_setting fs =
      setting
        (or_value (get (codes "configured_agent_name") fs)
          (or_value (get (codes "configuredAgentName") fs) (get (codes "name") fs)))
        []

  unfoldable pub route_of : Text → Text → Json → Option SipAgentRoute
  unfolding agent_setting business_setting name_setting
  route_of default party_number (str s) = some (record {
    party_number = party_number;
    business_id = default;
    agent_id = strip s;
    configured_name = [];
  })
  route_of default party_number (obj fs) = some (record {
    party_number = party_number;
    business_id = business_setting default fs;
    agent_id = agent_setting fs;
    configured_name = name_setting fs;
  })
  route_of default party_number _ = none

  -- The loop over the entries of the configuration.
  unfoldable pub load_from : Text → RouteMap → Fields → RouteMap
  unfolding route_of add_route
  load_from default routes end = routes
  load_from default routes (field number value fs) =
      let party_number = normalize_phone number in
      let skipped = load_from default routes fs in
      let added = load_from default (add_route (route_of default party_number value) routes) fs in
      if is_empty party_number then skipped else added

  -- `load_number_agent_map` with the parsed text of the map, `none` where it is empty or no JSON.
  unfoldable pub load_number_agent_map : Text → Option Json → RouteMap
  unfolding load_from
  load_number_agent_map default (some (obj fs)) = load_from (strip default) [] fs
  load_number_agent_map default _ = []

-- `attributes` is `none` where it is no dict.
pub record Participant : Type 0 where
  pub identity : Text
  pub attributes : Option (List (Text × Text))

abbrev pub attributes_of : Participant → List (Text × Text)
attributes_of p = elim p.attributes [ none ↦ [] | some l ↦ l ]

unfoldable pub is_sip_participant : Participant → Bool
is_sip_participant p =
    starts_with (codes "sip_") (lower p.identity)
    || any (λ (a : Text × Text). starts_with (codes "sip.") (lower a.0)) (attributes_of p)

abbrev pub callee_keys : List Text
callee_keys =
    codes "sip.h.x-callee-number"
    ∷ codes "sip.h.x-odion-callee-number"
    ∷ codes "sip.x_callee_number"
    ∷ codes "sip.calleenumber"
    ∷ codes "sip.callee_number"
    ∷ []

abbrev pub fallback_keys : List Text
fallback_keys =
    codes "sip.phonenumber"
    ∷ codes "sip.phone_number"
    ∷ codes "sip.fromuser"
    ∷ codes "sip.from_user"
    ∷ codes "sip.from"
    ∷ codes "phonenumber"
    ∷ codes "fromnumber"
    ∷ codes "callernumber"
    ∷ []

-- `lowered.get(key)`: the last attribute whose lowered name is the key, and empty without one.
unfoldable pub lowered_get : Text → List (Text × Text) → Option Text
lowered_get key [] = none
lowered_get key ((k, v) ∷ l) = elim (lowered_get key l) [
  | some w ↦ some w
  | none ↦ if text_eq (lower k) key then some v else none
]

abbrev pub candidate : Text → List (Text × Text) → Text
candidate key l = elim (lowered_get key l) [
  | none ↦ normalize_phone []
  | some v ↦ normalize_phone v
]

-- The loop over the keys: the first number there is, or `default`.
unfoldable pub first_number : List Text → List (Text × Text) → Text → Text
unfolding lowered_get
first_number [] l default = default
first_number (key ∷ keys) l default =
    if is_empty (candidate key l) then first_number keys l default else candidate key l

abbrev pub identity_number : Text → Text
identity_number identity =
    if starts_with (codes "sip_") (lower identity) then normalize_phone (drop 4 identity) else []

unfoldable pub extract_sip_party_number : Participant → Text
unfolding first_number
extract_sip_party_number p =
    first_number (callee_keys ++ fallback_keys) (attributes_of p) (identity_number p.identity)

-- `digits[-10:]`
abbrev pub last_ten : Text → Text
last_ten s = drop (length s - 10) s

-- Two numbers of one line: the same digits, or the same last ten.
unfoldable pub same_line : Text → Text → Bool
same_line a b =
    let d = digits_of a in
    let e = digits_of b in
    text_eq d e || (leb 10 (length d) && leb 10 (length e) && text_eq (last_ten d) (last_ten e))

unfoldable pub find_route : Text → RouteMap → Option SipAgentRoute
unfolding same_line
find_route party [] = none
find_route party ((k, r) ∷ rs) = if same_line party k then some r else find_route party rs

unfoldable pub choose_route : Text → RouteMap → Option SipAgentRoute
unfolding get_route find_route
choose_route party routes =
    if is_empty party
    then none
    else (elim (get_route party routes) [ some r ↦ some r | none ↦ find_route party routes ])

unfoldable pub resolve_sip_agent_route : Participant → RouteMap → Option SipAgentRoute
unfolding is_sip_participant extract_sip_party_number choose_route
resolve_sip_agent_route p routes =
    if is_sip_participant p then choose_route (extract_sip_party_number p) routes else none
