-- ===== src/Sip/Bootstrap.antt =====
-- `normalize_number`, `_lookup`, `_lookup_any` and `resolve_route` of latency_lab/sip_bootstrap.py. The
-- JSON parser is Python's; the parsed metadata and the parsed setting are arguments.
use sales_girl_voice_agent.Common.{
  ◌≡◌, refl, Bool, true, false, ◌&&◌, ◌||◌, not, Option, none, some, List, [], ◌∷◌, arith, Text,
  codes, text_eq, any, length, lower, strip, is_empty, starts_with, leb, if◌then◌else◌, Bool-cases,
  inl, inr, Json, str, arr, Items, nil, cons, Fields, end, field, get, truthy, put, get-put, sym,
  text_eq→eq,
}
use sales_girl_voice_agent.Sip.Phone.{
  hidden_names, has_at, or_empty, search_user, digits_of, strip_zeros,
}
use sales_girl_voice_agent.Sip.Routes.{last_ten}

unfoldable pub normalize_number : Text → Text
unfolding search_user digits_of strip_zeros
normalize_number value =
    let raw = strip value in
    if is_empty raw || any (text_eq (lower raw)) hidden_names
    then []
    else strip_zeros (digits_of (if has_at raw then or_empty (search_user raw) else raw))

-- A key of the map and the number that is looked for, both normalized.
unfoldable pub is_match : Text → Text → Bool
is_match target candidate =
    text_eq target candidate
    || (leb 10 (length target)
        && leb 10 (length candidate)
        && text_eq (last_ten target) (last_ten candidate))

-- The loop over the map, for a target that is not empty.
unfoldable pub lookup_from : Text → Fields → Option Fields
unfolding normalize_number is_match
lookup_from target end = none
lookup_from target (field key (Json.obj route) fs) =
    let candidate = normalize_number key in
    let others = lookup_from target fs in
    if not (is_empty candidate) && is_match target candidate then some route else others
lookup_from target (field key _ fs) = lookup_from target fs

-- `_lookup`. A map that is no dict is `none`.
unfoldable pub lookup : Option Fields → Text → Option Fields
unfolding lookup_from
lookup none value = none
lookup (some number_map) value =
    if is_empty (normalize_number value)
    then none
    else lookup_from (normalize_number value) number_map

abbrev pub is_route : Option Fields → Bool
is_route none = false
is_route (some end) = false
is_route (some (field _ _ _)) = true

-- `_lookup_any`: an empty route is passed over.
unfoldable pub lookup_any : Option Fields → List Text → Option Fields
unfolding lookup
lookup_any number_map [] = none
lookup_any number_map (v ∷ vs) =
    let others = lookup_any number_map vs in
    if is_route (lookup number_map v) then lookup number_map v else others

-- A dict's value where it is a non-empty text.
abbrev pub text_at : Text → Fields → Text
text_at key fs = elim (get key fs) [ some j ↦ elim j [ str s ↦ s | _ ↦ [] ] | none ↦ [] ]

abbrev is_member : Text → Items → Bool
is_member t nil = false
is_member t (cons (str s) items) = text_eq s t || is_member t items
is_member t (cons _ items) = is_member t items

abbrev has_trunk : Text → Fields → Bool
has_trunk trunk route = elim (get (codes "trunk_ids") route) [
  | some j ↦ elim j [ arr items ↦ is_member trunk items | _ ↦ false ]
  | none ↦ false
]

pub data Dispatch : Type 0 where
  not_inbound : Dispatch
  unconfigured : Dispatch
  dispatched : Fields → Dispatch

abbrev is_configured : Text → Text → Fields → Bool
is_configured trunk room_name route =
    has_trunk trunk route
    && not (is_empty (text_at (codes "room_prefix") route))
    && starts_with (text_at (codes "room_prefix") route) room_name
    && truthy (get (codes "business_id") route)
    && truthy (get (codes "config_agent_id") route)

-- A dict's value where it is a text.
abbrev pub maybe_text : Text → Fields → Option Text
maybe_text key fs = elim (get key fs) [
  | some j ↦ elim j [ str s ↦ some s | _ ↦ none ]
  | none ↦ none
]

abbrev pub route_for : Option Text → Text → Option Fields → Dispatch
route_for (some trunk) room_name (some route) =
    if is_configured trunk room_name route
    then dispatched (put (codes "expected_trunk_id") (str trunk) route)
    else unconfigured
route_for (some trunk) room_name none = unconfigured
route_for none room_name setting = unconfigured

-- `resolve_route`. The setting is `none` where it is no dict, and its `trunk_ids` are a list of texts.
unfoldable pub resolve_route : Fields → Option Fields → Text → Dispatch
resolve_route payload setting room_name =
    if not (text_eq (text_at (codes "entry_surface") payload) (codes "aicc_inbound"))
    then not_inbound
    else route_for (maybe_text (codes "sip_trunk_id") payload) room_name setting

-- A room that is dispatched: an inbound call of a configured trunk, in a room of the configured prefix.
pub record IsDispatched (payload : Fields) (setting : Option Fields) (room_name : Text)
    (sent : Fields) : Type 0 where
  pub trunk : Text
  pub route : Fields
  pub configured : setting ≡ some route
  pub in_scope : is_configured trunk room_name route ≡ true
  pub inbound : text_at (codes "entry_surface") payload ≡ codes "aicc_inbound"
  pub own_trunk : maybe_text (codes "sip_trunk_id") payload ≡ some trunk
  pub expects : get (codes "expected_trunk_id") sent ≡ some (str trunk)

route_for-IsDispatched :
    (payload : Fields) (t : Option Text) (setting : Option Fields) (room_name : Text)
    (sent : Fields)
    → text_at (codes "entry_surface") payload ≡ codes "aicc_inbound"
    → maybe_text (codes "sip_trunk_id") payload ≡ t
    → route_for t room_name setting ≡ dispatched sent
    → IsDispatched payload setting room_name sent
route_for-IsDispatched payload none none room_name sent inbound own h = cc
route_for-IsDispatched payload none (some route) room_name sent inbound own h = cc
route_for-IsDispatched payload (some trunk) none room_name sent inbound own h = cc
route_for-IsDispatched payload (some trunk) (some route) room_name sent inbound own h =
    elim (Bool-cases (is_configured trunk room_name route)) [
      | inl e ↦
          let same : put (codes "expected_trunk_id") (str trunk) route ≡ sent =
            injected (rw e at h) in
          record {
            trunk = trunk;
            route = route;
            configured = refl;
            in_scope = e;
            inbound = inbound;
            own_trunk = own;
            expects = rw (sym same) (get-put (codes "expected_trunk_id") (str trunk) route);
          }
      | inr e ↦ let refused : ◌≡◌ {A = Dispatch} unconfigured (dispatched sent) = rw e at h in cc
    ]
  where
    injected : {a b : Fields} → dispatched a ≡ dispatched b → a ≡ b
    injected h = ground (arith, h)

-- A call is dispatched only as an inbound call of a trunk that the operator configured, in a room of the
-- configured prefix, with a business and an agent, and the trunk that the caller must come by is its own.
pub resolve_route-IsDispatched :
    (payload : Fields) (setting : Option Fields) (room_name : Text) (sent : Fields)
    → resolve_route payload setting room_name ≡ dispatched sent
    → IsDispatched payload setting room_name sent
unfolding resolve_route
resolve_route-IsDispatched payload setting room_name sent h =
    elim (Bool-cases (text_eq (text_at (codes "entry_surface") payload) (codes "aicc_inbound"))) [
      | inl e ↦
          route_for-IsDispatched payload (maybe_text (codes "sip_trunk_id") payload) setting
            room_name sent
            (text_eq→eq (text_at (codes "entry_surface") payload) (codes "aicc_inbound") e) refl
            (rw e at h)
      | inr e ↦ let refused : ◌≡◌ {A = Dispatch} not_inbound (dispatched sent) = rw e at h in cc
    ]

-- The first route of a map, in the map's order, whose number is that of the target or has its last ten
-- digits is taken, even where a later number is the very one that is looked for.
pub lookup_first_match :
    (key other value : Text) (route exact fs : Fields)
    → is_empty (normalize_number value) ≡ false
    → is_empty (normalize_number key) ≡ false
    → is_match (normalize_number value) (normalize_number key) ≡ true
    → normalize_number other ≡ normalize_number value
    → lookup (some (field key (Json.obj route) (field other (Json.obj exact) fs))) value
      ≡ some route
unfolding lookup lookup_from
lookup_first_match key other value route exact fs wanted listed matching same =
    rw (wanted, listed, matching) refl
