-- ===== src/Sip/Resolve.antt =====
-- The agent that `resolve_sip_agent_route` (latency_lab/sip_routing.py) chooses.
use sales_girl_voice_agent.Common.{
  ◌≡◌, refl, true, false, Option, none, some, List, [], ◌∷◌, arith, Text, codes, text_eq,
  text_eq→eq, text_eq_refl, All, is_empty, Bool-cases, inl, inr, ◌∙◌, ◌⊎◌, Json, str, obj, Fields,
  end, field, strip, lower, starts_with, drop, ◌++◌,
}
use sales_girl_voice_agent.Sip.Phone.{normalize_phone, normalize_phone-IsPhone, IsPhone, digits_of}
use sales_girl_voice_agent.Sip.Routes.{
  SipAgentRoute, RouteMap, put_route, get_route, is_complete, route_of, add_route, load_from,
  load_number_agent_map, Participant, is_sip_participant, extract_sip_party_number, same_line,
  find_route, choose_route, resolve_sip_agent_route, first_number, candidate, lowered_get,
  callee_keys, fallback_keys, identity_number, attributes_of,
}

-- An entry of the map: a usable route under its own normalized number.
pub record IsRouted (e : Text × SipAgentRoute) : Type 0 where
  pub own : e.1.party_number ≡ e.0
  pub complete : is_complete e.1 ≡ true
  pub phone : IsPhone e.0

put_route-IsRouted :
    (key : Text) (r : SipAgentRoute) (rs : RouteMap)
    → IsRouted (key, r)
    → All IsRouted rs
    → All IsRouted (put_route key r rs)
unfolding put_route
put_route-IsRouted key r [] h a = (h, tt)
put_route-IsRouted key r ((k, q) ∷ rs) h a = elim (Bool-cases (text_eq k key)) [
  | inl e ↦ rw e (rw (text_eq→eq k key e) h, a.1)
  | inr e ↦ rw e (a.0, put_route-IsRouted key r rs h a.1)
]

module _ (repr : Json → Text) where
  route_of-own :
      (default party : Text) (j : Json) (r : SipAgentRoute)
      → route_of repr default party j ≡ some r
      → r.party_number ≡ party
  unfolding route_of
  route_of-own default party (str s) r h = ground arith
  route_of-own default party (obj fs) r h = ground arith
  route_of-own default party Json.null r h = cc
  route_of-own default party (Json.bool b) r h = cc
  route_of-own default party (Json.num n) r h = cc
  route_of-own default party (Json.arr xs) r h = cc

  add_route-IsRouted :
      (default party : Text) (j : Json) (rs : RouteMap)
      → IsPhone party
      → All IsRouted rs
      → All IsRouted (add_route (route_of repr default party j) rs)
  unfolding add_route
  add_route-IsRouted default party j rs p a = go (route_of repr default party j) refl
    where
      go :
          (o : Option SipAgentRoute)
          → route_of repr default party j ≡ o
          → All IsRouted (add_route o rs)
      go none e = a
      go (some r) e = elim (Bool-cases (is_complete r)) [
        | inl c ↦ rw c (
            put_route-IsRouted r.party_number r rs
              (record { own = refl; complete = c; phone = rw (route_of-own default party j r e) p })
              a)
        | inr c ↦ rw c a
      ]

  load_from-IsRouted :
      (default : Text) (fs : Fields) (rs : RouteMap)
      → All IsRouted rs
      → All IsRouted (load_from repr default rs fs)
  unfolding load_from
  load_from-IsRouted default end rs a = a
  load_from-IsRouted default (field number value fs) rs a = elim (normalize_phone-IsPhone number) [
    | inl e ↦ rw e (load_from-IsRouted default fs rs a)
    | inr p ↦ elim (Bool-cases (is_empty (normalize_phone number))) [
      | inl e ↦ rw e (load_from-IsRouted default fs rs a)
      | inr e ↦ rw e (
          load_from-IsRouted default fs _
            (add_route-IsRouted default (normalize_phone number) value rs p a))
    ]
  ]

  -- Every entry of the map that the configuration gives is under a normalized number, which is the
  -- route's own, and has an agent and a business.
  pub load_number_agent_map-IsRouted :
      (default : Text) (payload : Option Json)
      → All IsRouted (load_number_agent_map repr default payload)
  unfolding load_number_agent_map
  load_number_agent_map-IsRouted default none = tt
  load_number_agent_map-IsRouted default (some (obj fs)) =
      load_from-IsRouted (strip default) fs [] tt
  load_number_agent_map-IsRouted default (some Json.null) = tt
  load_number_agent_map-IsRouted default (some (Json.bool b)) = tt
  load_number_agent_map-IsRouted default (some (Json.num n)) = tt
  load_number_agent_map-IsRouted default (some (str s)) = tt
  load_number_agent_map-IsRouted default (some (Json.arr xs)) = tt

-- A route that serves a participant.
pub record Serves (party : Text) (r : SipAgentRoute) : Type 0 where
  pub line : same_line party r.party_number ≡ true
  pub complete : is_complete r ≡ true

same_line_refl : (a : Text) → same_line a a ≡ true
unfolding same_line
same_line_refl a = rw (text_eq_refl (digits_of a)) refl

abbrev AnyServes : Text → Option SipAgentRoute → Type 0
AnyServes party none = Unit
AnyServes party (some r) = Serves party r

get_route-Serves :
    (party : Text) (rs : RouteMap) → All IsRouted rs → AnyServes party (get_route party rs)
unfolding get_route
get_route-Serves party [] a = tt
get_route-Serves party ((k, q) ∷ rs) a = elim (Bool-cases (text_eq k party)) [
  | inl e ↦ rw e (record {
    line = rw (a.0.own ∙ text_eq→eq k party e) (same_line_refl party);
    complete = a.0.complete;
  })
  | inr e ↦ rw e (get_route-Serves party rs a.1)
]

find_route-Serves :
    (party : Text) (rs : RouteMap) → All IsRouted rs → AnyServes party (find_route party rs)
unfolding find_route
find_route-Serves party [] a = tt
find_route-Serves party ((k, q) ∷ rs) a = elim (Bool-cases (same_line party k)) [
  | inl e ↦ rw e (record { line = rw a.0.own e; complete = a.0.complete })
  | inr e ↦ rw e (find_route-Serves party rs a.1)
]

choose_route-Serves :
    (party : Text) (rs : RouteMap) → All IsRouted rs → AnyServes party (choose_route party rs)
unfolding choose_route
choose_route-Serves party rs a = elim (Bool-cases (is_empty party)) [
  | inl e ↦ rw e tt
  | inr e ↦ rw e (go (get_route party rs) (get_route-Serves party rs a))
]
  where
    go :
        (o : Option SipAgentRoute)
        → AnyServes party o
        → AnyServes party (elim o [ some r ↦ some r | none ↦ find_route party rs ])
    go (some r) s = s
    go none s = find_route-Serves party rs a

resolve-Serves :
    (p : Participant) (rs : RouteMap)
    → All IsRouted rs
    → AnyServes (extract_sip_party_number p) (resolve_sip_agent_route p rs)
unfolding resolve_sip_agent_route
resolve-Serves p rs a = elim (Bool-cases (is_sip_participant p)) [
  | inl e ↦ rw e (choose_route-Serves (extract_sip_party_number p) rs a)
  | inr e ↦ rw e tt
]

-- Whatever the configuration and the participant: an agent that is chosen has an agent id and a
-- business, and its number in the configuration and the participant's are of one line.
pub resolve_sip_agent_route-Serves :
    (repr : Json → Text) (default : Text) (payload : Option Json) (p : Participant)
    (r : SipAgentRoute)
    → resolve_sip_agent_route p (load_number_agent_map repr default payload) ≡ some r
    → Serves (extract_sip_party_number p) r
resolve_sip_agent_route-Serves repr default payload p r h =
    let served =
      resolve-Serves p (load_number_agent_map repr default payload)
        (load_number_agent_map-IsRouted repr default payload) in
    rw h at served

abbrev IsOther : Text → Text × SipAgentRoute → Type 0
IsOther party e = same_line party e.0 ≡ false

-- Where no agent is chosen, none was to be had.
abbrev Unserved : Text → RouteMap → Option SipAgentRoute → Type 0
Unserved party rs none = All (IsOther party) rs
Unserved party rs (some r) = Unit

find_route-Unserved : (party : Text) (rs : RouteMap) → Unserved party rs (find_route party rs)
unfolding find_route
find_route-Unserved party [] = tt
find_route-Unserved party ((k, q) ∷ rs) = elim (Bool-cases (same_line party k)) [
  | inl e ↦ rw e tt
  | inr e ↦ rw e (go (find_route party rs) (find_route-Unserved party rs) e)
]
  where
    go :
        (o : Option SipAgentRoute)
        → Unserved party rs o
        → same_line party k ≡ false
        → Unserved party ((k, q) ∷ rs) o
    go none u e = (e, u)
    go (some r) u e = tt

-- A SIP call with a number goes without an agent only where no number of the map is of its line.
pub resolve_none_unserved :
    (p : Participant) (rs : RouteMap)
    → is_sip_participant p ≡ true
    → is_empty (extract_sip_party_number p) ≡ false
    → resolve_sip_agent_route p rs ≡ none
    → All (λ (e : Text × SipAgentRoute). same_line (extract_sip_party_number p) e.0 ≡ false) rs
unfolding resolve_sip_agent_route choose_route
resolve_none_unserved p rs sip some_number h =
    go (get_route (extract_sip_party_number p) rs) (rw (sip, some_number) at h)
  where
    party : Text
    party = extract_sip_party_number p

    go :
        (o : Option SipAgentRoute)
        → ◌≡◌ {A = Option SipAgentRoute}
            (elim o [ some r ↦ some r | none ↦ find_route party rs ])
            none
        → All (IsOther party) rs
    go (some r) e = cc
    go none e = let u = find_route-Unserved party rs in rw e at u

first_number-IsPhone :
    (keys : List Text) (l : List (Text × Text)) (default : Text)
    → (default ≡ []) ⊎ IsPhone default
    → (first_number keys l default ≡ []) ⊎ IsPhone (first_number keys l default)
unfolding first_number
first_number-IsPhone [] l default h = h
first_number-IsPhone (key ∷ keys) l default h = elim (Bool-cases (is_empty (candidate key l))) [
  | inl e ↦ rw e (first_number-IsPhone keys l default h)
  | inr e ↦ rw e (go (lowered_get key l))
]
  where
    go :
        (o : Option Text)
        → (◌≡◌ {A = Text} (elim o [ none ↦ normalize_phone [] | some v ↦ normalize_phone v ]) [])
          ⊎ IsPhone (elim o [ none ↦ normalize_phone [] | some v ↦ normalize_phone v ])
    go none = normalize_phone-IsPhone []
    go (some v) = normalize_phone-IsPhone v

-- The number that is read off a participant is empty or a normalized number.
pub extract_sip_party_number-IsPhone :
    (p : Participant) → (extract_sip_party_number p ≡ []) ⊎ IsPhone (extract_sip_party_number p)
unfolding extract_sip_party_number
extract_sip_party_number-IsPhone p =
    first_number-IsPhone (callee_keys ++ fallback_keys) (attributes_of p)
      (identity_number p.identity)
      (elim (Bool-cases (starts_with (codes "sip_") (lower p.identity))) [
        | inl e ↦ rw e (normalize_phone-IsPhone (drop 4 p.identity))
        | inr e ↦ rw e (inl refl)
      ])
