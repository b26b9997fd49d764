-- ===== src/Services/Capacity.antt =====
-- agent/call_capacity_api.py: the leases of an inbound call. `quote` of a reservation id and Python's
-- text of a detail are parameters, the service's reply is an argument.
use sales_girl_voice_agent.Common.{
  ℕ, ◌≡◌, ◌<◌, refl, Bool, false, ◌&&◌, ◌||◌, not, Option, none, some, List, [], ◌∷◌, ◌++◌, arith,
  Text, codes, text_eq, strip, is_empty, leb, if◌then◌else◌, Json, str, Fields, end, get, truthy,
  Bool-cases, inl, inr,
}
use sales_girl_voice_agent.Services.Billing.{Response, unreachable, response}

pub record Settings : Type 0 where
  pub base_url : Text
  pub token : Text
  pub momo_business : Text

-- `CallCapacityError` with its message, an `AttributeError`, or the value.
pub data Result (A : Type 0) : Type 0 where
  attribute_error : Result A
  error : Text → Result A
  ok : A → Result A

unfoldable pub is_enabled_for_business : Settings → Text → Bool
is_enabled_for_business s business_id =
    not (is_empty (strip s.momo_business)) && text_eq (strip business_id) (strip s.momo_business)

-- The argument is the header `x-odion-capacity-reservation`, empty without one.
unfoldable pub reservation_id_from_sip_headers : Settings → Text → Text → Result Text
unfolding is_enabled_for_business
reservation_id_from_sip_headers s header business_id =
    if not (is_enabled_for_business s business_id)
    then ok []
    else if is_empty (strip header)
    then error (codes "MoMo AI call is missing its AICC capacity reservation.")
    else ok (strip header)

pub record Request : Type 0 where
  pub url : Text
  pub room_name : Text

pub data Action : Type 0 where
  claim heartbeat release : Action

abbrev action_name : Action → Text
action_name claim = codes "claim"
action_name heartbeat = codes "heartbeat"
action_name release = codes "release"

module _ (quote : Text → Text) (text_of : Json → Text) (status_message : ℕ → Text) where
  -- `str(payload.get("detail") or f"… ({status}).")`, for a payload that is a dict.
  abbrev message : ℕ → Option Json → Text
  message code none = status_message code
  message code (some j) = if truthy (some j) then text_of j else status_message code

  -- A body that is no JSON counts as `{}`; `.get` of one that is no dict raises.
  unfoldable pub answered : ℕ → Option Json → Result Fields
  answered code none = if leb 400 code then error (status_message code) else ok end
  answered code (some (Json.obj fs)) =
      if leb 400 code then error (message code (get (codes "detail") fs)) else ok fs
  answered code _ = attribute_error

  unfoldable pub post : Settings → Text → Action → Text → Response → List Request × Result Fields
  unfolding answered
  post s reservation_id action room_name reply =
      if is_empty s.base_url || is_empty s.token
      then ([], error (codes "Call capacity service is not configured."))
      else (
        record {
          url =
              s.base_url
              ++ (codes "/v1/internal/aicc/capacity/reservations/"
                  ++ (quote reservation_id ++ (47 ∷ action_name action)));
          room_name = room_name;
        }
            ∷ [],
        (elim reply [
          | unreachable _ ↦ error (codes "Call capacity service is unavailable.")
          | response code body ↦ answered code body
        ]),
      )

  -- A lease call succeeds only where the service was asked and answered below 400.
  pub post-ok :
      (s : Settings) (reservation_id : Text) (action : Action) (room_name : Text) (code : ℕ)
      (body : Option Json) (fs : Fields)
      → (post s reservation_id action room_name (response code body)).1 ≡ ok fs
      → (is_empty (post s reservation_id action room_name (response code body)).0 ≡ false)
        × (code < 400)
  unfolding post
  post-ok s reservation_id action room_name code body fs h =
      elim (Bool-cases (is_empty s.base_url || is_empty s.token)) [
        | inl e ↦ let refused : ◌≡◌ {A = Result Fields} (error _) (ok fs) = rw e at h in cc
        | inr e ↦ rw e (refl, go code body (rw e at h))
      ]
    where
      go : (code : ℕ) (body : Option Json) → answered code body ≡ ok fs → code < 400
      go code none h = unfold answered in ground arith
      go code (some (Json.obj gs)) h = unfold answered in ground arith
      go code (some Json.null) h = cc
      go code (some (Json.bool b)) h = cc
      go code (some (Json.num n)) h = cc
      go code (some (str s)) h = cc
      go code (some (Json.arr xs)) h = cc

-- A call of the MoMo business goes on only with the reservation of its headers; a call of another
-- business has no reservation.
pub reservation_id_lem :
    (s : Settings) (header business_id reservation : Text)
    → reservation_id_from_sip_headers s header business_id ≡ ok reservation
    → (is_empty reservation ≡ not (is_enabled_for_business s business_id))
unfolding reservation_id_from_sip_headers
reservation_id_lem s header business_id reservation h =
    elim (Bool-cases (is_enabled_for_business s business_id)) [
      | inl e ↦ rw e (ground (arith, e))
      | inr e ↦ rw e (ground (arith, e))
    ]
