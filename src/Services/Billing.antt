-- ===== src/Services/Billing.antt =====
-- agent/billing_hooks.py: the calls of the billing service. The service's reply is an argument, and the
-- requests that are sent are part of the result.
use sales_girl_voice_agent.Common.{
  ℕ, ◌≡◌, refl, Bool, true, false, ◌&&◌, not, Option, none, some, List, [], ◌∷◌, ◌++◌, Text, codes,
  strip, is_empty, leb, if◌then◌else◌, Json, str, num, Fields, end, field, put, get, truthy,
  get-put, Bool-cases, inl, inr, ap,
}

-- The module's settings.
pub record Settings : Type 0 where
  pub base_url : Text
  pub service_token : Text
  pub business_id : Text

-- `business_id or BUSINESS_ID`
abbrev business_of : Option Text → Settings → Text
business_of none s = s.business_id
business_of (some b) s = if is_empty b then s.business_id else b

unfoldable pub is_enabled : Option Text → Settings → Bool
is_enabled business_id s =
    not (is_empty s.base_url)
    && not (is_empty s.service_token)
    && not (is_empty (business_of business_id s))

pub record Request : Type 0 where
  pub url : Text
  pub payload : Fields
  pub business : Text

-- What the client gets: an error of the transport, or a status with a body, `none` where it is no JSON.
pub data Response : Type 0 where
  unreachable : Text → Response
  response : ℕ → Option Json → Response

-- `{"status": …}` of a dict.
abbrev pub status_of : Fields → Option Json
status_of = get (codes "status")

abbrev failure : Fields → Fields
failure fs = field (codes "status") (str (codes "failed")) fs

abbrev detail_of : Option Json → Fields
detail_of (some (Json.obj fs)) = elim (get (codes "detail") fs) [
  | none ↦ field (codes "detail") Json.null end
  | some j ↦ field (codes "detail") j end
]
detail_of none = field (codes "detail") Json.null end
detail_of _ = field (codes "detail") (str (codes "billing hook failed")) end

abbrev pub is_text : Option Json → Bool
is_text (some (str s)) = true
is_text _ = false

module _ (shown : Json → Text) where
  -- `str(data.get("status") or "success")`
  abbrev status_text : Option Json → Text
  status_text none = codes "success"
  status_text (some j) = if truthy (some j) then shown j else codes "success"

  abbrev success : Option Json → Fields
  success (some (Json.obj fs)) = put (codes "status") (str (status_text (status_of fs))) fs
  success none = put (codes "status") (str (codes "success")) end
  success _ = field (codes "status") (str (codes "success")) end

  unfoldable pub outcome : Response → Fields
  outcome (unreachable detail) = failure (field (codes "detail") (str detail) end)
  outcome (response code body) = if leb 400 code then failure (detail_of body) else success body

  -- `_post`: the requests that are sent, and the result.
  unfoldable pub post : Settings → Text → Fields → Option Text → Response → List Request × Fields
  unfolding is_enabled outcome
  post s path payload business_id reply =
      if not (is_enabled business_id s)
      then ([], field (codes "status") (str (codes "disabled")) end)
      else (
        record { url = s.base_url ++ path; payload = payload; business = business_of business_id s }
            ∷ [],
        outcome reply,
      )

  unfoldable pub authorize_call_start :
      Settings → Text → Text → Text → Option Text → Response → List Request × Fields
  unfolding post
  authorize_call_start s conversation_id end_user_id channel =
      post s (codes "/v1/internal/credits/authorize-call") (
        field (codes "conversation_id") (str conversation_id) (
          field (codes "end_user_id") (str end_user_id)
            (field (codes "channel") (str channel) end)))

  -- `duration` is the text of `max(0, int(duration_seconds))`.
  unfoldable pub report_call_usage :
      Settings
      → Text
      → Text
      → Text
      → Text
      → Text
      → Option Json
      → Option Text
      → Response
      → List Request × Fields
  unfolding post
  report_call_usage s conversation_id session_id end_user_id duration channel usage =
      post s (codes "/v1/internal/credits/report-usage") (
        field (codes "conversation_id") (str conversation_id) (
          field (codes "session_id") (str session_id) (
            field (codes "end_user_id") (str end_user_id) (
              field (codes "duration_seconds") (num duration) (
                field (codes "channel") (str channel)
                  (elim usage [ none ↦ end | some u ↦ field (codes "usage") u end ]))))))

  unfoldable pub send_call_heartbeat :
      Settings
      → Text
      → Text
      → Text
      → Text
      → Text
      → Text
      → Option Text
      → Response
      → List Request × Fields
  unfolding post
  send_call_heartbeat s conversation_id session_id end_user_id duration idempotency_key channel =
      post s (codes "/v1/internal/credits/heartbeat") (
        field (codes "conversation_id") (str conversation_id) (
          field (codes "session_id") (str session_id) (
            field (codes "end_user_id") (str end_user_id) (
              field (codes "duration_seconds") (num duration) (
                field (codes "idempotency_key") (str (strip idempotency_key))
                  (field (codes "channel") (str channel) end))))))

  outcome-status : (reply : Response) → is_text (status_of (outcome reply)) ≡ true
  unfolding outcome
  outcome-status (unreachable detail) = unfold get in refl
  outcome-status (response code body) = elim (Bool-cases (leb 400 code)) [
    | inl e ↦ rw e (unfold get in refl)
    | inr e ↦ rw e (go body)
  ]
    where
      go : (o : Option Json) → is_text (status_of (success o)) ≡ true
      go none = ap is_text (get-put (codes "status") (str (codes "success")) end)
      go (some (Json.obj fs)) =
          ap is_text (get-put (codes "status") (str (status_text (status_of fs))) fs)
      go (some Json.null) = unfold get in refl
      go (some (Json.bool b)) = unfold get in refl
      go (some (num n)) = unfold get in refl
      go (some (str s)) = unfold get in refl
      go (some (Json.arr xs)) = unfold get in refl

  -- Whatever the service does, the caller of a billing hook gets a dict with a text as its status, and a
  -- request is sent exactly where the hook is configured for the business.
  pub post-status :
      (s : Settings) (path : Text) (payload : Fields) (business_id : Option Text) (reply : Response)
      → (is_text (status_of (post s path payload business_id reply).1) ≡ true)
        × (not (is_empty (post s path payload business_id reply).0) ≡ is_enabled business_id s)
  unfolding post
  post-status s path payload business_id reply = elim (Bool-cases (is_enabled business_id s)) [
    | inl e ↦ rw e (outcome-status reply, refl)
    | inr e ↦ rw e (unfold get in refl, refl)
  ]
