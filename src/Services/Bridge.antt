-- ===== src/Services/Bridge.antt =====
-- `bridge_call` of latency_lab/aicc_transfer.py. What the telephony client answers is an argument, and
-- the client's requests are part of the result.
use sales_girl_voice_agent.Common.{
  ◌≡◌, refl, Bool, ◌&&◌, ◌||◌, List, [], ◌∷◌, ◌++◌, Text, codes, text_eq, strip, lower, is_empty,
  if◌then◌else◌, Bool-cases, inl, inr,
}
use sales_girl_voice_agent.Sip.Phone.{normalize_phone}

pub record Config : Type 0 where
  pub outbound_trunk_id : Text
  pub transfer_target_number : Text
  pub preserve_caller_id : Text
  pub transfer_from_number : Text

pub record Leg : Type 0 where
  pub trunk : Text
  pub call_to : Text
  pub number : Text
  pub room : Text
  pub identity : Text

pub data Request : Type 0 where
  create_participant : Leg → Request
  remove_participant : Text → Text → Request

-- The participant's own identity (empty for none) and its call, an exception, or the task's cancellation.
pub data Reply : Type 0 where
  created : Text → Text → Reply
  raised : Text → Text → Reply
  cancelled : Reply

pub data Result : Type 0 where
  verified_sip_caller_required : Result
  aicc_destination_not_configured : Result
  connected : Text → Text → Text → Result
  failed : Text → Text → Result
  cancels : Result

abbrev pub preserves : Config → Bool
preserves c = text_eq (lower c.preserve_caller_id) (codes "true")

unfoldable pub caller_of : Config → Text → Text
caller_of c caller_phone =
    if preserves c then normalize_phone caller_phone else strip c.transfer_from_number

abbrev identity_of : Text → Text
identity_of session_id = codes "aicc_bridge_" ++ session_id

unfoldable pub dial : Leg → Reply → List Request × Result
dial leg (created identity call_id) = (
  create_participant leg ∷ [],
  connected (if is_empty identity then leg.identity else identity) call_id leg.call_to,
)
dial leg (raised kind code) =
    (create_participant leg ∷ remove_participant leg.room leg.identity ∷ [], failed kind code)
dial leg cancelled =
    (create_participant leg ∷ remove_participant leg.room leg.identity ∷ [], cancels)

unfoldable pub bridge_call : Config → Text → Text → Text → Reply → List Request × Result
unfolding caller_of dial
bridge_call c room_name session_id caller_phone reply =
    let trunk = strip c.outbound_trunk_id in
    let target = strip c.transfer_target_number in
    let caller = caller_of c caller_phone in
    let leg : Leg = record {
      trunk = trunk;
      call_to = target;
      number = caller;
      room = room_name;
      identity = identity_of session_id;
    } in
    if preserves c && is_empty caller
    then ([], verified_sip_caller_required)
    else if is_empty room_name || is_empty trunk || is_empty target || is_empty caller
    then ([], aicc_destination_not_configured)
    else dial leg reply

-- The requests of a bridge: one leg to the configured number, and its removal unless it is connected.
pub data IsBridge (c : Config) : List Request × Result → Type 0 where
  refused : {r : Result} → IsBridge c ([], r)
  bridged :
      {leg : Leg} {identity call_id : Text}
      → leg.call_to ≡ strip c.transfer_target_number
      → IsBridge c
          (create_participant leg ∷ [], connected identity call_id (strip c.transfer_target_number))
  removed :
      {leg : Leg} {r : Result}
      → leg.call_to ≡ strip c.transfer_target_number
      → IsBridge c (create_participant leg ∷ remove_participant leg.room leg.identity ∷ [], r)

-- Whatever the model and the telephony do: the number that is dialled is the configured one, at most
-- one leg is created, and a leg that is not connected is removed again.
pub bridge_call-IsBridge :
    (c : Config) (room_name session_id caller_phone : Text) (reply : Reply)
    → IsBridge c (bridge_call c room_name session_id caller_phone reply)
unfolding bridge_call
bridge_call-IsBridge c room_name session_id caller_phone reply =
    elim (Bool-cases (preserves c && is_empty (caller_of c caller_phone))) [
      | inl e ↦ rw e refused
      | inr e ↦
          elim (Bool-cases (
            is_empty room_name
            || is_empty (strip c.outbound_trunk_id)
            || is_empty (strip c.transfer_target_number)
            || is_empty (caller_of c caller_phone))) [
              | inl f ↦ rw (e, f) refused
              | inr f ↦ rw (e, f) (go reply)
            ]
    ]
  where
    leg : Leg
    leg = record {
      trunk = strip c.outbound_trunk_id;
      call_to = strip c.transfer_target_number;
      number = caller_of c caller_phone;
      room = room_name;
      identity = identity_of session_id;
    }

    go : (reply : Reply) → IsBridge c (dial leg reply)
    go (created identity call_id) = bridged refl
    go (raised kind code) = removed refl
    go cancelled = removed refl
