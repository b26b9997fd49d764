-- ===== src/Passkey/Flow.antt =====
-- `PasskeyFlow` of latency_lab/passkey.py, cut at its waits: each function runs from one wait to the
-- next. Operation ids and the fresh correlation ids are only compared, so they are numbers.
use sales_girl_voice_agent.Common.{
  ℕ, ◌+◌, Bool, true, false, ◌&&◌, ◌||◌, not, Option, none, some, List, [], ◌∷◌, Text, codes,
  text_eq, any, strip, is_empty, ltb, leb, ◌==◌, if◌then◌else◌, Json, obj, Fields,
}
use sales_girl_voice_agent.Passkey.Options.{supported_options}

pub data Workflow : Type 0 where
  transfer_workflow airtime_workflow other_workflow : Workflow

pub data Feature : Type 0 where
  transfer_feature airtime_feature : Feature

-- `FEATURE_BY_WORKFLOW.get(workflow)`
abbrev pub feature_by_workflow : Workflow → Option Feature
feature_by_workflow transfer_workflow = some transfer_feature
feature_by_workflow airtime_workflow = some airtime_feature
feature_by_workflow other_workflow = none

abbrev pub max_bytes : ℕ
max_bytes = 14000

pub record Pending : Type 0 where
  pub authentication_id : Text
  pub correlation_id : ℕ
  pub operation_id : ℕ
  pub workflow : Workflow
  pub feature : Feature
  pub expires : ℕ
  pub consumed : Bool

-- `timeout` and the clock count in one unit, such as milliseconds. `trim` is the setting
-- ATTENTIVE_PASSKEY_TRIM_OPTIONS.
pub record PasskeyFlow : Type 0 where
  pub timeout : ℕ
  pub trim : Bool
  pub device_id : Option Text
  pub pending : Option Pending
  pub closed : Bool

pub record StartArgs : Type 0 where
  pub workflow : Workflow
  pub operation_id : ℕ
  pub customer_id : Text
  pub display_name : Text

-- The body of POST /v1/fido2/begin.
pub record BeginPost : Type 0 where
  pub feature : Feature
  pub device_imei : Text
  pub display_name : Text

-- The status of the dict that `start` returns.
pub data StartStatus : Type 0 where
  blocked failed busy ceremony_started : StartStatus

pub data Started : Type 0 where
  refused : StartStatus → Started
  posts : BeginPost → Started

abbrev pub is_live : Option Pending → Bool
is_live none = false
is_live (some p) = not p.consumed

abbrev or_text : Option Text → Text → Text
or_text none t = t
or_text (some s) t = s

-- `start` up to its first wait.
unfoldable pub start_check : StartArgs → PasskeyFlow → Started
start_check a f = elim (feature_by_workflow a.workflow) [
  | none ↦ refused blocked
  | some feature ↦
      if f.closed
      then refused failed
      else if is_live f.pending
      then refused busy
      else posts (record {
        feature = feature;
        device_imei = or_text f.device_id (codes "unknown-device");
        display_name = if is_empty a.display_name then a.customer_id else a.display_name;
      })
]

-- The reply of the connector, a dict: its `authentication_id` as a text (empty where it is missing),
-- and `options` where they are a dict.
pub record BeginReply : Type 0 where
  pub status : Text
  pub authentication_id : Text
  pub options : Option Fields

-- What the app is sent.
pub data AppMessage : Type 0 where
  fido2_ceremony : Text → ℕ → Feature → Json → AppMessage
  fido2_result : Text → ℕ → Bool → AppMessage

-- `start` after the reply: the ceremony is pending, and its message is sent. `none` is a request that
-- raised. The correlation id is the fresh `uuid4`.
unfoldable pub start_reply :
    StartArgs
    → Feature
    → Option BeginReply
    → ℕ
    → ℕ
    → PasskeyFlow
    → PasskeyFlow × Option AppMessage × StartStatus
start_reply a feature none fresh now f = (f, none, failed)
start_reply a feature (some r) fresh now f =
    let authentication_id = strip r.authentication_id in
    let begun = λ (options : Fields). record f {
      pending = some (record {
        authentication_id = authentication_id;
        correlation_id = fresh;
        operation_id = a.operation_id;
        workflow = a.workflow;
        feature = feature;
        expires = now + f.timeout;
        consumed = false;
      });
    } in
    if not (text_eq r.status (codes "ok")) || is_empty authentication_id
    then (f, none, failed)
    else elim r.options [
      | none ↦ (f, none, failed)
      | some options ↦ (
        begun options,
        some (
            fido2_ceremony authentication_id fresh feature
              (supported_options f.trim (obj options))),
        ceremony_started,
      )
    ]

unfoldable pub awaiting : ℕ → PasskeyFlow → Bool
awaiting now f = elim f.pending [ none ↦ false | some p ↦ not p.consumed && ltb now p.expires ]

pub data Kind : Type 0 where
  session_context fido2_proof fido2_cancelled fido2_failed other_kind : Kind

-- A message of the app. A value that is missing or of another type is `none`; a proof is a non-empty
-- dict, named by a number.
pub record AppValue : Type 0 where
  pub kind : Kind
  pub device_imei : Option Text
  pub authentication_id : Option Text
  pub correlation_id : Option ℕ
  pub proof : Option ℕ

-- The bytes of a message: their number, and the dict that they decode to, if they do.
pub record Raw : Type 0 where
  pub size : ℕ
  pub value : Option AppValue

pub data Status : Type 0 where
  cancelled failed expired rejected verified : Status

pub data Received : Type 0 where
  ignored : Received
  finishes : Status → Pending → Received
  executes : Pending → ℕ → Received

abbrev pub matches : AppValue → Pending → Bool
matches v p =
    (elim v.authentication_id [ none ↦ false | some t ↦ text_eq t p.authentication_id ])
    && (elim v.correlation_id [ none ↦ false | some c ↦ c == p.correlation_id ])

abbrev device_of : AppValue → Option Text
device_of v = elim v.device_imei [
  | none ↦ none
  | some t ↦ if is_empty (strip t) then none else some t
]

-- The part of `receive` on a message for the pending ceremony.
on_match : Kind → AppValue → Pending → ℕ → PasskeyFlow → PasskeyFlow × Received
on_match fido2_cancelled v p now f = (record f { pending = none }, finishes cancelled p)
on_match fido2_failed v p now f = (record f { pending = none }, finishes Status.failed p)
on_match fido2_proof v p now f = elim v.proof [
  | none ↦ (f, ignored)
  | some proof ↦
      if leb p.expires now
      then (record f { pending = none }, finishes expired p)
      else (record f { pending = some (record p { consumed = true }) }, executes p proof)
]
on_match _ v p now f = (f, ignored)

on_value : Kind → AppValue → ℕ → PasskeyFlow → PasskeyFlow × Received
unfolding on_match
on_value session_context v now f = (record f { device_id = device_of v }, ignored)
on_value kind v now f = elim f.pending [
  | none ↦ (f, ignored)
  | some p ↦ if p.consumed || not (matches v p) then (f, ignored) else on_match kind v p now f
]

-- `receive` up to its first wait. A ceremony that ends without a request is finished at once, since
-- `_finish` clears the pending ceremony before it waits.
unfoldable pub receive : Raw → ℕ → PasskeyFlow → PasskeyFlow × Received
unfolding on_value
receive raw now f =
    if f.closed || ltb max_bytes raw.size
    then (f, ignored)
    else elim raw.value [ none ↦ (f, ignored) | some v ↦ on_value v.kind v now f ]

abbrev accepted_statuses : List Text
accepted_statuses =
    codes "ok" ∷ codes "success" ∷ codes "completed" ∷ codes "pending" ∷ codes "unknown" ∷ []

-- `receive` after the reply to the execute request. `none` is a request that raised or a reply that
-- is no dict; a dict is read by its `status`.
unfoldable pub accepted : Option Text → Bool
accepted none = false
accepted (some status) = any (text_eq status) accepted_statuses

unfoldable pub execute_reply : Option Text → Pending → AppMessage
unfolding accepted
execute_reply reply p = fido2_result p.authentication_id p.correlation_id (accepted reply)

-- `_finish`: the state that it leaves.
unfoldable pub finish : PasskeyFlow → PasskeyFlow
finish f = record f { pending = none }

unfoldable pub close : PasskeyFlow → PasskeyFlow
close f = record f { closed = true; pending = none }

-- The text that `_finish` hands to `on_outcome`, from the message of the bank's reply.
unfoldable pub outcome_text : Status → Text → Text
outcome_text cancelled message = codes "No problem — nothing was approved, and we can keep talking."
outcome_text Status.failed message =
    codes "The passkey confirmation did not go through. Nothing was approved."
outcome_text expired message =
    codes "That approval timed out, so nothing went through. Ask me to try again when you're ready."
outcome_text rejected message =
    if is_empty message
    then codes "The bank did not accept the approval, so nothing was sent."
    else message
outcome_text verified message = if is_empty message then codes "Approved and sent." else message
