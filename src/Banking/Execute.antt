-- ===== src/Banking/Execute.antt =====
-- `_execute` of latency_lab/banking_tools.py, cut at its waits: the checks of a call, the dispatch
-- after the authorization, and the service's answer.
use sales_girl_voice_agent.Common.{
  ℕ, Bool, true, false, ◌&&◌, ◌||◌, not, Option, none, some, List, [], ◌∷◌, Text, codes, text_eq,
  is_empty, length, leb, ◌==◌, if◌then◌else◌, Json, str, Fields, get, starts_with, all, is_some,
}
use sales_girl_voice_agent.Banking.Records.{Tool, Schema}
use sales_girl_voice_agent.Banking.Arguments.{Checked, ready, invalid, type_error, arguments}
use sales_girl_voice_agent.Banking.Voice.{BankingTools, Prepared}

pub record ToolCall : Type 0 where
  pub name : Text
  pub arguments : Fields

-- Why a call ends without the service's answer.
pub data Failure : Type 0 where
  not_enabled missing_customer not_confirmed not_verified invalid_response service_error : Failure
  http_status : ℕ → Failure

pub data Stop : Type 0 where
  failed : Failure → Stop
  needs_input : Text → Stop
  raises : Stop

pub data Verdict : Type 0 where
  stops : Stop → Verdict
  proceeds : Fields → Verdict

unfoldable pub find_schema : Text → List (Tool × Schema) → Option Schema
find_schema name [] = none
find_schema name ((t, s) ∷ rs) = if text_eq t.name name then some s else find_schema name rs

abbrev is_id_char : ℕ → Bool
is_id_char c =
    (leb b'A' c && leb c b'Z')
    || (leb b'a' c && leb c b'z')
    || (leb b'0' c && leb c b'9')
    || c == 95
    || c == 45

-- `re.fullmatch(r"[A-Za-z0-9_-]{1,120}", customer)`
abbrev pub is_customer_id : Text → Bool
is_customer_id s = not (is_empty s) && leb (length s) 120 && all is_id_char s

abbrev pub is_prepare : Text → Bool
is_prepare name = starts_with (codes "wema_prepare_") name

abbrev pub is_execute : Text → Bool
is_execute name = text_eq name (codes "wema_execute_prepared")

-- `args["operation_id"] == wanted`
abbrev pub is_operation : Option Json → Text → Bool
is_operation (some (str s)) wanted = text_eq s wanted
is_operation _ wanted = false

-- The test of an execution against the latest preview; a missing key raises, and `execute` reports it.
unfoldable pub confirm : Option Prepared → Text → Fields → Verdict
confirm none confirmed args = stops (failed not_confirmed)
confirm (some p) confirmed args =
    let operation = get (codes "operation_id") args in
    if not (is_some operation)
    then stops (failed service_error)
    else if is_operation operation p.operation_id && is_operation operation confirmed
    then proceeds args
    else stops (failed not_confirmed)

unfoldable pub on_checked : Text → Text → Checked → BankingTools → Verdict
unfolding confirm
on_checked name confirmed (invalid message) b = stops (needs_input message)
on_checked name confirmed type_error b = stops raises
on_checked name confirmed (ready args) b =
    if is_execute name then confirm b.prepared confirmed args else proceeds args

-- A preparation forgets the preview before.
unfoldable pub forget_preview : Text → BankingTools → BankingTools
forget_preview name b = if is_prepare name then record b { prepared = none } else b

-- The guards on the caller: `rest` is what follows them.
abbrev pub guarded : Bool → Bool → BankingTools → BankingTools × Verdict → BankingTools × Verdict
guarded known valid b rest =
    if not known
    then (b, stops (failed not_enabled))
    else if not valid
    then (b, stops (failed missing_customer))
    else rest

module _ (first_error : Json → Fields → Option Text) where
  unfoldable pub on_record : Option Schema → ToolCall → Text → BankingTools → BankingTools × Verdict
  on_record none call confirmed b = (b, stops (failed not_enabled))
  on_record (some schema) call confirmed b =
      let b' = forget_preview call.name b in
      let checked = arguments first_error schema b.profile call.arguments in
      guarded b.identity_known (is_customer_id b.customer) b
        (b', on_checked call.name confirmed checked b')

  -- `_execute` up to the authorization.
  unfoldable pub execute_check : ToolCall → Text → BankingTools → BankingTools × Verdict
  unfolding find_schema on_record
  execute_check call confirmed b = on_record (find_schema call.name b.records) call confirmed b

-- What is posted to the service.
pub record Post : Type 0 where
  pub name : Text
  pub args : Fields

-- `_execute` after the authorization: the request, if it is sent. The preview is used up.
unfoldable pub execute_send : Text → Fields → Bool → BankingTools → BankingTools × Option Post
execute_send name args authorized b = if not authorized then (b, none) else (
  if is_execute name then record b { prepared = none } else b,
  some (record { name = name; args = args }),
)

-- The answer's dict: its status and the two keys of its data that are read. A preview that is no dict
-- is `none`.
pub record Body : Type 0 where
  pub status : Text
  pub operation_id : Text
  pub preview : Option Fields

pub data Answer : Type 0 where
  not_a_dict : Answer
  answer : ℕ → Body → Answer

pub data Outcome : Type 0 where
  service_failed : Failure → Outcome
  service_answered : Body → Outcome

-- A preview is kept where the answer is one.
abbrev pub keep_preview : Option Fields → Bool → Text → BankingTools → BankingTools
keep_preview none prepared operation_id b = b
keep_preview (some preview) false operation_id b = b
keep_preview (some preview) true operation_id b = record b {
  prepared = some (record { operation_id = operation_id; preview = preview });
}

unfoldable pub execute_answer : Text → Answer → BankingTools → BankingTools × Outcome
execute_answer name not_a_dict b = (b, service_failed invalid_response)
execute_answer name (answer code body) b =
    let prepared =
      is_prepare name
      && text_eq body.status (codes "prepared")
      && not (is_empty body.operation_id) in
    if leb 300 code
    then (b, service_failed (http_status code))
    else (keep_preview body.preview prepared body.operation_id b, service_answered body)
