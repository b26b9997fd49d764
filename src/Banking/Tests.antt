-- ===== src/Banking/Tests.antt =====
-- Runs of the banking tools (latency_lab/banking_tools.py), and their theorems at concrete inputs.
use sales_girl_voice_agent.Common.{
  ℕ, zero, suc, length, inr, ◌≤◌, ◌≡◌, refl, Bool, true, false, Option, none, some, List, [], ◌∷◌,
  arith, codes, Text, Json, str, Fields, end, field, obj, All, get, has_key, pop, put,
}
use sales_girl_voice_agent.Banking.Records.{
  Schema, Tool, bank_tool_definitions, bank_tool_definitions-IsSafe, IsSafe,
}
use sales_girl_voice_agent.Banking.Arguments.{arguments, ready, fill}
use sales_girl_voice_agent.Banking.Voice.{
  BankingTools, Prepared, verified, IsBounded, ingest_pcm, utterance, ingest-IsBounded, authorize,
  authorize_iff, min_clip, VoiceResult,
}
use sales_girl_voice_agent.Banking.Execute.{
  Post, ToolCall, execute_check, execute_send, execute_answer, proceeds, answer, on_checked,
  on_record, confirm, find_schema, forget_preview,
}
use sales_girl_voice_agent.Banking.Confirmed.{execute_check-IsConfirmed, IsConfirmed}
use sales_girl_voice_agent.Banking.Tasks.{
  World, Event, calls, authorized, answered, run, step, on_call, on_authorized, on_answered,
  on_sent,
}
use sales_girl_voice_agent.Banking.Spent.{executions, execute_send_single}
use sales_girl_voice_agent.Banking.Backed.{IsBacked, run-IsBacked}
use sales_girl_voice_agent.Common.{pick}

abbrev any_schema : Json → Bool
any_schema j = true

abbrev no_error : Json → Fields → Option Text
no_error schema args = none

abbrev string_field : Json
string_field = obj (field (codes "type") (str (codes "string")) end)

abbrev transfer_schema : Schema
transfer_schema = record {
  properties =
      field (codes "amount") string_field (field (codes "source_account") string_field end);
  required = codes "amount" ∷ codes "source_account" ∷ [];
  whole = string_field;
}

abbrev execute_schema : Schema
execute_schema = record {
  properties =
      field (codes "operation_id") string_field (field (codes "skip_auth") string_field end);
  required = codes "operation_id" ∷ codes "skip_auth" ∷ [];
  whole = string_field;
}

abbrev tool : Text → Schema → Tool
tool name schema = record {
  name = name;
  description = [];
  is_active = true;
  url = record { scheme = codes "https"; netloc = codes "bank.example"; has_username = false };
  method = codes "post";
  request_schema = some schema;
}

abbrev prepare_tool : Tool
prepare_tool = tool (codes "wema_prepare_transfer") transfer_schema

abbrev execute_tool : Tool
execute_tool = tool (codes "wema_execute_prepared") execute_schema

bank_tool_definitions-IsSafe_example :
    All (IsSafe any_schema) (bank_tool_definitions any_schema (prepare_tool ∷ execute_tool ∷ []))
bank_tool_definitions-IsSafe_example =
    bank_tool_definitions-IsSafe any_schema (prepare_tool ∷ execute_tool ∷ [])

abbrev profile : Fields
profile =
    field (codes "account_number") (str (codes "0123"))
      (field (codes "customer_id") (str (codes "c-1")) end)

abbrev transfer_args : Fields
transfer_args = field (codes "amount") (str (codes "5000")) end

abbrev sent_args : Fields
sent_args =
    field (codes "amount") (str (codes "5000"))
      (field (codes "source_account") (str (codes "0123")) end)

arguments_run : arguments no_error transfer_schema profile transfer_args ≡ ready sent_args
unfolding arguments fill get has_key pop put
arguments_run = refl

-- A session with a verified voice and one preview.
abbrev tools : Option Prepared → BankingTools
tools preview = record {
  voice_auth_required = true;
  identity_known = true;
  profile = profile;
  customer = codes "c-1";
  has_owner = true;
  has_sidecar = true;
  records = (prepare_tool, transfer_schema) ∷ (execute_tool, execute_schema) ∷ [];
  session_status = verified;
  generation = 2;
  checked_generation = 2;
  clip = [];
  audio_buffer = [];
  prepared = preview;
  monitored = true;
  last_reason = [];
}

ingest-IsBounded_example :
    IsBounded (ingest_pcm (1 ∷ 2 ∷ []) (tools none))
    × IsBounded (utterance (1 ∷ 2 ∷ []) (tools none)).0
ingest-IsBounded_example =
    ingest-IsBounded (1 ∷ 2 ∷ []) (tools none)
      (record { small_buffer = omega arith; small_clip = omega arith })

abbrev match : VoiceResult
match = record { matched = true; reason = [] }

abbrev silence : ℕ → List ℕ
silence zero = []
silence (suc n) = 0 ∷ silence n

length-silence : (n : ℕ) → length (silence n) ≡ n
length-silence zero = refl
length-silence (suc n) = omega (arith, length-silence n)

-- The session after an utterance of a given length.
abbrev heard : ℕ → BankingTools
heard n = record (tools none) { clip = silence n }

authorizes_at : (n : ℕ) → min_clip ≤ n → authorize (heard n) (some match) (tools none) ≡ true
authorizes_at n h = (authorize_iff (heard n) (some match) (tools none)).1 (
  refl,
  inr (
    refl,
    record {
      spoken = refl;
      session = refl;
      current = refl;
      known_voice = refl;
      sidecar = refl;
      long_enough = omega (arith, length-silence n, h);
      matched = refl;
    },
  ),
)

authorizes : authorize (heard min_clip) (some match) (tools none) ≡ true
authorizes = authorizes_at min_clip (omega arith)

abbrev preview : Prepared
preview = record { operation_id = codes "op1"; preview = end }

abbrev operation : Fields
operation = field (codes "operation_id") (str (codes "op1")) end

abbrev execution : ToolCall
execution = record { name = codes "wema_execute_prepared"; arguments = operation }

execution_goes_on :
    (execute_check no_error execution (codes "op1") (tools (some preview))).1 ≡ proceeds operation
unfolding execute_check find_schema on_record on_checked confirm arguments fill forget_preview get
    has_key pop put
execution_goes_on = refl

execute_check-IsConfirmed_example :
    IsConfirmed (codes "op1") operation (tools (some preview))
    × ((execute_check no_error execution (codes "op1") (tools (some preview))).0
        ≡ tools (some preview))
execute_check-IsConfirmed_example =
    execute_check-IsConfirmed no_error execution (codes "op1") (tools (some preview)) operation refl
      execution_goes_on

abbrev new_world : World
new_world = record { tools = tools none; waiting = []; asked = []; posts = []; previewed = [] }

abbrev payment : List Event
payment =
    calls (record { name = codes "wema_prepare_transfer"; arguments = transfer_args }) []
    ∷ authorized 0 true
    ∷ answered 0 (
        answer 200
          (record { status = codes "prepared"; operation_id = codes "op1"; preview = some end }))
    ∷ calls execution (codes "op1")
    ∷ authorized 0 true
    ∷ []

payment_is_sent :
    (run no_error payment new_world).posts
    ≡ record { name = codes "wema_execute_prepared"; args = operation }
      ∷ record { name = codes "wema_prepare_transfer"; args = sent_args }
      ∷ []
unfolding run step on_call on_authorized on_answered on_sent pick execute_check execute_send
    execute_answer find_schema on_record on_checked confirm arguments fill forget_preview get
    has_key pop put
payment_is_sent = refl

run-IsBacked_example : IsBacked (run no_error payment new_world)
run-IsBacked_example =
    run-IsBacked no_error payment new_world
      (record { preview = tt; waiting_ok = tt; posts_ok = tt })

abbrev execution_post : Post
execution_post = record { name = codes "wema_execute_prepared"; args = operation }

abbrev paying_world : World
paying_world = record new_world { tools = tools (some preview); waiting = execution_post ∷ [] }

-- The execution is sent; a second one is refused by its check.
execute_send_single_example :
    executions
      (run no_error
        (authorized 0 true ∷ calls execution (codes "op1") ∷ authorized 0 true ∷ [])
        paying_world).posts
    ≡ 1
unfolding executions
execute_send_single_example =
    execute_send_single no_error 0 execution_post []
      (calls execution (codes "op1") ∷ authorized 0 true ∷ []) paying_world (unfold pick in refl)
      refl tt (tt, (tt, tt))

-- Two executions that pass their checks before either is authorized are both sent.
sent_twice :
    executions
      (run no_error
        (calls execution (codes "op1")
          ∷ calls execution (codes "op1")
          ∷ authorized 0 true
          ∷ authorized 0 true
          ∷ [])
        (record new_world { tools = tools (some preview) })).posts
    ≡ 2
unfolding run step on_call on_authorized on_sent pick execute_check execute_send executions
    find_schema on_record on_checked confirm arguments fill forget_preview get has_key pop put
sent_twice = refl
