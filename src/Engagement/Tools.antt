-- ===== src/Engagement/Tools.antt =====
-- The operations of `Engagement` (latency_lab/engagement.py): `run_tool` up to its first wait, the end of
-- the task that it starts, its delivery, and the tools that the pipeline runs in the background.
use sales_girl_voice_agent.Common.{
  ℕ, ◌+◌, Bool, true, false, ◌&&◌, not, Option, none, some, List, [], ◌∷◌, text_eq, codes, length,
  ◌==◌, if◌then◌else◌,
}
use sales_girl_voice_agent.Engagement.State.{
  Config, ToolCall, ToolResult, Operation, Engagement, invalidate, current, is_pending,
}

abbrev pub is_unknown : Option ToolResult → Bool
is_unknown none = false
is_unknown (some r) = elim r.status [ none ↦ false | some s ↦ text_eq s (codes "unknown") ]

abbrev pub has_unknown : Option Operation → Bool
has_unknown none = false
has_unknown (some o) = is_unknown o.result

abbrev pub pending_result : ToolResult
pending_result = record {
  status = some (codes "pending");
  message = codes "The previous request is still pending; no new request was sent.";
}

abbrev pub unknown_result : ToolResult
unknown_result = record {
  status = some (codes "unknown");
  message =
      codes
        "The request outcome is unknown. Do not retry or claim success; it needs verification before sending another request.";
}

abbrev same_call : ToolCall → ToolCall → Bool
same_call a b = text_eq a.name b.name && text_eq a.arguments b.arguments

abbrev new_operation : ℕ → ToolCall → ℕ → Operation
new_operation k call attempt = record {
  id = k;
  call = call;
  attempt = attempt;
  done = false;
  result = none;
  delivered = false;
  completion_considered_revision = none;
}

-- What `run_tool` does before it waits: it invokes without tracking, it answers, or it waits for an
-- operation, which it may have started.
pub data Tool : Type 0 where
  untracked : Tool
  answers : Option ToolResult → Tool
  joins : ℕ → Tool
  starts : ℕ → Tool

abbrev pub start_operation : Config → ToolCall → ℕ → ℕ → Engagement → Engagement
start_operation c call attempt now e = record e {
  operations = new_operation (length e.operations) call attempt ∷ e.operations;
  operation = some (length e.operations);
  tool_checks = 0;
  next_check = now + c.ack_seconds;
}

abbrev pub result_of : Option Operation → Option ToolResult
result_of none = none
result_of (some o) = o.result

abbrev is_same : ToolCall → Option Operation → Bool
is_same call none = false
is_same call (some o) = same_call o.call call

abbrev pub id_of : Option Operation → ℕ
id_of none = 0
id_of (some o) = o.id

unfoldable pub run_tool : Config → ℕ → ToolCall → ℕ → Engagement → Tool × Engagement
run_tool c attempt call now e =
    let previous = current e in
    if not e.enabled
    then (untracked, e)
    else if has_unknown previous
    then (answers (result_of previous), e)
    else if is_pending previous
    then (if is_same call previous
        then (joins (id_of previous), e)
        else (answers (some pending_result), e))
    else (starts (length e.operations), start_operation c call attempt now e)

abbrev pub change : (Operation → Operation) → ℕ → List Operation → List Operation
change f k [] = []
change f k (o ∷ os) = if k == o.id then f o ∷ os else o ∷ change f k os

-- The end of `execute`: a result, or `none` for an exception, whose outcome is unknown.
abbrev pub outcome : Option ToolResult → ToolResult
outcome none = unknown_result
outcome (some r) = r

unfoldable pub execute_done : Config → ℕ → Option ToolResult → ℕ → Engagement → Engagement
execute_done c k r now e =
    let os = change (λ o. record o { done = true; result = some (outcome r) }) k e.operations in
    let e' = record e { operations = os; next_check = now + c.ack_seconds } in
    if e.emitting then e' else invalidate false e'

-- The end of `execute` where its task was cancelled: there is no result.
unfoldable pub execute_cancelled : Config → ℕ → ℕ → Engagement → Engagement
execute_cancelled c k now e =
    let os = change (λ o. record o { done = true }) k e.operations in
    let e' = record e { operations = os; next_check = now + c.ack_seconds } in
    if e.emitting then e' else invalidate false e'

-- After the wait: the attempt that asked is the current one, and not cancelled.
unfoldable pub deliver : Bool → ℕ → Engagement → Engagement
deliver still_current k e =
    if still_current
    then record e { operations = change (λ o. record o { delivered = true }) k e.operations }
    else e

-- The operation is made also where the policy is off, which then does not name it.
unfoldable pub register_operation : Config → ToolCall → ℕ → ℕ → Engagement → Engagement
register_operation c call attempt now e =
    let e' = start_operation c call attempt now e in
    if e.enabled
    then record e' { idle_close_at = none }
    else record e { operations = e'.operations }

abbrev pub names : Option ℕ → ℕ → Bool
names none k = false
names (some j) k = j == k

unfoldable pub finish_operation : Config → ℕ → ℕ → Engagement → Engagement
finish_operation c k now e =
    let e' = record e { operation = if names e.operation k then none else e.operation } in
    invalidate false (record e' { next_check = now + c.idle_seconds })

-- The task of a background tool ends some time after its `finish_operation`.
unfoldable pub background_done : ℕ → Engagement → Engagement
background_done k e = record e {
  operations = change (λ o. record o { done = true }) k e.operations;
}
