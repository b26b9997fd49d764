-- ===== src/Engagement/State.antt =====
-- The state of `Engagement` (latency_lab/engagement.py) and what the caller and the playback do to it.
-- Times count one unit of the monotonic clock. The pipeline's fields that the policy reads are `Pipe`.
use sales_girl_voice_agent.Common.{
  ℕ, ◌+◌, ◌-◌, Bool, true, false, ◌&&◌, ◌||◌, not, Option, none, some, List, [], ◌∷◌, ◌++◌, Text,
  length, drop, ltb, ◌==◌, if◌then◌else◌,
}

pub record Config : Type 0 where
  pub idle_seconds : ℕ
  pub tool_seconds : ℕ
  pub ack_seconds : ℕ
  pub max_tool_updates : ℕ
  pub max_idle_updates : ℕ
  pub pilot : Bool
  pub close_seconds : ℕ
  pub retry_seconds : ℕ
  pub hangup_retry_seconds : ℕ

pub data Quiet : Type 0 where
  no_quiet until_user until_result : Quiet

pub data Reason : Type 0 where
  tool_started tool_wait tool_completed idle_gap idle_close : Reason

-- The arguments are a dict that is only compared: its text with sorted keys.
pub record ToolCall : Type 0 where
  pub name : Text
  pub arguments : Text

-- `status` of a dict; a result of another type has none.
pub record ToolResult : Type 0 where
  pub status : Option Text
  pub message : Text

-- An object of the heap, named by its `id`; attempts are numbers. Every operation gets its task as
-- it is made, so that `task.done()` is `done`.
pub record Operation : Type 0 where
  pub id : ℕ
  pub call : ToolCall
  pub attempt : ℕ
  pub done : Bool
  pub result : Option ToolResult
  pub delivered : Bool
  pub completion_considered_revision : Option ℕ

-- `operations` are all that were made, the newest first; `operation` names the current one.
-- `decision_running` says that `decision_task` is there and not done.
pub record Engagement : Type 0 where
  pub enabled : Bool
  pub closed : Bool
  pub revision : ℕ
  pub quiet : Quiet
  pub new_messages : List Text
  pub operations : List Operation
  pub operation : Option ℕ
  pub decision_running : Bool
  pub emitting : Bool
  pub audio_until : ℕ
  pub next_check : ℕ
  pub tool_checks : ℕ
  pub idle_checks : ℕ
  pub idle_close_at : Option ℕ
  pub last_updates : List Text

pub data PipeState : Type 0 where
  idle speaking speculating awaiting_final recovering_stt generating playing releasing ended :
      PipeState

pub record Attempt : Type 0 where
  pub id : ℕ
  pub authorized : Bool
  pub cancelled : Bool

pub record Pipe : Type 0 where
  pub state : PipeState
  pub attempt : Option Attempt
  pub speech_candidate_active : Bool
  pub speech_locked : Bool
  pub pending_action : Bool
  pub prepared : Bool
  pub has_turns : Bool
  pub call_ending : Bool
  pub inflight_tools : Bool

unfoldable pub new_engagement : Config → Bool → ℕ → Engagement
new_engagement c enabled now = record {
  enabled = enabled;
  closed = false;
  revision = 0;
  quiet = no_quiet;
  new_messages = [];
  operations = [];
  operation = none;
  decision_running = false;
  emitting = false;
  audio_until = now;
  next_check = now + c.idle_seconds;
  tool_checks = 0;
  idle_checks = 0;
  idle_close_at = none;
  last_updates = [];
}

abbrev pub keep_last {ℓ} : {A : Type ℓ} → ℕ → List A → List A
keep_last n xs = drop (length xs - n) xs

-- A decision that runs is cancelled unless it is the task that calls.
abbrev pub invalidate : Bool → Engagement → Engagement
invalidate inside e = record e {
  revision = e.revision + 1;
  decision_running = e.decision_running && inside;
}

unfoldable pub caller_final : Config → Text → ℕ → Engagement → Engagement
caller_final c text now e =
    let e' = invalidate false e in
    if not e.enabled then e else record e' {
      idle_close_at = none;
      new_messages = keep_last 8 (e.new_messages ++ (text ∷ []));
      idle_checks = 0;
      next_check = now + c.idle_seconds;
    }

unfoldable pub caller_started : Config → ℕ → Engagement → Engagement
caller_started c now e =
    let e' = invalidate false e in
    if not e.enabled
    then e
    else record e' { idle_close_at = none; idle_checks = 0; next_check = now + c.idle_seconds }

abbrev pub is_until_user : Quiet → Bool
is_until_user until_user = true
is_until_user _ = false

abbrev pub is_until_result : Quiet → Bool
is_until_result until_result = true
is_until_result _ = false

abbrev pub is_no_quiet : Quiet → Bool
is_no_quiet no_quiet = true
is_no_quiet _ = false

abbrev pub speech_enabled : Engagement → Bool
speech_enabled e = not e.enabled || not (is_until_user e.quiet)

unfoldable pub set_speech_enabled : Bool → Engagement → Engagement
set_speech_enabled on e =
    invalidate false (record e { quiet = if on then no_quiet else until_user })

abbrev pub later : ℕ → ℕ → ℕ
later a b = if ltb a b then b else a

unfoldable pub audio_sent : ℕ → ℕ → Engagement → Engagement
audio_sent seconds now e = record e { audio_until = later now e.audio_until + seconds }

abbrev pub find : ℕ → List Operation → Option Operation
find k [] = none
find k (o ∷ os) = if k == o.id then some o else find k os

abbrev pub current : Engagement → Option Operation
current e = elim e.operation [ none ↦ none | some k ↦ find k e.operations ]

abbrev pub is_pending : Option Operation → Bool
is_pending none = false
is_pending (some o) = not o.done

unfoldable pub playback_stopped : Config → ℕ → Engagement → Engagement
playback_stopped c now e = record e {
  audio_until = now;
  next_check = now + (if is_pending (current e) then c.tool_seconds else c.idle_seconds);
}

-- The tasks that `close` cancels end in steps of their own.
unfoldable pub close : Engagement → Engagement
close e = invalidate false (record e { closed = true })
