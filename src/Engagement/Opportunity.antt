-- ===== src/Engagement/Opportunity.antt =====
-- When the policy of latency_lab/engagement.py may speak or end the call: `opportunity`, `safe`,
-- `_can_close_idle` and the choice that `_loop` makes.
use sales_girl_voice_agent.Common.{
  ℕ, Bool, true, false, ◌&&◌, ◌||◌, not, Option, none, some, ltb, leb, ◌==◌, if◌then◌else◌, is_some,
}
use sales_girl_voice_agent.Engagement.State.{
  Config, Reason, tool_started, tool_wait, tool_completed, idle_gap, Operation, Engagement,
  PipeState, Attempt, Pipe, idle, speaking, speculating, awaiting_final, recovering_stt, generating,
  playing, releasing, is_until_user, is_until_result, is_no_quiet, speech_enabled, current,
  is_pending,
}

abbrev pub is_idle : PipeState → Bool
is_idle idle = true
is_idle _ = false

abbrev pub is_busy : PipeState → Bool
is_busy speaking = true
is_busy speculating = true
is_busy awaiting_final = true
is_busy recovering_stt = true
is_busy generating = true
is_busy _ = false

abbrev pub is_speakable : PipeState → Bool
is_speakable idle = true
is_speakable playing = true
is_speakable releasing = true
is_speakable _ = false

-- `attempt is a`, for the attempt's name.
abbrev pub is_attempt : Option Attempt → Option ℕ → Bool
is_attempt none none = true
is_attempt (some a) (some k) = a.id == k
is_attempt none (some k) = false
is_attempt (some a) none = false

abbrev pub may_speak : Option Attempt → Bool
may_speak none = true
may_speak (some a) = a.authorized && not a.cancelled

abbrev is_foreign : Option Attempt → Option Operation → Bool
is_foreign none o = false
is_foreign (some a) none = true
is_foreign (some a) (some o) = not (a.id == o.attempt) || a.cancelled || not a.authorized

abbrev attempt_id : Option Attempt → Option ℕ
attempt_id none = none
attempt_id (some a) = some a.id

abbrev considered : Option ℕ → ℕ → Bool
considered none revision = false
considered (some r) revision = r == revision

abbrev is_undelivered : Option Operation → ℕ → Bool
is_undelivered none revision = false
is_undelivered (some o) revision =
    is_some o.result
    && not o.delivered
    && not (considered o.completion_considered_revision revision)

-- The result names the attempt of the opportunity.
unfoldable pub opportunity : Config → Pipe → ℕ → Engagement → Option (Reason × Option ℕ)
opportunity c p now e =
    let op = current e in
    if e.closed
      || p.speech_candidate_active
      || is_busy p.state
      || p.speech_locked
      || ltb now e.audio_until
    then none
    else if is_until_user e.quiet
    then none
    else if is_pending op
    then (if leb c.max_tool_updates e.tool_checks || is_foreign p.attempt op
        then none
        else some (if e.tool_checks == 0 then tool_started else tool_wait, attempt_id p.attempt))
    else if is_some p.attempt
        || not (is_idle p.state)
        || ((p.pending_action || p.prepared) && not c.pilot)
    then none
    else if is_undelivered op e.revision
    then some (tool_completed, none)
    else if not p.has_turns || leb c.max_idle_updates e.idle_checks
    then none
    else some (idle_gap, none)

unfoldable pub can_close_idle : Config → Pipe → ℕ → Engagement → Bool
can_close_idle c p revision e =
    c.pilot
    && e.revision == revision
    && not e.closed
    && is_no_quiet e.quiet
    && not p.call_ending
    && is_idle p.state
    && not (is_some p.attempt)
    && not p.speech_candidate_active
    && not p.inflight_tools
    && not (is_pending (current e))
    && not p.speech_locked

abbrev pub is_tool_gap : Reason → Bool
is_tool_gap tool_started = true
is_tool_gap tool_wait = true
is_tool_gap _ = false

abbrev pub is_completed : Reason → Bool
is_completed tool_completed = true
is_completed _ = false

unfoldable pub safe : Pipe → ℕ → Option ℕ → Reason → ℕ → Engagement → Bool
safe p revision attempt reason now e =
    not e.closed
    && e.revision == revision
    && speech_enabled e
    && (not (is_until_result e.quiet) || is_completed reason)
    && is_attempt p.attempt attempt
    && not p.speech_candidate_active
    && may_speak p.attempt
    && is_speakable p.state
    && (e.emitting
        || (leb e.audio_until now && (not (is_tool_gap reason) || is_pending (current e))))

pub data Round : Type 0 where
  rests : Round
  closes : Round
  reconsiders : Reason → Option ℕ → Round

abbrev pub is_due : Option ℕ → ℕ → Bool
is_due none now = false
is_due (some at) now = leb at now

abbrev pub round_of : Option (Reason × Option ℕ) → Round
round_of none = rests
round_of (some (reason, attempt)) = reconsiders reason attempt

abbrev pub start_decision : Round → Engagement → Engagement
start_decision rests e = e
start_decision closes e = record e { decision_running = true }
start_decision (reconsiders _ _) e = record e { decision_running = true }

-- The choice of a round, where `next` is what the opportunity would start.
abbrev pub loop_choice : Round → ℕ → Engagement → Round × Engagement
loop_choice next now e =
    if is_due e.idle_close_at now && not e.decision_running
    then (closes, start_decision closes e)
    else if ltb now e.next_check || e.decision_running
    then (rests, e)
    else (next, start_decision next e)

-- One round of `_loop` after its sleep: the task that it starts. `close` cancels the loop.
unfoldable pub loop_round : Config → Pipe → ℕ → Engagement → Round × Engagement
unfolding opportunity
loop_round c p now e = loop_choice (round_of (opportunity c p now e)) now e
