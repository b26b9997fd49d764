-- ===== src/Pipeline/Transcript.antt =====
-- What the recognizer hears (latency_lab/pipeline.py): partial texts, the final of a turn, the speculation on
-- a stable partial, and typed text.
use sales_girl_voice_agent.Common.{
  ℕ, ◌+◌, Bool, true, false, ◌&&◌, ◌||◌, not, Option, none, some, [], Text, text_eq, any, keep_if,
  length, is_empty, is_some, strip, lower, leb, ltb, ◌==◌, if◌then◌else◌,
}
use sales_girl_voice_agent.Engagement.State.{
  PipeState, speaking, speculating, awaiting_final, releasing,
}
use sales_girl_voice_agent.Pipeline.State.{
  TurnId, caller, proactive, same_turn, is_turn, Attempt, accepts_final, sends_partial, Config,
  Pipeline, emit, transition, change_attempt, current, clear_speech_candidate,
}
use sales_girl_voice_agent.Pipeline.Attempts.{cancel_attempt, start_attempt, release_held}

-- `re.sub(r"[^a-z0-9 ]+", "", text.lower()).strip()`
abbrev pub is_plain : ℕ → Bool
is_plain c = (leb b'a' c && leb c b'z') || (leb b'0' c && leb c b'9') || c == 32

unfoldable pub normalize : Text → Text
normalize text = strip (keep_if is_plain (lower text))

abbrev pub is_voice_state : PipeState → Bool
is_voice_state speaking = true
is_voice_state speculating = true
is_voice_state _ = false

abbrev pub is_awaiting : PipeState → Bool
is_awaiting awaiting_final = true
is_awaiting _ = false

abbrev pub is_releasing : PipeState → Bool
is_releasing releasing = true
is_releasing _ = false

-- `is_asr_context_echo` with the agent's context, and whether the ratio of `SequenceMatcher` on two
-- texts is at least 0.92.
pub record Judge : Type 0 where
  pub is_echo : Text → Bool
  pub is_similar : Text → Text → Bool

abbrev pub is_closed : Option TurnId → Pipeline → Bool
is_closed none p = false
is_closed (some t) p = any (same_turn t) p.closed_turns

abbrev pub revised : Text → Option Attempt → Bool
revised text none = false
revised text (some a) = not (text_eq (normalize a.hypothesis) (normalize text))

abbrev pub authorize : Attempt → Attempt
authorize a = record a { authorized = true }

abbrev pub number_of : TurnId → ℕ
number_of (caller n) = n
number_of (proactive n) = n

module _ (c : Config) (j : Judge) where
  -- A changed partial of enough characters restarts the stability window, and drops a speculation on
  -- another text.
  abbrev pub on_changed : Text → Pipeline → Pipeline
  on_changed text p =
      let p' = if revised text (current p) then cancel_attempt false p else p in
      record p' { stability = some text }

  abbrev pub partial_accepted : Text → Pipeline → Pipeline
  partial_accepted text p =
      let p' = emit (sends_partial text) (record p { last_partial = text }) in
      if text_eq text p.last_partial || ltb (length (normalize text)) c.stable_min_chars
      then p'
      else on_changed text p'

  abbrev pub partial_within : Text → Pipeline → Pipeline
  partial_within text p =
      if is_awaiting p.state
      then p
      else if not (is_voice_state p.state)
      then p
      else if is_closed p.turn_id p
      then p
      else partial_accepted text p

  abbrev pub partial_before : Text → Pipeline → Pipeline
  partial_before text p =
      if p.speech_candidate_active then record p { preconfirm_partial = some text } else p

  unfoldable pub on_partial : Text → Pipeline → Pipeline
  unfolding normalize cancel_attempt
  on_partial text p =
      if not (is_empty text) && j.is_echo text
      then p
      else if p.call_ending
      then p
      else if not (is_some p.turn_id)
      then partial_before text p
      else partial_within text p

  -- The end of the stability window.
  abbrev pub on_stable : Option Text → Pipeline → Pipeline
  on_stable none p = p
  on_stable (some text) p =
      let p1 = record p { stability = none } in
      if not (text_eq text p.last_partial) || not (is_voice_state p.state)
      then p1
      else if c.engagement_enabled && not p.speech_enabled
      then p1
      else transition speculating (start_attempt false text true false p1)

  unfoldable pub stable_after_delay : Pipeline → Pipeline
  unfolding start_attempt
  stable_after_delay p = on_stable p.stability p

  -- Approximate matches authorize nothing where there are banking records.
  unfoldable pub is_valid : Text → Attempt → Bool
  unfolding normalize
  is_valid text a =
      if c.records
      then text_eq (lower (strip a.hypothesis)) (lower (strip text))
      else text_eq (normalize a.hypothesis) (normalize text)
        || j.is_similar (normalize a.hypothesis) (normalize text)

  abbrev pub fresh_reply : Bool → Text → Pipeline → Pipeline
  fresh_reply from_response text p =
      transition releasing (start_attempt from_response text false true p)

  abbrev pub on_reply : Bool → Text → Option Attempt → Pipeline → Pipeline
  on_reply from_response text none p = fresh_reply from_response text p
  on_reply from_response text (some a) p =
      let p' = transition releasing (change_attempt authorize a.id p) in
      if is_valid text a
      then (if a.speech_control then p' else release_held c (authorize a) p')
      else fresh_reply from_response text (cancel_attempt from_response p)

  unfoldable pub respond_to_final : Bool → Text → Pipeline → Pipeline
  unfolding start_attempt cancel_attempt release_held is_valid
  respond_to_final from_response text p = on_reply from_response text (current p) p

  -- The end of the reply's grace: the turn must still be the one that ended.
  abbrev pub on_grace : Option (Text × Option TurnId) → Pipeline → Pipeline
  on_grace none p = p
  on_grace (some (text, turn)) p =
      let p1 = record p { response = none } in
      if not (is_turn p.turn_id turn) || not (is_releasing p.state)
      then p1
      else respond_to_final true text p1

  unfoldable pub respond_after_reply_grace : Pipeline → Pipeline
  unfolding respond_to_final
  respond_after_reply_grace p = on_grace p.response p

  -- Without a grace the reply's task runs before any other event.
  abbrev pub reply_to_final : Text → Pipeline → Pipeline
  reply_to_final text p =
      if not c.engagement_enabled
      then respond_to_final false text p
      else if c.grace
      then transition releasing (record p { response = some (text, p.turn_id) })
      else respond_to_final true text (transition releasing (record p { response = none }))

  abbrev pub final_accepted : Text → TurnId → Pipeline → Pipeline
  final_accepted text t p = reply_to_final text (
      emit (accepts_final (number_of t) text)
        (record p { final_text = text; final_timeout = none; stability = none }))

  abbrev pub on_open_turn : Text → Option TurnId → Pipeline → Pipeline
  on_open_turn text none p = p
  on_open_turn text (some t) p =
      if not (is_awaiting p.state)
      then p
      else if not (is_empty p.final_text)
      then p
      else final_accepted text t p

  unfoldable pub on_final : Text → Pipeline → Pipeline
  unfolding respond_to_final
  on_final text p =
      if not (is_empty text) && j.is_echo text
      then p
      else if p.call_ending
      then p
      else on_open_turn text p.turn_id p

  -- Typed text is a turn of its own, with a final at once.
  abbrev pub typed : Text → Pipeline → Pipeline
  typed text p =
      let p1 = clear_speech_candidate (cancel_attempt false p) in
      let p2 = record p1 {
        stability = none;
        final_timeout = none;
        turn_number = p1.turn_number + 1;
        turn_id = some (caller (p1.turn_number + 1));
        final_text = [];
        last_partial = [];
        silence_ms = 0;
      } in
      on_final text (transition awaiting_final p2)

  unfoldable pub text_message : Text → Pipeline → Pipeline
  unfolding cancel_attempt on_final
  text_message text p =
      if p.handoff then p else if is_empty (strip text) then p else typed (strip text) p
