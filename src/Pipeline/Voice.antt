-- ===== src/Pipeline/Voice.antt =====
-- The voice activity of the caller (latency_lab/pipeline.py): `audio`, `_speech_started`,
-- `_speech_ended`, and the two ways a final fails to come. The recognizer's own copy of the audio and the
-- voice evidence of the banking tools (Banking/Voice) are left out.
use sales_girl_voice_agent.Common.{
  ℕ, ◌+◌, ◌-◌, ◌*◌, Bool, true, false, ◌&&◌, ◌||◌, not, Option, none, some, List, [], ◌∷◌, Text,
  length, leb, ltb, ◌==◌, if◌then◌else◌,
}
use sales_girl_voice_agent.Engagement.State.{
  PipeState, idle, speaking, awaiting_final, recovering_stt, playing, releasing,
}
use sales_girl_voice_agent.Engagement.Opportunity.{is_idle}
use sales_girl_voice_agent.Pipeline.State.{
  TurnId, caller, is_turn, stt_commit, stt_recover, Config, Pipeline, emit, transition, close_turn,
  clear_speech_candidate,
}
use sales_girl_voice_agent.Pipeline.Attempts.{cancel_attempt}
use sales_girl_voice_agent.Pipeline.Transcript.{Judge, is_voice_state, is_awaiting, on_partial}

-- The squares of the little-endian 16-bit samples of a frame.
abbrev pub magnitude : ℕ → ℕ
magnitude v = if ltb v 32768 then v else 65536 - v

abbrev pub sum_squares : List ℕ → ℕ
sum_squares [] = 0
sum_squares (lo ∷ []) = 0
sum_squares (lo ∷ hi ∷ pcm) = let v = magnitude (lo + 256 * hi) in v * v + sum_squares pcm

abbrev pub samples : List ℕ → ℕ
samples [] = 0
samples (lo ∷ []) = 0
samples (lo ∷ hi ∷ pcm) = samples pcm + 1

-- `rms_pcm16(pcm) >= speech_rms`; the level of an empty frame is 0.
unfoldable pub is_voiced : ℕ → List ℕ → Bool
is_voiced rms pcm =
    if samples pcm == 0 then rms == 0 else leb (rms * rms * samples pcm) (sum_squares pcm)

abbrev pub is_open_state : PipeState → Bool
is_open_state idle = true
is_open_state playing = true
is_open_state releasing = true
is_open_state _ = false

abbrev pub is_reply_state : PipeState → Bool
is_reply_state playing = true
is_reply_state releasing = true
is_reply_state _ = false

abbrev pub is_recovering : PipeState → Bool
is_recovering recovering_stt = true
is_recovering _ = false

abbrev pub or_next : Option ℕ → ℕ → ℕ
or_next none n = n + 1
or_next (some t) n = t

abbrev pub is_caller_turn : ℕ → TurnId → Bool
is_caller_turn n (caller m) = n == m
is_caller_turn n _ = false

-- `closed_turns.discard`
abbrev pub discard : ℕ → List TurnId → List TurnId
discard n [] = []
discard n (t ∷ ts) = if is_caller_turn n t then discard n ts else t ∷ discard n ts

module _ (c : Config) (j : Judge) where
  -- Speech over a reply cancels it and closes its turn.
  abbrev pub interrupted : Pipeline → Pipeline
  interrupted p =
      if is_reply_state p.state then close_turn p.turn_id (cancel_attempt false p) else p

  abbrev pub open_turn : ℕ → Pipeline → Pipeline
  open_turn t p = transition speaking (
      clear_speech_candidate (record p {
        turn_number = p.turn_number + 1;
        turn_id = some (caller t);
        last_partial = [];
        final_text = [];
        silence_candidate = false;
        closed_turns = discard t p.closed_turns;
      }))

  abbrev pub replay : Option Text → Pipeline → Pipeline
  replay none p = p
  replay (some text) p = on_partial c j text p

  unfoldable pub speech_started : Pipeline → Pipeline
  unfolding cancel_attempt on_partial
  speech_started p =
      let t = or_next p.candidate_turn_id p.turn_number in
      if p.call_ending
      then clear_speech_candidate p
      else replay p.preconfirm_partial (open_turn t (interrupted p))

  unfoldable pub speech_ended : Pipeline → Pipeline
  speech_ended p =
      let p' = record p {
        state = awaiting_final;
        speech_ms = 0;
        silence_ms = 0;
        silence_candidate = false;
        turn_pcm = 0;
        final_timeout = some p.turn_id;
      } in
      if is_voice_state p.state then emit (stt_commit p.turn_pcm) p' else p

  abbrev pub begin_candidate : Pipeline → Pipeline
  begin_candidate p = if p.speech_candidate_active then p else record p {
    turn_pcm = 0;
    speech_candidate_active = true;
    candidate_turn_id = some (p.turn_number + 1);
    speech_ms = 0;
  }

  abbrev pub voiced_over : ℕ → Pipeline → Pipeline
  voiced_over n p =
      let p0 = begin_candidate p in
      let p' = record p0 { turn_pcm = p0.turn_pcm + n; speech_ms = p0.speech_ms + n } in
      if leb c.min_speech_ms p'.speech_ms then speech_started p' else p'

  abbrev pub voiced_within : ℕ → Pipeline → Pipeline
  voiced_within n p = record p {
    turn_pcm = p.turn_pcm + n;
    silence_candidate = false;
    speech_ms = p.speech_ms + n;
    silence_ms = 0;
  }

  abbrev pub candidate_over : Pipeline → Pipeline
  candidate_over p =
      let p' = clear_speech_candidate (record p { turn_pcm = 0 }) in
      if c.uses_sbpn then emit stt_recover p' else p'

  abbrev pub silent_within : ℕ → Pipeline → Pipeline
  silent_within n p =
      let p' = record p {
        turn_pcm = p.turn_pcm + n;
        silence_candidate = true;
        silence_ms = p.silence_ms + n;
      } in
      if leb c.end_silence_ms p'.silence_ms then speech_ended p' else p'

  unfoldable pub audio : List ℕ → Pipeline → Pipeline
  unfolding is_voiced speech_started speech_ended
  audio pcm p =
      let n = length pcm in
      if p.handoff || is_recovering p.state
      then p
      else if is_voiced c.speech_rms pcm
      then (if is_open_state p.state then voiced_over n p else voiced_within n p)
      else if p.speech_candidate_active && is_open_state p.state
      then candidate_over p
      else if is_voice_state p.state
      then silent_within n p
      else if is_idle p.state
      then record p { speech_ms = 0 }
      else p

-- The deadline of a final passes: the recognizer is restarted, which takes no time here.
abbrev pub on_timeout : Option (Option TurnId) → Pipeline → Pipeline
on_timeout none p = p
on_timeout (some turn) p =
    let p1 = record p { final_timeout = none } in
    let p2 = emit stt_recover (transition recovering_stt (cancel_attempt false p1)) in
    let p3 = close_turn p2.turn_id (transition idle p2) in
    if not (is_turn p.turn_id turn) || not (is_awaiting p.state)
    then p1
    else record p3 { turn_id = none }

unfoldable pub final_timeout : Pipeline → Pipeline
unfolding cancel_attempt
final_timeout p = on_timeout p.final_timeout p

unfoldable pub on_stt_final_unavailable : Pipeline → Pipeline
unfolding cancel_attempt
on_stt_final_unavailable p =
    let p1 = transition recovering_stt (record p { final_timeout = none }) in
    let p2 = close_turn p.turn_id (emit stt_recover (cancel_attempt false p1)) in
    let p3 = record p2 { turn_id = none; last_partial = []; final_text = []; turn_pcm = 0 } in
    if is_awaiting p.state then transition idle (clear_speech_candidate p3) else p
