-- ===== src/Pipeline/Client.antt =====
-- The reports of the client and the speech control (latency_lab/pipeline.py): `client_event`,
-- `_apply_speech_control`, `announce`, the begin of a phrase of the policy and the end of a call; and every event.
use sales_girl_voice_agent.Common.{
  ℕ, zero, suc, Bool, true, false, ◌&&◌, ◌||◌, not, Option, none, some, List, [], ◌∷◌, Text, length,
  is_some, is_empty, strip, if◌then◌else◌,
}
use sales_girl_voice_agent.Engagement.State.{PipeState, idle, playing, releasing, ended}
use sales_girl_voice_agent.Engagement.Opportunity.{is_speakable}
use sales_girl_voice_agent.Pipeline.State.{
  TurnId, proactive, is_turn, Attempt, finishes, announces, stop_tts, Config, Pipeline, emit,
  transition, change_attempt, current, close_turn,
}
use sales_girl_voice_agent.Pipeline.Attempts.{
  chunk_arrives, answer_grows, generation_done, cancel_attempt, or_turn,
}
use sales_girl_voice_agent.Pipeline.Transcript.{
  Judge, on_partial, stable_after_delay, respond_after_reply_grace, on_final, text_message,
}
use sales_girl_voice_agent.Pipeline.Voice.{audio, final_timeout, on_stt_final_unavailable}

unfoldable pub tts_start : Pipeline → Pipeline
tts_start p = transition playing p

abbrev pub has_work : Option Attempt → Bool
has_work none = false
has_work (some a) = not a.audio_complete && not a.cancelled

abbrev pub finish_of : Option TurnId → Pipeline → Pipeline
finish_of none p = p
finish_of (some t) p = emit (finishes t false) p

unfoldable pub tts_stop : Config → Pipeline → Pipeline
tts_stop c p =
    let p' = transition idle (close_turn p.turn_id (finish_of p.turn_id p)) in
    if c.engagement_enabled && has_work (current p)
    then transition releasing p
    else record p' { turn_id = none; attempt = none }

abbrev pub not_cancelled : Option Attempt → Bool
not_cancelled none = false
not_cancelled (some a) = not a.cancelled

unfoldable pub tts_segment_stop : Pipeline → Pipeline
tts_segment_stop p = if not_cancelled (current p) then transition releasing p else p

-- The model's call of `set_speech_enabled`, as its attempt keeps it.
unfoldable pub control_chosen : ℕ → Pipeline → Pipeline
control_chosen k p = change_attempt (λ a. record a { speech_control = true }) k p

abbrev pub no_answer : Attempt → Attempt
no_answer a = record a { answer = []; held_audio = []; speech_control_applied = true }

abbrev pub may_apply : Attempt → Pipeline → Bool
may_apply a p =
    a.speech_control
    && not a.speech_control_applied
    && a.authorized
    && not a.cancelled
    && is_turn p.turn_id (some a.turn_id)

-- `enabled` is none where the arguments are refused.
abbrev pub applied : Option Bool → ℕ → Pipeline → Pipeline
applied none k p = change_attempt no_answer k p
applied (some enabled) k p =
    let p' = change_attempt no_answer k (record p { speech_enabled = enabled }) in
    if enabled then p' else emit stop_tts p'

abbrev pub on_control : Option Bool → Option Attempt → Pipeline → Pipeline
on_control enabled none p = p
on_control enabled (some a) p = if may_apply a p then applied enabled a.id p else p

unfoldable pub apply_speech_control : Option Bool → Pipeline → Pipeline
apply_speech_control enabled p = on_control enabled (current p) p

-- `_play_engagement` where no attempt is current: an attempt of its own, authorized, with a fresh turn.
unfoldable pub play_engagement : Pipeline → Pipeline
play_engagement p =
    let a : Attempt = record {
      id = length p.attempts;
      hypothesis = [];
      speculative = false;
      authorized = true;
      cancelled = false;
      answer = [];
      held_audio = [];
      audio_complete = false;
      audio_sent = false;
      response_committed = false;
      speech_control = false;
      speech_control_applied = false;
      turn_id = proactive (length p.attempts);
    } in
    let p' = record p {
      attempts = a ∷ p.attempts;
      attempt = some a.id;
      turn_id = some a.turn_id;
      state = releasing;
    } in
    if not (is_some p.attempt) && is_speakable p.state && not p.speech_candidate_active
    then p'
    else p

abbrev pub withdraw_from : Option ℕ → Pipeline → Pipeline
withdraw_from none p = p
withdraw_from (some k) p = change_attempt (λ a. record a { authorized = false }) k p

-- The end of the session: nothing is heard any more, so that no stop is sent.
unfoldable pub close : Pipeline → Pipeline
unfolding cancel_attempt
close p =
    let p1 = record p { stability = none; final_timeout = none } in
    cancel_attempt false (withdraw_from p1.attempt p1)

abbrev pub is_ended : PipeState → Bool
is_ended ended = true
is_ended _ = false

-- A line of the application: an authorized attempt on the turn that is open or was the last, whatever
-- the state. It is never the current one, so that nothing cancels it.
unfoldable pub announce : Text → Pipeline → Pipeline
unfolding strip
announce text p =
    let q = record p { announcements = or_turn p.turn_id p.turn_number ∷ p.announcements } in
    if is_empty (strip text) || is_ended p.state then p else if not p.speech_enabled then p else q

abbrev pub nth : ℕ → List TurnId → Option TurnId
nth k [] = none
nth zero (t ∷ ts) = some t
nth (suc k) (t ∷ ts) = nth k ts

abbrev pub on_announced : Option TurnId → ℕ → Pipeline → Pipeline
on_announced none ch p = p
on_announced (some t) ch p = if not p.speech_enabled then p else emit (announces t ch) p

-- A chunk of an announcement comes from the synthesizer.
unfoldable pub announce_chunk : ℕ → ℕ → Pipeline → Pipeline
announce_chunk k ch p = on_announced (nth k p.announcements) ch p

pub data Event : Type 0 where
  frame : List ℕ → Event
  partial : Text → Event
  stable : Event
  final : Text → Event
  final_missing : Event
  final_late : Event
  grace_over : Event
  typed_text : Text → Event
  chunk : ℕ → ℕ → Event
  piece : ℕ → Text → Event
  generated : ℕ → Event
  control : ℕ → Event
  control_applies : Option Bool → Event
  policy_speaks : Event
  announcement : Text → Event
  announced : ℕ → ℕ → Event
  playback_starts : Event
  playback_stops : Event
  segment_stops : Event
  call_ends : Event
  disconnects : Event

module _ (c : Config) (j : Judge) where
  unfoldable pub step : Event → Pipeline → Pipeline
  step (frame pcm) p = audio c j pcm p
  step (partial text) p = on_partial c j text p
  step stable p = stable_after_delay c j p
  step (final text) p = on_final c j text p
  step final_missing p = on_stt_final_unavailable p
  step final_late p = final_timeout p
  step grace_over p = respond_after_reply_grace c j p
  step (typed_text text) p = text_message c j text p
  step (chunk k n) p = chunk_arrives k n p
  step (piece k text) p = answer_grows k text p
  step (generated k) p = generation_done c k p
  step (control k) p = control_chosen k p
  step (control_applies enabled) p = apply_speech_control enabled p
  step policy_speaks p = play_engagement p
  step (announcement text) p = announce text p
  step (announced k ch) p = announce_chunk k ch p
  step playback_starts p = tts_start p
  step playback_stops p = tts_stop c p
  step segment_stops p = tts_segment_stop p
  step call_ends p = record p { call_ending = true }
  step disconnects p = close p

  unfoldable pub run : List Event → Pipeline → Pipeline
  unfolding step
  run [] p = p
  run (ev ∷ evs) p = run evs (step ev p)
