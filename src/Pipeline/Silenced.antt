-- ===== src/Pipeline/Silenced.antt =====
-- Over any events of the pipeline (latency_lab/pipeline.py) a cancelled attempt stays silent.
use sales_girl_voice_agent.Common.{
  ℕ, ◌+◌, ◌≡◌, refl, Bool, true, false, ◌&&◌, ◌||◌, Option, none, some, List, [], ◌∷◌, ◌++◌, arith,
  Text, length, leb, if◌then◌else◌,
}
use sales_girl_voice_agent.Engagement.State.{releasing, awaiting_final}
use sales_girl_voice_agent.Engagement.Opportunity.{is_idle}
use sales_girl_voice_agent.Pipeline.State.{TurnId, announces}
use sales_girl_voice_agent.Common.{is_empty, strip, not}
use sales_girl_voice_agent.Pipeline.Attempts.{or_turn}
use sales_girl_voice_agent.Pipeline.State.{
  stt_commit, stt_recover, Config, Pipeline, find, emit, current, transition, close_turn,
  clear_speech_candidate, new_pipeline,
}
use sales_girl_voice_agent.Pipeline.Attempts.{cancel_attempt, answer_grows}
use sales_girl_voice_agent.Pipeline.Transcript.{Judge, is_voice_state}
use sales_girl_voice_agent.Pipeline.Voice.{
  interrupted, open_turn, or_next, replay, speech_started, speech_ended, begin_candidate,
  voiced_over, voiced_within, candidate_over, silent_within, audio, is_voiced, is_open_state,
  is_reply_state, is_recovering,
}
use sales_girl_voice_agent.Pipeline.Client.{
  announce, announce_chunk, on_announced, nth, is_ended, announcement, announced, tts_start,
  tts_segment_stop, not_cancelled, control_chosen, Event, step, run, frame, partial, stable, final,
  final_missing, final_late, grace_over, typed_text, chunk, piece, generated, control,
  control_applies, policy_speaks, playback_starts, playback_stops, segment_stops, call_ends,
  disconnects,
}
use sales_girl_voice_agent.Pipeline.Hush.{chunks, is_cut, Hush, if-Hush, change-Hush}
use sales_girl_voice_agent.Pipeline.Hush.Attempts.{
  chunk_arrives-Hush, generation_done-Hush, cancel_attempt-Hush,
}
use sales_girl_voice_agent.Pipeline.Hush.Turns.{
  close_turn-Hush, final_timeout-Hush, missing-Hush, tts_stop-Hush, control-Hush,
  play_engagement-Hush, close-Hush, on_partial-Hush, stable-Hush, grace-Hush, on_final-Hush,
  text_message-Hush,
}

module _ (on : Bool) (k n : ℕ) (c : Config) (j : Judge) where
  replay-Hush : (o : Option Text) (p : Pipeline) → Hush on k n p → Hush on k n (replay c j o p)
  replay-Hush none p v = v
  replay-Hush (some text) p v = on_partial-Hush on k n c j text p v

  speech_started-Hush : (p : Pipeline) → Hush on k n p → Hush on k n (speech_started c j p)
  unfolding speech_started
  speech_started-Hush p v =
      let r = cancel_attempt false p in
      let q = interrupted c j p in
      let w =
        if-Hush on k n (is_reply_state p.state) (close_turn p.turn_id r) p
          (close_turn-Hush on k n p.turn_id r (cancel_attempt-Hush on k n false p v)) v in
      let o = open_turn c j (or_next p.candidate_turn_id p.turn_number) q in
      if-Hush on k n p.call_ending (clear_speech_candidate p) (replay c j p.preconfirm_partial o) v
        (replay-Hush p.preconfirm_partial o w)

  speech_ended-Hush : (p : Pipeline) → Hush on k n p → Hush on k n (speech_ended c j p)
  unfolding speech_ended
  speech_ended-Hush p v =
      let q = record p {
        state = awaiting_final;
        speech_ms = 0;
        silence_ms = 0;
        silence_candidate = false;
        turn_pcm = 0;
        final_timeout = some p.turn_id;
      } in
      if-Hush on k n (is_voice_state p.state) (emit (stt_commit p.turn_pcm) q) p v v

  voiced_over-Hush : (m : ℕ) (p : Pipeline) → Hush on k n p → Hush on k n (voiced_over c j m p)
  voiced_over-Hush m p v =
      let p0 = begin_candidate c j p in
      let q = record p0 { turn_pcm = p0.turn_pcm + m; speech_ms = p0.speech_ms + m } in
      let w : Hush on k n p0 = if-Hush on k n p.speech_candidate_active p _ v v in
      if-Hush on k n (leb c.min_speech_ms q.speech_ms) (speech_started c j q) q
        (speech_started-Hush q w) w

  audio-Hush : (pcm : List ℕ) (p : Pipeline) → Hush on k n p → Hush on k n (audio c j pcm p)
  unfolding audio
  audio-Hush pcm p v =
      let m = length pcm in
      let over = voiced_over c j m p in
      let within = voiced_within c j m p in
      let last = if is_idle p.state then record p { speech_ms = 0 } else p in
      let silent = if is_voice_state p.state then silent_within c j m p else last in
      let quiet =
        if p.speech_candidate_active && is_open_state p.state
        then candidate_over c j p
        else silent in
      let voiced = if is_open_state p.state then over else within in
      let cleared = clear_speech_candidate (record p { turn_pcm = 0 }) in
      let waits = record p {
        turn_pcm = p.turn_pcm + m;
        silence_candidate = true;
        silence_ms = p.silence_ms + m;
      } in
      if-Hush on k n (p.handoff || is_recovering p.state) p
        (if is_voiced c.speech_rms pcm then voiced else quiet) v
        (if-Hush on k n (is_voiced c.speech_rms pcm) voiced quiet
          (if-Hush on k n (is_open_state p.state) over within (voiced_over-Hush m p v) v)
          (if-Hush on k n (p.speech_candidate_active && is_open_state p.state)
            (candidate_over c j p) silent
            (if-Hush on k n c.uses_sbpn (emit stt_recover cleared) cleared v v)
            (if-Hush on k n (is_voice_state p.state) (silent_within c j m p) last
              (if-Hush on k n (leb c.end_silence_ms waits.silence_ms) (speech_ended c j waits) waits
                (speech_ended-Hush waits v) v)
              (if-Hush on k n (is_idle p.state) (record p { speech_ms = 0 }) p v v))))

  announced-Hush : (i ch : ℕ) (p : Pipeline) → Hush on k n p → Hush on k n (announce_chunk i ch p)
  unfolding announce_chunk
  announced-Hush i ch p v = go (nth i p.announcements)
    where
      go : (o : Option TurnId) → Hush on k n (on_announced o ch p)
      go none = v
      go (some t) = if-Hush on k n (not p.speech_enabled) p (emit (announces t ch) p) v v

  step-Hush : (ev : Event) (p : Pipeline) → Hush on k n p → Hush on k n (step c j ev p)
  unfolding step announce tts_start tts_segment_stop control_chosen answer_grows
  step-Hush (frame pcm) p v = audio-Hush pcm p v
  step-Hush (partial text) p v = on_partial-Hush on k n c j text p v
  step-Hush stable p v = stable-Hush on k n c j p v
  step-Hush (final text) p v = on_final-Hush on k n c j text p v
  step-Hush final_missing p v = missing-Hush on k n p v
  step-Hush final_late p v = final_timeout-Hush on k n p v
  step-Hush grace_over p v = grace-Hush on k n c j p v
  step-Hush (typed_text text) p v = text_message-Hush on k n c j text p v
  step-Hush (chunk i ch) p v = chunk_arrives-Hush on k n i ch p v
  step-Hush (piece i text) p v =
      change-Hush on k n (λ a. record a { answer = a.answer ++ text }) i p (λ a. refl) (λ a y. y) v
  step-Hush (generated i) p v = generation_done-Hush on k n c i p v
  step-Hush (control i) p v =
      change-Hush on k n (λ a. record a { speech_control = true }) i p (λ a. refl) (λ a y. y) v
  step-Hush (control_applies enabled) p v = control-Hush on k n enabled p v
  step-Hush policy_speaks p v = play_engagement-Hush on k n p v
  step-Hush (announcement text) p v =
      let q = record p { announcements = or_turn p.turn_id p.turn_number ∷ p.announcements } in
      if-Hush on k n (is_empty (strip text) || is_ended p.state) p
        (if not p.speech_enabled then p else q) v (if-Hush on k n (not p.speech_enabled) p q v v)
  step-Hush (announced i ch) p v = announced-Hush i ch p v
  step-Hush playback_starts p v = v
  step-Hush playback_stops p v = tts_stop-Hush on k n c p v
  step-Hush segment_stops p v =
      if-Hush on k n (not_cancelled (current p)) (transition releasing p) p v v
  step-Hush call_ends p v = v
  step-Hush disconnects p v = close-Hush on k n p v

  pub run-Hush : (evs : List Event) (p : Pipeline) → Hush on k n p → Hush on k n (run c j evs p)
  unfolding run
  run-Hush [] p v = v
  run-Hush (ev ∷ evs) p v = run-Hush evs (step c j ev p) (step-Hush ev p v)

-- From a new pipeline, over any events: once an attempt is cancelled, none of its audio is sent, whatever
-- comes after.
pub cancelled_stays_silent :
    (c : Config) (j : Judge) (before after : List Event) (k : ℕ)
    → is_cut (find k (run c j before new_pipeline).attempts) ≡ true
    → chunks k (run c j after (run c j before new_pipeline)).log
      ≡ chunks k (run c j before new_pipeline).log
cancelled_stays_silent c j before after k h =
    let p = run c j before new_pipeline in
    let named = run-Hush false k 0 c j before new_pipeline (tt, λ y. absurd (ground (arith, y))) in
    ((run-Hush true k (chunks k p.log) c j after p (named.0, λ _. (h, refl))).1 refl).1
