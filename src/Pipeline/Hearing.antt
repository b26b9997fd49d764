-- ===== src/Pipeline/Hearing.antt =====
-- The caller's voice (latency_lab/pipeline.py) keeps what holds between the events.
use sales_girl_voice_agent.Common.{
  ℕ, ◌+◌, ◌≡◌, refl, sym, ap, ◌∙◌, Bool, true, false, ◌&&◌, ◌||◌, Option, none, some, List, arith,
  Text, length, if◌then◌else◌, leb,
}
use sales_girl_voice_agent.Engagement.State.{PipeState, idle, awaiting_final, playing, releasing}
use sales_girl_voice_agent.Engagement.Opportunity.{is_idle}
use sales_girl_voice_agent.Pipeline.State.{stt_commit, stt_recover, Config, Pipeline, emit}
use sales_girl_voice_agent.Pipeline.Attempts.{cancel_attempt}
use sales_girl_voice_agent.Pipeline.Voice.{or_next}
use sales_girl_voice_agent.Pipeline.Base.{BaseOf, current_turn}
use sales_girl_voice_agent.Pipeline.Quiet.{emit-Quiet}
use sales_girl_voice_agent.Pipeline.Transcript.{Judge, is_voice_state}
use sales_girl_voice_agent.Pipeline.State.{clear_speech_candidate}
use sales_girl_voice_agent.Pipeline.Turns.{Inv, is_resting, Quiet-Inv, cancel_attempt-Cancels}
use sales_girl_voice_agent.Pipeline.Replies.{if-Inv}
use sales_girl_voice_agent.Pipeline.Voice.{
  interrupted, open_turn, replay, speech_started, speech_ended, begin_candidate, voiced_over,
  voiced_within, candidate_over, silent_within, audio, is_voiced, is_open_state, is_reply_state,
  is_recovering,
}
use sales_girl_voice_agent.Pipeline.State.{close_turn}
use sales_girl_voice_agent.Pipeline.Listening.{
  close_turn-Quiet, forget_candidate, if_then-Inv, voice-listening, open_turn-Inv, on_partial-Inv,
}

record Settled (p p' : Pipeline) : Type 0 where
  base : BaseOf p'
  none_left : current_turn p'.attempt p'.attempts ≡ none
  number : p'.turn_number ≡ p.turn_number

if_else-Settled :
    (b : Bool) (o p q : Pipeline)
    → Settled o p
    → (b ≡ false → Settled o q)
    → Settled o (if b then p else q)
if_else-Settled true o p q v w = v
if_else-Settled false o p q v w = w refl

module _ (c : Config) (j : Judge) where
  -- Speech over a reply, and speech at rest, leave no current attempt.
  interrupted-Settled :
      (p : Pipeline) → is_open_state p.state ≡ true → Inv p → Settled p (interrupted c j p)
  interrupted-Settled p o (b, r, l) =
      if_else-Settled (is_reply_state p.state) p (close_turn p.turn_id (cancel_attempt false p)) p
        closed (λ n. record { base = b; none_left = r (resting p.state o n); number = refl })
    where
      closed : Settled p (close_turn p.turn_id (cancel_attempt false p))
      closed =
          let f = cancel_attempt-Cancels false p in
          let g = close_turn-Quiet p.turn_id (cancel_attempt false p) in
          record {
            base = g.base (f.base b);
            none_left = g.current ∙ f.none_left;
            number = g.number ∙ f.number;
          }

      resting :
          (s : PipeState) → is_open_state s ≡ true → is_reply_state s ≡ false → is_resting s ≡ true
      resting idle h n = refl
      resting playing h n = ground arith
      resting releasing h n = ground arith
      resting _ h n = ground arith

  replay-Inv : (o : Option Text) (p : Pipeline) → Inv p → Inv (replay c j o p)
  replay-Inv none p v = v
  replay-Inv (some text) p v = on_partial-Inv c j text p v

  speech_started-Inv :
      (p : Pipeline) → is_open_state p.state ≡ true → Inv p → Inv (speech_started c j p)
  unfolding speech_started
  speech_started-Inv p o v =
      let t = or_next p.candidate_turn_id p.turn_number in
      let q = open_turn c j t (interrupted c j p) in
      let f = interrupted-Settled p o v in
      if-Inv p.call_ending (clear_speech_candidate p) (replay c j p.preconfirm_partial q)
        (forget_candidate p v.0, v.1, v.2)
        (replay-Inv p.preconfirm_partial q (
          open_turn-Inv c j t (interrupted c j p) (v.0.fresh ∙ ap (λ n. n + 1) (sym f.number))
            f.none_left f.base))

  speech_ended-Inv : (p : Pipeline) → Inv p → Inv (speech_ended c j p)
  unfolding speech_ended
  speech_ended-Inv p (b, r, l) =
      let q = record p {
        state = awaiting_final;
        speech_ms = 0;
        silence_ms = 0;
        silence_candidate = false;
        turn_pcm = 0;
        final_timeout = some p.turn_id;
      } in
      if_then-Inv (is_voice_state p.state) (emit (stt_commit p.turn_pcm) q) p
        (λ w.
          Quiet-Inv q (emit (stt_commit p.turn_pcm) q) (emit-Quiet (stt_commit p.turn_pcm) q tt)
            (b, λ h. absurd (ground (arith, h)), λ h. l (voice-listening p.state w)))
        (b, r, l)

  begin_candidate-Inv : (p : Pipeline) → Inv p → Inv (begin_candidate c j p)
  begin_candidate-Inv p (b, r, l) =
      if-Inv p.speech_candidate_active p
        (record p {
          turn_pcm = 0;
          speech_candidate_active = true;
          candidate_turn_id = some (p.turn_number + 1);
          speech_ms = 0;
        })
        (b, r, l)
        (
          record {
            fresh = refl;
            bounded = b.bounded;
            ordered = b.ordered;
            reply = b.reply;
            authorized = b.authorized;
            owned = b.owned;
          },
          r,
          l,
        )

  begin_candidate-state : (p : Pipeline) → (begin_candidate c j p).state ≡ p.state
  begin_candidate-state p = ground arith

  voiced_over-Inv :
      (n : ℕ) (p : Pipeline) → is_open_state p.state ≡ true → Inv p → Inv (voiced_over c j n p)
  voiced_over-Inv n p o v =
      let p0 = begin_candidate c j p in
      let q = record p0 { turn_pcm = p0.turn_pcm + n; speech_ms = p0.speech_ms + n } in
      let w = begin_candidate-Inv p v in
      if-Inv (leb c.min_speech_ms q.speech_ms) (speech_started c j q) q
        (speech_started-Inv q (ap is_open_state (begin_candidate-state p) ∙ o) w) w

  candidate_over-Inv : (p : Pipeline) → Inv p → Inv (candidate_over c j p)
  candidate_over-Inv p v =
      let q = clear_speech_candidate (record p { turn_pcm = 0 }) in
      let w : Inv q = (forget_candidate p v.0, v.1, v.2) in
      if-Inv c.uses_sbpn (emit stt_recover q) q
        (Quiet-Inv q (emit stt_recover q) (emit-Quiet stt_recover q tt) w) w

  silent_within-Inv : (n : ℕ) (p : Pipeline) → Inv p → Inv (silent_within c j n p)
  silent_within-Inv n p v =
      let q = record p {
        turn_pcm = p.turn_pcm + n;
        silence_candidate = true;
        silence_ms = p.silence_ms + n;
      } in
      if-Inv (leb c.end_silence_ms q.silence_ms) (speech_ended c j q) q (speech_ended-Inv q v) v

  pub audio-Inv : (pcm : List ℕ) (p : Pipeline) → Inv p → Inv (audio c j pcm p)
  unfolding audio
  audio-Inv pcm p v =
      let n = length pcm in
      let over = voiced_over c j n p in
      let within = voiced_within c j n p in
      let last = if is_idle p.state then record p { speech_ms = 0 } else p in
      let silent = if is_voice_state p.state then silent_within c j n p else last in
      let quiet =
        if p.speech_candidate_active && is_open_state p.state
        then candidate_over c j p
        else silent in
      let voiced = if is_open_state p.state then over else within in
      if-Inv (p.handoff || is_recovering p.state) p
        (if is_voiced c.speech_rms pcm then voiced else quiet) v
        (if-Inv (is_voiced c.speech_rms pcm) voiced quiet
          (if_then-Inv (is_open_state p.state) over within (λ o. voiced_over-Inv n p o v) v)
          (if-Inv (p.speech_candidate_active && is_open_state p.state) (candidate_over c j p) silent
            (candidate_over-Inv p v)
            (if-Inv (is_voice_state p.state) (silent_within c j n p) last (silent_within-Inv n p v)
              (if-Inv (is_idle p.state) (record p { speech_ms = 0 }) p v v))))
