-- ===== src/Pipeline/Steps.antt =====
-- Every event of the pipeline (latency_lab/pipeline.py) keeps what holds between the events.
use sales_girl_voice_agent.Common.{is_empty, strip}
use sales_girl_voice_agent.Common.{
  ℕ, ◌≡◌, refl, sym, ap, ◌∙◌, Bool, true, false, ◌&&◌, ◌||◌, not, Option, none, some, List, [], ◌∷◌,
  ◌++◌, arith, length, if◌then◌else◌, is_some,
}
use sales_girl_voice_agent.Engagement.State.{PipeState, idle, recovering_stt, playing, releasing}
use sales_girl_voice_agent.Pipeline.State.{announces}
use sales_girl_voice_agent.Pipeline.Attempts.{or_turn}
use sales_girl_voice_agent.Pipeline.State.{
  TurnId, proactive, Attempt, finishes, stop_tts, tts_end, stt_recover, Config, Pipeline, find,
  emit, change_attempt, current, transition,
}
use sales_girl_voice_agent.Pipeline.Attempts.{cancel_attempt}
use sales_girl_voice_agent.Pipeline.Base.{BaseOf, IsMild, current_turn, emit-Base}
use sales_girl_voice_agent.Pipeline.Quiet.{
  Quiet, still, then_quiet, if-Quiet, emit-Quiet, change-Quiet, mild,
}
use sales_girl_voice_agent.Pipeline.Transcript.{Judge, is_awaiting}
use sales_girl_voice_agent.Pipeline.State.{is_turn, clear_speech_candidate}
use sales_girl_voice_agent.Pipeline.Turns.{
  Inv, is_listening, Quiet-Inv, Cancels-Inv, cancel_attempt-Cancels,
}
use sales_girl_voice_agent.Pipeline.Replies.{if-Inv, on_final-Inv, respond_after_reply_grace-Inv}
use sales_girl_voice_agent.Pipeline.Voice.{on_timeout, final_timeout, on_stt_final_unavailable}
use sales_girl_voice_agent.Pipeline.State.{close_turn, new_pipeline}
use sales_girl_voice_agent.Pipeline.Attempts.{
  answer_grows, generation_done, on_done, commit_attempt_text,
}
use sales_girl_voice_agent.Pipeline.Quiet.{commit_attempt_text-Quiet}
use sales_girl_voice_agent.Pipeline.Turns.{chunk_arrives-Inv}
use sales_girl_voice_agent.Pipeline.Listening.{
  leave, forget_candidate, close_turn-Quiet, on_partial-Inv, stable_after_delay-Inv,
  text_message-Inv,
}
use sales_girl_voice_agent.Pipeline.Hearing.{audio-Inv}
use sales_girl_voice_agent.Engagement.Opportunity.{is_speakable}
use sales_girl_voice_agent.Pipeline.Client.{
  announce, announce_chunk, on_announced, nth, is_ended, announcement, announced, withdraw_from,
  tts_start, tts_stop, has_work, finish_of, tts_segment_stop, not_cancelled, control_chosen,
  no_answer, may_apply, applied, on_control, apply_speech_control, play_engagement, close, Event,
  step, run, frame, partial, stable, final, final_missing, final_late, grace_over, typed_text,
  chunk, piece, generated, control, control_applies, policy_speaks, playback_starts, playback_stops,
  segment_stops, call_ends, disconnects,
}
use sales_girl_voice_agent.Pipeline.Turns.{added-Base}
use sales_girl_voice_agent.Pipeline.Replies.{base-Inv}

-- The current attempt is dropped with its turn, and the state rests.
rest-Inv :
    (p : Pipeline)
    → p.turn_id ≡ none
    → current_turn p.attempt p.attempts ≡ none
    → p.state ≡ idle
    → BaseOf p
    → Inv p
rest-Inv p t h s b = (b, λ y. h, λ y. absurd (busy p.state s y))
  where
    busy : (s : PipeState) → s ≡ idle → is_listening s ≡ true → ⊥
    busy s e y = let x : is_listening idle ≡ true = ap is_listening (sym e) ∙ y in ground (arith, x)

final_timeout-Inv : (p : Pipeline) → Inv p → Inv (final_timeout p)
unfolding final_timeout
final_timeout-Inv p v = go p.final_timeout
  where
    go : (o : Option (Option TurnId)) → Inv (on_timeout o p)
    go none = v
    go (some turn) =
        let p1 = record p { final_timeout = none } in
        let q = cancel_attempt false p1 in
        let f = cancel_attempt-Cancels false p1 in
        let p2 = emit stt_recover (transition recovering_stt q) in
        let p3 = close_turn p2.turn_id (transition idle p2) in
        let g = close_turn-Quiet p2.turn_id (transition idle p2) in
        let r = record p3 { turn_id = none } in
        let b2 : BaseOf p2 =
          emit-Base stt_recover (transition recovering_stt q) tt tt (f.base v.0) in
        let none3 = g.current ∙ f.none_left in
        if-Inv (not (is_turn p.turn_id turn) || not (is_awaiting p.state)) p1 r v
          (rest-Inv r refl none3 g.state (leave p3 none p3.attempt none3 (g.base b2)))

missing-Inv : (p : Pipeline) → Inv p → Inv (on_stt_final_unavailable p)
unfolding on_stt_final_unavailable
missing-Inv p v =
    let p1 = transition recovering_stt (record p { final_timeout = none }) in
    let q = cancel_attempt false p1 in
    let f = cancel_attempt-Cancels false p1 in
    let e = emit stt_recover q in
    let p2 = close_turn p.turn_id e in
    let g = close_turn-Quiet p.turn_id e in
    let none2 = g.current ∙ f.none_left in
    let b2 : BaseOf p2 = g.base (emit-Base stt_recover q tt tt (f.base v.0)) in
    let p3 = record p2 { turn_id = none; last_partial = []; final_text = []; turn_pcm = 0 } in
    let b3 : BaseOf p3 = leave p2 none p2.attempt none2 b2 in
    let r = transition idle (clear_speech_candidate p3) in
    if-Inv (is_awaiting p.state) r p (rest-Inv r refl none2 refl (forget_candidate p3 b3)) v

module _ (c : Config) (j : Judge) where
  generation_done-Quiet : (k : ℕ) (p : Pipeline) → Quiet p (generation_done c k p)
  unfolding generation_done
  generation_done-Quiet k p = go (find k p.attempts)
    where
      done : Attempt → Attempt
      done a = record a { audio_complete = true }

      go : (o : Option Attempt) → Quiet p (on_done c o p)
      go none = still p
      go (some a) =
          let q = change_attempt (λ a. record a { audio_complete = true }) a.id p in
          let r = commit_attempt_text c a q in
          let f =
            change-Quiet (λ a. record a { audio_complete = true }) a.id p
              (mild (λ a. record a { audio_complete = true }) (λ a. refl) (λ a. refl)
                (λ a. refl)) in
          if-Quiet a.cancelled p q (if a.authorized then emit tts_end r else q) f (
            if-Quiet a.authorized p (emit tts_end r) q
              (then_quiet p q (emit tts_end r) f (
                then_quiet q r (emit tts_end r) (commit_attempt_text-Quiet c a q)
                  (emit-Quiet tts_end r tt)))
              f)

  tts_stop-Inv : (p : Pipeline) → Inv p → Inv (tts_stop c p)
  unfolding tts_stop
  tts_stop-Inv p v =
      let q = finish_of p.turn_id p in
      let p1 = close_turn p.turn_id q in
      let r = record (transition idle p1) { turn_id = none; attempt = none } in
      let b1 = (close_turn-Quiet p.turn_id q).base ((finish_of-Quiet p.turn_id p).base v.0) in
      if-Inv (c.engagement_enabled && has_work (current p)) (transition releasing p) r
        (base-Inv (transition releasing p) v.0 refl refl)
        (rest-Inv r refl refl refl (leave p1 none none refl b1))
    where
      finish_of-Quiet : (t : Option TurnId) (p : Pipeline) → Quiet p (finish_of t p)
      finish_of-Quiet none p = still p
      finish_of-Quiet (some t) p = emit-Quiet (finishes t false) p tt

  segment-Inv : (p : Pipeline) → Inv p → Inv (tts_segment_stop p)
  unfolding tts_segment_stop
  segment-Inv p v =
      if-Inv (not_cancelled (current p)) (transition releasing p) p
        (base-Inv (transition releasing p) v.0 refl refl) v

  control-Inv :
      (enabled : Option Bool) (p : Pipeline) → Inv p → Inv (apply_speech_control enabled p)
  unfolding apply_speech_control
  control-Inv enabled p v = go (current p)
    where
      refuses : (q : Pipeline) (k : ℕ) → Quiet q (change_attempt no_answer k q)
      refuses q k = change-Quiet no_answer k q (mild no_answer (λ a. refl) (λ a. refl) (λ a. refl))

      applies : (o : Option Bool) (k : ℕ) → Inv (applied o k p)
      applies none k = Quiet-Inv p (change_attempt no_answer k p) (refuses p k) v
      applies (some on) k =
          let q = record p { speech_enabled = on } in
          let r = change_attempt no_answer k q in
          let w = Quiet-Inv q r (refuses q k) v in
          if-Inv on r (emit stop_tts r) w
            (Quiet-Inv r (emit stop_tts r) (emit-Quiet stop_tts r tt) w)

      go : (o : Option Attempt) → Inv (on_control enabled o p)
      go none = v
      go (some a) = if-Inv (may_apply a p) (applied enabled a.id p) p (applies enabled a.id) v

  policy-Inv : (p : Pipeline) → Inv p → Inv (play_engagement p)
  unfolding play_engagement
  policy-Inv p v =
      let a : Attempt = record {
        id = length p.attempts;
        hypothesis = [];
        speculative = false;
        authorized = true;
        cancelled = false;
        answer = [];
        held_audio = [];
        audio_complete = false;
        audio_sent = false;
        response_committed = false;
        speech_control = false;
        speech_control_applied = false;
        turn_id = proactive (length p.attempts);
      } in
      let q = record p { turn_id = some a.turn_id; attempt = none } in
      let r = record q { attempts = a ∷ p.attempts; attempt = some a.id; state = releasing } in
      if-Inv (not (is_some p.attempt) && is_speakable p.state && not p.speech_candidate_active) r p
        (base-Inv r (added-Base a q refl refl (λ y. tt) (leave p (some a.turn_id) none refl v.0))
          refl refl)
        v

  close-Inv : (p : Pipeline) → Inv p → Inv (close p)
  unfolding close
  close-Inv p v = go p.attempt
    where
      p1 : Pipeline
      p1 = record p { stability = none; final_timeout = none }

      withdraw : Attempt → Attempt
      withdraw a = record a { authorized = false }

      withdrawn : IsMild (λ a. record a { authorized = false })
      withdrawn = record {
        id = λ a. refl;
        turn = λ a. refl;
        authorizes = λ a h. absurd (ground (arith, h));
      }

      cancels : (q : Pipeline) → Inv q → Inv (cancel_attempt false q)
      cancels q w = Cancels-Inv q (cancel_attempt false q) (cancel_attempt-Cancels false q) w

      go : (o : Option ℕ) → Inv (cancel_attempt false (withdraw_from o p1))
      go none = cancels p1 v
      go (some k) =
          let q = change_attempt (λ a. record a { authorized = false }) k p1 in
          cancels q
            (Quiet-Inv p1 q (change-Quiet (λ a. record a { authorized = false }) k p1 withdrawn) v)

  announced-Inv : (k ch : ℕ) (p : Pipeline) → Inv p → Inv (announce_chunk k ch p)
  unfolding announce_chunk
  announced-Inv k ch p v = go (nth k p.announcements)
    where
      go : (o : Option TurnId) → Inv (on_announced o ch p)
      go none = v
      go (some t) =
          let q = emit (announces t ch) p in
          if-Inv (not p.speech_enabled) p q v (Quiet-Inv p q (emit-Quiet (announces t ch) p tt) v)

  step-Inv : (ev : Event) (p : Pipeline) → Inv p → Inv (step c j ev p)
  unfolding step announce answer_grows control_chosen tts_start
  step-Inv (frame pcm) p v = audio-Inv c j pcm p v
  step-Inv (partial text) p v = on_partial-Inv c j text p v
  step-Inv stable p v = stable_after_delay-Inv c j p v
  step-Inv (final text) p v = on_final-Inv c j text p v
  step-Inv final_missing p v = missing-Inv p v
  step-Inv final_late p v = final_timeout-Inv p v
  step-Inv grace_over p v = respond_after_reply_grace-Inv c j p v
  step-Inv (typed_text text) p v = text_message-Inv c j text p v
  step-Inv (chunk k n) p v = chunk_arrives-Inv k n p v
  step-Inv (piece k text) p v =
      Quiet-Inv p _
        (change-Quiet (λ a. record a { answer = a.answer ++ text }) k p
          (mild (λ a. record a { answer = a.answer ++ text }) (λ a. refl) (λ a. refl) (λ a. refl)))
        v
  step-Inv (generated k) p v = Quiet-Inv p (generation_done c k p) (generation_done-Quiet k p) v
  step-Inv (control k) p v =
      Quiet-Inv p _
        (change-Quiet (λ a. record a { speech_control = true }) k p
          (mild (λ a. record a { speech_control = true }) (λ a. refl) (λ a. refl) (λ a. refl)))
        v
  step-Inv (control_applies enabled) p v = control-Inv enabled p v
  step-Inv policy_speaks p v = policy-Inv p v
  step-Inv (announcement text) p v =
      let q = record p { announcements = or_turn p.turn_id p.turn_number ∷ p.announcements } in
      if-Inv (is_empty (strip text) || is_ended p.state) p (if not p.speech_enabled then p else q) v
        (if-Inv (not p.speech_enabled) p q v v)
  step-Inv (announced k ch) p v = announced-Inv k ch p v
  step-Inv playback_starts p v = base-Inv (transition playing p) v.0 refl refl
  step-Inv playback_stops p v = tts_stop-Inv p v
  step-Inv segment_stops p v = segment-Inv p v
  step-Inv call_ends p v = v
  step-Inv disconnects p v = close-Inv p v

  pub run-Inv : (evs : List Event) (p : Pipeline) → Inv p → Inv (run c j evs p)
  unfolding run
  run-Inv [] p v = v
  run-Inv (ev ∷ evs) p v = run-Inv evs (step c j ev p) (step-Inv ev p v)

pub new-Inv : Inv new_pipeline
new-Inv = (
  record {
    fresh = refl;
    bounded = λ n h. absurd (ground (arith, h));
    ordered = tt;
    reply = tt;
    authorized = tt;
    owned = λ t h. absurd (nothing t h);
  },
  λ h. refl,
  λ h. absurd (ground (arith, h)),
)
  where
    nothing : (t : TurnId) → ◌≡◌ {A = Option TurnId} none (some t) → ⊥
    nothing t y = cc
