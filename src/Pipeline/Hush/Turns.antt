-- ===== src/Pipeline/Hush/Turns.antt =====
-- The handlers of texts, timers and the client (latency_lab/pipeline.py) send no audio of a cancelled attempt.
use sales_girl_voice_agent.Common.{
  ℕ, ◌+◌, ◌≡◌, refl, Bool, true, false, ◌&&◌, ◌||◌, not, Option, none, some, [], Text, length,
  text_eq, ltb, if◌then◌else◌, is_empty, strip, is_some,
}
use sales_girl_voice_agent.Engagement.State.{
  idle, releasing, awaiting_final, recovering_stt, speculating,
}
use sales_girl_voice_agent.Engagement.Opportunity.{is_speakable}
use sales_girl_voice_agent.Pipeline.State.{
  TurnId, caller, Attempt, sends_partial, stt_recover, accepts_final, stop_tts, Config, Pipeline,
  emit, change_attempt, current, transition, close_turn, is_turn, clear_speech_candidate,
}
use sales_girl_voice_agent.Pipeline.Attempts.{cancel_attempt, start_attempt, release_held}
use sales_girl_voice_agent.Pipeline.Transcript.{
  Judge, normalize, is_awaiting, is_voice_state, is_releasing, is_closed, revised, on_changed,
  partial_accepted, partial_within, partial_before, on_partial, on_stable, stable_after_delay,
  is_valid, authorize, fresh_reply, on_reply, respond_to_final, on_grace, respond_after_reply_grace,
  reply_to_final, on_open_turn, on_final, typed, text_message, number_of,
}
use sales_girl_voice_agent.Pipeline.Voice.{on_timeout, final_timeout, on_stt_final_unavailable}
use sales_girl_voice_agent.Pipeline.Client.{
  withdraw_from, tts_stop, has_work, finish_of, no_answer, may_apply, applied, on_control,
  apply_speech_control, play_engagement, close,
}
use sales_girl_voice_agent.Pipeline.Hush.{Hush, current-Cut, if-Hush, change-Hush}
use sales_girl_voice_agent.Pipeline.Hush.Attempts.{
  release_held-Hush, cancel_attempt-Hush, added-Hush, start_attempt-Hush,
}

module _ (on : Bool) (k n : ℕ) where
  pub close_turn-Hush :
      (t : Option TurnId) (p : Pipeline) → Hush on k n p → Hush on k n (close_turn t p)
  close_turn-Hush none p v = v
  close_turn-Hush (some t) p v = v

  pub final_timeout-Hush : (p : Pipeline) → Hush on k n p → Hush on k n (final_timeout p)
  unfolding final_timeout
  final_timeout-Hush p v = go p.final_timeout
    where
      go : (o : Option (Option TurnId)) → Hush on k n (on_timeout o p)
      go none = v
      go (some turn) =
          let p1 = record p { final_timeout = none } in
          let p2 = emit stt_recover (transition recovering_stt (cancel_attempt false p1)) in
          let p3 = close_turn p2.turn_id (transition idle p2) in
          if-Hush on k n (not (is_turn p.turn_id turn) || not (is_awaiting p.state)) p1
            (record p3 { turn_id = none }) v
            (close_turn-Hush p2.turn_id (transition idle p2)
              (cancel_attempt-Hush on k n false p1 v))

  pub missing-Hush : (p : Pipeline) → Hush on k n p → Hush on k n (on_stt_final_unavailable p)
  unfolding on_stt_final_unavailable
  missing-Hush p v =
      let p1 = transition recovering_stt (record p { final_timeout = none }) in
      let q = emit stt_recover (cancel_attempt false p1) in
      let p2 = close_turn p.turn_id q in
      let p3 = record p2 { turn_id = none; last_partial = []; final_text = []; turn_pcm = 0 } in
      if-Hush on k n (is_awaiting p.state) (transition idle (clear_speech_candidate p3)) p
        (close_turn-Hush p.turn_id q (cancel_attempt-Hush on k n false p1 v)) v

  pub finish_of-Hush :
      (t : Option TurnId) (p : Pipeline) → Hush on k n p → Hush on k n (finish_of t p)
  finish_of-Hush none p v = v
  finish_of-Hush (some t) p v = v

  pub tts_stop-Hush : (c : Config) (p : Pipeline) → Hush on k n p → Hush on k n (tts_stop c p)
  unfolding tts_stop
  tts_stop-Hush c p v =
      let q = close_turn p.turn_id (finish_of p.turn_id p) in
      if-Hush on k n (c.engagement_enabled && has_work (current p)) (transition releasing p)
        (record q { state = idle; turn_id = none; attempt = none }) v
        (close_turn-Hush p.turn_id (finish_of p.turn_id p) (finish_of-Hush p.turn_id p v))

  pub applied-Hush :
      (enabled : Option Bool) (j : ℕ) (p : Pipeline)
      → Hush on k n p
      → Hush on k n (applied enabled j p)
  applied-Hush none j p v = change-Hush on k n no_answer j p (λ a. refl) (λ a y. y) v
  applied-Hush (some enabled) j p v =
      let q = change_attempt no_answer j (record p { speech_enabled = enabled }) in
      let w =
        change-Hush on k n no_answer j (record p { speech_enabled = enabled }) (λ a. refl)
          (λ a y. y) v in
      if-Hush on k n enabled q (emit stop_tts q) w w

  pub control-Hush :
      (enabled : Option Bool) (p : Pipeline)
      → Hush on k n p
      → Hush on k n (apply_speech_control enabled p)
  unfolding apply_speech_control
  control-Hush enabled p v = go (current p)
    where
      go : (o : Option Attempt) → Hush on k n (on_control enabled o p)
      go none = v
      go (some a) =
          if-Hush on k n (may_apply a p) (applied enabled a.id p) p (applied-Hush enabled a.id p v)
            v

  pub play_engagement-Hush : (p : Pipeline) → Hush on k n p → Hush on k n (play_engagement p)
  unfolding play_engagement
  play_engagement-Hush p v =
      if-Hush on k n
        (not (is_some p.attempt) && is_speakable p.state && not p.speech_candidate_active) _ p
        (added-Hush on k n _ p refl v) v

  pub close-Hush : (p : Pipeline) → Hush on k n p → Hush on k n (close p)
  unfolding close
  close-Hush p v =
      let p1 = record p { stability = none; final_timeout = none } in
      cancel_attempt-Hush on k n false (withdraw_from p1.attempt p1) (go p.attempt)
    where
      go :
          (o : Option ℕ)
          → Hush on k n (withdraw_from o (record p { stability = none; final_timeout = none }))
      go none = v
      go (some j) =
          change-Hush on k n (λ a. record a { authorized = false }) j
            (record p { stability = none; final_timeout = none }) (λ a. refl) (λ a y. y) v

  module _ (c : Config) (j : Judge) where
    pub on_changed-Hush :
        (text : Text) (p : Pipeline) → Hush on k n p → Hush on k n (on_changed c j text p)
    on_changed-Hush text p v =
        if-Hush on k n (revised text (current p)) (cancel_attempt false p) p
          (cancel_attempt-Hush on k n false p v) v

    pub on_partial-Hush :
        (text : Text) (p : Pipeline) → Hush on k n p → Hush on k n (on_partial c j text p)
    unfolding on_partial
    on_partial-Hush text p v =
        let p1 = emit (sends_partial text) (record p { last_partial = text }) in
        let fresh = partial_accepted c j text p in
        let w =
          if-Hush on k n
            (text_eq text p.last_partial || ltb (length (normalize text)) c.stable_min_chars) p1
            (on_changed c j text p1) v (on_changed-Hush text p1 v) in
        let opened = if is_closed p.turn_id p then p else fresh in
        let voice = if not (is_voice_state p.state) then p else opened in
        let within = partial_within c j text p in
        let before = partial_before c j text p in
        let r = if not (is_some p.turn_id) then before else within in
        if-Hush on k n (not (is_empty text) && j.is_echo text) p (if p.call_ending then p else r) v
          (if-Hush on k n p.call_ending p r v (
            if-Hush on k n (not (is_some p.turn_id)) before within
              (if-Hush on k n p.speech_candidate_active
                (record p { preconfirm_partial = some text }) p v v)
              (if-Hush on k n (is_awaiting p.state) p voice v (
                if-Hush on k n (not (is_voice_state p.state)) p opened v
                  (if-Hush on k n (is_closed p.turn_id p) p fresh v w)))))

    pub stable-Hush : (p : Pipeline) → Hush on k n p → Hush on k n (stable_after_delay c j p)
    unfolding stable_after_delay
    stable-Hush p v = go p.stability
      where
        go : (o : Option Text) → Hush on k n (on_stable c j o p)
        go none = v
        go (some text) =
            let p1 = record p { stability = none } in
            let q = transition speculating (start_attempt false text true false p1) in
            if-Hush on k n (not (text_eq text p.last_partial) || not (is_voice_state p.state)) p1
              (if c.engagement_enabled && not p.speech_enabled then p1 else q) v
              (if-Hush on k n (c.engagement_enabled && not p.speech_enabled) p1 q v
                (start_attempt-Hush on k n false text true false p1 v))

    pub respond_to_final-Hush :
        (from_response : Bool) (text : Text) (p : Pipeline)
        → Hush on k n p
        → Hush on k n (respond_to_final c j from_response text p)
    unfolding respond_to_final
    respond_to_final-Hush from_response text p v = go (current p) refl
      where
        go :
            (o : Option Attempt) → current p ≡ o → Hush on k n (on_reply c j from_response text o p)
        go none e = start_attempt-Hush on k n from_response text false true p v
        go (some a) e =
            let q = transition releasing (change_attempt authorize a.id p) in
            let w = change-Hush on k n authorize a.id p (λ a. refl) (λ a y. y) v in
            let held = release_held c (authorize a) q in
            let r = cancel_attempt from_response p in
            if-Hush on k n (is_valid c j text a) (if a.speech_control then q else held)
              (fresh_reply c j from_response text r)
              (if-Hush on k n a.speech_control q held w
                (release_held-Hush on k n c (authorize a) q (current-Cut on k n p a v e) w))
              (start_attempt-Hush on k n from_response text false true r
                (cancel_attempt-Hush on k n from_response p v))

    pub grace-Hush : (p : Pipeline) → Hush on k n p → Hush on k n (respond_after_reply_grace c j p)
    unfolding respond_after_reply_grace
    grace-Hush p v = go p.response
      where
        go : (o : Option (Text × Option TurnId)) → Hush on k n (on_grace c j o p)
        go none = v
        go (some (text, turn)) =
            let p1 = record p { response = none } in
            if-Hush on k n (not (is_turn p.turn_id turn) || not (is_releasing p.state)) p1
              (respond_to_final c j true text p1) v (respond_to_final-Hush true text p1 v)

    pub reply_to_final-Hush :
        (text : Text) (p : Pipeline) → Hush on k n p → Hush on k n (reply_to_final c j text p)
    reply_to_final-Hush text p v =
        let now = respond_to_final c j false text p in
        let waits = transition releasing (record p { response = some (text, p.turn_id) }) in
        let p1 = transition releasing (record p { response = none }) in
        let task = respond_to_final c j true text p1 in
        if-Hush on k n (not c.engagement_enabled) now (if c.grace then waits else task)
          (respond_to_final-Hush false text p v)
          (if-Hush on k n c.grace waits task v (respond_to_final-Hush true text p1 v))

    pub on_final-Hush :
        (text : Text) (p : Pipeline) → Hush on k n p → Hush on k n (on_final c j text p)
    unfolding on_final
    on_final-Hush text p v =
        let r = on_open_turn c j text p.turn_id p in
        if-Hush on k n (not (is_empty text) && j.is_echo text) p (if p.call_ending then p else r) v
          (if-Hush on k n p.call_ending p r v (go p.turn_id))
      where
        go : (o : Option TurnId) → Hush on k n (on_open_turn c j text o p)
        go none = v
        go (some t) =
            let q =
              emit (accepts_final (number_of t) text)
                (record p { final_text = text; final_timeout = none; stability = none }) in
            let accepted = reply_to_final c j text q in
            if-Hush on k n (not (is_awaiting p.state)) p
              (if not (is_empty p.final_text) then p else accepted) v
              (if-Hush on k n (not (is_empty p.final_text)) p accepted v
                (reply_to_final-Hush text q v))

    pub typed-Hush : (text : Text) (p : Pipeline) → Hush on k n p → Hush on k n (typed c j text p)
    typed-Hush text p v =
        let p1 = clear_speech_candidate (cancel_attempt false p) in
        let p2 = record p1 {
          stability = none;
          final_timeout = none;
          turn_number = p1.turn_number + 1;
          turn_id = some (caller (p1.turn_number + 1));
          final_text = [];
          last_partial = [];
          silence_ms = 0;
        } in
        on_final-Hush text (transition awaiting_final p2) (cancel_attempt-Hush on k n false p v)

    pub text_message-Hush :
        (text : Text) (p : Pipeline) → Hush on k n p → Hush on k n (text_message c j text p)
    unfolding text_message
    text_message-Hush text p v =
        let q = typed c j (strip text) p in
        if-Hush on k n p.handoff p (if is_empty (strip text) then p else q) v
          (if-Hush on k n (is_empty (strip text)) p q v (typed-Hush (strip text) p v))
