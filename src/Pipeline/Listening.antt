-- ===== src/Pipeline/Listening.antt =====
-- The partial texts and the typed ones (latency_lab/pipeline.py) keep what holds between the events.
use sales_girl_voice_agent.Common.{
  ℕ, ◌+◌, ◌≡◌, refl, sym, ap, ◌∙◌, Bool, true, false, ◌&&◌, ◌||◌, not, Option, none, some, [],
  arith, Text, text_eq, ltb, length, if◌then◌else◌, Bool-cases, inl, inr, is_empty, strip, is_some,
}
use sales_girl_voice_agent.Engagement.State.{PipeState, speaking, speculating, awaiting_final}
use sales_girl_voice_agent.Pipeline.State.{
  TurnId, caller, sends_partial, Config, Pipeline, emit, current, transition,
}
use sales_girl_voice_agent.Pipeline.Attempts.{cancel_attempt, start_attempt}
use sales_girl_voice_agent.Pipeline.Base.{accepted, BaseOf, current_turn}
use sales_girl_voice_agent.Pipeline.Quiet.{Quiet, still, emit-Quiet}
use sales_girl_voice_agent.Pipeline.Transcript.{
  is_closed, partial_within, partial_before, Judge, normalize, is_awaiting, is_voice_state, revised,
  on_changed, partial_accepted, on_partial, on_stable, stable_after_delay, typed, text_message,
}
use sales_girl_voice_agent.Pipeline.State.{clear_speech_candidate}
use sales_girl_voice_agent.Pipeline.Turns.{
  Inv, is_listening, Quiet-Inv, Cancels-Inv, cancel_attempt-Cancels, start_attempt-Adds, retarget,
}
use sales_girl_voice_agent.Pipeline.Replies.{if-Inv, if_else-Inv, on_final-Inv}
use sales_girl_voice_agent.Pipeline.Voice.{open_turn}
use sales_girl_voice_agent.Pipeline.State.{close_turn}

-- With no current attempt, an older turn may be left for any other or none.
pub leave :
    (p : Pipeline) (turn : Option TurnId) (cur : Option ℕ)
    → current_turn cur p.attempts ≡ none
    → BaseOf p
    → BaseOf (record p { turn_id = turn; attempt = cur })
leave p turn cur h b =
    retarget p.turn_id turn p.turn_number p.turn_number p.candidate_turn_id p.candidate_turn_id
      p.attempts p.attempt cur p.log p.response h (omega arith) b.fresh b

-- A new turn is past all turns whose final has come.
newest : (p : Pipeline) → BaseOf p → accepted (p.turn_number + 1) p.log ≡ false
newest p b = elim (Bool-cases (accepted (p.turn_number + 1) p.log)) [
  | inl y ↦ absurd (omega (arith, b.bounded (p.turn_number + 1) y))
  | inr n ↦ n
]

pub forget_candidate : (p : Pipeline) → BaseOf p → BaseOf (clear_speech_candidate p)
forget_candidate p b = record {
  fresh = refl;
  bounded = b.bounded;
  ordered = b.ordered;
  reply = b.reply;
  authorized = b.authorized;
  owned = b.owned;
}

pub close_turn-Quiet : (t : Option TurnId) (p : Pipeline) → Quiet p (close_turn t p)
close_turn-Quiet none p = still p
close_turn-Quiet (some t) p = record {
  base = λ b. b;
  state = refl;
  turn = refl;
  number = refl;
  heard = λ n. refl;
  current = refl;
}

pub if_then-Inv :
    (b : Bool) (p q : Pipeline) → (b ≡ true → Inv p) → Inv q → Inv (if b then p else q)
if_then-Inv true p q v w = v refl
if_then-Inv false p q v w = w

pub voice-listening : (s : PipeState) → is_voice_state s ≡ true → is_listening s ≡ true
voice-listening speaking h = refl
voice-listening speculating h = refl
voice-listening _ h = ground arith

module _ (c : Config) (j : Judge) where
  on_changed-Inv : (text : Text) (p : Pipeline) → Inv p → Inv (on_changed c j text p)
  on_changed-Inv text p v =
      if-Inv (revised text (current p)) (cancel_attempt false p) p
        (Cancels-Inv p (cancel_attempt false p) (cancel_attempt-Cancels false p) v) v

  partial_accepted-Inv : (text : Text) (p : Pipeline) → Inv p → Inv (partial_accepted c j text p)
  partial_accepted-Inv text p v =
      let p0 = record p { last_partial = text } in
      let p1 = emit (sends_partial text) p0 in
      let v1 = Quiet-Inv p0 p1 (emit-Quiet (sends_partial text) p0 tt) v in
      if-Inv (text_eq text p.last_partial || ltb (length (normalize text)) c.stable_min_chars) p1
        (on_changed c j text p1) v1 (on_changed-Inv text p1 v1)

  partial_within-Inv : (text : Text) (p : Pipeline) → Inv p → Inv (partial_within c j text p)
  partial_within-Inv text p v =
      let q = partial_accepted c j text p in
      let r = if is_closed p.turn_id p then p else q in
      if-Inv (is_awaiting p.state) p (if not (is_voice_state p.state) then p else r) v (
        if-Inv (not (is_voice_state p.state)) p r v
          (if-Inv (is_closed p.turn_id p) p q v (partial_accepted-Inv text p v)))

  pub on_partial-Inv : (text : Text) (p : Pipeline) → Inv p → Inv (on_partial c j text p)
  unfolding on_partial
  on_partial-Inv text p v =
      let q = partial_within c j text p in
      let before = partial_before c j text p in
      let r = if not (is_some p.turn_id) then before else q in
      if-Inv (not (is_empty text) && j.is_echo text) p (if p.call_ending then p else r) v (
        if-Inv p.call_ending p r v (
          if-Inv (not (is_some p.turn_id)) before q
            (if-Inv p.speech_candidate_active (record p { preconfirm_partial = some text }) p v v)
            (partial_within-Inv text p v)))

  begins-Inv :
      (text : Text) (p : Pipeline)
      → is_voice_state p.state ≡ true
      → Inv p
      → Inv (transition speculating (start_attempt false text true false p))
  begins-Inv text p w (b, r, l) =
      let (turn, fresh) = l (listening p.state w) in
      let q = start_attempt false text true false p in
      let f =
        start_attempt-Adds false text true false (caller p.turn_number) p turn
          (λ y. absurd (ground (arith, y))) in
      (
        f.base b,
        λ h. absurd (ground (arith, h)),
        λ h. (
          f.turn ∙ turn ∙ ap (λ i. some (caller i)) (sym f.number),
          ap (λ i. accepted i q.log) f.number ∙ f.heard p.turn_number ∙ fresh,
        ),
      )
    where
      listening : (s : PipeState) → is_voice_state s ≡ true → is_listening s ≡ true
      listening speaking h = refl
      listening speculating h = refl
      listening _ h = ground arith

  pub stable_after_delay-Inv : (p : Pipeline) → Inv p → Inv (stable_after_delay c j p)
  unfolding stable_after_delay
  stable_after_delay-Inv p v = go p.stability
    where
      p1 : Pipeline
      p1 = record p { stability = none }

      go : (o : Option Text) → Inv (on_stable c j o p)
      go none = v
      go (some text) =
          let q = transition speculating (start_attempt false text true false p1) in
          let r = if c.engagement_enabled && not p.speech_enabled then p1 else q in
          if_else-Inv (not (text_eq text p.last_partial) || not (is_voice_state p.state)) p1 r v
            (λ g.
              if-Inv (c.engagement_enabled && not p.speech_enabled) p1 q v
                (begins-Inv text p1 (ground (arith, g)) v))

  -- A turn opens where no attempt is current.
  pub open_turn-Inv :
      (t : ℕ) (p : Pipeline)
      → t ≡ p.turn_number + 1
      → current_turn p.attempt p.attempts ≡ none
      → BaseOf p
      → Inv (open_turn c j t p)
  open_turn-Inv t p e h b =
      let q = open_turn c j t p in
      (
        retarget p.turn_id (some (caller t)) p.turn_number (p.turn_number + 1) p.candidate_turn_id
            none p.attempts p.attempt p.attempt p.log p.response h (omega arith) refl b,
        λ y. absurd (ground (arith, y)),
        λ y. (ap (λ i. some (caller i)) e, newest p b),
      )

  typed-Inv : (text : Text) (p : Pipeline) → Inv p → Inv (typed c j text p)
  typed-Inv text p v =
      let p0 = cancel_attempt false p in
      let f = cancel_attempt-Cancels false p in
      let b0 = f.base v.0 in
      let p2 = transition awaiting_final (record (clear_speech_candidate p0) {
        stability = none;
        final_timeout = none;
        turn_number = p0.turn_number + 1;
        turn_id = some (caller (p0.turn_number + 1));
        final_text = [];
        last_partial = [];
        silence_ms = 0;
      }) in
      let v2 : Inv p2 = (
        retarget p0.turn_id (some (caller (p0.turn_number + 1))) p0.turn_number (p0.turn_number + 1)
            p0.candidate_turn_id none p0.attempts p0.attempt p0.attempt p0.log p0.response
            f.none_left (omega arith) refl b0,
        λ y. absurd (ground (arith, y)),
        λ y. (refl, newest p0 b0),
      ) in
      on_final-Inv c j text p2 v2

  pub text_message-Inv : (text : Text) (p : Pipeline) → Inv p → Inv (text_message c j text p)
  unfolding text_message
  text_message-Inv text p v =
      let q = typed c j (strip text) p in
      let r = if is_empty (strip text) then p else q in
      if-Inv p.handoff p r v (if-Inv (is_empty (strip text)) p q v (typed-Inv (strip text) p v))
