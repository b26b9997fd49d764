-- ===== src/Engagement/Bounded.antt =====
-- What every event of the policy (latency_lab/engagement.py) but a change of the output gate leaves as it
-- is or within its bounds.
use sales_girl_voice_agent.Common.{
  ℕ, refl, Bool, true, false, none, some, List, [], ◌∷◌, arith, All, if◌then◌else◌,
}
use sales_girl_voice_agent.Engagement.State.{
  Config, Pipe, Engagement, set_speech_enabled, audio_sent, playback_stopped, close, find,
  is_pending,
}
use sales_girl_voice_agent.Engagement.Tools.{deliver, finish_operation, background_done}
use sales_girl_voice_agent.Engagement.Opportunity.{round_of, opportunity, safe, loop_round}
use sales_girl_voice_agent.Engagement.Reconsider.{fallback_played, end_reconsider}
use sales_girl_voice_agent.Engagement.Hangup.{close_played, hangup_failed, play_begin}
use sales_girl_voice_agent.Engagement.Events.{
  Event, step, run, begun, caller_spoke, caller_starts, gate, invalidated, audio, stopped, closing,
  tool, tool_done, tool_cancelled, delivery, registers, releases, released, round, gap_begins,
  gap_decided, gap_plays, gap_played, gap_failed, fallback_ready, fallback_over, gap_ends,
  idle_closes, goodbye_ready, goodbye_over, hangup_fails,
}
use sales_girl_voice_agent.Engagement.Frame.{Frame, same, plain, then_frame, if-Frame}
use sales_girl_voice_agent.Engagement.Handlers.{
  caller_final-Frame, caller_started-Frame, execute_done-Frame, execute_cancelled-Frame,
  run_tool-Frame, arm_if_safe-Frame, begin_reconsider-Frame, choice-Frame, hangup_idle-Frame,
  register_operation-Frame, decided-Frame, played-Frame, failed-Frame, fallback_synthesized-Frame,
  close_synthesized-Frame, close_idle_call-Frame,
}

-- The caller's tool changes the output gate.
abbrev pub IsGate : Event → Type 0
IsGate (gate on) = Unit
IsGate _ = ⊥

module _ (c : Config) where
  if_pending-Frame :
      (k : ℕ) (e e' : Engagement)
      → Frame e e'
      → Frame e (if is_pending (find k e.operations) then e' else e)
  if_pending-Frame k e e' f = if-Frame (is_pending (find k e.operations)) e _ _ f (same e)

  play_begin-Frame :
      (b : Bool) (k : ℕ) (e e' : Engagement) (p : Pipe)
      → Frame e e'
      → Frame e (begun (if b then some (k, e', p) else none) e)
  play_begin-Frame true k e e' p f = f
  play_begin-Frame false k e e' p f = same e

  -- Every event but a change of the output gate.
  pub step-Frame : (ev : Event) (e : Engagement) → ¬ (IsGate ev) → Frame e (step c ev e)
  unfolding step set_speech_enabled audio_sent playback_stopped close deliver finish_operation
      background_done loop_round fallback_played end_reconsider close_played hangup_failed
      play_begin
  step-Frame (caller_spoke text now) e h = caller_final-Frame c text now e
  step-Frame (caller_starts now) e h = caller_started-Frame c now e
  step-Frame (gate on) e h = absurd (h tt)
  step-Frame invalidated e h = plain e _ refl (omega arith) refl refl refl
  step-Frame (audio seconds now) e h = plain e _ refl (omega arith) refl refl refl
  step-Frame (stopped now) e h = plain e _ refl (omega arith) refl refl refl
  step-Frame closing e h = plain e _ refl (omega arith) refl refl refl
  step-Frame (tool attempt call now) e h = run_tool-Frame c attempt call now e
  step-Frame (tool_done k r now) e h = if_pending-Frame k e _ (execute_done-Frame c k r now e)
  step-Frame (tool_cancelled k now) e h = if_pending-Frame k e _ (execute_cancelled-Frame c k now e)
  step-Frame (delivery true k) e h = plain e _ refl (omega arith) refl refl refl
  step-Frame (delivery false k) e h = same e
  step-Frame (registers call attempt now) e h = register_operation-Frame c call attempt now e
  step-Frame (releases k now) e h = plain e _ refl (omega arith) refl refl refl
  step-Frame (released k) e h = if_pending-Frame k e _ (plain e _ refl (omega arith) refl refl refl)
  step-Frame (round p now) e h = choice-Frame c (round_of (opportunity c p now e)) now e
  step-Frame (gap_begins reason attempt now) e h = begin_reconsider-Frame c reason attempt now e
  step-Frame (gap_decided phrase p now g j) e h = decided-Frame c phrase p now g j e
  step-Frame (gap_plays revision none reason k now p) e h =
      play_begin-Frame (safe p revision none reason now e) k e _ _
        (plain e _ refl (omega arith) refl refl refl)
  step-Frame (gap_plays revision (some a) reason k now p) e h =
      play_begin-Frame (safe p revision (some a) reason now e) a e _ _
        (plain e _ refl (omega arith) refl refl refl)
  step-Frame (gap_played p now g text o) e h = played-Frame c p now g text o e
  step-Frame (gap_failed phrase p now g) e h = failed-Frame c phrase p now g e
  step-Frame (fallback_ready text p now g o) e h = fallback_synthesized-Frame c text p now g o e
  step-Frame (fallback_over p now g none) e h = arm_if_safe-Frame c p now g e
  step-Frame (fallback_over p now g (some true)) e h = arm_if_safe-Frame c p now g e
  step-Frame (fallback_over p now g (some false)) e h = same e
  step-Frame (gap_ends g) e h = plain e _ refl (omega arith) refl refl refl
  step-Frame (idle_closes phrase now p) e h = close_idle_call-Frame c phrase now p e
  step-Frame (goodbye_ready revision text o p) e h = close_synthesized-Frame c revision text o p e
  step-Frame (goodbye_over revision none p) e h = hangup_idle-Frame c revision p e
  step-Frame (goodbye_over revision (some true) p) e h = hangup_idle-Frame c revision p e
  step-Frame (goodbye_over revision (some false) p) e h = same e
  step-Frame (hangup_fails now p) e h = plain e _ refl (omega arith) refl refl refl

  pub run-Frame :
      (evs : List Event) (e : Engagement) → All (λ ev. ¬ (IsGate ev)) evs → Frame e (run c evs e)
  unfolding run
  run-Frame [] e hs = same e
  run-Frame (ev ∷ evs) e hs =
      then_frame e (step c ev e) _ (step-Frame ev e hs.0) (run-Frame evs (step c ev e) hs.1)
