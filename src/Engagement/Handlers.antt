-- ===== src/Engagement/Handlers.antt =====
-- Each handler of the policy (latency_lab/engagement.py) leaves the gate, the silence and the bounds.
use sales_girl_voice_agent.Common.{
  ℕ, refl, Bool, true, false, ◌&&◌, ◌||◌, not, Option, none, some, [], ◌∷◌, ◌++◌, ltb, drop, arith,
  ◌+◌, length-drop, Text, Json, ◌==◌, if◌then◌else◌,
}
use sales_girl_voice_agent.Engagement.State.{
  Config, Pipe, Reason, keep_last, ToolCall, ToolResult, Operation, Engagement, caller_final,
  caller_started, is_pending, current,
}
use sales_girl_voice_agent.Engagement.Tools.{
  has_unknown, run_tool, execute_done, execute_cancelled, register_operation,
}
use sales_girl_voice_agent.Engagement.Opportunity.{
  start_decision, is_due, can_close_idle, Round, rests, closes, reconsiders, loop_choice,
  is_completed,
}
use sales_girl_voice_agent.Engagement.Reconsider.{
  Gap, Next, stops, synthesizes, plays, or_empty, chosen_text, decided_on, decision_of, is_tool,
  on_operation, on_current, consider, delivered, arm_if_safe, begin_reconsider, decided, played,
  failed, fallback_synthesized,
}
use sales_girl_voice_agent.Engagement.Hangup
use sales_girl_voice_agent.Engagement.Hangup.{
  Closing, ends, not_due, says_or_hangs_up, hangup_idle, close_idle_call, close_synthesized,
  close_played, hangup_failed, play_begin,
}
use sales_girl_voice_agent.Engagement.Frame.{
  Frame, same, plain, then_frame, if-Frame, if-second, if-middle, length-keep_last,
}

module _ (c : Config) where
  pub caller_final-Frame :
      (text : Text) (now : ℕ) (e : Engagement) → Frame e (caller_final c text now e)
  unfolding caller_final
  caller_final-Frame text now e = if-Frame (not e.enabled) e _ _ (same e) record {
    enabled = refl;
    revision = omega arith;
    quiet = refl;
    messages = λ h. length-keep_last 8 (e.new_messages ++ (text ∷ []));
    updates = λ h. h;
  }

  pub caller_started-Frame : (now : ℕ) (e : Engagement) → Frame e (caller_started c now e)
  unfolding caller_started
  caller_started-Frame now e =
      if-Frame (not e.enabled) e _ _ (same e) (plain e _ refl (omega arith) refl refl refl)

  pub execute_done-Frame :
      (k : ℕ) (r : Option ToolResult) (now : ℕ) (e : Engagement)
      → Frame e (execute_done c k r now e)
  unfolding execute_done
  execute_done-Frame k r now e =
      if-Frame e.emitting e _ _ (plain e _ refl (omega arith) refl refl refl)
        (plain e _ refl (omega arith) refl refl refl)

  pub execute_cancelled-Frame : (k now : ℕ) (e : Engagement) → Frame e (execute_cancelled c k now e)
  unfolding execute_cancelled
  execute_cancelled-Frame k now e =
      if-Frame e.emitting e _ _ (plain e _ refl (omega arith) refl refl refl)
        (plain e _ refl (omega arith) refl refl refl)

  pub run_tool-Frame :
      (attempt : ℕ) (call : ToolCall) (now : ℕ) (e : Engagement)
      → Frame e (run_tool c attempt call now e).1
  unfolding run_tool
  run_tool-Frame attempt call now e = if-second (not e.enabled) e _ _ (same e) (
      if-second (has_unknown (current e)) e _ _ (same e) (
        if-second (is_pending (current e)) e _ _ (if-second _ e _ _ (same e) (same e))
          (plain e _ refl (omega arith) refl refl refl)))

  pub arm_if_safe-Frame :
      (p : Pipe) (now : ℕ) (g : Gap) (e : Engagement) → Frame e (arm_if_safe c p now g e)
  unfolding arm_if_safe
  arm_if_safe-Frame p now g e =
      if-Frame _ e _ _ (plain e _ refl (omega arith) refl refl refl) (same e)

  pub on_operation-Frame :
      (o : Option ℕ) (f : Operation → Operation) (e : Engagement) → Frame e (on_operation o f e)
  on_operation-Frame none f e = same e
  on_operation-Frame (some k) f e = plain e _ refl (omega arith) refl refl refl

  pub begin_reconsider-Frame :
      (reason : Reason) (attempt : Option ℕ) (now : ℕ) (e : Engagement)
      → Frame e (begin_reconsider c reason attempt now e).1
  unfolding begin_reconsider
  begin_reconsider-Frame reason attempt now e =
      let e1 = if is_completed reason then on_current (consider e.revision) e else e in
      then_frame e e1 _
        (if-Frame (is_completed reason) e _ _
          (on_operation-Frame e.operation (consider e.revision) e) (same e))
        (if-Frame (is_tool reason) e1 _ _ (plain e1 _ refl (omega arith) refl refl refl)
          (plain e1 _ refl (omega arith) refl refl refl))

  pub choice-Frame : (next : Round) (now : ℕ) (e : Engagement) → Frame e (loop_choice next now e).1
  choice-Frame next now e =
      if-second {B = Round} (is_due e.idle_close_at now && not e.decision_running) e
        (closes, start_decision closes e) _ (plain e _ refl (omega arith) refl refl refl)
        (if-second {B = Round} (ltb now e.next_check || e.decision_running) e (rests, e)
          (next, start_decision next e) (same e) (starts_next next))
    where
      starts_next : (next : Round) → Frame e (start_decision next e)
      starts_next rests = same e
      starts_next closes = plain e _ refl (omega arith) refl refl refl
      starts_next (reconsiders reason attempt) = plain e _ refl (omega arith) refl refl refl

  pub hangup_idle-Frame :
      (revision : ℕ) (p : Pipe) (e : Engagement) → Frame e (hangup_idle c revision p e).1
  unfolding hangup_idle
  hangup_idle-Frame revision p e =
      if-middle (can_close_idle c p revision e) e _ _ (plain e _ refl (omega arith) refl refl refl)
        (same e)

  pub register_operation-Frame :
      (call : ToolCall) (attempt now : ℕ) (e : Engagement)
      → Frame e (register_operation c call attempt now e)
  unfolding register_operation
  register_operation-Frame call attempt now e =
      if-Frame e.enabled e _ _ (plain e _ refl (omega arith) refl refl refl)
        (plain e _ refl (omega arith) refl refl refl)

  pub decided-Frame :
      (phrase : Option Text) (p : Pipe) (now : ℕ) (g : Gap) (j : Option Json) (e : Engagement)
      → Frame e (decided c phrase p now g j e).1
  unfolding decided decided_on
  decided-Frame phrase p now g none e = same e
  decided-Frame phrase p now g (some j) e = go (decision_of j)
    where
      rest : Engagement
      rest = record e { new_messages = drop g.messages e.new_messages }

      dropped : Frame e (record e { new_messages = drop g.messages e.new_messages })
      dropped = record {
        enabled = refl;
        revision = omega arith;
        quiet = refl;
        messages = λ h. omega (arith, length-drop g.messages e.new_messages);
        updates = λ h. h;
      }

      go : (d : Option (Bool × Text)) → Frame e (decided_on c phrase p now g d e).1
      go none = same e
      go (some d) =
          if-second {B = Next} (not (e.revision == g.revision) || e.closed) e (stops, e) _ (same e)
            (if-second {B = Next} _ e (stops, arm_if_safe c p now g rest)
              (synthesizes (chosen_text c phrase g d e), rest)
              (then_frame e rest (arm_if_safe c p now g rest) dropped
                (arm_if_safe-Frame p now g rest))
              dropped)

  pub played-Frame :
      (p : Pipe) (now : ℕ) (g : Gap) (text : Text) (o : Option Bool) (e : Engagement)
      → Frame e (played c p now g text o e).1
  unfolding played
  played-Frame p now g text none e = same e
  played-Frame p now g text (some false) e = same e
  played-Frame p now g text (some true) e =
      let e1 = record e { last_updates = keep_last 3 (e.last_updates ++ (text ∷ [])) } in
      let armed = arm_if_safe c p now g e1 in
      let said = then_frame e e1 armed (said_once text e) (arm_if_safe-Frame p now g e1) in
      if-Frame (is_completed g.reason) e _ _
        (then_frame e armed _ said (on_operation-Frame armed.operation delivered armed)) said
    where
      said_once :
          (text : Text) (e : Engagement)
          → Frame e (record e { last_updates = keep_last 3 (e.last_updates ++ (text ∷ [])) })
      said_once text e = record {
        enabled = refl;
        revision = omega arith;
        quiet = refl;
        messages = λ h. h;
        updates = λ h. length-keep_last 3 (e.last_updates ++ (text ∷ []));
      }

  pub failed-Frame :
      (phrase : Option Text) (p : Pipe) (now : ℕ) (g : Gap) (e : Engagement)
      → Frame e (failed c phrase p now g e).1
  unfolding failed
  failed-Frame phrase p now g e =
      if-second {B = Next} _ e _ (stops, e)
        (if-second {B = Next} _ e (stops, arm_if_safe c p now g e)
          (synthesizes (or_empty phrase), e) (arm_if_safe-Frame p now g e) (same e))
        (same e)

  pub fallback_synthesized-Frame :
      (text : Text) (p : Pipe) (now : ℕ) (g : Gap) (o : Option Bool) (e : Engagement)
      → Frame e (fallback_synthesized c text p now g o e).1
  unfolding fallback_synthesized
  fallback_synthesized-Frame text p now g none e = arm_if_safe-Frame p now g e
  fallback_synthesized-Frame text p now g (some b) e =
      if-second {B = Next} _ e (plays text, e) (stops, arm_if_safe c p now g e) (same e)
        (arm_if_safe-Frame p now g e)

  pub close_synthesized-Frame :
      (revision : ℕ) (text : Text) (o : Option Bool) (p : Pipe) (e : Engagement)
      → Frame e (close_synthesized c revision text o p e).1
  unfolding close_synthesized
  close_synthesized-Frame revision text none p e = hangup_idle-Frame revision p e
  close_synthesized-Frame revision text (some b) p e =
      if-middle {B = Closing} (can_close_idle c p revision e) e _ (ends, e, p)
        (if-middle {B = Closing} b e (Hangup.plays text, e, p) (hangup_idle c revision p e) (same e)
          (hangup_idle-Frame revision p e))
        (same e)

  pub close_idle_call-Frame :
      (phrase : Option Text) (now : ℕ) (p : Pipe) (e : Engagement)
      → Frame e (close_idle_call c phrase now p e).1
  unfolding close_idle_call
  close_idle_call-Frame phrase now p e =
      if-middle {B = Closing} (not_due e.idle_close_at now) e (ends, e, p) _ (same e)
        (if-middle {B = Closing} (can_close_idle c p e.revision e) e (says_or_hangs_up c phrase p e)
          (ends, waits, p) (spoken phrase) (plain e waits refl (omega arith) refl refl refl))
    where
      waits : Engagement
      waits = record e { idle_close_at = some (now + c.retry_seconds) }

      spoken : (phrase : Option Text) → Frame e (says_or_hangs_up c phrase p e).1
      spoken none = hangup_idle-Frame e.revision p e
      spoken (some []) = hangup_idle-Frame e.revision p e
      spoken (some (ch ∷ s)) = same e
