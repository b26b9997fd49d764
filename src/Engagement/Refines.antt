-- ===== src/Engagement/Refines.antt =====
-- The policy of latency_lab/engagement.py keeps the book of Engagement/Book.
use sales_girl_voice_agent.Common.{
  ℕ, ◌≡◌, refl, Bool, true, false, ◌||◌, not, Option, none, some, List, [], ◌∷◌, ◌++◌, arith, map,
  ap, ◌∙◌, Text, Json, if◌then◌else◌, Bool-cases, inl, inr,
}
use sales_girl_voice_agent.Engagement.State.{
  Config, Pipe, Reason, keep_last, ToolCall, ToolResult, Operation, Engagement, caller_final,
  caller_started, set_speech_enabled, audio_sent, playback_stopped, close, find, is_pending,
}
use sales_girl_voice_agent.Engagement.Tools.{
  is_unknown, run_tool, execute_done, execute_cancelled, deliver, change, register_operation,
  finish_operation, background_done, outcome,
}
use sales_girl_voice_agent.Engagement.Opportunity.{
  Round, rests, closes, reconsiders, round_of, opportunity, safe, loop_choice, loop_round,
  is_completed,
}
use sales_girl_voice_agent.Engagement.Reconsider.{
  Gap, decided_on, decision_of, on_operation, on_current, consider, delivered, arm_if_safe,
  begin_reconsider, decided, played, failed, fallback_synthesized, fallback_played, end_reconsider,
}
use sales_girl_voice_agent.Engagement.Hangup.{
  hangup_idle, close_idle_call, close_synthesized, close_played, hangup_failed, play_begin,
}
use sales_girl_voice_agent.Engagement.Events.{
  Event, step, run, begun, caller_spoke, caller_starts, gate, invalidated, audio, stopped, closing,
  tool, tool_done, tool_cancelled, delivery, registers, releases, released, round, gap_begins,
  gap_decided, gap_plays, gap_played, gap_failed, fallback_ready, fallback_over, gap_ends,
  idle_closes, goodbye_ready, goodbye_over, hangup_fails,
}
use sales_girl_voice_agent.Engagement.Book.{
  Entry, Book, entry_of, view, current_entry, is_blocked, open_entry, ended, ended_with, settle,
  book_step, book_run, find-entries, length-map, change-entries, same-entries, current-entries,
}

on_current-view :
    (f : Operation → Operation) (e : Engagement)
    → ((o : Operation) → entry_of (f o) ≡ entry_of o)
    → view (on_current f e) ≡ view e
on_current-view f e h = go e.operation
  where
    go : (o : Option ℕ) → view (on_operation o f e) ≡ view e
    go none = refl
    go (some k) = ap (λ ns. record (view e) { entries = ns }) (same-entries f k e.operations h)

if-view :
    (b : Bool) (e e' : Engagement) (v : Book)
    → view e ≡ v
    → view e' ≡ v
    → view (if b then e else e') ≡ v
if-view true e e' v h h' = h
if-view false e e' v h h' = h'

choice-view : (next : Round) (now : ℕ) (e : Engagement) → view (loop_choice next now e).1 ≡ view e
choice-view rests now e = ground arith
choice-view closes now e = ground arith
choice-view (reconsiders reason attempt) now e = ground arith

begun-view :
    (b : Bool) (k : ℕ) (e e' : Engagement) (p : Pipe)
    → view e' ≡ view e
    → view (begun (if b then some (k, e', p) else none) e) ≡ view e
begun-view true k e e' p h = h
begun-view false k e e' p h = refl

module _ (c : Config) where
  tool_refines :
      (attempt : ℕ) (call : ToolCall) (now : ℕ) (e : Engagement)
      → view (run_tool c attempt call now e).1 ≡ (
          if not e.enabled || is_blocked (current_entry (view e))
          then view e
          else open_entry call (view e))
  unfolding run_tool
  tool_refines attempt call now e = rw (current-entries e, length-map e.operations) (ground arith)

  settles :
      (f : Operation → Operation) (g : Entry → Entry) (k : ℕ) (e e' : Engagement)
      → ((o : Operation) → entry_of (f o) ≡ g (entry_of o))
      → view e' ≡ record (view e) { entries = map entry_of (change f k e.operations) }
      → view (if is_pending (find k e.operations) then e' else e) ≡ settle g k (view e)
  settles f g k e e' h v =
      rw ((find-entries k e.operations).0) (elim (Bool-cases (is_pending (find k e.operations))) [
        | inl y ↦
            rw y (
              v ∙ ap (λ ns. record (view e) { entries = ns }) (change-entries f g k e.operations h))
        | inr n ↦ rw n refl
      ])

  arm_if_safe-view :
      (p : Pipe) (now : ℕ) (g : Gap) (e : Engagement) → view (arm_if_safe c p now g e) ≡ view e
  unfolding arm_if_safe
  arm_if_safe-view p now g e = ground arith

  hangup_idle-view :
      (revision : ℕ) (p : Pipe) (e : Engagement) → view (hangup_idle c revision p e).1 ≡ view e
  unfolding hangup_idle
  hangup_idle-view revision p e = ground arith

  decided-view :
      (phrase : Option Text) (p : Pipe) (now : ℕ) (g : Gap) (j : Option Json) (e : Engagement)
      → view (decided c phrase p now g j e).1 ≡ view e
  unfolding decided decided_on
  decided-view phrase p now g none e = refl
  decided-view phrase p now g (some j) e = go (decision_of j)
    where
      go : (d : Option (Bool × Text)) → view (decided_on c phrase p now g d e).1 ≡ view e
      go none = refl
      go (some d) = ground (arith, arm_if_safe-view p now g)

  played-view :
      (p : Pipe) (now : ℕ) (g : Gap) (text : Text) (o : Option Bool) (e : Engagement)
      → view (played c p now g text o e).1 ≡ view e
  unfolding played
  played-view p now g text none e = refl
  played-view p now g text (some false) e = refl
  played-view p now g text (some true) e =
      let e1 = record e { last_updates = keep_last 3 (e.last_updates ++ (text ∷ [])) } in
      let armed = arm_if_safe c p now g e1 in
      let rest = arm_if_safe-view p now g e1 in
      if-view (is_completed g.reason) (on_current delivered armed) armed (view e)
        (on_current-view delivered armed (λ o. refl) ∙ rest) rest

  failed-view :
      (phrase : Option Text) (p : Pipe) (now : ℕ) (g : Gap) (e : Engagement)
      → view (failed c phrase p now g e).1 ≡ view e
  unfolding failed
  failed-view phrase p now g e = ground (arith, arm_if_safe-view p now g e)

  begins-view :
      (reason : Reason) (attempt : Option ℕ) (now : ℕ) (e : Engagement)
      → view (begin_reconsider c reason attempt now e).1 ≡ view e
  unfolding begin_reconsider
  begins-view reason attempt now e = elim (Bool-cases (is_completed reason)) [
    | inl y ↦ rw y (ground (arith, on_current-view (consider e.revision) e (λ o. refl)))
    | inr n ↦ rw n (ground arith)
  ]

  execute_done-view :
      (k : ℕ) (r : Option ToolResult) (now : ℕ) (e : Engagement)
      → view (execute_done c k r now e) ≡ record (view e) {
        entries =
            map entry_of
              (change (λ o. record o { done = true; result = some (outcome r) }) k e.operations);
      }
  unfolding execute_done
  execute_done-view k r now e = if-view e.emitting _ _ _ refl refl

  execute_cancelled-view :
      (k : ℕ) (now : ℕ) (e : Engagement)
      → view (execute_cancelled c k now e) ≡ record (view e) {
        entries = map entry_of (change (λ o. record o { done = true }) k e.operations);
      }
  unfolding execute_cancelled
  execute_cancelled-view k now e = if-view e.emitting _ _ _ refl refl

  register_operation-view :
      (call : ToolCall) (attempt now : ℕ) (e : Engagement)
      → view (register_operation c call attempt now e)
        ≡ book_step (registers call attempt now) (view e)
  unfolding book_step register_operation
  register_operation-view call attempt now e = rw (length-map e.operations) (ground arith)

  round-view : (p : Pipe) (now : ℕ) (e : Engagement) → view (loop_round c p now e).1 ≡ view e
  unfolding loop_round
  round-view p now e = choice-view (round_of (opportunity c p now e)) now e

  play_begin-view :
      (revision : ℕ) (attempt : Option ℕ) (reason : Reason) (k now : ℕ) (p : Pipe) (e : Engagement)
      → view (step c (gap_plays revision attempt reason k now p) e) ≡ view e
  unfolding step play_begin
  play_begin-view revision none reason k now p e =
      begun-view (safe p revision none reason now e) k e _ _ refl
  play_begin-view revision (some a) reason k now p e =
      begun-view (safe p revision (some a) reason now e) a e _ _ refl

  fallback_synthesized-view :
      (text : Text) (p : Pipe) (now : ℕ) (g : Gap) (o : Option Bool) (e : Engagement)
      → view (fallback_synthesized c text p now g o e).1 ≡ view e
  unfolding fallback_synthesized
  fallback_synthesized-view text p now g none e = arm_if_safe-view p now g e
  fallback_synthesized-view text p now g (some b) e = ground (arith, arm_if_safe-view p now g e)

  close_synthesized-view :
      (revision : ℕ) (text : Text) (o : Option Bool) (p : Pipe) (e : Engagement)
      → view (close_synthesized c revision text o p e).1 ≡ view e
  unfolding close_synthesized
  close_synthesized-view revision text none p e = hangup_idle-view revision p e
  close_synthesized-view revision text (some b) p e = ground (arith, hangup_idle-view revision p e)

  close_idle_call-view :
      (phrase : Option Text) (now : ℕ) (p : Pipe) (e : Engagement)
      → view (close_idle_call c phrase now p e).1 ≡ view e
  unfolding close_idle_call
  close_idle_call-view none now p e = ground (arith, hangup_idle-view e.revision p e)
  close_idle_call-view (some []) now p e = ground (arith, hangup_idle-view e.revision p e)
  close_idle_call-view (some (ch ∷ s)) now p e = ground arith

  pub step_refines : (ev : Event) (e : Engagement) → view (step c ev e) ≡ book_step ev (view e)
  unfolding step book_step caller_final caller_started set_speech_enabled audio_sent
      playback_stopped close run_tool execute_done execute_cancelled deliver register_operation
      finish_operation background_done loop_round fallback_synthesized fallback_played
      end_reconsider close_idle_call close_synthesized close_played hangup_failed play_begin
  step_refines (caller_spoke text now) e = if-view (not e.enabled) e _ (view e) refl refl
  step_refines (caller_starts now) e = if-view (not e.enabled) e _ (view e) refl refl
  step_refines (gate on) e = refl
  step_refines invalidated e = refl
  step_refines (audio seconds now) e = refl
  step_refines (stopped now) e = refl
  step_refines closing e = refl
  step_refines (tool attempt call now) e = tool_refines attempt call now e
  step_refines (tool_done k r now) e =
      settles (λ o. record o { done = true; result = some (outcome r) })
        (ended_with (is_unknown (some (outcome r)))) k e (execute_done c k r now e) (λ o. refl)
        (execute_done-view k r now e)
  step_refines (tool_cancelled k now) e =
      settles (λ o. record o { done = true }) ended k e (execute_cancelled c k now e) (λ o. refl)
        (execute_cancelled-view k now e)
  step_refines (delivery true k) e =
      ap (λ ns. record (view e) { entries = ns })
        (same-entries (λ o. record o { delivered = true }) k e.operations (λ o. refl))
  step_refines (delivery false k) e = refl
  step_refines (registers call attempt now) e = register_operation-view call attempt now e
  step_refines (releases k now) e = refl
  step_refines (released k) e =
      settles (λ o. record o { done = true }) ended k e (background_done k e) (λ o. refl) refl
  step_refines (round p now) e = round-view p now e
  step_refines (gap_begins reason attempt now) e = begins-view reason attempt now e
  step_refines (gap_decided phrase p now g j) e = decided-view phrase p now g j e
  step_refines (gap_plays revision attempt reason k now p) e =
      play_begin-view revision attempt reason k now p e
  step_refines (gap_played p now g text o) e = played-view p now g text o e
  step_refines (gap_failed phrase p now g) e = failed-view phrase p now g e
  step_refines (fallback_ready text p now g o) e = fallback_synthesized-view text p now g o e
  step_refines (fallback_over p now g none) e = arm_if_safe-view p now g e
  step_refines (fallback_over p now g (some true)) e = arm_if_safe-view p now g e
  step_refines (fallback_over p now g (some false)) e = refl
  step_refines (gap_ends g) e = refl
  step_refines (idle_closes phrase now p) e = close_idle_call-view phrase now p e
  step_refines (goodbye_ready revision text o p) e = close_synthesized-view revision text o p e
  step_refines (goodbye_over revision none p) e = hangup_idle-view revision p e
  step_refines (goodbye_over revision (some true) p) e = hangup_idle-view revision p e
  step_refines (goodbye_over revision (some false) p) e = refl
  step_refines (hangup_fails now p) e = refl

  -- The policy's state, seen as a book of requests, is the book after the same events. An entry is opened
  -- only by a tool request that meets no open or unknown current entry, while the policy is enabled,
  -- or by a background tool; while the policy is enabled it becomes the current one, in place of the
  -- one before. An entry is closed only by the end of its task. The end of a background tool clears
  -- the current entry where it is that tool's. The other events leave the book as it is.
  pub run_refines : (evs : List Event) (e : Engagement) → view (run c evs e) ≡ book_run evs (view e)
  unfolding run book_run
  run_refines [] e = refl
  run_refines (ev ∷ evs) e = run_refines evs (step c ev e) ∙ ap (book_run evs) (step_refines ev e)
