-- ===== src/Engagement/Events.antt =====
-- Every step of the policy (latency_lab/engagement.py) as an event, in any order. What the pipeline shows
-- of itself and what a wait gives are the event's own, so that they are arbitrary.
use sales_girl_voice_agent.Common.{
  ℕ, Bool, false, Option, none, some, List, [], ◌∷◌, Text, if◌then◌else◌, Json,
}
use sales_girl_voice_agent.Engagement.State.{
  Config, Reason, ToolCall, ToolResult, Engagement, Pipe, caller_final, caller_started,
  set_speech_enabled, audio_sent, playback_stopped, close, invalidate, find, is_pending,
}
use sales_girl_voice_agent.Engagement.Tools.{
  run_tool, execute_done, execute_cancelled, deliver, register_operation, finish_operation,
  background_done,
}
use sales_girl_voice_agent.Engagement.Opportunity.{loop_round}
use sales_girl_voice_agent.Engagement.Reconsider.{
  Gap, begin_reconsider, decided, played, failed, fallback_synthesized, fallback_played,
  end_reconsider,
}
use sales_girl_voice_agent.Engagement.Hangup.{
  close_idle_call, close_synthesized, close_played, hangup_failed, play_begin,
}

pub data Event : Type 0 where
  caller_spoke : Text → ℕ → Event
  caller_starts : ℕ → Event
  gate : Bool → Event
  invalidated : Event
  audio : ℕ → ℕ → Event
  stopped : ℕ → Event
  closing : Event
  tool : ℕ → ToolCall → ℕ → Event
  tool_done : ℕ → Option ToolResult → ℕ → Event
  tool_cancelled : ℕ → ℕ → Event
  delivery : Bool → ℕ → Event
  registers : ToolCall → ℕ → ℕ → Event
  releases : ℕ → ℕ → Event
  released : ℕ → Event
  round : Pipe → ℕ → Event
  gap_begins : Reason → Option ℕ → ℕ → Event
  gap_decided : Option Text → Pipe → ℕ → Gap → Option Json → Event
  gap_plays : ℕ → Option ℕ → Reason → ℕ → ℕ → Pipe → Event
  gap_played : Pipe → ℕ → Gap → Text → Option Bool → Event
  gap_failed : Option Text → Pipe → ℕ → Gap → Event
  fallback_ready : Text → Pipe → ℕ → Gap → Option Bool → Event
  fallback_over : Pipe → ℕ → Gap → Option Bool → Event
  gap_ends : Gap → Event
  idle_closes : Option Text → ℕ → Pipe → Event
  goodbye_ready : ℕ → Text → Option Bool → Pipe → Event
  goodbye_over : ℕ → Option Bool → Pipe → Event
  hangup_fails : ℕ → Pipe → Event

abbrev pub begun : Option (ℕ × Engagement × Pipe) → Engagement → Engagement
begun none e = e
begun (some (_, e', _)) e = e'

module _ (c : Config) where
  -- A task ends once: what ends no pending operation changes nothing.
  abbrev if_pending : ℕ → Engagement → Engagement → Engagement
  if_pending k e' e = if is_pending (find k e.operations) then e' else e

  unfoldable pub step : Event → Engagement → Engagement
  step (caller_spoke text now) e = caller_final c text now e
  step (caller_starts now) e = caller_started c now e
  step (gate on) e = set_speech_enabled on e
  step invalidated e = invalidate false e
  step (audio seconds now) e = audio_sent seconds now e
  step (stopped now) e = playback_stopped c now e
  step closing e = close e
  step (tool attempt call now) e = (run_tool c attempt call now e).1
  step (tool_done k r now) e = if_pending k (execute_done c k r now e) e
  step (tool_cancelled k now) e = if_pending k (execute_cancelled c k now e) e
  step (delivery still k) e = deliver still k e
  step (registers call attempt now) e = register_operation c call attempt now e
  step (releases k now) e = finish_operation c k now e
  step (released k) e = if_pending k (background_done k e) e
  step (round p now) e = (loop_round c p now e).1
  step (gap_begins reason attempt now) e = (begin_reconsider c reason attempt now e).1
  step (gap_decided phrase p now g j) e = (decided c phrase p now g j e).1
  step (gap_plays revision attempt reason k now p) e =
      begun (play_begin revision attempt reason k now p e) e
  step (gap_played p now g text o) e = (played c p now g text o e).1
  step (gap_failed phrase p now g) e = (failed c phrase p now g e).1
  step (fallback_ready text p now g o) e = (fallback_synthesized c text p now g o e).1
  step (fallback_over p now g o) e = fallback_played c p now g o e
  step (gap_ends g) e = end_reconsider c g e
  step (idle_closes phrase now p) e = (close_idle_call c phrase now p e).1
  step (goodbye_ready revision text o p) e = (close_synthesized c revision text o p e).1
  step (goodbye_over revision o p) e = (close_played c revision o p e).1
  step (hangup_fails now p) e = (hangup_failed c now p e).0

  unfoldable pub run : List Event → Engagement → Engagement
  unfolding step
  run [] e = e
  run (ev ∷ evs) e = run evs (step ev e)
