-- ===== src/Engagement/Tests.antt =====
-- The engagement policy at concrete inputs.
use sales_girl_voice_agent.Engagement.Phrase.{caller_stops_phrase}
use sales_girl_voice_agent.Common.{
  length, ◌++◌, ℕ, ◌≤◌, ◌≡◌, refl, Bool, true, false, none, some, List, [], ◌∷◌, Text, codes,
  length, Option, Json, ◌⊎◌, ◌+◌,
}
use sales_girl_voice_agent.Engagement.State.{
  Config, Reason, current, caller_final, ToolCall, Engagement, Operation, Pipe, new_engagement,
  until_user, idle, idle_gap, releasing,
}
use sales_girl_voice_agent.Engagement.Tools.{
  register_operation, finish_operation, has_unknown, run_tool, execute_done, unknown_result, starts,
  joins,
}
use sales_girl_voice_agent.Engagement.Opportunity.{safe, opportunity}
use sales_girl_voice_agent.Engagement.Reconsider.{decided, Gap, stops, fails}
use sales_girl_voice_agent.Engagement.Hangup.{
  close_synthesized, close_played, ends, Moment, play_chunks, hangup_idle,
}
use sales_girl_voice_agent.Engagement.Events.{
  Event, step, run, tool, tool_done, caller_spoke, audio,
}
use sales_girl_voice_agent.Engagement.Book.{view, book_run}
use sales_girl_voice_agent.Engagement.Refines.{run_refines}
use sales_girl_voice_agent.Engagement.Single.{single_request, pending_count}
use sales_girl_voice_agent.Engagement.Pinned.{unknown_blocks, background_forgets}
use sales_girl_voice_agent.Engagement.Gate.{run_lists_bounded, silence_kept, caller_stops_hangup}

abbrev config : Config
config = record {
  idle_seconds = 8;
  tool_seconds = 6;
  ack_seconds = 1;
  max_tool_updates = 2;
  max_idle_updates = 1;
  pilot = true;
  close_seconds = 10;
  retry_seconds = 1;
  hangup_retry_seconds = 5;
}

abbrev balance : ToolCall
balance = record { name = codes "wema_get_balance"; arguments = [] }

abbrev transfer : ToolCall
transfer = record { name = codes "wema_execute_prepared"; arguments = codes "{1}" }

abbrev start : Engagement
start = new_engagement config true 0

-- Two requests, the second while the first is out, and the end of the first by an exception.
abbrev evs : List Event
evs =
    tool 1 transfer 1 ∷ caller_spoke (codes "hello") 2 ∷ tool 2 balance 3 ∷ tool_done 0 none 9 ∷ []

abbrev after : Engagement
after = run config evs start

abbrev lost : Operation
lost = record {
  id = 0;
  call = transfer;
  attempt = 1;
  done = true;
  result = some unknown_result;
  delivered = false;
  completion_considered_revision = none;
}

abbrev quiet_pipe : Pipe
quiet_pipe = record {
  state = idle;
  attempt = none;
  speech_candidate_active = false;
  speech_locked = false;
  pending_action = false;
  prepared = false;
  has_turns = true;
  call_ending = false;
  inflight_tools = false;
}

abbrev speaking_pipe : Pipe
speaking_pipe = record quiet_pipe {
  state = releasing;
  attempt = some (record { id = 0; authorized = true; cancelled = false });
}

abbrev hushed : Engagement
hushed = record start { quiet = until_user }

abbrev moments : List Moment
moments =
    (record { chunk = 1; now = 9; pipe = speaking_pipe; policy = start })
    ∷ (record { chunk = 2; now = 9; pipe = speaking_pipe; policy = start })
    ∷ []

second_waits :
    (run_tool config 2 balance 3 (run config (tool 1 transfer 1 ∷ []) start)).1.operations
    ≡ (run config (tool 1 transfer 1 ∷ []) start).operations
unfolding run step run_tool new_engagement
second_waits = refl

joined : (run_tool config 2 transfer 3 (run config (tool 1 transfer 1 ∷ []) start)).0 ≡ joins 0
unfolding run step run_tool new_engagement
joined = refl

hangs_up : (hangup_idle config 0 quiet_pipe start).2.call_ending ≡ true
unfolding hangup_idle new_engagement
hangs_up = refl

run_refines_example : view (run config evs start) ≡ book_run evs (view start)
run_refines_example = run_refines config evs start

single_request_example : pending_count (run config evs (new_engagement config true 0)) ≤ 1
single_request_example = single_request config true 0 evs (tt, (tt, (tt, (tt, tt))))

abbrev more : List Event
more = caller_spoke (codes "again") 10 ∷ tool 3 transfer 11 ∷ []

unknown_blocks_example :
    (length (run config more after).operations ≡ length after.operations)
    × (has_unknown (current (run config more after)) ≡ true)
unfolding run step caller_final run_tool execute_done new_engagement
unknown_blocks_example = unknown_blocks config more after lost (tt, (tt, tt)) refl refl refl

abbrev forgetful : Engagement
forgetful = finish_operation config 0 3 (register_operation config balance 1 3 start)

background_forgets_example :
    ((run_tool config 2 transfer 4 forgetful).0 ≡ starts (length forgetful.operations))
    × (pending_count (run_tool config 2 transfer 4 forgetful).1 ≡ 2 + pending_count start)
unfolding new_engagement
background_forgets_example = background_forgets config balance transfer 1 2 3 4 start refl

run_lists_bounded_example :
    (length (run config evs (new_engagement config true 0)).new_messages ≤ 8)
    × (length (run config evs (new_engagement config true 0)).last_updates ≤ 3)
run_lists_bounded_example = run_lists_bounded config true 0 evs

abbrev talk : List Event
talk = caller_spoke (codes "so I was saying") 10 ∷ audio 2 11 ∷ []

silence_kept_example :
    (opportunity config quiet_pipe 30 (run config talk hushed) ≡ none)
    × ((revision : ℕ) (attempt : Option ℕ) (reason : Reason)
        → safe quiet_pipe revision attempt reason 30 (run config talk hushed) ≡ false)
    × ((phrase : Option Text) (g : Gap) (j : Option Json)
        → ((decided config phrase quiet_pipe 30 g j (run config talk hushed)).0 ≡ stops)
          ⊎ ((decided config phrase quiet_pipe 30 g j (run config talk hushed)).0 ≡ fails))
unfolding new_engagement
silence_kept_example =
    silence_kept config talk hushed ((λ h. h), ((λ h. h), tt)) refl refl quiet_pipe 30

abbrev heard : Engagement
heard = run config [] (step config (caller_spoke (codes "wait") 9) (run config [] start))

caller_stops_hangup_example :
    ((hangup_idle config start.revision quiet_pipe heard).0 ≡ ends)
    × ((goodbye : Text) (o : Option Bool)
        → (close_synthesized config start.revision goodbye o quiet_pipe heard).0 ≡ ends)
    × ((o : Option Bool) → (close_played config start.revision o quiet_pipe heard).0 ≡ ends)
unfolding new_engagement
caller_stops_hangup_example =
    caller_stops_hangup config [] [] (codes "wait") 9 start quiet_pipe refl

abbrev interrupted_chunk : Moment
interrupted_chunk = record { chunk = 3; now = 10; pipe = speaking_pipe; policy = heard }

caller_stops_phrase_example :
    (length (play_chunks 0 0 idle_gap (moments ++ (interrupted_chunk ∷ []))).0 ≤ 2)
    × ((play_chunks 0 0 idle_gap (moments ++ (interrupted_chunk ∷ []))).1 ≡ false)
unfolding new_engagement
caller_stops_phrase_example =
    caller_stops_phrase config [] [] (codes "wait") 9 0 idle_gap start interrupted_chunk moments []
      refl refl
