-- ===== src/Memory/Tests.antt =====
-- Runs of the conversation memory (latency_lab/memory.py), and its theorems at concrete inputs.
use sales_girl_voice_agent.Common.{
  ℕ, ◌≤◌, ◌≡◌, refl, true, false, none, some, List, [], ◌∷◌, ◌++◌, arith, codes, Json, obj, field,
  end, arr, nil, cons, str, length, drop, take, keep_if, ◌⊎◌, map, Text,
}
use sales_girl_voice_agent.Memory.Turns.{
  Message, MemoryTurn, ConversationMemory, from_user, with_turn, from_assistant, from_tool, history,
  interruption_note,
}
use sales_girl_voice_agent.Memory.Budget.{estimated_tokens}
use sales_girl_voice_agent.Memory.Groups.{groups, messages_of}
use sales_girl_voice_agent.Memory.Ops.{IsValid}
use sales_girl_voice_agent.Memory.Calls.{
  Call, user_call, answer_call, finish_call, run_calls, run_calls-IsValid,
}
use sales_girl_voice_agent.Memory.Context.Defs.{
  context, context_budget, prefix, is_other, newest_groups, fits,
}
use sales_girl_voice_agent.Memory.Context.Bound.{context_within_budget}
use sales_girl_voice_agent.Memory.Context.Whole.{context_whole_history}
use sales_girl_voice_agent.Memory.Compact.Defs.{
  Compaction, begin_compact, finish_compact, eligible, bounded_turns, summarized, keep_exchanges,
}
use sales_girl_voice_agent.Memory.Compact.Recent.{begin_compact-keeps_recent}
use sales_girl_voice_agent.Memory.Compact.Commit.{Commits, finish_compact_lem}

abbrev fresh : ConversationMemory
fresh = record {
  memory_context_tokens = 6000;
  memory_recent_exchanges = 2;
  turns = [];
  summary = none;
  epoch = 0;
}

abbrev turn : ℕ → Text → Text → MemoryTurn
turn k question reply = record {
  id = k;
  messages =
      record {
        role = from_user;
        content = some question;
        reasoning_content = none;
        tool_calls = none;
        tool_call_id = none;
      }
      ∷ record {
        role = from_assistant;
        content = some reply;
        reasoning_content = none;
        tool_calls = none;
        tool_call_id = none;
      }
      ∷ [];
  closed = true;
  answered = true;
  interrupted = false;
  listening_only = false;
}

abbrev three_turns : List MemoryTurn
three_turns =
    turn 1 (codes "Hello") (codes "Hi")
    ∷ turn 2 (codes "My budget?") (codes "3500 naira.")
    ∷ turn 3 (codes "Bye") (codes "Goodbye")
    ∷ []

abbrev talk : ConversationMemory
talk = record fresh { turns = three_turns }

abbrev an_answered_call : List Call
an_answered_call =
    user_call 7 (codes "Hello") false ∷ answer_call 7 (codes "Hi") [] ∷ finish_call 7 true ∷ []

interrupted_answer :
    map (λ (m : Message). m.content) (history (run_calls an_answered_call fresh).0)
    ≡ some (codes "Hello") ∷ some (codes "Hi" ++ interruption_note) ∷ []
unfolding run_calls history with_turn
interrupted_answer = refl

run_calls-IsValid_example :
    IsValid (run_calls an_answered_call fresh).0.turns
    × ((run_calls an_answered_call fresh).1 ≡ true)
run_calls-IsValid_example = run_calls-IsValid an_answered_call fresh (omega arith) tt

abbrev balance_request : Message
balance_request = record {
  role = from_assistant;
  content = none;
  reasoning_content = none;
  tool_calls = some (arr (cons (str (codes "get_balance")) nil));
  tool_call_id = none;
}

abbrev balance_reply : Message
balance_reply = record {
  role = from_tool;
  content = some (codes "5000");
  reasoning_content = none;
  tool_calls = none;
  tool_call_id = some (codes "c1");
}

context_within_budget_example : estimated_tokens (context (some 3) false talk) ≤ context_budget talk
context_within_budget_example = context_within_budget (some 3) false talk

context_whole_history_example :
    context (some 3) false talk
    ≡ prefix talk ++ messages_of false (keep_if (is_other (some 3)) three_turns)
unfolding prefix estimated_tokens groups messages_of context_budget newest_groups fits
context_whole_history_example = context_whole_history (some 3) false talk refl (omega arith)

abbrev good_summary : Json
good_summary = obj (
    field (codes "topics") (arr (cons (str (codes "greeting")) nil)) (
      field (codes "facts") (arr nil)
        (field (codes "corrections") (arr nil) (field (codes "open_questions") (arr nil) end))))

abbrev greeting_compaction : Compaction
greeting_compaction = record {
  turn_ids = 1 ∷ [];
  epoch = 0;
  snapshot = (turn 1 (codes "Hello") (codes "Hi")).messages;
  previous_summary = none;
}

talk_compacts : begin_compact talk ≡ some greeting_compaction
unfolding begin_compact eligible summarized bounded_turns groups messages_of estimated_tokens
talk_compacts = refl

begin_compact-keeps_recent_example :
    (take 1 three_turns ≡ summarized talk)
    × (groups three_turns ≡ groups (summarized talk) ++ groups (drop 1 three_turns))
    × (keep_exchanges talk ≤ length (groups (drop 1 three_turns)))
begin_compact-keeps_recent_example =
    begin_compact-keeps_recent talk greeting_compaction talk_compacts

finish_compact_lem_example :
    ((s : Json) × (some good_summary ≡ some s)
      × ((finish_compact greeting_compaction (some good_summary) talk).1 ≡ true)
      × Commits greeting_compaction s talk
          (finish_compact greeting_compaction (some good_summary) talk).0)
    ⊎ (finish_compact greeting_compaction (some good_summary) talk ≡ (talk, false))
finish_compact_lem_example = finish_compact_lem greeting_compaction (some good_summary) talk

abbrev later_talk : ConversationMemory
later_talk = record talk { turns = three_turns ++ (turn 4 (codes "Wait") (codes "Yes?") ∷ []) }
