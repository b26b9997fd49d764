-- ===== src/Banking/Tasks.antt =====
-- The calls of `_execute` (latency_lab/banking_tools.py) that wait for the authorization or for the
-- service, in any order in which they may go on.
use sales_girl_voice_agent.Common.{ℕ, Bool, Option, none, some, List, [], ◌∷◌, Text, Json, Fields}
use sales_girl_voice_agent.Banking.Voice.{BankingTools}
use sales_girl_voice_agent.Banking.Execute.{
  ToolCall, Verdict, stops, proceeds, Post, Answer, not_a_dict, answer, execute_check, execute_send,
  execute_answer,
}
use sales_girl_voice_agent.Common.{pick}

-- `previewed` holds the operation ids of the answers so far, and `posts` the requests, newest first.
pub record World : Type 0 where
  pub tools : BankingTools
  pub waiting : List Post
  pub asked : List Text
  pub posts : List Post
  pub previewed : List Text

pub data Event : Type 0 where
  calls : ToolCall → Text → Event
  authorized : ℕ → Bool → Event
  answered : ℕ → Answer → Event

abbrev ids_of : Answer → List Text
ids_of not_a_dict = []
ids_of (answer code body) = body.operation_id ∷ []

unfoldable pub on_call : ToolCall → BankingTools × Verdict → World → World
on_call call (b, stops _) w = record w { tools = b }
on_call call (b, proceeds args) w = record w {
  tools = b;
  waiting = record { name = call.name; args = args } ∷ w.waiting;
}

unfoldable pub on_sent : Text → List Post → BankingTools × Option Post → World → World
on_sent name others (b, none) w = record w { tools = b; waiting = others }
on_sent name others (b, some p) w = record w {
  tools = b;
  waiting = others;
  asked = name ∷ w.asked;
  posts = p ∷ w.posts;
}

unfoldable pub on_authorized : Option (Post × List Post) → Bool → World → World
unfolding on_sent
on_authorized none passed w = w
on_authorized (some (p, others)) passed w =
    on_sent p.name others (execute_send p.name p.args passed w.tools) w

unfoldable pub on_answered : Option (Text × List Text) → Answer → World → World
on_answered none a w = w
on_answered (some (name, others)) (answer code body) w = record w {
  tools = (execute_answer name (answer code body) w.tools).0;
  asked = others;
  previewed = body.operation_id ∷ w.previewed;
}
on_answered (some (name, others)) not_a_dict w = record w {
  tools = (execute_answer name not_a_dict w.tools).0;
  asked = others;
}

module _ (first_error : Json → Fields → Option Text) where
  unfoldable pub step : Event → World → World
  unfolding on_call on_authorized on_answered
  step (calls call confirmed) w = on_call call (execute_check first_error call confirmed w.tools) w
  step (authorized n passed) w = on_authorized (pick n w.waiting) passed w
  step (answered n a) w = on_answered (pick n w.asked) a w

  unfoldable pub run : List Event → World → World
  unfolding step
  run [] w = w
  run (e ∷ es) w = run es (step e w)
