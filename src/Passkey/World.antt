-- ===== src/Passkey/World.antt =====
-- The tasks of latency_lab/passkey.py that wait for the connector, and any order in which the
-- application, the app on the phone and the connector may act on one flow.
use sales_girl_voice_agent.Common.{pick, ℕ, ◌+◌, Bool, false, Option, none, some, List, [], ◌∷◌}
use sales_girl_voice_agent.Passkey.Flow.{
  Pending, PasskeyFlow, StartArgs, Feature, Started, refused, posts, start_check, BeginReply,
  start_reply, Raw, receive, Received, ignored, finishes, executes, finish, close,
}

-- `executed` lists the ceremonies for which the execute endpoint was called, newest first. `fresh`
-- stands for the next `uuid4`, of which no two are equal.
pub record World : Type 0 where
  pub flow : PasskeyFlow
  pub fresh : ℕ
  pub starting : List (StartArgs × Feature)
  pub executing : List Pending
  pub executed : List Pending

pub data Event : Type 0 where
  starts : StartArgs → Event
  begun : ℕ → Option BeginReply → ℕ → Event
  gets : Raw → ℕ → Event
  finished : ℕ → Event
  closes : Event

unfoldable pub on_start : StartArgs → Started → World → World
on_start a (refused _) w = w
on_start a (posts b) w = record w { starting = (a, b.feature) ∷ w.starting }

unfoldable pub on_begun :
    Option ((StartArgs × Feature) × List (StartArgs × Feature))
    → Option BeginReply
    → ℕ
    → World
    → World
on_begun none reply now w = w
on_begun (some ((a, feature), others)) reply now w = record w {
  flow = (start_reply a feature reply w.fresh now w.flow).0;
  fresh = w.fresh + 1;
  starting = others;
}

unfoldable pub on_received : PasskeyFlow × Received → World → World
on_received (f, ignored) w = record w { flow = f }
on_received (f, finishes _ _) w = record w { flow = f }
on_received (f, executes p _) w = record w {
  flow = f;
  executing = p ∷ w.executing;
  executed = p ∷ w.executed;
}

unfoldable pub on_finished : Option (Pending × List Pending) → World → World
on_finished none w = w
on_finished (some (p, others)) w = record w { flow = finish w.flow; executing = others }

unfoldable pub step : Event → World → World
unfolding on_start on_begun on_received on_finished
step (starts a) w = on_start a (start_check a w.flow) w
step (begun n reply now) w = on_begun (pick n w.starting) reply now w
step (gets raw now) w = on_received (receive raw now w.flow) w
step (finished n) w = on_finished (pick n w.executing) w
step closes w = record w { flow = close w.flow }

unfoldable pub run : List Event → World → World
unfolding step
run [] w = w
run (e ∷ es) w = run es (step e w)

-- A new flow: nothing pending, and no task waits.
abbrev pub new_world : ℕ → Bool → World
new_world timeout trim = record {
  flow = record {
    timeout = timeout;
    trim = trim;
    device_id = none;
    pending = none;
    closed = false;
  };
  fresh = 0;
  starting = [];
  executing = [];
  executed = [];
}
