-- ===== src/Passkey/Tests.antt =====
-- Runs of the passkey confirmation (latency_lab/passkey.py), and its theorems at concrete inputs.
use sales_girl_voice_agent.Common.{
  ℕ, ◌≡◌, refl, Bool, true, false, Option, none, some, List, [], ◌∷◌, arith, codes, Json, obj, str,
  end, field, ◌↔◌, Text, strip,
}
use sales_girl_voice_agent.Passkey.Options.{selection_key}
use sales_girl_voice_agent.Passkey.Consent.{start_requested, words, enabled, canon, configured}
use sales_girl_voice_agent.Passkey.Flow.{
  Pending, StartArgs, transfer_workflow, transfer_feature, BeginReply, Raw, AppValue, fido2_proof,
  receive, executes, start_check, start_reply,
}
use sales_girl_voice_agent.Common.{pick}
use sales_girl_voice_agent.Passkey.World.{
  World, Event, starts, begun, gets, finished, run, new_world,
}
use sales_girl_voice_agent.Passkey.Once.{no_repeats, correlations, executed_once}
use sales_girl_voice_agent.Passkey.Proof.{Approves, receive_executes_iff, finished_drops_ceremony}

abbrev args : ℕ → StartArgs
args operation = record {
  workflow = transfer_workflow;
  operation_id = operation;
  customer_id = codes "c-1";
  display_name = [];
}

abbrev reply : Text → Option BeginReply
reply authentication_id =
    some (record { status = codes "ok"; authentication_id = authentication_id; options = some end })

abbrev proof_value : Text → ℕ → AppValue
proof_value authentication_id correlation_id = record {
  kind = fido2_proof;
  device_imei = none;
  authentication_id = some authentication_id;
  correlation_id = some correlation_id;
  proof = some 42;
}

abbrev proof_message : Text → ℕ → Raw
proof_message authentication_id correlation_id = record {
  size = 900;
  value = some (proof_value authentication_id correlation_id);
}

abbrev ceremony : Text → ℕ → ℕ → ℕ → Bool → Pending
ceremony authentication_id correlation operation expires consumed = record {
  authentication_id = authentication_id;
  correlation_id = correlation;
  operation_id = operation;
  workflow = transfer_workflow;
  feature = transfer_feature;
  expires = expires;
  consumed = consumed;
}

-- A first ceremony is approved and its request is in flight; a second one is set up meanwhile.
abbrev two_ceremonies : List Event
two_ceremonies =
    starts (args 5)
    ∷ begun 0 (reply (codes "a1")) 10
    ∷ gets (proof_message (codes "a1") 0) 20
    ∷ starts (args 6)
    ∷ begun 0 (reply (codes "a2")) 30
    ∷ []

abbrev busy_world : World
busy_world = record {
  flow = record {
    timeout = 90;
    trim = true;
    device_id = none;
    pending = some (ceremony (codes "a2") 1 6 120 false);
    closed = false;
  };
  fresh = 2;
  starting = [];
  executing = ceremony (codes "a1") 0 5 100 false ∷ [];
  executed = ceremony (codes "a1") 0 5 100 false ∷ [];
}

two_ceremonies-run : run two_ceremonies (new_world 90 true) ≡ busy_world
unfolding run pick start_check start_reply receive strip
two_ceremonies-run = refl

executed_once_example :
    no_repeats (correlations (run two_ceremonies (new_world 90 true)).executed) ≡ true
executed_once_example = executed_once two_ceremonies 90 true

receive_executes_iff_example :
    ((receive (proof_message (codes "a2") 1) 40 busy_world.flow).1
      ≡ executes (ceremony (codes "a2") 1 6 120 false) 42)
    ↔ ((v : AppValue) × Approves
          (proof_message (codes "a2") 1)
          40
          busy_world.flow
          (ceremony (codes "a2") 1 6 120 false)
          42
          v)
receive_executes_iff_example =
    receive_executes_iff (proof_message (codes "a2") 1) 40 busy_world.flow
      (ceremony (codes "a2") 1 6 120 false) 42

finished_drops_ceremony_example :
    ((run (gets (proof_message (codes "a2") 1) 40 ∷ []) busy_world).executed
      ≡ ceremony (codes "a2") 1 6 120 false ∷ busy_world.executed)
    × ((run (finished 0 ∷ gets (proof_message (codes "a2") 1) 40 ∷ []) busy_world).executed
        ≡ busy_world.executed)
finished_drops_ceremony_example =
    finished_drops_ceremony busy_world (ceremony (codes "a1") 0 5 100 false)
      (ceremony (codes "a2") 1 6 120 false) [] (proof_message (codes "a2") 1) 40 42
      (proof_value (codes "a2") 1) refl (ground arith)

abbrev bank_options : Json
bank_options = obj (
    field (codes "challenge") (str (codes "xyz")) (
      field (codes "hints") (str (codes "h")) (
        field selection_key (obj (field (codes "userVerification") (str (codes "discouraged")) end))
          end)))

agrees_plainly : start_requested (codes "Yes, go ahead!") ≡ true
unfolding start_requested words
agrees_plainly = refl

declines : start_requested (codes "ok wait") ≡ false
unfolding start_requested words
declines = refl

enabled_example : enabled (codes "B-1, b2") (codes "A-7") (codes "b1") (codes "a7") ≡ true
unfolding enabled canon configured strip
enabled_example = refl
