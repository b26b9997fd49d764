-- ===== src/Passkey/Once.antt =====
-- One proof, one use: no ceremony is executed twice.
use sales_girl_voice_agent.Common.{
  ℕ, ◌+◌, ◌<◌, ◌≡◌, refl, Bool, true, false, Option, none, some, List, [], ◌∷◌, map, arith,
  contains, All, not, ◌&&◌,
}
use sales_girl_voice_agent.Passkey.Flow.{
  Pending, PasskeyFlow, StartArgs, Feature, BeginReply, start_reply, start_check, Raw, receive,
  Received, ignored, finishes, executes, finish, close, Started, refused, posts,
}
use sales_girl_voice_agent.Common.{pick}
use sales_girl_voice_agent.Passkey.World.{
  World, Event, starts, begun, gets, finished, closes, step, run, new_world, on_start, on_begun,
  on_received, on_finished,
}

abbrev pub correlations : List Pending → List ℕ
correlations = map (λ (p : Pending). p.correlation_id)

abbrev pub no_repeats : List ℕ → Bool
no_repeats [] = true
no_repeats (k ∷ ks) = not (contains k ks) && no_repeats ks

abbrev Below : ℕ → List ℕ → Type 0
Below n ks = All (λ k. k < n) ks

-- The pending ceremony has an id below `fresh`, and if it is not consumed it was not executed.
abbrev IsNew : ℕ → List ℕ → Option Pending → Type 0
IsNew n ks none = Unit
IsNew n ks (some p) =
    (p.correlation_id < n) × (p.consumed ≡ false → contains p.correlation_id ks ≡ false)

record Inv (w : World) : Type 0 where
  below : Below w.fresh (correlations w.executed)
  new : IsNew w.fresh (correlations w.executed) w.flow.pending
  once : no_repeats (correlations w.executed) ≡ true

Below-suc : (n : ℕ) (ks : List ℕ) → Below n ks → Below (n + 1) ks
Below-suc n [] h = tt
Below-suc n (k ∷ ks) h = (omega arith, Below-suc n ks h.1)

not_contains : (n : ℕ) (ks : List ℕ) → Below n ks → contains n ks ≡ false
not_contains n [] h = refl
not_contains n (k ∷ ks) h = ground (arith, not_contains n ks h.1)

start_reply-IsNew :
    (a : StartArgs) (feature : Feature) (reply : Option BeginReply) (n now : ℕ) (f : PasskeyFlow)
    (ks : List ℕ)
    → Below n ks
    → IsNew n ks f.pending
    → IsNew (n + 1) ks (start_reply a feature reply n now f).0.pending
unfolding start_reply
start_reply-IsNew a feature reply n now f ks b h = ground (arith, not_contains n ks b)

-- What `receive` leaves pending, and what it may execute.
abbrev Consumes : ℕ → List ℕ → PasskeyFlow × Received → Type 0
Consumes n ks (f, executes p _) =
    (contains p.correlation_id ks ≡ false)
    × (p.correlation_id < n)
    × IsNew n (p.correlation_id ∷ ks) f.pending
Consumes n ks (f, _) = IsNew n ks f.pending

receive-Consumes :
    (raw : Raw) (now n : ℕ) (f : PasskeyFlow) (ks : List ℕ)
    → IsNew n ks f.pending
    → Consumes n ks (receive raw now f)
unfolding receive
receive-Consumes raw now n f ks h = ground arith

on_received-Inv :
    (r : PasskeyFlow × Received) (w : World)
    → Inv w
    → Consumes w.fresh (correlations w.executed) r
    → Inv (on_received r w)
unfolding on_received
on_received-Inv (f, ignored) w i h = record { below = i.below; new = h; once = i.once }
on_received-Inv (f, finishes _ _) w i h = record { below = i.below; new = h; once = i.once }
on_received-Inv (f, executes p _) w i h = record {
  below = (h.1, i.below);
  new = h.2;
  once = ground arith;
}

on_begun-Inv :
    (o : Option ((StartArgs × Feature) × List (StartArgs × Feature))) (reply : Option BeginReply)
    (now : ℕ) (w : World)
    → Inv w
    → Inv (on_begun o reply now w)
unfolding on_begun
on_begun-Inv none reply now w i = i
on_begun-Inv (some ((a, feature), others)) reply now w i = record {
  below = Below-suc w.fresh (correlations w.executed) i.below;
  new =
      start_reply-IsNew a feature reply w.fresh now w.flow (correlations w.executed) i.below i.new;
  once = i.once;
}

step-Inv : (e : Event) (w : World) → Inv w → Inv (step e w)
unfolding step
step-Inv (starts a) w i = go (start_check a w.flow)
  where
    go : (s : Started) → Inv (on_start a s w)
    go (refused _) = record { below = i.below; new = i.new; once = i.once }
    go (posts b) = record { below = i.below; new = i.new; once = i.once }
step-Inv (begun n reply now) w i = on_begun-Inv (pick n w.starting) reply now w i
step-Inv (gets raw now) w i =
    on_received-Inv (receive raw now w.flow) w i
      (receive-Consumes raw now w.fresh w.flow (correlations w.executed) i.new)
step-Inv (finished n) w i = go (pick n w.executing)
  where
    go : (o : Option (Pending × List Pending)) → Inv (on_finished o w)
    go none = record { below = i.below; new = i.new; once = i.once }
    go (some (p, others)) = record { below = i.below; new = unfold finish in tt; once = i.once }
step-Inv closes w i = record { below = i.below; new = unfold close in tt; once = i.once }

run-Inv : (es : List Event) (w : World) → Inv w → Inv (run es w)
unfolding run
run-Inv [] w i = i
run-Inv (e ∷ es) w i = run-Inv es (step e w) (step-Inv e w i)

-- One proof, one use: in whatever order starts, replies, messages of the app, finished requests and
-- the end of the call come, the execute endpoint is called at most once for each ceremony.
pub executed_once :
    (es : List Event) (timeout : ℕ) (trim : Bool)
    → no_repeats (correlations (run es (new_world timeout trim)).executed) ≡ true
executed_once es timeout trim =
    (run-Inv es (new_world timeout trim) (record { below = tt; new = tt; once = refl })).once
