-- ===== src/Passkey/Proof.antt =====
-- What the app must send before money moves, and a ceremony that an older one takes down.
use sales_girl_voice_agent.Common.{
  ℕ, ◌<◌, ◌≤◌, ◌≡◌, refl, true, false, Option, none, some, List, [], ◌∷◌, arith, inl, inr, ◌↔◌,
  Option-cases, ◌∙◌,
}
use sales_girl_voice_agent.Passkey.Flow.{
  Pending, PasskeyFlow, StartArgs, Feature, BeginReply, start_reply, start_check, Raw, AppValue,
  fido2_proof, receive, ignored, executes, finish, close, Started, refused, posts, matches,
  max_bytes,
}
use sales_girl_voice_agent.Common.{pick}
use sales_girl_voice_agent.Passkey.World.{
  World, Event, starts, begun, gets, finished, closes, step, run, on_start, on_begun, on_finished,
}

-- A message that approves the pending ceremony `p` with `proof` at the time `now`.
pub record Approves (raw : Raw) (now : ℕ) (f : PasskeyFlow) (p : Pending) (proof : ℕ) (v : AppValue)
    : Type 0 where
  pub open_call : f.closed ≡ false
  pub small : raw.size ≤ max_bytes
  pub readable : raw.value ≡ some v
  pub waiting : f.pending ≡ some p
  pub unused : p.consumed ≡ false
  pub is_proof : v.kind ≡ fido2_proof
  pub same_ids : matches v p ≡ true
  pub proven : v.proof ≡ some proof
  pub in_time : now < p.expires

Approves→executes :
    (raw : Raw) (now : ℕ) (f : PasskeyFlow) (p : Pending) (proof : ℕ) (v : AppValue)
    → Approves raw now f p proof v
    → (receive raw now f).1 ≡ executes p proof
unfolding receive
Approves→executes raw now f p proof v a = ground arith

executes→Approves :
    (raw : Raw) (now : ℕ) (f : PasskeyFlow) (p : Pending) (proof : ℕ)
    → (receive raw now f).1 ≡ executes p proof
    → (v : AppValue) × Approves raw now f p proof v
unfolding receive
executes→Approves raw now f p proof h = elim (Option-cases raw.value) [
  | inl e ↦ absurd (ground arith)
  | inr (v, e) ↦ (v, ground arith)
]

-- `receive` calls the execute endpoint exactly for a readable proof message of at most 14,000 bytes,
-- during the call, before the deadline, with both ids of the ceremony that is pending and not yet
-- consumed.
pub receive_executes_iff :
    (raw : Raw) (now : ℕ) (f : PasskeyFlow) (p : Pending) (proof : ℕ)
    → ((receive raw now f).1 ≡ executes p proof) ↔ ((v : AppValue) × Approves raw now f p proof v)
receive_executes_iff raw now f p proof =
    (executes→Approves raw now f p proof, λ a. Approves→executes raw now f p proof a.0 a.1)

-- What a step keeps once the call is over.
abbrev IsOver : World → List Pending → Type 0
IsOver w done = (w.flow.closed ≡ true) × (w.executed ≡ done)

start_reply-closed :
    (a : StartArgs) (feature : Feature) (reply : Option BeginReply) (n now : ℕ) (f : PasskeyFlow)
    → (start_reply a feature reply n now f).0.closed ≡ f.closed
unfolding start_reply
start_reply-closed a feature reply n now f = ground arith

receive-closed :
    (raw : Raw) (now : ℕ) (f : PasskeyFlow) → f.closed ≡ true → receive raw now f ≡ (f, ignored)
unfolding receive
receive-closed raw now f h = ground arith

step-IsOver : (e : Event) (w : World) (done : List Pending) → IsOver w done → IsOver (step e w) done
unfolding step
step-IsOver (starts a) w done h = go (start_check a w.flow)
  where
    go : (s : Started) → IsOver (on_start a s w) done
    go (refused _) = h
    go (posts b) = h
step-IsOver (begun n reply now) w done h = go (pick n w.starting)
  where
    go :
        (o : Option ((StartArgs × Feature) × List (StartArgs × Feature)))
        → IsOver (on_begun o reply now w) done
    go none = h
    go (some ((a, feature), others)) =
        (start_reply-closed a feature reply w.fresh now w.flow ∙ h.0, h.1)
step-IsOver (gets raw now) w done h = rw (receive-closed raw now w.flow h.0) h
step-IsOver (finished n) w done h = go (pick n w.executing)
  where
    go : (o : Option (Pending × List Pending)) → IsOver (on_finished o w) done
    go none = h
    go (some (p, others)) = (unfold finish in h.0, h.1)
step-IsOver closes w done h = (unfold close in refl, h.1)

run-IsOver :
    (es : List Event) (w : World) (done : List Pending) → IsOver w done → IsOver (run es w) done
unfolding run
run-IsOver [] w done h = h
run-IsOver (e ∷ es) w done h = run-IsOver es (step e w) done (step-IsOver e w done h)

-- After the call has ended no payment is executed, whatever arrives: also no ceremony that a late
-- reply of the connector still sets up.
pub closed_executes_nothing :
    (es : List Event) (w : World) → (run (closes ∷ es) w).executed ≡ w.executed
unfolding run
closed_executes_nothing es w =
    (run-IsOver es (step closes w) w.executed (unfold step close in (refl, refl))).1

-- A proof that would be executed is lost where an older request finishes first: `_finish` clears the
-- pending ceremony without a look at which one it is. Here `q` is pending and approved by `raw`; the
-- request of `p`, still in flight, finishes, and then `raw` is ignored.
pub finished_drops_ceremony :
    (w : World) (p q : Pending) (others : List Pending) (raw : Raw) (now proof : ℕ) (v : AppValue)
    → w.executing ≡ p ∷ others
    → Approves raw now w.flow q proof v
    → ((run (gets raw now ∷ []) w).executed ≡ q ∷ w.executed)
      × ((run (finished 0 ∷ gets raw now ∷ []) w).executed ≡ w.executed)
unfolding run pick finish receive
finished_drops_ceremony w p q others raw now proof v e a = (ground arith, ground arith)
