-- ===== src/Engagement/Gate.antt =====
-- Silence, interruption and the idle hang-up (latency_lab/engagement.py), over any order of events.
use sales_girl_voice_agent.Common.{
  ℕ, ◌≤◌, ◌<◌, ◌≡◌, refl, Bool, true, false, ◌&&◌, ◌||◌, not, Option, none, some, List, [], ◌∷◌,
  arith, length, All, ◌∙◌, ◌⊎◌, Text, Json, ◌==◌, Bool-cases, inl, inr,
}
use sales_girl_voice_agent.Engagement.State.{
  Config, until_user, Reason, Engagement, Pipe, set_speech_enabled, caller_final, new_engagement,
}
use sales_girl_voice_agent.Engagement.Opportunity.{opportunity, safe, can_close_idle}
use sales_girl_voice_agent.Engagement.Reconsider.{
  Gap, stops, fails, decided, decided_on, decision_of,
}
use sales_girl_voice_agent.Engagement.Hangup.{ends, hangup_idle, close_synthesized, close_played}
use sales_girl_voice_agent.Engagement.Events.{Event, step, run, gate, caller_spoke}
use sales_girl_voice_agent.Engagement.Bounded.{IsGate, step-Frame, run-Frame}

gate-cases : (ev : Event) → ((on : Bool) × (ev ≡ gate on)) ⊎ (¬ (IsGate ev))
gate-cases (gate on) = inl (on, refl)
gate-cases _ = inr (λ h. h)

-- What every event leaves as it is or within its bounds.
record Kept (e e' : Engagement) : Type 0 where
  enabled : e'.enabled ≡ e.enabled
  revision : e.revision ≤ e'.revision
  messages : length e.new_messages ≤ 8 → length e'.new_messages ≤ 8
  updates : length e.last_updates ≤ 3 → length e'.last_updates ≤ 3

module _ (c : Config) where
  gate-Kept : (on : Bool) (e : Engagement) → Kept e (step c (gate on) e)
  unfolding step set_speech_enabled
  gate-Kept on e = record {
    enabled = refl;
    revision = omega arith;
    messages = λ h. h;
    updates = λ h. h;
  }

  step-Kept : (ev : Event) (e : Engagement) → Kept e (step c ev e)
  step-Kept ev e = elim (gate-cases ev) [
    | inl (on, g) ↦ rw g (gate-Kept on e)
    | inr h ↦
        let f = step-Frame c ev e h in
        record {
          enabled = f.enabled;
          revision = f.revision;
          messages = f.messages;
          updates = f.updates;
        }
  ]

  run-Kept : (evs : List Event) (e : Engagement) → Kept e (run c evs e)
  unfolding run
  run-Kept [] e = record {
    enabled = refl;
    revision = omega arith;
    messages = λ h. h;
    updates = λ h. h;
  }
  run-Kept (ev ∷ evs) e =
      let f = step-Kept ev e in
      let g = run-Kept evs (step c ev e) in
      record {
        enabled = g.enabled ∙ f.enabled;
        revision = omega (arith, f.revision, g.revision);
        messages = λ h. g.messages (f.messages h);
        updates = λ h. g.updates (f.updates h);
      }

-- Over any events from a new policy, at most eight caller messages and three updates are kept.
pub run_lists_bounded :
    (c : Config) (enabled : Bool) (now : ℕ) (evs : List Event)
    → let e = run c evs (new_engagement c enabled now) in
      (length e.new_messages ≤ 8) × (length e.last_updates ≤ 3)
unfolding new_engagement
run_lists_bounded c enabled now evs =
    let k = run-Kept c evs (new_engagement c enabled now) in
    (k.messages (omega arith), k.updates (omega arith))

module _ (c : Config) (e : Engagement) (p : Pipe) (now : ℕ) (q : e.quiet ≡ until_user) where
  opportunity-silent : opportunity c p now e ≡ none
  unfolding opportunity
  opportunity-silent = ground (arith, q)

  safe-silent :
      (revision : ℕ) (attempt : Option ℕ) (reason : Reason)
      → e.enabled ≡ true
      → safe p revision attempt reason now e ≡ false
  unfolding safe
  safe-silent revision attempt reason on =
      elim (Bool-cases (not e.closed && e.revision == revision)) [
        | inl y ↦ ground (arith, q, on)
        | inr n ↦ ground (arith, q, on)
      ]

  decided-silent :
      (phrase : Option Text) (g : Gap) (j : Option Json)
      → ((decided c phrase p now g j e).0 ≡ stops) ⊎ ((decided c phrase p now g j e).0 ≡ fails)
  unfolding decided decided_on
  decided-silent phrase g none = inr refl
  decided-silent phrase g (some j) = go (decision_of j)
    where
      go :
          (d : Option (Bool × Text))
          → ((decided_on c phrase p now g d e).0 ≡ stops)
            ⊎ ((decided_on c phrase p now g d e).0 ≡ fails)
      go none = inr refl
      go (some d) = inl (elim (Bool-cases (not (e.revision == g.revision) || e.closed)) [
        | inl y ↦ rw y refl
        | inr n ↦ rw n (ground (arith, q))
      ])

-- Once the caller's tool has closed the gate, no events but the gate's own make the policy speak: there is
-- no opportunity, no state is safe to speak in, and no decision of the model is synthesized.
pub silence_kept :
    (c : Config) (evs : List Event) (e : Engagement)
    → All (λ ev. ¬ (IsGate ev)) evs
    → e.enabled ≡ true
    → e.quiet ≡ until_user
    → (p : Pipe) (now : ℕ)
    → let e' = run c evs e in
      (opportunity c p now e' ≡ none)
      × ((revision : ℕ) (attempt : Option ℕ) (reason : Reason)
          → safe p revision attempt reason now e' ≡ false)
      × ((phrase : Option Text) (g : Gap) (j : Option Json)
          → ((decided c phrase p now g j e').0 ≡ stops)
            ⊎ ((decided c phrase p now g j e').0 ≡ fails))
silence_kept c evs e hs on q p now =
    let f = run-Frame c evs e hs in
    let quiet = f.quiet ∙ q in
    (
      opportunity-silent c (run c evs e) p now quiet,
      λ revision attempt reason.
          safe-silent c (run c evs e) p now quiet revision attempt reason (f.enabled ∙ on),
      λ phrase g j. decided-silent c (run c evs e) p now quiet phrase g j,
    )

-- A later revision is never the one that a close began with.
hangup-later :
    (c : Config) (revision : ℕ) (p : Pipe) (e : Engagement)
    → revision < e.revision
    → can_close_idle c p revision e ≡ false
unfolding can_close_idle
hangup-later c revision p e h =
    let other : (e.revision == revision) ≡ false = ground arith in
    elim (Bool-cases c.pilot) [ inl y ↦ rw (y, other) refl | inr n ↦ rw n refl ]

closed_synthesized :
    (c : Config) (revision : ℕ) (goodbye : Text) (o : Option Bool) (p : Pipe) (e : Engagement)
    → can_close_idle c p revision e ≡ false
    → (close_synthesized c revision goodbye o p e).0 ≡ ends
unfolding close_synthesized hangup_idle
closed_synthesized c revision goodbye none p e shut = rw shut refl
closed_synthesized c revision goodbye (some b) p e shut = rw shut refl

closed_played :
    (c : Config) (revision : ℕ) (o : Option Bool) (p : Pipe) (e : Engagement)
    → can_close_idle c p revision e ≡ false
    → (close_played c revision o p e).0 ≡ ends
unfolding close_played hangup_idle
closed_played c revision none p e shut = rw shut refl
closed_played c revision (some true) p e shut = rw shut refl
closed_played c revision (some false) p e shut = refl

pub raised :
    (c : Config) (before after : List Event) (text : Text) (now : ℕ) (e : Engagement)
    → e.enabled ≡ true
    → e.revision < (run c after (step c (caller_spoke text now) (run c before e))).revision
unfolding step caller_final
raised c before after text now e on =
    let first = run-Kept c before e in
    let rest = run-Kept c after (step c (caller_spoke text now) (run c before e)) in
    let spoke : (run c before e).revision
        < (step c (caller_spoke text now) (run c before e)).revision =
      rw (first.enabled ∙ on) (omega arith) in
    omega (arith, first.revision, rest.revision, spoke)

-- Once the caller has said something after a close of the idle call began, no step of that close, after
-- any further events and whatever the pipeline shows, says the goodbye or hangs up.
pub caller_stops_hangup :
    (c : Config) (before after : List Event) (text : Text) (now : ℕ) (e : Engagement) (p : Pipe)
    → e.enabled ≡ true
    → let e' = run c after (step c (caller_spoke text now) (run c before e)) in
      ((hangup_idle c e.revision p e').0 ≡ ends)
      × ((goodbye : Text) (o : Option Bool)
          → (close_synthesized c e.revision goodbye o p e').0 ≡ ends)
      × ((o : Option Bool) → (close_played c e.revision o p e').0 ≡ ends)
unfolding hangup_idle
caller_stops_hangup c before after text now e p on =
    let e' = run c after (step c (caller_spoke text now) (run c before e)) in
    let shut = hangup-later c e.revision p e' (raised c before after text now e on) in
    (
      rw shut refl,
      λ goodbye o. closed_synthesized c e.revision goodbye o p e' shut,
      λ o. closed_played c e.revision o p e' shut,
    )
