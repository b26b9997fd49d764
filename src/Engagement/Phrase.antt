-- ===== src/Engagement/Phrase.antt =====
-- A phrase of the policy (latency_lab/engagement.py) that goes out chunk by chunk
-- (`_play_engagement` of latency_lab/pipeline.py) as the caller speaks.
use sales_girl_voice_agent.Common.{
  ℕ, ◌≤◌, ◌<◌, ◌≡◌, refl, true, false, some, List, [], ◌∷◌, ◌++◌, arith, length, Text, ◌==◌,
  Bool-cases, inl, inr,
}
use sales_girl_voice_agent.Engagement.State.{Config, Reason, Engagement}
use sales_girl_voice_agent.Engagement.Opportunity.{safe}
use sales_girl_voice_agent.Engagement.Hangup.{Moment, play_chunks}
use sales_girl_voice_agent.Engagement.Events.{Event, step, run, caller_spoke}
use sales_girl_voice_agent.Engagement.Gate.{raised}

safe-later :
    (revision a : ℕ) (reason : Reason) (m : Moment)
    → revision < m.policy.revision
    → safe m.pipe revision (some a) reason m.now m.policy ≡ false
unfolding safe
safe-later revision a reason m h =
    let other : (m.policy.revision == revision) ≡ false = ground arith in
    elim (Bool-cases m.policy.closed) [ inl y ↦ rw y refl | inr n ↦ rw (n, other) refl ]

-- A chunk that finds the state unsafe is not sent, nor is one after it.
stops_at :
    (revision a : ℕ) (reason : Reason) (m : Moment) (early late : List Moment)
    → safe m.pipe revision (some a) reason m.now m.policy ≡ false
    → (length (play_chunks revision a reason (early ++ (m ∷ late))).0 ≤ length early)
      × ((play_chunks revision a reason (early ++ (m ∷ late))).1 ≡ false)
unfolding play_chunks
stops_at revision a reason m [] late h = rw h (omega arith, refl)
stops_at revision a reason m (n ∷ early) late h =
    let rest = stops_at revision a reason m early late h in
    elim (Bool-cases (safe n.pipe revision (some a) reason n.now n.policy)) [
      | inl y ↦ rw y (omega (arith, rest.0), rest.1)
      | inr x ↦ rw x (omega arith, refl)
    ]

-- Once the caller has said something after a phrase of the enabled policy began, the phrase stops: the
-- chunk whose turn comes then, after any further events and whatever the pipeline shows, is not sent,
-- nor is a later one, and the phrase does not count as spoken.
pub caller_stops_phrase :
    (c : Config) (before after : List Event) (text : Text) (now a : ℕ) (reason : Reason)
    (e : Engagement) (m : Moment) (early late : List Moment)
    → e.enabled ≡ true
    → m.policy ≡ run c after (step c (caller_spoke text now) (run c before e))
    → (length (play_chunks e.revision a reason (early ++ (m ∷ late))).0 ≤ length early)
      × ((play_chunks e.revision a reason (early ++ (m ∷ late))).1 ≡ false)
caller_stops_phrase c before after text now a reason e m early late on h =
    let later = raised c before after text now e on in
    stops_at e.revision a reason m early late (safe-later e.revision a reason m (rw h later))
