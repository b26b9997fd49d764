-- ===== src/Pipeline/Cancelled.antt =====
-- `_cancel_attempt` (latency_lab/pipeline.py) silences the current attempt for good.
use sales_girl_voice_agent.Common.{
  ℕ, ◌≡◌, refl, sym, Bool, true, false, ◌&&◌, not, Option, none, some, List, [], ◌∷◌, ◌==◌, arith,
  if◌then◌else◌, Bool-cases, inl, inr, is_empty, strip,
}
use mathlib.Core.Path.{subst}
use sales_girl_voice_agent.Pipeline.State.{
  Attempt, answers, finishes, stop_tts, Config, Pipeline, find, change, emit, change_attempt,
  current, new_pipeline,
}
use sales_girl_voice_agent.Pipeline.Attempts.{mark_cancelled, keep_heard, on_cancel, cancel_attempt}
use sales_girl_voice_agent.Pipeline.Transcript.{Judge}
use sales_girl_voice_agent.Pipeline.Client.{Event, run}
use sales_girl_voice_agent.Pipeline.Hush.{chunks, is_cut, find-id}
use sales_girl_voice_agent.Pipeline.Hush.Attempts.{cancel_attempt-Hush}
use sales_girl_voice_agent.Pipeline.Silenced.{run-Hush}

abbrev CutIn : ℕ → Pipeline → Type 0
CutIn k p = is_cut (find k p.attempts) ≡ true

if-CutIn :
    (k : ℕ) (b : Bool) (q r : Pipeline) → CutIn k q → CutIn k r → CutIn k (if b then q else r)
if-CutIn k true q r f g = f
if-CutIn k false q r f g = g

mark-is_cut :
    (k : ℕ) (ts : List Attempt) (a : Attempt)
    → find k ts ≡ some a
    → is_cut (find k (change mark_cancelled k ts)) ≡ true
mark-is_cut k [] a e = cc
mark-is_cut k (t ∷ ts) a e = elim (Bool-cases (k == t.id)) [
  | inl y ↦ rw (y, y) refl
  | inr other ↦ rw (other, other) (mark-is_cut k ts a (rw other at e))
]

on_cancel-CutIn :
    (a : Attempt) (p : Pipeline) → find a.id p.attempts ≡ some a → CutIn a.id (on_cancel (some a) p)
on_cancel-CutIn a p e =
    let q = change_attempt mark_cancelled a.id p in
    let w : CutIn a.id q = mark-is_cut a.id p.attempts a e in
    let r = keep_heard a q in
    let u =
      if-CutIn a.id
        (a.authorized && a.audio_sent && not (is_empty a.answer) && not a.response_committed)
        (emit (answers a.turn_id (strip a.answer)) q) q w w in
    let s = emit (finishes a.turn_id true) r in if-CutIn a.id a.authorized (emit stop_tts s) s u u

current-find : (p : Pipeline) (a : Attempt) → current p ≡ some a → find a.id p.attempts ≡ some a
current-find p a e = go p.attempt e
  where
    go :
        (cur : Option ℕ)
        → (elim cur as (λ _. Option Attempt) [ none ↦ none | some j ↦ find j p.attempts ]) ≡ some a
        → find a.id p.attempts ≡ some a
    go none y = cc
    go (some j) y = subst (λ i. find i p.attempts ≡ some a) (sym (find-id j p.attempts a y)) y

cancel_attempt-CutIn :
    (from_response : Bool) (p : Pipeline) (a : Attempt)
    → current p ≡ some a
    → CutIn a.id (cancel_attempt from_response p)
unfolding cancel_attempt
cancel_attempt-CutIn from_response p a e =
    let q = record p { response = if from_response then p.response else none } in
    subst (λ o. CutIn a.id (on_cancel o q)) (sym e) (on_cancel-CutIn a q (current-find p a e))

-- From a new pipeline, over any events: once the current attempt is cancelled, none of its audio is sent,
-- whatever comes after.
pub cancel_attempt-silences :
    (c : Config) (j : Judge) (before after : List Event) (from_response : Bool) (a : Attempt)
    → current (run c j before new_pipeline) ≡ some a
    → let p = cancel_attempt from_response (run c j before new_pipeline) in
      chunks a.id (run c j after p).log ≡ chunks a.id p.log
cancel_attempt-silences c j before after from_response a e =
    let p = run c j before new_pipeline in
    let q = cancel_attempt from_response p in
    let start =
      run-Hush false a.id 0 c j before new_pipeline (tt, λ y. absurd (ground (arith, y))) in
    let named = cancel_attempt-Hush false a.id 0 from_response p start in
    let cut = cancel_attempt-CutIn from_response p a e in
    ((run-Hush true a.id (chunks a.id q.log) c j after q (named.0, λ _. (cut, refl))).1 refl).1
