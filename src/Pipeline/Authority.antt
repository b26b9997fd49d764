-- ===== src/Pipeline/Authority.antt =====
-- Over any events of the pipeline (latency_lab/pipeline.py): a turn has one final, and its audio comes
-- after it.
use mathlib.Core.Path.{subst}
use sales_girl_voice_agent.Common.{
  ℕ, suc, ◌≤◌, ◌≡◌, refl, sym, true, false, List, [], ◌∷◌, ◌++◌, arith, ◌==◌, ==_iff, if◌then◌else◌,
  Bool-cases, inl, inr,
}
use sales_girl_voice_agent.Pipeline.State.{caller, Effect, accepts_final, sends_chunk, Config}
use sales_girl_voice_agent.Pipeline.Base.{IsOrdered, accepted, Allowed}
use sales_girl_voice_agent.Pipeline.Transcript.{Judge}
use sales_girl_voice_agent.Pipeline.State.{new_pipeline}
use sales_girl_voice_agent.Pipeline.Client.{Event, run}
use sales_girl_voice_agent.Pipeline.Steps.{run-Inv, new-Inv}

-- How often a turn's final has been accepted.
abbrev pub finals : ℕ → List Effect → ℕ
finals n [] = 0
finals n (accepts_final m text ∷ xs) = if n == m then suc (finals n xs) else finals n xs
finals n (_ ∷ xs) = finals n xs

finals_none : (n : ℕ) (xs : List Effect) → accepted n xs ≡ false → finals n xs ≡ 0
finals_none n [] h = refl
finals_none n (accepts_final m text ∷ xs) h = ground (arith, finals_none n xs)
finals_none n (_ ∷ xs) h = finals_none n xs h

finals_once : (n : ℕ) (xs : List Effect) → IsOrdered xs → finals n xs ≤ 1
finals_once n [] o = omega arith
finals_once n (accepts_final m text ∷ xs) (a, o) = elim (Bool-cases (n == m)) [
  | inl y ↦ rw y (
      omega
        (arith, finals_none n xs (subst (λ i. accepted i xs ≡ false) (sym ((==_iff n m).0 y)) a)))
  | inr x ↦ rw x (finals_once n xs o)
]
finals_once n (_ ∷ xs) (a, o) = finals_once n xs o

-- The log before an effect.
ordered-at :
    (later earlier : List Effect) (x : Effect)
    → IsOrdered (later ++ (x ∷ earlier))
    → Allowed x earlier
ordered-at [] earlier x o = o.0
ordered-at (y ∷ later) earlier x o = ordered-at later earlier x o.1

-- From a new pipeline, whatever the recognizer, the caller, the model, the client and the timers do in
-- whatever order, the final of a turn is accepted at most once.
pub one_final_per_turn :
    (c : Config) (j : Judge) (evs : List Event) (n : ℕ)
    → finals n (run c j evs new_pipeline).log ≤ 1
one_final_per_turn c j evs n =
    finals_once n (run c j evs new_pipeline).log (run-Inv c j evs new_pipeline new-Inv).0.ordered

-- From a new pipeline, over any events, audio of an attempt that `_start_attempt` made for a caller's turn
-- is sent only after the final of that turn has been accepted: what was prepared on a partial text stays unheard
-- until then. The opening line and the lines of `announce`, which the application speaks in any state,
-- are not of such an attempt.
pub audio_after_final :
    (c : Config) (j : Judge) (evs : List Event) (later earlier : List Effect) (n a ch : ℕ)
    → (run c j evs new_pipeline).log ≡ later ++ (sends_chunk (caller n) a ch ∷ earlier)
    → accepted n earlier ≡ true
audio_after_final c j evs later earlier n a ch h =
    ordered-at later earlier (sends_chunk (caller n) a ch)
      (subst IsOrdered h (run-Inv c j evs new_pipeline new-Inv).0.ordered)
