-- ===== src/Banking/Spent.antt =====
-- What a preview allows (latency_lab/banking_tools.py), over any order of calls, authorizations and answers.
use sales_girl_voice_agent.Common.{
  ℕ, suc, ◌≡◌, refl, sym, Bool, true, false, ◌&&◌, not, Option, none, some, List, [], ◌∷◌, Text,
  codes, text_eq, is_empty, is_some, leb, All, if◌then◌else◌, Bool-cases, inl, inr, ap, ◌∙◌, pick,
  Picked, pick-Picked, Json, Fields,
}
use mathlib.Core.Path.{subst}
use sales_girl_voice_agent.Banking.Records.{Schema}
use sales_girl_voice_agent.Banking.Voice.{BankingTools, Prepared}
use sales_girl_voice_agent.Banking.Execute.{
  ToolCall, Verdict, stops, proceeds, Post, Answer, not_a_dict, answer, Body, execute_check,
  on_record, find_schema, guarded, forget_preview, is_customer_id, is_execute, is_prepare,
  execute_send, execute_answer, keep_preview,
}
use sales_girl_voice_agent.Banking.Confirmed.{execute_check-IsConfirmed}
use sales_girl_voice_agent.Banking.Tasks.{
  World, Event, calls, authorized, answered, step, run, on_call, on_sent, on_authorized,
  on_answered,
}

-- How many executions have been sent.
unfoldable pub executions : List Post → ℕ
executions [] = 0
executions (p ∷ ps) = if is_execute p.name then suc (executions ps) else executions ps

abbrev is_preview : ℕ → Body → Bool
is_preview code body =
    not (leb 300 code)
    && text_eq body.status (codes "prepared")
    && not (is_empty body.operation_id)
    && is_some body.preview

-- An event that brings no preview of any operation.
abbrev pub BringsNone : Event → Type 0
BringsNone (answered n (answer code body)) = is_preview code body ≡ false
BringsNone _ = Unit

abbrev pub IsOther : Post → Type 0
IsOther p = is_execute p.name ≡ false

-- No preview is kept and no execution waits; `n` have been sent.
record IsSpent (n : ℕ) (w : World) : Type 0 where
  none_kept : w.tools.prepared ≡ none
  others_wait : All IsOther w.waiting
  sent : executions w.posts ≡ n

guarded-none :
    (known valid : Bool) (b b' : BankingTools) (v : Verdict)
    → b.prepared ≡ none
    → b'.prepared ≡ none
    → (guarded known valid b (b', v)).0.prepared ≡ none
guarded-none false valid b b' v h h' = h
guarded-none true false b b' v h h' = h
guarded-none true true b b' v h h' = h'

forget_preview-none :
    (name : Text) (b : BankingTools) → b.prepared ≡ none → (forget_preview name b).prepared ≡ none
unfolding forget_preview
forget_preview-none name b h = elim (Bool-cases (is_prepare name)) [
  | inl e ↦ rw e refl
  | inr e ↦ rw e h
]

execute_answer-none :
    (name : Text) (code : ℕ) (body : Body) (b : BankingTools)
    → is_preview code body ≡ false
    → b.prepared ≡ none
    → (execute_answer name (answer code body) b).0.prepared ≡ none
unfolding execute_answer
execute_answer-none name code body b f h = elim (Bool-cases (leb 300 code)) [
  | inl e ↦ rw e h
  | inr e ↦ rw e (
      go body.preview (is_prepare name) (text_eq body.status (codes "prepared"))
        (not (is_empty body.operation_id)) (rw e at f))
]
  where
    go :
        (o : Option Fields) (prepares status named : Bool)
        → (status && named && is_some o) ≡ false
        → (keep_preview o (prepares && status && named) body.operation_id b).prepared ≡ none
    go none prepares status named g = h
    go (some preview) false status named g = h
    go (some preview) true false named g = h
    go (some preview) true true false g = h
    go (some preview) true true true g = cc

module _ (first_error : Json → Fields → Option Text) where
  execute_check-none :
      (call : ToolCall) (confirmed : Text) (b : BankingTools)
      → b.prepared ≡ none
      → (execute_check first_error call confirmed b).0.prepared ≡ none
  unfolding execute_check on_record
  execute_check-none call confirmed b h = go (find_schema call.name b.records)
    where
      go : (o : Option Schema) → (on_record first_error o call confirmed b).0.prepared ≡ none
      go none = h
      go (some schema) =
          guarded-none b.identity_known (is_customer_id b.customer) b (forget_preview call.name b) _
            h (forget_preview-none call.name b h)

  on_call-IsSpent :
      (n : ℕ) (call : ToolCall) (confirmed : Text) (w : World)
      → IsSpent n w
      → IsSpent n (on_call call (execute_check first_error call confirmed w.tools) w)
  unfolding on_call
  on_call-IsSpent n call confirmed w h = go (execute_check first_error call confirmed w.tools) refl
    where
      kept :
          (b : BankingTools)
          → (execute_check first_error call confirmed w.tools).0 ≡ b
          → b.prepared ≡ none
      kept b e =
          ap (λ (t : BankingTools). t.prepared) (sym e)
          ∙ execute_check-none call confirmed w.tools h.none_kept

      other :
          (args : Fields)
          → (execute_check first_error call confirmed w.tools).1 ≡ proceeds args
          → is_execute call.name ≡ false
      other args e = elim (Bool-cases (is_execute call.name)) [
        | inl x ↦
            let found = (execute_check-IsConfirmed first_error call confirmed w.tools args x e).0 in
            let both : ◌≡◌ {A = Option Prepared} none (some found.preview) =
              sym h.none_kept ∙ found.latest in
            cc
        | inr x ↦ x
      ]

      go :
          (r : BankingTools × Verdict)
          → execute_check first_error call confirmed w.tools ≡ r
          → IsSpent n (on_call call r w)
      go (b, stops s) e = record {
        none_kept = kept b (ap (λ r. r.0) e);
        others_wait = h.others_wait;
        sent = h.sent;
      }
      go (b, proceeds args) e = record {
        none_kept = kept b (ap (λ r. r.0) e);
        others_wait = (other args (ap (λ r. r.1) e), h.others_wait);
        sent = h.sent;
      }

  on_sent-IsSpent :
      (n : ℕ) (p : Post) (others : List Post) (passed : Bool) (w : World)
      → IsSpent n w
      → IsOther p × All IsOther others
      → IsSpent n (on_sent p.name others (execute_send p.name p.args passed w.tools) w)
  unfolding on_sent execute_send executions
  on_sent-IsSpent n p others false w h picked = record {
    none_kept = h.none_kept;
    others_wait = picked.1;
    sent = h.sent;
  }
  on_sent-IsSpent n p others true w h picked = record {
    none_kept = rw picked.0 h.none_kept;
    others_wait = picked.1;
    sent = rw picked.0 h.sent;
  }

  on_authorized-IsSpent :
      (n : ℕ) (o : Option (Post × List Post)) (passed : Bool) (w : World)
      → Picked IsOther o
      → IsSpent n w
      → IsSpent n (on_authorized o passed w)
  unfolding on_authorized
  on_authorized-IsSpent n none passed w picked h = h
  on_authorized-IsSpent n (some (p, others)) passed w picked h =
      on_sent-IsSpent n p others passed w h picked

  on_answered-IsSpent :
      (n i : ℕ) (o : Option (Text × List Text)) (a : Answer) (w : World)
      → BringsNone (answered i a)
      → IsSpent n w
      → IsSpent n (on_answered o a w)
  unfolding on_answered
  on_answered-IsSpent n i none a w f h = h
  on_answered-IsSpent n i (some (name, others)) (answer code body) w f h = record {
    none_kept = execute_answer-none name code body w.tools f h.none_kept;
    others_wait = h.others_wait;
    sent = h.sent;
  }
  on_answered-IsSpent n i (some (name, others)) not_a_dict w f h = record {
    none_kept = unfold execute_answer in h.none_kept;
    others_wait = h.others_wait;
    sent = h.sent;
  }

  run-IsSpent :
      (n : ℕ) (es : List Event) (w : World)
      → All BringsNone es
      → IsSpent n w
      → IsSpent n (run first_error es w)
  unfolding run step
  run-IsSpent n [] w fs h = h
  run-IsSpent n (calls call confirmed ∷ es) w fs h =
      run-IsSpent n es _ fs.1 (on_call-IsSpent n call confirmed w h)
  run-IsSpent n (authorized i passed ∷ es) w fs h = run-IsSpent n es _ fs.1 (
      on_authorized-IsSpent n (pick i w.waiting) passed w
        (pick-Picked IsOther i w.waiting h.others_wait) h)
  run-IsSpent n (answered i a ∷ es) w fs h =
      run-IsSpent n es _ fs.1 (on_answered-IsSpent n i (pick i w.asked) a w fs.0 h)

  -- An execution that is authorized while no other one waits for its authorization is the only one sent,
  -- over any later calls, authorizations and answers, as long as no answer brings a new preview.
  pub execute_send_single :
      (i : ℕ) (p : Post) (others : List Post) (es : List Event) (w : World)
      → pick i w.waiting ≡ some (p, others)
      → is_execute p.name ≡ true
      → All IsOther others
      → All BringsNone es
      → executions (run first_error (authorized i true ∷ es) w).posts ≡ suc (executions w.posts)
  unfolding run step on_authorized
  execute_send_single i p others es w e x other fs =
      let w' = on_sent p.name others (execute_send p.name p.args true w.tools) w in
      subst
        (λ o.
          executions (run first_error es (on_authorized o true w)).posts ≡ suc (executions w.posts))
        (sym e) (run-IsSpent (suc (executions w.posts)) es w' fs (spent p others w x other)).sent
    where
      spent :
          (p : Post) (others : List Post) (w : World)
          → is_execute p.name ≡ true
          → All IsOther others
          → IsSpent
              (suc (executions w.posts))
              (on_sent p.name others (execute_send p.name p.args true w.tools) w)
      spent p others w x other =
          unfold on_sent execute_send executions in
          record { none_kept = rw x refl; others_wait = other; sent = rw x refl }
