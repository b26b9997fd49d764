-- ===== src/Banking/Backed.antt =====
-- The payments that the calls of latency_lab/banking_tools.py send, in any order of the tasks.
use sales_girl_voice_agent.Common.{
  ℕ, zero, suc, ◌≡◌, refl, Bool, true, false, Option, none, some, List, [], ◌∷◌, arith, Text, codes,
  All, Json, str, Fields, get, any, text_eq, text_eq_refl, Bool-cases, inl, inr, sym, ap, is_empty,
  not, ◌&&◌, leb,
}
use sales_girl_voice_agent.Banking.Voice.{BankingTools, Prepared}
use sales_girl_voice_agent.Banking.Execute.{
  ToolCall, Verdict, stops, proceeds, Post, Body, Answer, not_a_dict, answer, is_execute,
  execute_check, execute_send, execute_answer, is_prepare, keep_preview, forget_preview, on_record,
  find_schema, is_customer_id, guarded,
}
use sales_girl_voice_agent.Banking.Records.{Schema}
use sales_girl_voice_agent.Banking.Confirmed.{execute_check-IsConfirmed}
use sales_girl_voice_agent.Common.{pick}
use sales_girl_voice_agent.Banking.Tasks.{
  World, Event, calls, authorized, answered, on_call, on_sent, on_authorized, on_answered, step,
  run,
}

-- A payment of the model names a preview of the service.
abbrev pub is_known : List Text → Option Json → Bool
is_known ids (some (str s)) = any (text_eq s) ids
is_known ids _ = false

abbrev pub Backed : List Text → Post → Type 0
Backed ids p = is_execute p.name ≡ true → is_known ids (get (codes "operation_id") p.args) ≡ true

abbrev pub PreviewBacked : List Text → Option Prepared → Type 0
PreviewBacked ids none = Unit
PreviewBacked ids (some p) = any (text_eq p.operation_id) ids ≡ true

pub record IsBacked (w : World) : Type 0 where
  pub preview : PreviewBacked w.previewed w.tools.prepared
  pub waiting_ok : All (Backed w.previewed) w.waiting
  pub posts_ok : All (Backed w.previewed) w.posts

known_more :
    (ids : List Text) (x : Text) (o : Option Json)
    → is_known ids o ≡ true
    → is_known (x ∷ ids) o ≡ true
known_more ids x (some (str s)) h = ground arith
known_more ids x (some Json.null) h = cc
known_more ids x (some (Json.bool b)) h = cc
known_more ids x (some (Json.num n)) h = cc
known_more ids x (some (Json.arr xs)) h = cc
known_more ids x (some (Json.obj fs)) h = cc
known_more ids x none h = cc

Backed-more :
    (ids : List Text) (x : Text) (ps : List Post) → All (Backed ids) ps → All (Backed (x ∷ ids)) ps
Backed-more ids x [] a = tt
Backed-more ids x (p ∷ ps) a =
    (λ e. known_more ids x (get (codes "operation_id") p.args) (a.0 e), Backed-more ids x ps a.1)

PreviewBacked-more :
    (ids : List Text) (x : Text) (o : Option Prepared)
    → PreviewBacked ids o
    → PreviewBacked (x ∷ ids) o
PreviewBacked-more ids x none h = tt
PreviewBacked-more ids x (some p) h = ground arith

abbrev Picked : List Text → Option (Post × List Post) → Type 0
Picked ids none = Unit
Picked ids (some (p, others)) = Backed ids p × All (Backed ids) others

pick-Picked :
    (ids : List Text) (n : ℕ) (ps : List Post) → All (Backed ids) ps → Picked ids (pick n ps)
unfolding pick
pick-Picked ids n [] a = tt
pick-Picked ids zero (q ∷ ps) a = a
pick-Picked ids (suc n) (q ∷ ps) a = go (pick n ps) (pick-Picked ids n ps a.1)
  where
    go :
        (o : Option (Post × List Post))
        → Picked ids o
        → Picked ids (elim o [ none ↦ none | some (y, ys) ↦ some (y, q ∷ ys) ])
    go none h = tt
    go (some (y, ys)) h = (h.0, (a.0, h.1))

forget_preview-Backed :
    (ids : List Text) (name : Text) (b : BankingTools)
    → PreviewBacked ids b.prepared
    → PreviewBacked ids (forget_preview name b).prepared
unfolding forget_preview
forget_preview-Backed ids name b h = elim (Bool-cases (is_prepare name)) [
  | inl e ↦ rw e tt
  | inr e ↦ rw e h
]

execute_send-Backed :
    (ids : List Text) (name : Text) (args : Fields) (passed : Bool) (b : BankingTools)
    → PreviewBacked ids b.prepared
    → PreviewBacked ids (execute_send name args passed b).0.prepared
unfolding execute_send
execute_send-Backed ids name args false b h = h
execute_send-Backed ids name args true b h = elim (Bool-cases (is_execute name)) [
  | inl e ↦ rw e tt
  | inr e ↦ rw e h
]

execute_answer-Backed :
    (ids : List Text) (name : Text) (code : ℕ) (body : Body) (b : BankingTools)
    → PreviewBacked ids b.prepared
    → PreviewBacked (body.operation_id ∷ ids) (execute_answer name (answer code body) b).0.prepared
unfolding execute_answer
execute_answer-Backed ids name code body b h = elim (Bool-cases (leb 300 code)) [
  | inl e ↦ rw e (PreviewBacked-more ids body.operation_id b.prepared h)
  | inr e ↦ rw e (
      go body.preview (
        is_prepare name
        && text_eq body.status (codes "prepared")
        && not (is_empty body.operation_id)))
]
  where
    go :
        (o : Option Fields) (ready : Bool)
        → PreviewBacked
            (body.operation_id ∷ ids)
            (keep_preview o ready body.operation_id b).prepared
    go none ready = PreviewBacked-more ids body.operation_id b.prepared h
    go (some preview) false = PreviewBacked-more ids body.operation_id b.prepared h
    go (some preview) true = ground (arith, text_eq_refl body.operation_id)

guarded-PreviewBacked :
    (ids : List Text) (known valid : Bool) (b b' : BankingTools) (v : Verdict)
    → PreviewBacked ids b.prepared
    → PreviewBacked ids b'.prepared
    → PreviewBacked ids (guarded known valid b (b', v)).0.prepared
guarded-PreviewBacked ids false valid b b' v h h' = h
guarded-PreviewBacked ids true false b b' v h h' = h
guarded-PreviewBacked ids true true b b' v h h' = h'

known_of :
    (ids : List Text) (o : Option Prepared) (p : Prepared) (j : Option Json)
    → PreviewBacked ids o
    → o ≡ some p
    → j ≡ some (str p.operation_id)
    → is_known ids j ≡ true
known_of ids none p j h e named = cc
known_of ids (some q) p j h e named = rw named (ground arith)

on_sent-IsBacked :
    (p : Post) (others : List Post) (passed : Bool) (w : World)
    → IsBacked w
    → Backed w.previewed p × All (Backed w.previewed) others
    → IsBacked (on_sent p.name others (execute_send p.name p.args passed w.tools) w)
on_sent-IsBacked p others false w h picked =
    unfold on_sent execute_send in
    record { preview = h.preview; waiting_ok = picked.1; posts_ok = h.posts_ok }
on_sent-IsBacked p others true w h picked =
    let preview' = execute_send-Backed w.previewed p.name p.args true w.tools h.preview in
    unfold on_sent execute_send in
    record {
      preview = unfold execute_send in preview';
      waiting_ok = picked.1;
      posts_ok = (picked.0, h.posts_ok);
    }

module _ (first_error : Json → Fields → Option Text) where
  execute_check-PreviewBacked :
      (ids : List Text) (call : ToolCall) (confirmed : Text) (b : BankingTools)
      → PreviewBacked ids b.prepared
      → PreviewBacked ids (execute_check first_error call confirmed b).0.prepared
  unfolding execute_check on_record
  execute_check-PreviewBacked ids call confirmed b h = go (find_schema call.name b.records)
    where
      go :
          (o : Option Schema)
          → PreviewBacked ids (on_record first_error o call confirmed b).0.prepared
      go none = h
      go (some schema) =
          guarded-PreviewBacked ids b.identity_known (is_customer_id b.customer) b
            (forget_preview call.name b) _ h (forget_preview-Backed ids call.name b h)

  on_call-IsBacked :
      (call : ToolCall) (confirmed : Text) (w : World)
      → IsBacked w
      → IsBacked (on_call call (execute_check first_error call confirmed w.tools) w)
  unfolding on_call
  on_call-IsBacked call confirmed w h = go (execute_check first_error call confirmed w.tools) refl
    where
      kept :
          (b : BankingTools)
          → (execute_check first_error call confirmed w.tools).0 ≡ b
          → PreviewBacked w.previewed b.prepared
      kept b e =
          rw (sym e) (execute_check-PreviewBacked w.previewed call confirmed w.tools h.preview)

      go :
          (r : BankingTools × Verdict)
          → execute_check first_error call confirmed w.tools ≡ r
          → IsBacked (on_call call r w)
      go (b, stops s) e = record {
        preview = kept b (ap (λ r. r.0) e);
        waiting_ok = h.waiting_ok;
        posts_ok = h.posts_ok;
      }
      go (b, proceeds args) e = record {
        preview = kept b (ap (λ r. r.0) e);
        waiting_ok = (
          λ x.
              let found =
                (execute_check-IsConfirmed first_error call confirmed w.tools args x
                  (ap (λ r. r.1) e)).0 in
              known_of w.previewed w.tools.prepared found.preview (get (codes "operation_id") args)
                h.preview found.latest found.named,
          h.waiting_ok,
        );
        posts_ok = h.posts_ok;
      }

  on_authorized-IsBacked :
      (n : ℕ) (passed : Bool) (w : World)
      → IsBacked w
      → IsBacked (on_authorized (pick n w.waiting) passed w)
  unfolding on_authorized
  on_authorized-IsBacked n passed w h =
      go (pick n w.waiting) (pick-Picked w.previewed n w.waiting h.waiting_ok)
    where
      go :
          (o : Option (Post × List Post))
          → Picked w.previewed o
          → IsBacked (on_authorized o passed w)
      go none picked = h
      go (some (p, others)) picked = on_sent-IsBacked p others passed w h picked

  on_answered-IsBacked :
      (o : Option (Text × List Text)) (a : Answer) (w : World)
      → IsBacked w
      → IsBacked (on_answered o a w)
  unfolding on_answered
  on_answered-IsBacked none a w h = h
  on_answered-IsBacked (some (name, others)) (answer code body) w h = record {
    preview = execute_answer-Backed w.previewed name code body w.tools h.preview;
    waiting_ok = Backed-more w.previewed body.operation_id w.waiting h.waiting_ok;
    posts_ok = Backed-more w.previewed body.operation_id w.posts h.posts_ok;
  }
  on_answered-IsBacked (some (name, others)) not_a_dict w h = record {
    preview = unfold execute_answer in h.preview;
    waiting_ok = h.waiting_ok;
    posts_ok = h.posts_ok;
  }

  -- In whatever order the calls, the authorizations and the service's answers come: every payment
  -- that is sent names an operation id that an answer of the service gave before, and the same holds
  -- of the payments that wait and of the preview that is kept.
  pub run-IsBacked : (es : List Event) (w : World) → IsBacked w → IsBacked (run first_error es w)
  unfolding run step
  run-IsBacked [] w h = h
  run-IsBacked (calls call confirmed ∷ es) w h =
      run-IsBacked es _ (on_call-IsBacked call confirmed w h)
  run-IsBacked (authorized n passed ∷ es) w h =
      run-IsBacked es _ (on_authorized-IsBacked n passed w h)
  run-IsBacked (answered n a ∷ es) w h =
      run-IsBacked es _ (on_answered-IsBacked (pick n w.asked) a w h)
