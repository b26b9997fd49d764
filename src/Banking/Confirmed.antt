-- ===== src/Banking/Confirmed.antt =====
-- What the checks of `_execute` (latency_lab/banking_tools.py) say of a call that may execute a payment.
use sales_girl_voice_agent.Common.{
  ◌≡◌, refl, Bool, true, false, Option, none, some, arith, Text, codes, Json, str, Fields, get,
  text_eq→eq, ap, sym, ◌∙◌,
}
use sales_girl_voice_agent.Banking.Records.{Schema}
use sales_girl_voice_agent.Banking.Arguments.{Checked, ready, invalid, type_error, arguments}
use sales_girl_voice_agent.Banking.Voice.{BankingTools, Prepared}
use sales_girl_voice_agent.Banking.Execute.{
  ToolCall, Verdict, proceeds, is_operation, is_execute, is_prepare, confirm, on_checked,
  forget_preview, guarded, on_record, execute_check, find_schema, is_customer_id,
}

-- A call that may execute a payment: the latest preview, named by the call and by the confirmation.
pub record IsConfirmed (confirmed : Text) (args : Fields) (b : BankingTools) : Type 0 where
  pub preview : Prepared
  pub latest : b.prepared ≡ some preview
  pub named : get (codes "operation_id") args ≡ some (str preview.operation_id)
  pub in_words : confirmed ≡ preview.operation_id

is_operation→ : (o : Option Json) (t : Text) → is_operation o t ≡ true → o ≡ some (str t)
is_operation→ (some (str s)) t h = ap (λ x. some (str x)) (text_eq→eq s t h)
is_operation→ (some Json.null) t h = cc
is_operation→ (some (Json.bool b)) t h = cc
is_operation→ (some (Json.num n)) t h = cc
is_operation→ (some (Json.arr xs)) t h = cc
is_operation→ (some (Json.obj fs)) t h = cc
is_operation→ none t h = cc

confirm-IsConfirmed :
    (o : Option Prepared) (confirmed : Text) (args sent : Fields) (b : BankingTools)
    → b.prepared ≡ o
    → confirm o confirmed args ≡ proceeds sent
    → (sent ≡ args) × IsConfirmed confirmed args b
unfolding confirm
confirm-IsConfirmed none confirmed args sent b e h = cc
confirm-IsConfirmed (some p) confirmed args sent b e h =
    let operation = get (codes "operation_id") args in
    let named : is_operation operation p.operation_id ≡ true = ground arith in
    let spoken : is_operation operation confirmed ≡ true = ground arith in
    let n = is_operation→ operation p.operation_id named in
    let s = is_operation→ operation confirmed spoken in
    (ground arith, record { preview = p; latest = e; named = n; in_words = cc (sym s ∙ n) })

not_prepare : (name : Text) → is_execute name ≡ true → is_prepare name ≡ false
not_prepare name h = rw (text_eq→eq name (codes "wema_execute_prepared") h) refl

forget_preview_execute :
    (name : Text) (b : BankingTools) → is_execute name ≡ true → forget_preview name b ≡ b
unfolding forget_preview
forget_preview_execute name b x = rw (not_prepare name x) refl

on_checked-IsConfirmed :
    (name confirmed : Text) (c : Checked) (sent : Fields) (b : BankingTools)
    → is_execute name ≡ true
    → on_checked name confirmed c b ≡ proceeds sent
    → IsConfirmed confirmed sent b
unfolding on_checked
on_checked-IsConfirmed name confirmed (invalid message) sent b x h = cc
on_checked-IsConfirmed name confirmed type_error sent b x h = cc
on_checked-IsConfirmed name confirmed (ready args) sent b x h =
    let (same, found) = confirm-IsConfirmed b.prepared confirmed args sent b refl (rw x at h) in
    rw same found

-- A call that goes on passed both guards.
passed :
    (known valid : Bool) (b b' : BankingTools) (v : Verdict) (sent : Fields)
    → (guarded known valid b (b', v)).1 ≡ proceeds sent
    → (v ≡ proceeds sent) × ((guarded known valid b (b', v)).0 ≡ b')
passed false valid b b' v sent h = cc
passed true false b b' v sent h = cc
passed true true b b' v sent h = (h, refl)

module _ (first_error : Json → Fields → Option Text) where
  on_record-IsConfirmed :
      (o : Option Schema) (call : ToolCall) (confirmed : Text) (b : BankingTools) (sent : Fields)
      → is_execute call.name ≡ true
      → (on_record first_error o call confirmed b).1 ≡ proceeds sent
      → IsConfirmed confirmed sent b × ((on_record first_error o call confirmed b).0 ≡ b)
  unfolding on_record
  on_record-IsConfirmed none call confirmed b sent x h = cc
  on_record-IsConfirmed (some schema) call confirmed b sent x h =
      let b' = forget_preview call.name b in
      let checked = arguments first_error schema b.profile call.arguments in
      let kept : b' ≡ b = forget_preview_execute call.name b x in
      let (e, same) =
        passed b.identity_known (is_customer_id b.customer) b b'
          (on_checked call.name confirmed checked b') sent h in
      let e' : on_checked call.name confirmed checked b ≡ proceeds sent =
        sym (ap (on_checked call.name confirmed checked) kept) ∙ e in
      (on_checked-IsConfirmed call.name confirmed checked sent b x e', same ∙ kept)

  -- A call of the execution goes on to the authorization only with the operation id of the latest
  -- preview, which the separate confirmation named too. Such a call leaves the preview in place.
  pub execute_check-IsConfirmed :
      (call : ToolCall) (confirmed : Text) (b : BankingTools) (sent : Fields)
      → is_execute call.name ≡ true
      → (execute_check first_error call confirmed b).1 ≡ proceeds sent
      → IsConfirmed confirmed sent b × ((execute_check first_error call confirmed b).0 ≡ b)
  unfolding execute_check
  execute_check-IsConfirmed call confirmed b sent x h =
      on_record-IsConfirmed (find_schema call.name b.records) call confirmed b sent x h
