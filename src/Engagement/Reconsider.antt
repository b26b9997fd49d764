-- ===== src/Engagement/Reconsider.antt =====
-- `reconsider` of latency_lab/engagement.py, cut at its waits: each function runs from one wait to the
-- next, in the state that it finds then. `none` for what a wait gives is an exception or a timeout.
use sales_girl_voice_agent.Common.{
  ℕ, ◌+◌, ◌*◌, ◌==◌, Bool, true, false, ◌&&◌, ◌||◌, not, Option, none, some, List, [], ◌∷◌, ◌++◌,
  Text, codes, text_eq, length, drop, is_empty, any, ltb, if◌then◌else◌, strip, split, Json, bool,
  str, obj, Fields, get, has_key, all_keys,
}
use sales_girl_voice_agent.Engagement.State.{
  Config, Reason, tool_started, tool_wait, tool_completed, idle_gap, Operation, Engagement, Pipe,
  is_until_user, is_until_result, is_no_quiet, keep_last, later,
}
use sales_girl_voice_agent.Engagement.Tools.{change}
use sales_girl_voice_agent.Engagement.Opportunity.{safe, is_completed}

pub record Gap : Type 0 where
  pub reason : Reason
  pub attempt : Option ℕ
  pub revision : ℕ
  pub messages : ℕ

abbrev pub is_tool : Reason → Bool
is_tool tool_started = true
is_tool tool_wait = true
is_tool tool_completed = true
is_tool _ = false

abbrev pub is_idle_gap : Reason → Bool
is_idle_gap idle_gap = true
is_idle_gap _ = false

abbrev pub pause : Config → Reason → ℕ
pause c reason = if is_tool reason then c.tool_seconds else c.idle_seconds

abbrev pub on_operation : Option ℕ → (Operation → Operation) → Engagement → Engagement
on_operation none f e = e
on_operation (some k) f e = record e { operations = change f k e.operations }

abbrev pub on_current : (Operation → Operation) → Engagement → Engagement
on_current f e = on_operation e.operation f e

abbrev pub consider : ℕ → Operation → Operation
consider revision o = record o { completion_considered_revision = some revision }

abbrev counted : Reason → Engagement → Engagement
counted reason e =
    if is_tool reason
    then record e { tool_checks = e.tool_checks + 1 }
    else record e { idle_checks = e.idle_checks + 1 }

unfoldable pub begin_reconsider : Config → Reason → Option ℕ → ℕ → Engagement → Gap × Engagement
begin_reconsider c reason attempt now e =
    let e' = if is_completed reason then on_current (consider e.revision) e else e in
    let gap : Gap = record {
      reason = reason;
      attempt = attempt;
      revision = e.revision;
      messages = length e.new_messages;
    } in
    (gap, counted reason (record e' { next_check = now + pause c reason }))

-- The model's decision where it is valid: whether to speak, and the text.
abbrev is_quiet_name : Text → Bool
is_quiet_name q = any (text_eq q) (codes "none" ∷ codes "until_user" ∷ codes "until_result" ∷ [])

abbrev decision_keys : List Text
decision_keys = codes "speak" ∷ codes "text" ∷ codes "quiet" ∷ []

abbrev has_decision_keys : Fields → Bool
has_decision_keys d =
    all_keys (λ k. any (text_eq k) decision_keys) d
    && has_key (codes "speak") d
    && has_key (codes "text") d
    && has_key (codes "quiet") d

abbrev decided_fields : Option Json → Option Json → Option Json → Option (Bool × Text)
decided_fields (some (bool speak)) (some (str text)) (some (str quiet)) =
    if not (is_quiet_name quiet) || ltb 24 (length (split text)) || ltb 240 (length text)
    then none
    else some (speak, text)
decided_fields _ _ _ = none

unfoldable pub decision_of : Json → Option (Bool × Text)
decision_of (obj d) =
    if has_decision_keys d
    then decided_fields (get (codes "speak") d) (get (codes "text") d) (get (codes "quiet") d)
    else none
decision_of _ = none

pub data Next : Type 0 where
  stops : Next
  fails : Next
  synthesizes : Text → Next
  plays : Text → Next

abbrev pub arm : Config → ℕ → Engagement → Engagement
arm c now e = record e { idle_close_at = some (now + c.close_seconds) }

-- An idle gap of a pilot arms the idle close where the state is still safe to speak in.
unfoldable pub arm_if_safe : Config → Pipe → ℕ → Gap → Engagement → Engagement
unfolding safe
arm_if_safe c p now g e =
    if is_idle_gap g.reason && c.pilot && safe p g.revision none g.reason now e
    then arm c now e
    else e

abbrev pub or_empty : Option Text → Text
or_empty none = []
or_empty (some s) = s

-- What to say: the decision's text, or in an idle gap of a pilot the phrase of the agent's language.
-- The empty text says nothing.
abbrev pub chosen_text : Config → Option Text → Gap → Bool × Text → Engagement → Text
chosen_text c phrase g (speak, text) e =
    if c.pilot
      && is_idle_gap g.reason
      && is_no_quiet e.quiet
      && (not speak || is_empty (strip text))
    then or_empty phrase
    else if speak
    then strip text
    else []

-- What follows from a decision, which is `none` where it is no valid one.
unfoldable pub decided_on :
    Config → Option Text → Pipe → ℕ → Gap → Option (Bool × Text) → Engagement → Next × Engagement
unfolding arm_if_safe
decided_on c phrase p now g none e = (fails, e)
decided_on c phrase p now g (some d) e =
    let text = chosen_text c phrase g d e in
    let e' = record e { new_messages = drop g.messages e.new_messages } in
    if not (e.revision == g.revision) || e.closed
    then (stops, e)
    else if is_empty text
        || is_until_user e.quiet
        || (is_until_result e.quiet && not (is_completed g.reason))
    then (stops, arm_if_safe c p now g e')
    else (synthesizes text, e')

unfoldable pub decided :
    Config → Option Text → Pipe → ℕ → Gap → Option Json → Engagement → Next × Engagement
unfolding decided_on decision_of
decided c phrase p now g none e = (fails, e)
decided c phrase p now g (some j) e = decided_on c phrase p now g (decision_of j) e

-- The sizes of the chunks that were read before the twelfth second, or `none` past it.
unfoldable pub within_limit : ℕ → ℕ → List ℕ → Bool
within_limit limit size [] = true
within_limit limit size (n ∷ ns) = not (ltb limit (size + n)) && within_limit limit (size + n) ns

unfoldable pub synthesized : Pipe → ℕ → Gap → Text → ℕ → Option (List ℕ) → Engagement → Next
unfolding safe within_limit
synthesized p now g text rate none e = fails
synthesized p now g text rate (some chunks) e =
    if not (within_limit (rate * 2 * 12) 0 chunks)
    then fails
    else if is_empty chunks || not (safe p g.revision g.attempt g.reason now e)
    then stops
    else plays text

abbrev pub delivered : Operation → Operation
delivered o = record o { delivered = true }

unfoldable pub played :
    Config → Pipe → ℕ → Gap → Text → Option Bool → Engagement → Next × Engagement
unfolding arm_if_safe
played c p now g text none e = (fails, e)
played c p now g text (some false) e = (stops, e)
played c p now g text (some true) e =
    let e1 = record e { last_updates = keep_last 3 (e.last_updates ++ (text ∷ [])) } in
    let e2 = arm_if_safe c p now g e1 in
    (stops, if is_completed g.reason then on_current delivered e2 else e2)

-- The handler of an exception: a pilot's idle gap falls back to the phrase of the language.
unfoldable pub failed : Config → Option Text → Pipe → ℕ → Gap → Engagement → Next × Engagement
unfolding safe arm_if_safe
failed c phrase p now g e =
    let may = is_idle_gap g.reason && c.pilot && safe p g.revision none g.reason now e in
    if may
    then (if is_empty (or_empty phrase)
        then (stops, arm_if_safe c p now g e)
        else (synthesizes (or_empty phrase), e))
    else (stops, e)

-- The fallback's audio: whether there is any.
unfoldable pub fallback_synthesized :
    Config → Text → Pipe → ℕ → Gap → Option Bool → Engagement → Next × Engagement
unfolding safe arm_if_safe
fallback_synthesized c text p now g none e = (stops, arm_if_safe c p now g e)
fallback_synthesized c text p now g (some chunks) e =
    if chunks && safe p g.revision none g.reason now e
    then (plays text, e)
    else (stops, arm_if_safe c p now g e)

unfoldable pub fallback_played : Config → Pipe → ℕ → Gap → Option Bool → Engagement → Engagement
unfolding arm_if_safe
fallback_played c p now g (some false) e = e
fallback_played c p now g _ e = arm_if_safe c p now g e

-- The `finally` block, which runs on a cancellation too.
unfoldable pub end_reconsider : Config → Gap → Engagement → Engagement
end_reconsider c g e = record e {
  emitting = false;
  decision_running = false;
  next_check = later e.next_check (e.audio_until + pause c g.reason);
}
