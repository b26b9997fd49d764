-- ===== src/Engagement/Hangup.antt =====
-- `_close_idle_call` and `_hangup_idle` of latency_lab/engagement.py, cut at their waits, and
-- `_play_engagement` of latency_lab/pipeline.py, which speaks for both.
use sales_girl_voice_agent.Common.{
  ℕ, ◌+◌, Bool, true, false, ◌&&◌, not, Option, none, some, List, [], ◌∷◌, Text, ltb, if◌then◌else◌,
}
use sales_girl_voice_agent.Engagement.State.{Config, Reason, Engagement, Pipe, idle, releasing}
use sales_girl_voice_agent.Engagement.Opportunity.{can_close_idle, safe, is_attempt}

pub data Closing : Type 0 where
  ends : Closing
  says : Text → Closing
  plays : Text → Closing
  sends_end_call : Closing

abbrev pub not_due : Option ℕ → ℕ → Bool
not_due none now = true
not_due (some at) now = ltb now at

-- `_hangup_idle` up to its request to the client.
unfoldable pub hangup_idle : Config → ℕ → Pipe → Engagement → Closing × Engagement × Pipe
unfolding can_close_idle
hangup_idle c revision p e =
    if can_close_idle c p revision e
    then (sends_end_call, record e { idle_close_at = none }, record p { call_ending = true })
    else (ends, e, p)

unfoldable pub hangup_failed : Config → ℕ → Pipe → Engagement → Engagement × Pipe
hangup_failed c now p e = (
  record e { idle_close_at = some (now + c.hangup_retry_seconds) },
  record p { call_ending = false },
)

abbrev pub says_or_hangs_up : Config → Option Text → Pipe → Engagement → Closing × Engagement × Pipe
says_or_hangs_up c (some (ch ∷ s)) p e = (says (ch ∷ s), e, p)
says_or_hangs_up c _ p e = hangup_idle c e.revision p e

-- The revision that the later steps take is the one found here.
unfoldable pub close_idle_call :
    Config → Option Text → ℕ → Pipe → Engagement → Closing × Engagement × Pipe
unfolding hangup_idle can_close_idle
close_idle_call c phrase now p e =
    let next = says_or_hangs_up c phrase p e in
    if not_due e.idle_close_at now
    then (ends, e, p)
    else if can_close_idle c p e.revision e
    then next
    else (ends, record e { idle_close_at = some (now + c.retry_seconds) }, p)

-- The goodbye's audio: whether there is any; `none` is an exception.
unfoldable pub close_synthesized :
    Config → ℕ → Text → Option Bool → Pipe → Engagement → Closing × Engagement × Pipe
unfolding hangup_idle can_close_idle
close_synthesized c revision text none p e = hangup_idle c revision p e
close_synthesized c revision text (some chunks) p e =
    let hangup = hangup_idle c revision p e in
    if can_close_idle c p revision e
    then (if chunks then (plays text, e, p) else hangup)
    else (ends, e, p)

unfoldable pub close_played :
    Config → ℕ → Option Bool → Pipe → Engagement → Closing × Engagement × Pipe
unfolding hangup_idle
close_played c revision (some false) p e = (ends, e, p)
close_played c revision _ p e = hangup_idle c revision p e

-- `_play_engagement` up to its first chunk: none where it is not safe to speak. The fresh name of a
-- proactive attempt is `k`.
abbrev proactive : ℕ → Pipe → Pipe
proactive k p = record p {
  attempt = some (record { id = k; authorized = true; cancelled = false });
  state = releasing;
}

unfoldable pub play_begin :
    ℕ → Option ℕ → Reason → ℕ → ℕ → Pipe → Engagement → Option (ℕ × Engagement × Pipe)
unfolding safe
play_begin revision none reason k now p e =
    if safe p revision none reason now e
    then some (k, record e { emitting = true }, proactive k p)
    else none
play_begin revision (some a) reason k now p e =
    if safe p revision (some a) reason now e
    then some (a, record e { emitting = true }, p)
    else none

-- What a chunk finds as its turn comes: the other tasks ran while the one before it was sent.
pub record Moment : Type 0 where
  pub chunk : ℕ
  pub now : ℕ
  pub pipe : Pipe
  pub policy : Engagement

-- The chunks that are sent, and whether all were.
unfoldable pub play_chunks : ℕ → ℕ → Reason → List Moment → List Moment × Bool
unfolding safe
play_chunks revision a reason [] = ([], true)
play_chunks revision a reason (m ∷ ms) =
    let (sent, all_sent) = play_chunks revision a reason ms in
    if safe m.pipe revision (some a) reason m.now m.policy
    then (m ∷ sent, all_sent)
    else ([], false)

-- A proactive attempt that is still the current one and sent nothing is taken back.
unfoldable pub play_end : Bool → ℕ → Bool → Pipe → Pipe
play_end is_proactive k sent p =
    if is_proactive && is_attempt p.attempt (some k) && not sent
    then record p { attempt = none; state = idle }
    else p
