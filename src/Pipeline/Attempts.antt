-- ===== src/Pipeline/Attempts.antt =====
-- The life of an attempt (latency_lab/pipeline.py): `_send_audio`, `_release_held`,
-- `_commit_attempt_text`, the chunks of `_synthesize_phrases_locked`, `_cancel_attempt` and
-- `_start_attempt`.
use sales_girl_voice_agent.Common.{
  ℕ, Bool, true, false, ◌&&◌, ◌||◌, not, Option, none, some, List, [], ◌∷◌, ◌++◌, Text, length,
  is_empty, strip, if◌then◌else◌, is_some,
}
use sales_girl_voice_agent.Pipeline.State.{
  TurnId, caller, proactive, Attempt, remembers, answers, finishes, sends_chunk, stop_tts, tts_end,
  Config, Pipeline, emit, find, change_attempt, current,
}

abbrev pub mark_sent : Attempt → Attempt
mark_sent a = record a { audio_sent = true }

unfoldable pub send_audio : ℕ → Attempt → Pipeline → Pipeline
send_audio chunk a p =
    let p' = emit (sends_chunk a.turn_id a.id chunk) (change_attempt mark_sent a.id p) in
    if a.cancelled || not p.speech_enabled then p else p'

abbrev pub mark_committed : Attempt → Attempt
mark_committed a = record a { response_committed = true }

abbrev pub is_caller : TurnId → Bool
is_caller (caller n) = true
is_caller (proactive n) = false

abbrev pub or_text : Text → Text → Text
or_text [] b = b
or_text (c ∷ s) b = c ∷ s

-- The user's line is remembered for a caller's turn only.
abbrev pub commit_user : Attempt → Pipeline → Pipeline
commit_user a p =
    if is_caller a.turn_id
    then emit (remembers a.turn_id (or_text p.final_text a.hypothesis)) p
    else p

unfoldable pub commit_attempt_text : Config → Attempt → Pipeline → Pipeline
commit_attempt_text c a p =
    let p' =
      emit (answers a.turn_id (strip a.answer))
        (commit_user a (change_attempt mark_committed a.id p)) in
    if not p.speech_enabled || (c.engagement_enabled && is_empty (strip a.answer))
    then emit (finishes a.turn_id false) p
    else if a.response_committed
    then p
    else p'

abbrev pub send_all : List ℕ → Attempt → Pipeline → Pipeline
send_all [] a p = p
send_all (ch ∷ chs) a p = send_all chs a (send_audio ch a p)

abbrev pub clear_held : Attempt → Attempt
clear_held a = record a { held_audio = [] }

unfoldable pub release_held : Config → Attempt → Pipeline → Pipeline
unfolding send_audio commit_attempt_text
release_held c a p =
    let sent = change_attempt clear_held a.id (send_all a.held_audio a p) in
    let done = emit tts_end (commit_attempt_text c a sent) in
    if not p.speech_enabled
    then change_attempt clear_held a.id p
    else if a.audio_complete
    then done
    else sent

-- A chunk of a phrase comes from the synthesizer, which is stopped by a cancelled attempt.
abbrev pub hold : ℕ → Attempt → Attempt
hold chunk a = record a { held_audio = a.held_audio ++ (chunk ∷ []) }

abbrev pub on_chunk : ℕ → Option Attempt → Pipeline → Pipeline
on_chunk chunk none p = p
on_chunk chunk (some a) p =
    if a.cancelled
    then p
    else if a.authorized
    then send_audio chunk a p
    else change_attempt (hold chunk) a.id p

unfoldable pub chunk_arrives : ℕ → ℕ → Pipeline → Pipeline
unfolding send_audio
chunk_arrives k chunk p = on_chunk chunk (find k p.attempts) p

-- The model's text joins the answer of an attempt.
unfoldable pub answer_grows : ℕ → Text → Pipeline → Pipeline
answer_grows k text p = change_attempt (λ a. record a { answer = a.answer ++ text }) k p

-- The end of `_generate`.
abbrev pub on_done : Config → Option Attempt → Pipeline → Pipeline
on_done c none p = p
on_done c (some a) p =
    let p' = change_attempt (λ a. record a { audio_complete = true }) a.id p in
    if a.cancelled
    then p'
    else if a.authorized
    then emit tts_end (commit_attempt_text c a p')
    else p'

unfoldable pub generation_done : Config → ℕ → Pipeline → Pipeline
unfolding commit_attempt_text
generation_done c k p = on_done c (find k p.attempts) p

abbrev pub mark_cancelled : Attempt → Attempt
mark_cancelled a = record a { cancelled = true }

-- What was heard of an interrupted answer is remembered.
abbrev pub keep_heard : Attempt → Pipeline → Pipeline
keep_heard a p =
    if a.authorized && a.audio_sent && not (is_empty a.answer) && not a.response_committed
    then emit (answers a.turn_id (strip a.answer)) p
    else p

abbrev pub on_cancel : Option Attempt → Pipeline → Pipeline
on_cancel none p = p
on_cancel (some a) p =
    let p1 = emit (finishes a.turn_id true) (keep_heard a (change_attempt mark_cancelled a.id p)) in
    let p2 = if a.authorized then emit stop_tts p1 else p1 in record p2 { attempt = none }

-- The reply to a final is cancelled with the attempt, unless it is the reply's task that calls.
unfoldable pub cancel_attempt : Bool → Pipeline → Pipeline
cancel_attempt from_response p =
    on_cancel (current p) (record p { response = if from_response then p.response else none })

abbrev pub or_turn : Option TurnId → ℕ → TurnId
or_turn none n = caller n
or_turn (some t) n = t

abbrev pub new_attempt : Text → Bool → Bool → Pipeline → Attempt
new_attempt text speculative authorized p = record {
  id = length p.attempts;
  hypothesis = text;
  speculative = speculative;
  authorized = authorized;
  cancelled = false;
  answer = [];
  held_audio = [];
  audio_complete = false;
  audio_sent = false;
  response_committed = false;
  speech_control = false;
  speech_control_applied = false;
  turn_id = or_turn p.turn_id p.turn_number;
}

abbrev pub add_attempt : Text → Bool → Bool → Pipeline → Pipeline
add_attempt text speculative authorized p =
    let a = new_attempt text speculative authorized p in
    let p' = record p { attempts = a ∷ p.attempts; attempt = some a.id } in
    if authorized then emit (remembers a.turn_id (or_text p.final_text text)) p' else p'

unfoldable pub start_attempt : Bool → Text → Bool → Bool → Pipeline → Pipeline
unfolding cancel_attempt
start_attempt from_response text speculative authorized p =
    add_attempt text speculative authorized
      (if is_some p.attempt then cancel_attempt from_response p else p)
