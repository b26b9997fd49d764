-- ===== src/Pipeline/State.antt =====
-- The turn state of `Pipeline` (latency_lab/pipeline.py). A handler runs to its end before the next event:
-- sending to the client, to the recognizer and to the memory is a line of the log, newest first. The
-- timers and the tasks that a handler leaves behind are events of their own.
use sales_girl_voice_agent.Common.{
  ℕ, Bool, true, false, Option, none, some, List, [], ◌∷◌, Text, ◌==◌, if◌then◌else◌,
}
use sales_girl_voice_agent.Engagement.State.{PipeState, idle}

-- `turn-0001` and its like, or the fresh id of a phrase that the policy speaks by itself.
pub data TurnId : Type 0 where
  caller : ℕ → TurnId
  proactive : ℕ → TurnId

abbrev pub same_turn : TurnId → TurnId → Bool
same_turn (caller a) (caller b) = a == b
same_turn (proactive a) (proactive b) = a == b
same_turn (caller a) (proactive b) = false
same_turn (proactive a) (caller b) = false

abbrev pub is_turn : Option TurnId → Option TurnId → Bool
is_turn none none = true
is_turn (some a) (some b) = same_turn a b
is_turn none (some b) = false
is_turn (some a) none = false

-- An object of the heap, named by its `id`. A chunk of audio is a number.
pub record Attempt : Type 0 where
  pub id : ℕ
  pub hypothesis : Text
  pub speculative : Bool
  pub authorized : Bool
  pub cancelled : Bool
  pub answer : Text
  pub held_audio : List ℕ
  pub audio_complete : Bool
  pub audio_sent : Bool
  pub response_committed : Bool
  pub speech_control : Bool
  pub speech_control_applied : Bool
  pub turn_id : TurnId

-- What the pipeline does to the world.
pub data Effect : Type 0 where
  accepts_final : ℕ → Text → Effect
  remembers : TurnId → Text → Effect
  answers : TurnId → Text → Effect
  finishes : TurnId → Bool → Effect
  sends_chunk : TurnId → ℕ → ℕ → Effect
  announces : TurnId → ℕ → Effect
  sends_partial : Text → Effect
  stop_tts : Effect
  tts_end : Effect
  stt_commit : ℕ → Effect
  stt_recover : Effect

-- `speech_ms`, `silence_ms` and their limits count 1/32 of a millisecond, the length of one byte of 16 kHz
-- PCM16. `grace` says that the reply waits; `records` that the agent has banking records.
pub record Config : Type 0 where
  pub engagement_enabled : Bool
  pub grace : Bool
  pub records : Bool
  pub uses_sbpn : Bool
  pub speech_rms : ℕ
  pub min_speech_ms : ℕ
  pub end_silence_ms : ℕ
  pub stable_min_chars : ℕ

-- `attempts` are all that were made, the newest first; `attempt` names the current one. `announcements` are
-- the turns of the attempts that `announce` made, which are never current. The last three are the
-- tasks that wait: the final timeout of a turn, the stable partial, and the reply to a final.
pub record Pipeline : Type 0 where
  pub state : PipeState
  pub turn_id : Option TurnId
  pub turn_number : ℕ
  pub closed_turns : List TurnId
  pub last_closed_turn_id : Option TurnId
  pub last_partial : Text
  pub final_text : Text
  pub speech_candidate_active : Bool
  pub candidate_turn_id : Option ℕ
  pub preconfirm_partial : Option Text
  pub turn_pcm : ℕ
  pub speech_ms : ℕ
  pub silence_ms : ℕ
  pub silence_candidate : Bool
  pub call_ending : Bool
  pub handoff : Bool
  pub speech_enabled : Bool
  pub attempts : List Attempt
  pub attempt : Option ℕ
  pub announcements : List TurnId
  pub log : List Effect
  pub final_timeout : Option (Option TurnId)
  pub stability : Option Text
  pub response : Option (Text × Option TurnId)

abbrev pub new_pipeline : Pipeline
new_pipeline = record {
  state = idle;
  turn_id = none;
  turn_number = 0;
  closed_turns = [];
  last_closed_turn_id = none;
  last_partial = [];
  final_text = [];
  speech_candidate_active = false;
  candidate_turn_id = none;
  preconfirm_partial = none;
  turn_pcm = 0;
  speech_ms = 0;
  silence_ms = 0;
  silence_candidate = false;
  call_ending = false;
  handoff = false;
  speech_enabled = true;
  attempts = [];
  attempt = none;
  announcements = [];
  log = [];
  final_timeout = none;
  stability = none;
  response = none;
}

abbrev pub emit : Effect → Pipeline → Pipeline
emit x p = record p { log = x ∷ p.log }

abbrev pub transition : PipeState → Pipeline → Pipeline
transition s p = record p { state = s }

abbrev pub find : ℕ → List Attempt → Option Attempt
find k [] = none
find k (a ∷ as') = if k == a.id then some a else find k as'

abbrev pub change : (Attempt → Attempt) → ℕ → List Attempt → List Attempt
change f k [] = []
change f k (a ∷ as') = if k == a.id then f a ∷ as' else a ∷ change f k as'

abbrev pub change_attempt : (Attempt → Attempt) → ℕ → Pipeline → Pipeline
change_attempt f k p = record p { attempts = change f k p.attempts }

abbrev pub current : Pipeline → Option Attempt
current p = elim p.attempt [ none ↦ none | some k ↦ find k p.attempts ]

-- A turn is closed and remembered as the last closed one.
abbrev pub close_turn : Option TurnId → Pipeline → Pipeline
close_turn none p = p
close_turn (some t) p = record p { closed_turns = t ∷ p.closed_turns; last_closed_turn_id = some t }

abbrev pub clear_speech_candidate : Pipeline → Pipeline
clear_speech_candidate p = record p {
  speech_candidate_active = false;
  candidate_turn_id = none;
  preconfirm_partial = none;
  speech_ms = 0;
}
