-- ===== src/Memory/Turns.antt =====
-- The state of latency_lab/memory.py and its operations on turns. Turn ids are only compared, so
-- they are numbers; a message carries the keys that the program reads or writes.
use sales_girl_voice_agent.Common.{
  ℕ, ◌+◌, Bool, true, false, ◌&&◌, not, Option, none, some, List, [], ◌∷◌, ◌++◌, map, ◌==◌,
  if◌then◌else◌, Text, codes, text_eq, any, flatten, is_empty, Json,
}

pub data Role : Type 0 where
  from_user from_assistant from_tool : Role

abbrev pub is_user : Role → Bool
is_user from_user = true
is_user _ = false

abbrev pub is_tool : Role → Bool
is_tool from_tool = true
is_tool _ = false

-- A message is a dict: `content` is `None` for a bare tool request, and the other keys may be absent.
pub record Message : Type 0 where
  pub role : Role
  pub content : Option Text
  pub reasoning_content : Option Text
  pub tool_calls : Option Json
  pub tool_call_id : Option Text

abbrev pub user_message : Text → Message
user_message text = record {
  role = from_user;
  content = some text;
  reasoning_content = none;
  tool_calls = none;
  tool_call_id = none;
}

-- The assistant's message of `answer`: an empty `reasoning_content` adds no key.
abbrev pub answer_message : Text → Text → Message
answer_message text reasoning = record {
  role = from_assistant;
  content = some text;
  reasoning_content = if is_empty reasoning then none else some reasoning;
  tool_calls = none;
  tool_call_id = none;
}

pub record MemoryTurn : Type 0 where
  pub id : ℕ
  pub messages : List Message
  pub closed : Bool
  pub answered : Bool
  pub interrupted : Bool
  pub listening_only : Bool

abbrev pub new_turn : ℕ → MemoryTurn
new_turn turn_id = record {
  id = turn_id;
  messages = [];
  closed = false;
  answered = false;
  interrupted = false;
  listening_only = false;
}

-- `config` holds the two settings that the memory reads; a negative setting acts as 0 wherever it
-- is used, so they are natural numbers. An empty `summary` is `none`.
pub record ConversationMemory : Type 0 where
  pub memory_context_tokens : ℕ
  pub memory_recent_exchanges : ℕ
  pub turns : List MemoryTurn
  pub summary : Option Json
  pub epoch : ℕ

-- The `history` property.
unfoldable pub history : ConversationMemory → List Message
history m = flatten (map (λ (t : MemoryTurn). t.messages) m.turns)

-- The search of `turn` from the newest turn back, and a change of the turn that it finds.
unfoldable pub update_last :
    ℕ → (MemoryTurn → MemoryTurn) → List MemoryTurn → Option (List MemoryTurn)
update_last turn_id f [] = none
update_last turn_id f (t ∷ ts) = elim (update_last turn_id f ts) [
  | some ts' ↦ some (t ∷ ts')
  | none ↦ if t.id == turn_id then some (f t ∷ ts) else none
]

-- `turn = self.turn(turn_id)` and then a change of that turn: a turn that is not there is appended.
unfoldable pub with_turn : ℕ → (MemoryTurn → MemoryTurn) → List MemoryTurn → List MemoryTurn
unfolding update_last
with_turn turn_id f ts = elim (update_last turn_id f ts) [
  | some ts' ↦ ts'
  | none ↦ ts ++ (f (new_turn turn_id) ∷ [])
]

abbrev pub has_user : List Message → Bool
has_user = any (λ (m : Message). is_user m.role)

abbrev pub add_user : Text → Bool → MemoryTurn → MemoryTurn
add_user text listening t =
    if has_user t.messages
    then t
    else record t { listening_only = listening; messages = user_message text ∷ t.messages }

unfoldable pub user : ℕ → Text → Bool → ConversationMemory → ConversationMemory
user turn_id text listening m = record m {
  turns = with_turn turn_id (add_user text listening) m.turns;
}

-- `message.get("tool_call_id") == call_id`
abbrev pub replies_to : Text → Message → Bool
replies_to call_id m = elim m.tool_call_id [ none ↦ false | some c ↦ text_eq c call_id ]

abbrev pub add_tool : Message → Message → Text → MemoryTurn → MemoryTurn
add_tool request reply call_id t =
    if any (replies_to call_id) t.messages
    then t
    else record t { messages = t.messages ++ (request ∷ reply ∷ []) }

-- The reply's `tool_call_id` is passed beside the reply that holds it.
unfoldable pub tool : ℕ → Message → Message → Text → ConversationMemory → ConversationMemory
tool turn_id request reply call_id m = record m {
  turns = with_turn turn_id (add_tool request reply call_id) m.turns;
}

abbrev pub add_answer : Text → Text → MemoryTurn → MemoryTurn
add_answer text reasoning t =
    if t.answered
    then t
    else record t { messages = t.messages ++ (answer_message text reasoning ∷ []); answered = true }

unfoldable pub answer : ℕ → Text → Text → ConversationMemory → ConversationMemory
answer turn_id text reasoning m = record m {
  turns = with_turn turn_id (add_answer text reasoning) m.turns;
}

abbrev pub interruption_note : Text
interruption_note = codes "\n[Response interrupted; the caller may not have heard it in full.]"

-- `messages[-1]["content"] += note`. `none` is the exception that Python raises on an empty list
-- or on a content of `None`.
unfoldable pub note_last : List Message → Option (List Message)
note_last [] = none
note_last (m ∷ []) = elim m.content [
  | none ↦ none
  | some text ↦ some (record m { content = some (text ++ interruption_note) } ∷ [])
]
note_last (m ∷ n ∷ ms) = elim (note_last (n ∷ ms)) [ none ↦ none | some ms' ↦ some (m ∷ ms') ]

-- The body of `finish` on the turn that it finds. Closing stays done where the note raises.
unfoldable pub finish_turn : Bool → MemoryTurn → MemoryTurn × Bool
unfolding note_last
finish_turn interrupt t =
    let done = record t { closed = true } in
    let noted = note_last t.messages in
    if interrupt && not t.interrupted
    then (if t.answered
        then (elim noted [
          | none ↦ (record done { interrupted = true }, false)
          | some ms ↦ (record done { interrupted = true; messages = ms }, true)
        ])
        else (record done { interrupted = true }, true))
    else (done, true)

-- `next(turn for turn in self.turns if turn.id == turn_id)`, and `finish` on it. The flag says that
-- nothing was raised.
unfoldable pub finish_first : ℕ → Bool → List MemoryTurn → List MemoryTurn × Bool
unfolding finish_turn
finish_first turn_id interrupt [] = ([], true)
finish_first turn_id interrupt (t ∷ ts) =
    let (t', done) = finish_turn interrupt t in
    let (rest, fine) = finish_first turn_id interrupt ts in
    if t.id == turn_id then (t' ∷ ts, done) else (t ∷ rest, fine)

unfoldable pub finish : ℕ → Bool → ConversationMemory → ConversationMemory × Bool
unfolding finish_first
finish turn_id interrupt m =
    let (ts, fine) = finish_first turn_id interrupt m.turns in (record m { turns = ts }, fine)

unfoldable pub clear : ConversationMemory → ConversationMemory
clear m = record m { epoch = m.epoch + 1; turns = []; summary = none }
