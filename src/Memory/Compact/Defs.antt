-- ===== src/Memory/Compact/Defs.antt =====
-- The definitions of `compact` (latency_lab/memory.py).
use sales_girl_voice_agent.Common.{
  ℕ, ◌+◌, ◌-◌, Bool, true, false, ◌&&◌, ◌||◌, not, Option, none, some, List, [], ◌∷◌, ◌++◌, map,
  if◌then◌else◌, Text, codes, text_eq, any, all, flatten, is_empty, Json, str, arr, obj, Items, nil,
  cons, Fields, end, field, ltb, leb, ◌==◌, length, take, drop,
}
use Prim.Native.Nat.{max}
use mathlib.Core.Bool.{decide}
use native.Mathlib.Decide.{ℕ_discrete}
use sales_girl_voice_agent.Memory.Turns.{MemoryTurn, Message, ConversationMemory}
use sales_girl_voice_agent.Memory.Budget.{estimated_tokens, estimated_json_tokens}
use sales_girl_voice_agent.Memory.Groups.{groups, messages_of}

-- The locals of `compact` that live across the wait for the model.
pub record Compaction : Type 0 where
  pub turn_ids : List ℕ
  pub epoch : ℕ
  pub snapshot : List Message
  pub previous_summary : Option Json

abbrev pub keep_exchanges : ConversationMemory → ℕ
keep_exchanges m = max 2 m.memory_recent_exchanges

unfoldable pub eligible : ConversationMemory → List MemoryTurn
eligible m =
    let gs = groups m.turns in
    if ltb (keep_exchanges m) (length gs)
    then flatten (take (length gs - keep_exchanges m) gs)
    else []

-- The exchanges that one request may hold: the loop stops at the first that does not fit.
unfoldable pub bounded_turns : ℕ → List (List MemoryTurn) → List MemoryTurn → List MemoryTurn
bounded_turns limit [] prefix = prefix
bounded_turns limit (g ∷ gs) prefix =
    let rest = bounded_turns limit gs (prefix ++ g) in
    if ltb limit (estimated_tokens (messages_of false (prefix ++ g))) then prefix else rest

unfoldable pub summarized : ConversationMemory → List MemoryTurn
summarized m = bounded_turns m.memory_context_tokens (groups (eligible m)) []

unfoldable pub begin_compact : ConversationMemory → Option Compaction
begin_compact m =
    if is_empty (eligible m) || not (all (λ (t : MemoryTurn). t.closed) (eligible m))
    then none
    else if is_empty (summarized m)
    then none
    else some (record {
      turn_ids = map (λ (t : MemoryTurn). t.id) (summarized m);
      epoch = m.epoch;
      snapshot = messages_of false (summarized m);
      previous_summary = m.summary;
    })

abbrev fields : List Text
fields = codes "topics" ∷ codes "facts" ∷ codes "corrections" ∷ codes "open_questions" ∷ []

keys : Fields → List Text
keys end = []
keys (field k v fs) = k ∷ keys fs

-- `set(summary) == fields`
abbrev has_fields : List Text → Bool
has_fields ks = all (λ k. any (text_eq k) fields) ks && all (λ k. any (text_eq k) ks) fields

items_length : Items → ℕ
items_length nil = 0
items_length (cons x xs) = items_length xs + 1

abbrev is_short_text : Json → Bool
is_short_text (str s) = leb (length s) 600
is_short_text _ = false

short_texts : Items → Bool
short_texts nil = true
short_texts (cons x xs) = is_short_text x && short_texts xs

abbrev is_bounded_list : Json → Bool
is_bounded_list (arr xs) = leb (items_length xs) 12 && short_texts xs
is_bounded_list _ = false

bounded_fields : Fields → Bool
unfolding items_length short_texts
bounded_fields end = true
bounded_fields (field k v fs) = is_bounded_list v && bounded_fields fs

-- A list of a summary that has an item. Only lists pass the other tests.
abbrev has_items : Json → Bool
has_items (arr (cons _ _)) = true
has_items _ = false

any_items : Fields → Bool
any_items end = false
any_items (field k v fs) = has_items v || any_items fs

-- The checks of the model's reply. What they reject raises, and is caught.
unfoldable pub valid_summary : Json → Bool
unfolding keys bounded_fields any_items
valid_summary (obj fs) =
    has_fields (keys fs)
    && any_items fs
    && bounded_fields fs
    && leb (estimated_json_tokens (obj fs)) 1200
valid_summary _ = false

pub Message-discrete : Discrete Message
Message-discrete = hlevel ℕ_discrete

pub Messages-discrete : Discrete (List Message)
Messages-discrete = hlevel Message-discrete

pub Ids-discrete : Discrete (List ℕ)
Ids-discrete = hlevel ℕ_discrete

abbrev turn_ids_of : List MemoryTurn → List ℕ
turn_ids_of = map (λ (t : MemoryTurn). t.id)

-- `self.turns[:len(prefix)]` still is what was summarized.
unfoldable pub unchanged : Compaction → ConversationMemory → Bool
unchanged c m =
    let current = take (length c.turn_ids) m.turns in
    m.epoch == c.epoch
    && decide (Ids-discrete (turn_ids_of current) c.turn_ids)
    && decide (Messages-discrete (messages_of false current) c.snapshot)

-- The rest of `compact`. `none` is a failed, cancelled or unreadable reply of the model.
unfoldable pub finish_compact :
    Compaction → Option Json → ConversationMemory → ConversationMemory × Bool
finish_compact c none m = (m, false)
finish_compact c (some summary) m =
    if valid_summary summary && unchanged c m
    then (record m { summary = some summary; turns = drop (length c.turn_ids) m.turns }, true)
    else (m, false)
