-- ===== src/Memory/Calls.antt =====
-- Any sequence of calls to the memory (latency_lab/memory.py), and what it can rely on.
use sales_girl_voice_agent.Common.{
  ℕ, ◌≡◌, refl, Bool, true, ◌&&◌, some, List, [], ◌∷◌, ◌++◌, arith, Text, Bool-cases, inl, inr,
  is_some, Option-cases, All,
}
use sales_girl_voice_agent.Memory.Turns.{
  Message, MemoryTurn, ConversationMemory, user, add_user, tool, add_tool, answer, add_answer,
  note_last, finish_turn, finish_first, finish, clear, interruption_note,
}
use sales_girl_voice_agent.Memory.Ops.{
  ends_in_text, IsReady, IsValid, finish_first_lem, Keeps, with_turn-IsValid, change-IsValid,
  add_user-Keeps, add_tool-Keeps, add_answer-Keeps,
}

pub data Call : Type 0 where
  user_call : ℕ → Text → Bool → Call
  tool_call : ℕ → Message → Message → Text → Call
  answer_call : ℕ → Text → Text → Call
  finish_call : ℕ → Bool → Call
  clear_call : Call

-- The memory after a call; the flag is false where the call raised.
unfoldable pub run_call : Call → ConversationMemory → ConversationMemory × Bool
unfolding user tool answer finish clear
run_call (user_call k text listening) m = (user k text listening m, true)
run_call (tool_call k request reply call_id) m = (tool k request reply call_id m, true)
run_call (answer_call k text reasoning) m = (answer k text reasoning m, true)
run_call (finish_call k interrupt) m = finish k interrupt m
run_call clear_call m = (clear m, true)

unfoldable pub run_calls : List Call → ConversationMemory → ConversationMemory × Bool
unfolding run_call
run_calls [] m = (m, true)
run_calls (c ∷ cs) m =
    let (m', fine) = run_call c m in let (m'', rest) = run_calls cs m' in (m'', fine && rest)

-- The pipeline's tool replies have a text: `json.dumps(body)`.
abbrev pub HasReply : Call → Type 0
HasReply (tool_call _ _ reply _) = is_some reply.content ≡ true
HasReply _ = Unit

note_last_ready :
    (ms : List Message)
    → ends_in_text ms ≡ true
    → (ns : List Message) × (note_last ms ≡ some ns) × (ends_in_text ns ≡ true)
unfolding note_last
note_last_ready [] h = cc
note_last_ready (m ∷ []) h = elim (Option-cases m.content) [
  | inl e ↦ ground arith
  | inr (text, e) ↦ (record m { content = some (text ++ interruption_note) } ∷ [], rw e, refl)
]
note_last_ready (m ∷ n ∷ ms) h = let (ns, e, t) = note_last_ready (n ∷ ms) h in go ns e t
  where
    go :
        (ns : List Message)
        → note_last (n ∷ ms) ≡ some ns
        → ends_in_text ns ≡ true
        → (ks : List Message) × (note_last (m ∷ n ∷ ms) ≡ some ks) × (ends_in_text ks ≡ true)
    go [] e t = cc
    go (k ∷ ks) e t = (m ∷ k ∷ ks, rw e, t)

finish_turn-IsReady :
    (i : Bool) (t : MemoryTurn)
    → IsReady t
    → ((finish_turn i t).1 ≡ true) × ((finish_turn i t).0.id ≡ t.id) × IsReady (finish_turn i t).0
unfolding finish_turn
finish_turn-IsReady i t r = elim (Bool-cases t.answered) [
  | inl e ↦ let (ns, en, tn) = note_last_ready t.messages (r e) in ground arith
  | inr e ↦ ground arith
]

finish_first-fine :
    (k : ℕ) (i : Bool) (ts : List MemoryTurn) → IsValid ts → (finish_first k i ts).1 ≡ true
unfolding finish_first
finish_first-fine k i [] v = refl
finish_first-fine k i (t ∷ ts) v =
    ground (arith, finish_first-fine k i ts v.2, (finish_turn-IsReady i t v.0).0)

finish_turn-id : (i : Bool) (t : MemoryTurn) → (finish_turn i t).0.id ≡ t.id
unfolding finish_turn
finish_turn-id i t = ground arith

pub finish_turn-Keeps : (i : Bool) → Keeps (λ t. (finish_turn i t).0)
finish_turn-Keeps i t = (finish_turn-id i t, λ r. (finish_turn-IsReady i t r).2)

pub finish_first-IsValid :
    (k : ℕ) (i : Bool) (ts : List MemoryTurn) → IsValid ts → IsValid (finish_first k i ts).0
finish_first-IsValid k i ts v =
    rw (finish_first_lem k i ts v)
      (change-IsValid k (λ t. (finish_turn i t).0) (finish_turn-Keeps i) ts v)

run_call-IsValid :
    (c : Call) (m : ConversationMemory)
    → HasReply c
    → IsValid m.turns
    → IsValid (run_call c m).0.turns × ((run_call c m).1 ≡ true)
unfolding run_call
run_call-IsValid (user_call k text listening) m h v =
    (with_turn-IsValid k (add_user text listening) m.turns (add_user-Keeps text listening) v, refl)
run_call-IsValid (tool_call k request reply call_id) m h v = (
  with_turn-IsValid k (add_tool request reply call_id) m.turns
      (add_tool-Keeps request reply call_id h) v,
  refl,
)
run_call-IsValid (answer_call k text reasoning) m h v = (
  with_turn-IsValid k (add_answer text reasoning) m.turns (add_answer-Keeps text reasoning) v,
  refl,
)
run_call-IsValid (finish_call k interrupt) m h v =
    (finish_first-IsValid k interrupt m.turns v, finish_first-fine k interrupt m.turns v)
run_call-IsValid clear_call m h v = (tt, refl)

-- From valid turns, any calls whose tool replies have a text keep turn ids unique and every answered
-- turn ending in a text, and no call raises: `finish` can always append its interruption note.
pub run_calls-IsValid :
    (cs : List Call) (m : ConversationMemory)
    → All HasReply cs
    → IsValid m.turns
    → IsValid (run_calls cs m).0.turns × ((run_calls cs m).1 ≡ true)
unfolding run_calls
run_calls-IsValid [] m hs v = (v, refl)
run_calls-IsValid (c ∷ cs) m hs v =
    let (v', fine) = run_call-IsValid c m hs.0 v in
    let (v'', rest) = run_calls-IsValid cs (run_call c m).0 hs.1 v' in (v'', ground arith)
