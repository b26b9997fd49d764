-- ===== src/Memory/Ops.antt =====
-- The operations of latency_lab/memory.py keep the turns well formed, and none of them raises.
use sales_girl_voice_agent.Common.{
  ℕ, ◌≡◌, refl, Bool, true, false, ◌||◌, none, some, List, [], ◌∷◌, ◌++◌, map, arith, ◌==◌,
  if◌then◌else◌, Text, contains, Bool-cases, inl, inr, is_some,
}
use sales_girl_voice_agent.Memory.Turns.{
  Message, MemoryTurn, new_turn, update_last, with_turn, add_user, add_tool, add_answer,
  finish_turn, finish_first, user_message, answer_message,
}

abbrev pub ids : List MemoryTurn → List ℕ
ids = map (λ (t : MemoryTurn). t.id)

-- The last message has a text.
abbrev pub ends_in_text : List Message → Bool
ends_in_text [] = false
ends_in_text (m ∷ []) = is_some m.content
ends_in_text (m ∷ n ∷ ms) = ends_in_text (n ∷ ms)

-- An answered turn can take the note on an interruption.
abbrev pub IsReady : MemoryTurn → Type 0
IsReady t = t.answered ≡ true → ends_in_text t.messages ≡ true

-- Every turn is ready, and no id stands twice.
abbrev pub IsValid : List MemoryTurn → Type 0
IsValid [] = Unit
IsValid (t ∷ ts) = IsReady t × (contains t.id (ids ts) ≡ false) × IsValid ts

-- A change of the turns with one id.
abbrev pub change : ℕ → (MemoryTurn → MemoryTurn) → List MemoryTurn → List MemoryTurn
change turn_id f [] = []
change turn_id f (t ∷ ts) = (if t.id == turn_id then f t else t) ∷ change turn_id f ts

pub change_absent :
    (turn_id : ℕ) (f : MemoryTurn → MemoryTurn) (ts : List MemoryTurn)
    → contains turn_id (ids ts) ≡ false
    → change turn_id f ts ≡ ts
change_absent turn_id f [] h = refl
change_absent turn_id f (t ∷ ts) h = ground (arith, change_absent turn_id f ts)

-- Where ids are unique, the search of `turn` changes the one turn with that id.
pub update_last_lem :
    (turn_id : ℕ) (f : MemoryTurn → MemoryTurn) (ts : List MemoryTurn)
    → IsValid ts
    → update_last turn_id f ts
      ≡ (if contains turn_id (ids ts) then some (change turn_id f ts) else none)
unfolding update_last
update_last_lem turn_id f [] v = refl
update_last_lem turn_id f (t ∷ ts) v =
    ground (arith, update_last_lem turn_id f ts v.2, change_absent turn_id f ts)

pub finish_first_lem :
    (turn_id : ℕ) (i : Bool) (ts : List MemoryTurn)
    → IsValid ts
    → (finish_first turn_id i ts).0 ≡ change turn_id (λ t. (finish_turn i t).0) ts
unfolding finish_first
finish_first_lem turn_id i [] v = refl
finish_first_lem turn_id i (t ∷ ts) v =
    ground (
      arith,
      finish_first_lem turn_id i ts v.2,
      change_absent turn_id (λ t. (finish_turn i t).0) ts,
    )

-- What an operation may do to the turn that it changes.
abbrev pub Keeps : (MemoryTurn → MemoryTurn) → Type 0
Keeps f = (t : MemoryTurn) → ((f t).id ≡ t.id) × (IsReady t → IsReady (f t))

module _ (turn_id : ℕ) (f : MemoryTurn → MemoryTurn) (keeps : Keeps f) where
  pub ids-change : (ts : List MemoryTurn) → ids (change turn_id f ts) ≡ ids ts
  ids-change [] = refl
  ids-change (t ∷ ts) = ground (arith, ids-change ts, (keeps t).0)

  pub change-IsValid : (ts : List MemoryTurn) → IsValid ts → IsValid (change turn_id f ts)
  change-IsValid [] v = tt
  change-IsValid (t ∷ ts) v = elim (Bool-cases (t.id == turn_id)) [
    | inl e ↦ rw e ((keeps t).1 v.0, rw (ids-change ts, (keeps t).0) v.1, change-IsValid ts v.2)
    | inr e ↦ rw e (v.0, rw (ids-change ts) v.1, change-IsValid ts v.2)
  ]

pub ids_append_one :
    (k : ℕ) (ts : List MemoryTurn) (t : MemoryTurn)
    → contains k (ids (ts ++ (t ∷ []))) ≡ (contains k (ids ts) || k == t.id)
ids_append_one k [] t = ground arith
ids_append_one k (u ∷ ts) t = ground (arith, ids_append_one k ts t)

append_new-IsValid :
    (ts : List MemoryTurn) (t : MemoryTurn)
    → IsValid ts
    → contains t.id (ids ts) ≡ false
    → IsReady t
    → IsValid (ts ++ (t ∷ []))
append_new-IsValid [] t v absent ready = (ready, refl, tt)
append_new-IsValid (u ∷ ts) t v absent ready = (
  v.0,
  ground (arith, ids_append_one u.id ts t, v.1),
  append_new-IsValid ts t v.2 (ground arith) ready,
)

-- `self.turn(turn_id)` and a change of it: the turn with that id, or a new one at the end.
pub with_turn_lem :
    (turn_id : ℕ) (f : MemoryTurn → MemoryTurn) (ts : List MemoryTurn)
    → IsValid ts
    → with_turn turn_id f ts ≡ (
        if contains turn_id (ids ts)
        then change turn_id f ts
        else ts ++ (f (new_turn turn_id) ∷ []))
unfolding with_turn
with_turn_lem turn_id f ts v = ground (arith, update_last_lem turn_id f ts v)

pub with_turn-IsValid :
    (turn_id : ℕ) (f : MemoryTurn → MemoryTurn) (ts : List MemoryTurn)
    → Keeps f
    → IsValid ts
    → IsValid (with_turn turn_id f ts)
with_turn-IsValid turn_id f ts keeps v =
    rw (with_turn_lem turn_id f ts v) (elim (Bool-cases (contains turn_id (ids ts))) [
      | inl e ↦ rw e (change-IsValid turn_id f keeps ts v)
      | inr e ↦ rw e (
          append_new-IsValid ts (f (new_turn turn_id)) v (rw (keeps (new_turn turn_id)).0 e)
            ((keeps (new_turn turn_id)).1 (λ h. cc)))
    ])

ends_in_text-append :
    (ms : List Message) (m : Message) → ends_in_text (ms ++ (m ∷ [])) ≡ is_some m.content
ends_in_text-append [] m = refl
ends_in_text-append (a ∷ []) m = refl
ends_in_text-append (a ∷ b ∷ ms) m = ends_in_text-append (b ∷ ms) m

ends_in_text-append_two :
    (ms : List Message) (m n : Message) → ends_in_text (ms ++ (m ∷ n ∷ [])) ≡ is_some n.content
ends_in_text-append_two [] m n = refl
ends_in_text-append_two (a ∷ []) m n = refl
ends_in_text-append_two (a ∷ b ∷ ms) m n = ends_in_text-append_two (b ∷ ms) m n

ends_in_text-cons :
    (m : Message) (ms : List Message) → ends_in_text ms ≡ true → ends_in_text (m ∷ ms) ≡ true
ends_in_text-cons m [] h = cc
ends_in_text-cons m (n ∷ ms) h = h

pub add_user-Keeps : (text : Text) (listening : Bool) → Keeps (add_user text listening)
add_user-Keeps text listening t =
    (ground arith, λ r a. ground (arith, ends_in_text-cons (user_message text) t.messages, r))

pub add_tool-Keeps :
    (request reply : Message) (call_id : Text)
    → is_some reply.content ≡ true
    → Keeps (add_tool request reply call_id)
add_tool-Keeps request reply call_id h t =
    (ground arith, λ r a. ground (arith, ends_in_text-append_two t.messages request reply, r))

pub add_answer-Keeps : (text reasoning : Text) → Keeps (add_answer text reasoning)
add_answer-Keeps text reasoning t = (
  ground arith,
  λ r a. ground (arith, ends_in_text-append t.messages (answer_message text reasoning), r),
)
