-- ===== src/Memory/Groups.antt =====
-- `_groups` and `_messages` of latency_lab/memory.py: turns are kept together as exchanges, up to an
-- uninterrupted answer.
use sales_girl_voice_agent.Common.{
  ◌≡◌, refl, Bool, true, false, ◌&&◌, ◌||◌, not, Option, none, some, List, [], ◌∷◌, ◌++◌, arith,
  if◌then◌else◌, Text, codes, flatten, append_assoc, all, is_empty, ap, ◌∙◌, sym, Bool-cases, inl,
  inr,
}
use sales_girl_voice_agent.Memory.Turns.{MemoryTurn, Message, is_user}

-- `turn.closed and (turn.listening_only or (turn.answered and not turn.interrupted))`
unfoldable pub settled : MemoryTurn → Bool
settled t = t.closed && (t.listening_only || (t.answered && not t.interrupted))

-- The loop of `_groups` over the turns that are left, with the pending group.
unfoldable pub groups_from : List MemoryTurn → List MemoryTurn → List (List MemoryTurn)
unfolding settled
groups_from pending [] = if is_empty pending then [] else pending ∷ []
groups_from pending (t ∷ ts) =
    let whole = (pending ++ (t ∷ [])) ∷ groups_from [] ts in
    let longer = groups_from (pending ++ (t ∷ [])) ts in if settled t then whole else longer

unfoldable pub groups : List MemoryTurn → List (List MemoryTurn)
unfolding groups_from
groups ts = groups_from [] ts

abbrev pub listening_note : Text
listening_note =
    codes "[Listening-only speech: retained context, not a request to execute or confirmation.]\n"

abbrev mark_content : Option Text → Option Text
mark_content none = none
mark_content (some text) = some (listening_note ++ text)

-- A copy of one message for the model. A user's message has a text for its content.
unfoldable pub present : Bool → Bool → Message → Message
present include_reasoning listening m = record m {
  reasoning_content = if include_reasoning then m.reasoning_content else none;
  content = if listening && is_user m.role then mark_content m.content else m.content;
}

unfoldable pub present_all : Bool → Bool → List Message → List Message
unfolding present
present_all include_reasoning listening [] = []
present_all include_reasoning listening (m ∷ ms) =
    present include_reasoning listening m ∷ present_all include_reasoning listening ms

-- `_messages`
unfoldable pub messages_of : Bool → List MemoryTurn → List Message
unfolding present_all
messages_of include_reasoning [] = []
messages_of include_reasoning (t ∷ ts) =
    present_all include_reasoning t.listening_only t.messages ++ messages_of include_reasoning ts

pub messages_of-append :
    (r : Bool) (xs ys : List MemoryTurn)
    → messages_of r (xs ++ ys) ≡ messages_of r xs ++ messages_of r ys
unfolding messages_of
messages_of-append r [] ys = refl
messages_of-append r (x ∷ xs) ys =
    ap (λ l. present_all r x.listening_only x.messages ++ l) (messages_of-append r xs ys)
    ∙ sym (
        append_assoc (present_all r x.listening_only x.messages) (messages_of r xs)
          (messages_of r ys))

flatten-groups_from :
    (pending ts : List MemoryTurn) → flatten (groups_from pending ts) ≡ pending ++ ts
unfolding groups_from
flatten-groups_from [] [] = refl
flatten-groups_from (p ∷ pending) [] = refl
flatten-groups_from pending (t ∷ ts) = elim (Bool-cases (settled t)) [
  | inl e ↦ rw e (
      ap (λ l. (pending ++ (t ∷ [])) ++ l) (flatten-groups_from [] ts)
      ∙ append_assoc pending (t ∷ []) ts)
  | inr e ↦ rw e (flatten-groups_from (pending ++ (t ∷ [])) ts ∙ append_assoc pending (t ∷ []) ts)
]

-- A whole exchange: only its last turn is settled.
abbrev pub is_exchange : List MemoryTurn → Bool
is_exchange [] = false
is_exchange (t ∷ []) = settled t
is_exchange (t ∷ u ∷ us) = not (settled t) && is_exchange (u ∷ us)

-- An exchange that goes on: it has a turn, and none is settled.
abbrev pub none_settled : List MemoryTurn → Bool
none_settled = all (λ t. not (settled t))

abbrev pub is_open : List MemoryTurn → Bool
is_open g = not (is_empty g) && none_settled g

-- Every group is a whole exchange, except that the last may go on.
abbrev pub AreExchanges : List (List MemoryTurn) → Type 0
AreExchanges [] = Unit
AreExchanges (g ∷ []) = (is_exchange g || is_open g) ≡ true
AreExchanges (g ∷ h ∷ gs) = (is_exchange g ≡ true) × AreExchanges (h ∷ gs)

is_exchange-append :
    (pending : List MemoryTurn) (t : MemoryTurn)
    → none_settled pending ≡ true
    → settled t ≡ true
    → is_exchange (pending ++ (t ∷ [])) ≡ true
is_exchange-append [] t n e = e
is_exchange-append (p ∷ []) t n e = ground arith
is_exchange-append (p ∷ q ∷ ps) t n e = ground (arith, is_exchange-append (q ∷ ps) t)

pub none_settled-append :
    (pending : List MemoryTurn) (t : MemoryTurn)
    → none_settled pending ≡ true
    → settled t ≡ false
    → none_settled (pending ++ (t ∷ [])) ≡ true
none_settled-append [] t n e = ground arith
none_settled-append (p ∷ ps) t n e = ground (arith, none_settled-append ps t)

AreExchanges-cons :
    (g : List MemoryTurn) (gs : List (List MemoryTurn))
    → is_exchange g ≡ true
    → AreExchanges gs
    → AreExchanges (g ∷ gs)
AreExchanges-cons g [] e h = rw e
AreExchanges-cons g (h ∷ gs) e w = (e, w)

groups_from-AreExchanges :
    (pending ts : List MemoryTurn)
    → none_settled pending ≡ true
    → AreExchanges (groups_from pending ts)
unfolding groups_from
groups_from-AreExchanges [] [] n = tt
groups_from-AreExchanges (p ∷ ps) [] n = ground arith
groups_from-AreExchanges pending (t ∷ ts) n = elim (Bool-cases (settled t)) [
  | inl e ↦ rw e (
      AreExchanges-cons (pending ++ (t ∷ [])) (groups_from [] ts) (is_exchange-append pending t n e)
        (groups_from-AreExchanges [] ts refl))
  | inr e ↦
      rw e (groups_from-AreExchanges (pending ++ (t ∷ [])) ts (none_settled-append pending t n e))
]

-- `_groups` loses, repeats and reorders no turn, and every group but possibly the last is a whole
-- exchange: it ends at its first settled turn. The last group may be an exchange that goes on.
pub groups_lem : (ts : List MemoryTurn) → (flatten (groups ts) ≡ ts) × AreExchanges (groups ts)
unfolding groups
groups_lem ts = (flatten-groups_from [] ts, groups_from-AreExchanges [] ts refl)
