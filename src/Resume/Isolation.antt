-- ===== src/Resume/Isolation.antt =====
-- Whose history a message of agent/conversation_memory.py belongs to.
use sales_girl_voice_agent.Common.{
  ℕ, ◌+◌, ◌-◌, ◌≡◌, ◌<◌, refl, Bool, false, ◌&&◌, ◌||◌, List, [], ◌∷◌, ◌++◌, arith, Text, text_eq,
  text_eq_refl, length, keep_if, strip, is_empty, length-drop, length-append, Bool-cases, inl, inr,
  ap, append-nil, ◌∙◌,
}
use sales_girl_voice_agent.Resume.Store.{
  Row, normalize_phone, append_message, is_of, last_rows, Limits, found, load_resume_context,
}

keep_if-append :
    (p : Row → Bool) (rs ss : List Row) → keep_if p (rs ++ ss) ≡ keep_if p rs ++ keep_if p ss
keep_if-append p [] ss = refl
keep_if-append p (r ∷ rs) ss = elim (Bool-cases (p r)) [
  | inl e ↦ rw e (ap (λ t. r ∷ t) (keep_if-append p rs ss))
  | inr e ↦ rw e (keep_if-append p rs ss)
]

append_other :
    (agent_id phone : Text) (m : Row) (rows : List Row)
    → text_eq m.agent_id agent_id && text_eq (normalize_phone m.phone) phone ≡ false
    → keep_if (is_of agent_id phone) (append_message m rows) ≡ keep_if (is_of agent_id phone) rows
unfolding append_message
append_other agent_id phone m rows h =
    elim (Bool-cases (is_empty (normalize_phone m.phone) || is_empty (strip m.content))) [
      | inl e ↦ rw e refl
      | inr e ↦ rw e (
          keep_if-append (is_of agent_id phone) rows _
          ∙ rw h (append-nil (keep_if (is_of agent_id phone) rows)))
    ]

-- A message of another caller or of another agent leaves the history that is loaded as it is.
pub append_message-isolated :
    (l : Limits) (agent_id phone : Text) (m : Row) (rows : List Row)
    → text_eq m.agent_id agent_id && text_eq (normalize_phone m.phone) (normalize_phone phone)
      ≡ false
    → load_resume_context l agent_id phone (append_message m rows)
      ≡ load_resume_context l agent_id phone rows
unfolding load_resume_context
append_message-isolated l agent_id phone m rows h =
    rw (append_other agent_id (normalize_phone phone) m rows h) refl

none_dropped : (n m : ℕ) → 0 < n → 0 ≡ m - (m - n) → 0 ≡ m
none_dropped n m h e = omega arith

found-total :
    (l : Limits) (id : Text) (ms : List Row)
    → 0 < l.recent_turns
    → (found l id (length ms) (last_rows l.recent_turns ms)).total_messages ≡ length ms
found-total l id ms h =
    go (last_rows l.recent_turns ms) (length-drop (length ms - l.recent_turns) ms)
  where
    go :
        (rs : List Row)
        → length rs ≡ length ms - (length ms - l.recent_turns)
        → (found l id (length ms) rs).total_messages ≡ length ms
    go [] e = unfold found in none_dropped l.recent_turns (length ms) h e
    go (r ∷ rs) e = unfold found in refl

load-total :
    (l : Limits) (agent_id phone : Text) (rows : List Row)
    → 0 < l.recent_turns
    → is_empty (normalize_phone phone) ≡ false
    → (load_resume_context l agent_id phone rows).total_messages
      ≡ length (keep_if (is_of agent_id (normalize_phone phone)) rows)
unfolding load_resume_context
load-total l agent_id phone rows h e = rw e (found-total l _ _ h)

-- A message with a number and a text counts as one more of its caller's history with its agent.
pub append_message-counted :
    (l : Limits) (m : Row) (rows : List Row)
    → 0 < l.recent_turns
    → is_empty (normalize_phone m.phone) ≡ false
    → is_empty (strip m.content) ≡ false
    → (load_resume_context l m.agent_id m.phone (append_message m rows)).total_messages
      ≡ (load_resume_context l m.agent_id m.phone rows).total_messages + 1
append_message-counted l m rows h phone text =
    let own = is_of m.agent_id (normalize_phone m.phone) in
    rw
      (
        load-total l m.agent_id m.phone (append_message m rows) h phone,
        load-total l m.agent_id m.phone rows h phone,
      )
      (unfold append_message in
        rw (phone, text)
          (ap length (keep_if-append own rows _)
            ∙ rw (text_eq_refl m.agent_id, text_eq_refl (normalize_phone m.phone))
                (length-append (keep_if own rows) _)))
