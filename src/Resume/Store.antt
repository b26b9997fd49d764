-- ===== src/Resume/Store.antt =====
-- The messages of agent/conversation_memory.py, as the rows of its table in the order of their ids. The
-- session id and the time of a row, which nothing reads, are left out.
use sales_girl_voice_agent.Common.{
  ℕ, zero, suc, ◌-◌, ◌≤◌, ◌<◌, Bool, ◌&&◌, ◌||◌, not, List, [], ◌∷◌, ◌++◌, arith, Text, codes,
  text_eq, length, drop, keep_if, lower, strip, is_empty, is_digit, ltb, if◌then◌else◌, length-drop,
  Bool-cases, inl, inr,
}

pub record Row : Type 0 where
  pub conversation_id : Text
  pub agent_id : Text
  pub phone : Text
  pub role : Text
  pub content : Text

-- `total_messages` and `context_text` of the caller's history.
pub record ResumeContext : Type 0 where
  pub conversation_id : Text
  pub total_messages : ℕ
  pub context_text : Text

unfoldable pub has_history : ResumeContext → Bool
has_history c = ltb 0 c.total_messages && not (is_empty (strip c.context_text))

abbrev plus_digits : Text → Text
plus_digits [] = []
plus_digits (d ∷ ds) = 43 ∷ d ∷ ds

unfoldable pub normalize_phone : Text → Text
normalize_phone phone =
    if is_empty (strip phone) then [] else plus_digits (keep_if is_digit (strip phone))

unfoldable pub conversation_id_for : Text → Text → Text
unfolding normalize_phone
conversation_id_for agent_id phone =
    if is_empty (normalize_phone phone) then [] else agent_id ++ (58 ∷ normalize_phone phone)

abbrev or_user : Text → Text
or_user role = if is_empty role then codes "user" else role

unfoldable pub append_message : Row → List Row → List Row
unfolding normalize_phone
append_message m rows =
    let phone = normalize_phone m.phone in
    let text = strip m.content in
    if is_empty phone || is_empty text
    then rows
    else rows ++ (record m { phone = phone; role = lower (or_user m.role); content = text } ∷ [])

-- `WHERE agent_id = ? AND phone = ?`
abbrev pub is_of : Text → Text → Row → Bool
is_of agent_id phone r = text_eq r.agent_id agent_id && text_eq r.phone phone

-- `ORDER BY id DESC LIMIT n`, reversed: the last n rows.
abbrev pub last_rows : ℕ → List Row → List Row
last_rows n rows = drop (length rows - n) rows

unfoldable pub line_of : Row → Text
line_of r =
    (if text_eq (lower (or_user r.role)) (codes "user")
      then codes "Customer"
      else codes "Assistant")
    ++ (codes ": " ++ strip r.content)

unfoldable pub context_lines : List Row → List Text
unfolding line_of
context_lines [] = []
context_lines (r ∷ rs) =
    let rest = context_lines rs in if is_empty (strip r.content) then rest else line_of r ∷ rest

-- `"\n".join(lines)`
unfoldable pub join_lines : List Text → Text
join_lines [] = []
join_lines (l ∷ []) = l
join_lines (l ∷ m ∷ ls) = l ++ (10 ∷ join_lines (m ∷ ls))

-- `text[-n:]`, where `-0` is 0.
abbrev last_codes : ℕ → Text → Text
last_codes zero s = s
last_codes (suc n) s = drop (length s - suc n) s

unfoldable pub cut : ℕ → Text → Text
cut max s = if ltb max (length s) then last_codes max s else s

-- The environment's two limits.
pub record Limits : Type 0 where
  pub max_context_chars : ℕ
  pub recent_turns : ℕ

module _ (l : Limits) where
  unfoldable pub context_of : List Row → Text
  unfolding context_lines join_lines cut
  context_of rows = cut l.max_context_chars (strip (join_lines (context_lines rows)))

  unfoldable pub found : Text → ℕ → List Row → ResumeContext
  unfolding context_of
  found id total [] = record { conversation_id = id; total_messages = 0; context_text = [] }
  found id total (r ∷ rs) = record {
    conversation_id = id;
    total_messages = total;
    context_text = context_of (r ∷ rs);
  }

  unfoldable pub load_resume_context : Text → Text → List Row → ResumeContext
  unfolding normalize_phone conversation_id_for found
  load_resume_context agent_id phone rows =
      let phone_norm = normalize_phone phone in
      let matching = keep_if (is_of agent_id phone_norm) rows in
      if is_empty phone_norm
      then record { conversation_id = []; total_messages = 0; context_text = [] }
      else found (conversation_id_for agent_id phone_norm) (length matching)
          (last_rows l.recent_turns matching)

cut-bound : (max : ℕ) (s : Text) → 0 < max → length (cut max s) ≤ max
unfolding cut
cut-bound zero s h = absurd (omega arith)
cut-bound (suc n) s h = elim (Bool-cases (ltb (suc n) (length s))) [
  | inl e ↦ rw e (omega (arith, length-drop (length s - suc n) s))
  | inr e ↦ rw e (ground arith)
]

found-bound :
    (l : Limits) (id : Text) (total : ℕ) (rows : List Row)
    → 0 < l.max_context_chars
    → length (found l id total rows).context_text ≤ l.max_context_chars
unfolding found context_of
found-bound l id total [] h = omega arith
found-bound l id total (r ∷ rs) h = cut-bound l.max_context_chars _ h

-- However long the history, the context for the model has at most the configured number of characters.
pub load_resume_context-bound :
    (l : Limits) (agent_id phone : Text) (rows : List Row)
    → 0 < l.max_context_chars
    → length (load_resume_context l agent_id phone rows).context_text ≤ l.max_context_chars
unfolding load_resume_context
load_resume_context-bound l agent_id phone rows h =
    elim (Bool-cases (is_empty (normalize_phone phone))) [
      | inl e ↦ rw e (omega arith)
      | inr e ↦ rw e (found-bound l _ _ _ h)
    ]
