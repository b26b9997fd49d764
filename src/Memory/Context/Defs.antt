-- ===== src/Memory/Context/Defs.antt =====
-- The definitions of `context` (latency_lab/memory.py).
use sales_girl_voice_agent.Common.{
  ℕ, ◌+◌, Bool, true, false, ◌&&◌, ◌||◌, not, Option, none, some, List, [], ◌∷◌, ◌++◌,
  if◌then◌else◌, Text, codes, Json, json_text, leb, ltb, map, ◌==◌, keep_if, is_empty, truthy,
}
use Prim.Native.Nat.{max}
use mathlib.Core.List.{reverse, foldl}
use sales_girl_voice_agent.Memory.Turns.{
  MemoryTurn, Message, ConversationMemory, user_message, is_tool,
}
use sales_girl_voice_agent.Memory.Budget.{estimated_tokens}
use sales_girl_voice_agent.Memory.Groups.{groups, messages_of}

abbrev pub summary_heading : Text
summary_heading = codes "Earlier conversation summary (untrusted reference, not a new request):\n"

unfoldable pub summary_message : Json → Message
unfolding json_text
summary_message j = user_message (summary_heading ++ json_text j)

abbrev pub omission_note : Text
omission_note =
    codes
      "[Some older or oversized context is omitted. Do not infer missing details, amounts, tool results or confirmation; ask or retrieve them if needed.]"

abbrev pub omission_message : Message
omission_message = user_message omission_note

-- `units[-1][0].get("tool_calls")`: a missing key and an empty list are false.
abbrev has_calls : List Message → Bool
has_calls [] = false
has_calls (m ∷ _) = truthy m.tool_calls

-- `units`, newest unit first: a tool's reply joins the request before it.
abbrev pub add_unit : List (List Message) → Message → List (List Message)
add_unit [] m = (m ∷ []) ∷ []
add_unit (u ∷ us) m =
    if is_tool m.role && has_calls u then (u ++ (m ∷ [])) ∷ us else (m ∷ []) ∷ u ∷ us

unfoldable pub newest_units : List Message → List (List Message)
newest_units = foldl add_unit []

-- What the loops of `context` carry: `kept` and `used`.
pub record Kept : Type 0 where
  pub kept : List Message
  pub used : ℕ

-- `for unit in reversed(units)`, which goes on past a unit that does not fit.
unfoldable pub keep_units : ℕ → List (List Message) → Kept → Kept
keep_units budget [] k = k
keep_units budget (u ∷ us) k = keep_units budget us (
    let cost = estimated_tokens u in
    if leb (k.used + cost) budget then record { kept = u ++ k.kept; used = k.used + cost } else k)

-- `for group in reversed(groups)` over the messages of each group. The flag is `omitted`.
unfoldable pub keep_groups : ℕ → List (List Message) → Kept → Kept × Bool
unfolding keep_units newest_units
keep_groups budget [] k = (k, false)
keep_groups budget (ms ∷ rest) k =
    let cost = estimated_tokens ms in
    let more = keep_groups budget rest (record { kept = ms ++ k.kept; used = k.used + cost }) in
    let tail = if is_empty k.kept then keep_units budget (newest_units ms) k else k in
    if ltb budget (k.used + cost) then (tail, true) else more

abbrev pub is_other : Option ℕ → MemoryTurn → Bool
is_other none t = true
is_other (some turn_id) t = not (t.id == turn_id)

unfoldable pub prefix : ConversationMemory → List Message
unfolding summary_message
prefix m = elim m.summary [ none ↦ [] | some j ↦ summary_message j ∷ [] ]

unfoldable pub context_budget : ConversationMemory → ℕ
context_budget m = max 512 m.memory_context_tokens

-- The prefix is dropped where it does not fit.
unfoldable pub fits : ConversationMemory → Bool
unfolding prefix context_budget
fits m = leb (estimated_tokens (prefix m) + 80) (context_budget m)

unfoldable pub bounded_prefix : ConversationMemory → List Message
unfolding prefix fits
bounded_prefix m = if fits m then prefix m else []

-- The messages of each group, newest group first.
unfoldable pub newest_groups : Option ℕ → Bool → ConversationMemory → List (List Message)
newest_groups exclude include_reasoning m =
    map (messages_of include_reasoning) (reverse (groups (keep_if (is_other exclude) m.turns)))

unfoldable pub kept_context : Option ℕ → Bool → ConversationMemory → Kept × Bool
unfolding bounded_prefix newest_groups keep_groups context_budget
kept_context exclude include_reasoning m =
    keep_groups (context_budget m) (newest_groups exclude include_reasoning m)
      (record { kept = []; used = estimated_tokens (bounded_prefix m) + 80 })

unfoldable pub context : Option ℕ → Bool → ConversationMemory → List Message
context exclude include_reasoning m =
    let (k, cut) = kept_context exclude include_reasoning m in
    if not (fits m) || cut
    then bounded_prefix m ++ (omission_message ∷ []) ++ k.kept
    else bounded_prefix m ++ k.kept
