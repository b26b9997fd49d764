-- ===== src/Memory/Context/Whole.antt =====
-- A history that fits the budget is sent whole, in order.
use sales_girl_voice_agent.Common.{
  ℕ, ◌+◌, ◌≤◌, ◌≡◌, refl, Bool, true, false, List, [], ◌∷◌, ◌++◌, map, arith, Option, flatten, ap,
  ◌∙◌, sym, keep_if,
}
use mathlib.Core.List.{reverse, reverse-cons, map-append}
use sales_girl_voice_agent.Memory.Turns.{ConversationMemory, MemoryTurn, Message}
use sales_girl_voice_agent.Memory.Budget.{estimated_tokens}
use sales_girl_voice_agent.Memory.Groups.{groups, groups_lem, messages_of, messages_of-append}
use sales_girl_voice_agent.Memory.Context.Defs.{
  keep_groups, kept_context, context, context_budget, bounded_prefix, fits, prefix, is_other,
  newest_groups,
}

-- The estimates of all groups together.
abbrev pub total_tokens : List (List Message) → ℕ
total_tokens [] = 0
total_tokens (ms ∷ rest) = estimated_tokens ms + total_tokens rest

abbrev oldest_first : List (List Message) → List Message → List Message
oldest_first [] acc = acc
oldest_first (ms ∷ rest) acc = oldest_first rest (ms ++ acc)

keep_groups_all :
    (budget : ℕ) (gs : List (List Message)) (kept : List Message) (used : ℕ)
    → used + total_tokens gs ≤ budget
    → keep_groups budget gs (record { kept = kept; used = used })
      ≡ (record { kept = oldest_first gs kept; used = used + total_tokens gs }, false)
unfolding keep_groups
keep_groups_all budget [] kept used h = ground arith
keep_groups_all budget (ms ∷ rest) kept used h =
    ground (arith, keep_groups_all budget rest (ms ++ kept) (used + estimated_tokens ms))

oldest_first-append :
    (xs ys : List (List Message)) (acc : List Message)
    → oldest_first (xs ++ ys) acc ≡ oldest_first ys (oldest_first xs acc)
oldest_first-append [] ys acc = refl
oldest_first-append (x ∷ xs) ys acc = oldest_first-append xs ys (x ++ acc)

oldest_first-reverse :
    (r : Bool) (gs : List (List MemoryTurn))
    → oldest_first (map (messages_of r) (reverse gs)) [] ≡ messages_of r (flatten gs)
unfolding messages_of
oldest_first-reverse r [] = refl
oldest_first-reverse r (g ∷ gs) =
    ap (λ l. oldest_first (map (messages_of r) l) []) (reverse-cons g gs)
    ∙ ap (λ l. oldest_first l []) (map-append (messages_of r) (reverse gs) (g ∷ []))
    ∙ oldest_first-append (map (messages_of r) (reverse gs)) (messages_of r g ∷ []) []
    ∙ ap (λ l. messages_of r g ++ l) (oldest_first-reverse r gs)
    ∙ sym (messages_of-append r g (flatten gs))

bounded_prefix_fitting : (m : ConversationMemory) → fits m ≡ true → bounded_prefix m ≡ prefix m
bounded_prefix_fitting m ok = unfold bounded_prefix in rw ok

kept_context_whole :
    (exclude : Option ℕ) (r : Bool) (m : ConversationMemory)
    → estimated_tokens (bounded_prefix m) + 80 + total_tokens (newest_groups exclude r m)
      ≤ context_budget m
    → kept_context exclude r m ≡ (
      record {
        kept = oldest_first (newest_groups exclude r m) [];
        used = estimated_tokens (bounded_prefix m) + 80 + total_tokens (newest_groups exclude r m);
      },
      false,
    )
kept_context_whole exclude r m small =
    unfold kept_context in keep_groups_all (context_budget m) (newest_groups exclude r m) [] _ small

newest_groups_messages :
    (exclude : Option ℕ) (r : Bool) (m : ConversationMemory)
    → oldest_first (newest_groups exclude r m) []
      ≡ messages_of r (keep_if (is_other exclude) m.turns)
unfolding newest_groups
newest_groups_messages exclude r m =
    let ts = keep_if (is_other exclude) m.turns in
    oldest_first-reverse r (groups ts) ∙ ap (messages_of r) (groups_lem ts).0

-- Where the summary and all the exchanges fit the budget, the context is the summary and then every
-- message of every turn but the excluded one, oldest first, with no note on omissions.
pub context_whole_history :
    (exclude : Option ℕ) (r : Bool) (m : ConversationMemory)
    → fits m ≡ true
    → estimated_tokens (prefix m) + 80 + total_tokens (newest_groups exclude r m) ≤ context_budget m
    → context exclude r m ≡ prefix m ++ messages_of r (keep_if (is_other exclude) m.turns)
unfolding context
context_whole_history exclude r m ok small =
    let bounded = bounded_prefix_fitting m ok in
    rw (kept_context_whole exclude r m (rw bounded small), ok, bounded)
      (ap (λ l. prefix m ++ l) (newest_groups_messages exclude r m))
