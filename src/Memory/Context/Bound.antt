-- ===== src/Memory/Context/Bound.antt =====
-- The context never outgrows its budget.
use sales_girl_voice_agent.Common.{
  ℕ, ◌+◌, ◌≤◌, Bool, true, false, inl, inr, List, [], ◌∷◌, ◌++◌, arith, ltb, Bool-cases,
  if◌then◌else◌, Option, tests, is_empty,
}
use sales_girl_voice_agent.Memory.Turns.{ConversationMemory, Message}
use sales_girl_voice_agent.Memory.Budget.{
  estimated_tokens, estimated_tokens-append, estimated_tokens-nil,
}
use sales_girl_voice_agent.Memory.Context.Defs.{
  Kept, keep_units, keep_groups, newest_units, kept_context, context, newest_groups, context_budget,
  bounded_prefix, omission_message,
}

-- `used` covers the estimate of `base` and of what is kept, and stays in the budget.
abbrev Covers : ℕ → ℕ → Kept → Type 0
Covers base budget k = (base + estimated_tokens k.kept ≤ k.used + 1) × (k.used ≤ budget)

keep_units-Covers :
    (base budget : ℕ) (us : List (List Message)) (k : Kept)
    → Covers base budget k
    → Covers base budget (keep_units budget us k)
unfolding keep_units
keep_units-Covers base budget [] k h = h
keep_units-Covers base budget (u ∷ us) k h =
    keep_units-Covers base budget us _ (ground (arith, estimated_tokens-append u k.kept))

keep_groups-Covers :
    (base budget : ℕ) (gs : List (List Message)) (k : Kept)
    → Covers base budget k
    → Covers base budget (keep_groups budget gs k).0
unfolding keep_groups
keep_groups-Covers base budget [] k h = h
keep_groups-Covers base budget (ms ∷ rest) k h =
    elim (Bool-cases (ltb budget (k.used + estimated_tokens ms))) [
      | inl over ↦ elim (Bool-cases (is_empty k.kept)) [
        | inl first ↦ rw (over, first) (keep_units-Covers base budget (newest_units ms) k h)
        | inr later ↦ rw (over, later) h
      ]
      | inr fine ↦ rw fine (
          keep_groups-Covers base budget rest
            (record { kept = ms ++ k.kept; used = k.used + estimated_tokens ms })
            (omega (tests, estimated_tokens-append ms k.kept)))
    ]

estimated_tokens-omission : estimated_tokens (omission_message ∷ []) ≤ 79
unfolding estimated_tokens
estimated_tokens-omission = omega arith

bounded_prefix_fits :
    (m : ConversationMemory) → estimated_tokens (bounded_prefix m) + 80 ≤ context_budget m
unfolding bounded_prefix context_budget
bounded_prefix_fits m = ground (arith, estimated_tokens-nil)

assembled_fits :
    (cut : Bool) (p n kept : List Message) (budget : ℕ)
    → estimated_tokens n ≤ 79
    → estimated_tokens p + 80 + estimated_tokens kept ≤ budget + 1
    → estimated_tokens (if cut then p ++ n ++ kept else p ++ kept) ≤ budget
assembled_fits true p n kept budget small h =
    omega (arith, estimated_tokens-append (p ++ n) kept, estimated_tokens-append p n)
assembled_fits false p n kept budget small h = omega (arith, estimated_tokens-append p kept)

kept_context-Covers :
    (exclude : Option ℕ) (r : Bool) (m : ConversationMemory)
    → Covers
        (estimated_tokens (bounded_prefix m) + 80)
        (context_budget m)
        (kept_context exclude r m).0
unfolding kept_context
kept_context-Covers exclude r m =
    keep_groups-Covers _ (context_budget m) (newest_groups exclude r m) _
      (omega (arith, estimated_tokens-nil, bounded_prefix_fits m))

-- Whatever the memory holds, the estimate of the context that is sent stays within
-- `max(512, memory_context_tokens)`, the summary and the note on omissions included.
pub context_within_budget :
    (exclude : Option ℕ) (include_reasoning : Bool) (m : ConversationMemory)
    → estimated_tokens (context exclude include_reasoning m) ≤ context_budget m
unfolding context
context_within_budget exclude include_reasoning m =
    let covered = kept_context-Covers exclude include_reasoning m in
    assembled_fits _ (bounded_prefix m) (omission_message ∷ []) _ (context_budget m)
      estimated_tokens-omission (omega (arith, covered.0, covered.1))

-- What the loop keeps where every group fits: all the messages, oldest first.
