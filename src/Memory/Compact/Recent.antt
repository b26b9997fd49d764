-- ===== src/Memory/Compact/Recent.antt =====
-- What is sent to be summarized: whole exchanges from the start, and never the recent ones.
use sales_girl_voice_agent.Common.{
  ℕ, zero, suc, ◌+◌, ◌-◌, ◌≤◌, ◌≡◌, refl, true, false, some, List, [], ◌∷◌, ◌++◌, map, arith,
  length, take, drop, flatten, Bool-cases, inl, inr, ap, sym, ◌∙◌, append_assoc, append-nil, ltb,
  if◌then◌else◌, tests, take-append-drop, length-append, length-drop, ltb→lt, take-take,
  length-take_le, drop-append, take-append, ◌⊎◌, is_empty,
}
use mathlib.Core.Path.{subst}
use sales_girl_voice_agent.Memory.Turns.{ConversationMemory, MemoryTurn}
use sales_girl_voice_agent.Memory.Budget.{estimated_tokens}
use sales_girl_voice_agent.Memory.Groups.{
  settled, groups, groups_from, groups_lem, messages_of, is_exchange, none_settled,
  none_settled-append, AreExchanges,
}
use sales_girl_voice_agent.Memory.Compact.Defs.{
  Compaction, begin_compact, eligible, bounded_turns, summarized, keep_exchanges,
}

groups_from-exchange :
    (pending g ts : List MemoryTurn)
    → none_settled pending ≡ true
    → is_exchange g ≡ true
    → groups_from pending (g ++ ts) ≡ (pending ++ g) ∷ groups_from [] ts
unfolding groups_from
groups_from-exchange pending [] ts n e = cc
groups_from-exchange pending (t ∷ []) ts n e = rw e
groups_from-exchange pending (t ∷ u ∷ us) ts n e =
    let unsettled : settled t ≡ false = ground arith in
    rw unsettled (
      groups_from-exchange (pending ++ (t ∷ [])) (u ∷ us) ts
        (none_settled-append pending t n unsettled) (ground arith)
      ∙ ap (λ g. g ∷ groups_from [] ts) (append_assoc pending (t ∷ []) (u ∷ us)))

groups_from-open :
    (pending g : List MemoryTurn)
    → none_settled pending ≡ true
    → none_settled g ≡ true
    → groups_from pending g ≡ (if is_empty (pending ++ g) then [] else (pending ++ g) ∷ [])
unfolding groups_from
groups_from-open pending [] n e = rw append-nil
groups_from-open pending (t ∷ ts) n e =
    let unsettled : settled t ≡ false = ground arith in
    rw unsettled (
      groups_from-open (pending ++ (t ∷ [])) ts (none_settled-append pending t n unsettled)
        (ground arith)
      ∙ ap (λ g. if is_empty g then [] else g ∷ []) (append_assoc pending (t ∷ []) ts))

-- Grouping whole exchanges again gives them back.
pub groups-flatten : (gs : List (List MemoryTurn)) → AreExchanges gs → groups (flatten gs) ≡ gs
unfolding groups
groups-flatten [] h = unfold groups_from in refl
groups-flatten (g ∷ []) h = elim (Bool-cases (is_exchange g)) [
  | inl e ↦ groups_from-exchange [] g [] refl e ∙ unfold groups_from in refl
  | inr e ↦ rw append-nil (
      groups_from-open [] g refl (ground arith)
      ∙ rw (let filled : is_empty g ≡ false = ground arith in filled) refl)
]
groups-flatten (g ∷ h ∷ gs) w =
    groups_from-exchange [] g (flatten (h ∷ gs)) refl w.0
    ∙ ap (λ l. g ∷ l) (groups-flatten (h ∷ gs) w.1)

AreExchanges-drop :
    (n : ℕ) (gs : List (List MemoryTurn)) → AreExchanges gs → AreExchanges (drop n gs)
AreExchanges-drop zero gs h = h
AreExchanges-drop (suc n) [] h = tt
AreExchanges-drop (suc n) (g ∷ []) h = AreExchanges-drop n [] tt
AreExchanges-drop (suc n) (g ∷ h ∷ gs) w = AreExchanges-drop n (h ∷ gs) w.1

AreExchanges-take :
    (n : ℕ) (gs : List (List MemoryTurn)) → AreExchanges gs → AreExchanges (take n gs)
AreExchanges-take zero gs h = tt
AreExchanges-take (suc n) [] h = tt
AreExchanges-take (suc zero) (g ∷ []) h = h
AreExchanges-take (suc (suc n)) (g ∷ []) h = h
AreExchanges-take (suc zero) (g ∷ h ∷ gs) w = rw w.0
AreExchanges-take (suc (suc n)) (g ∷ h ∷ gs) w = (w.0, AreExchanges-take (suc n) (h ∷ gs) w.1)

-- The loop takes whole groups from the start.
bounded_turns_lem :
    (limit : ℕ) (gs : List (List MemoryTurn)) (prefix : List MemoryTurn)
    → (j : ℕ) × (j ≤ length gs) × (bounded_turns limit gs prefix ≡ prefix ++ flatten (take j gs))
unfolding bounded_turns
bounded_turns_lem limit [] prefix = (0, omega arith, rw append-nil)
bounded_turns_lem limit (g ∷ gs) prefix =
    elim (Bool-cases (ltb limit (estimated_tokens (messages_of false (prefix ++ g))))) [
      | inl over ↦ (0, omega arith, rw (over, append-nil))
      | inr fine ↦
          let (j, le, e) = bounded_turns_lem limit gs (prefix ++ g) in
          (suc j, omega arith, rw fine (e ∙ append_assoc prefix g (flatten (take j gs))))
    ]

flatten-append : (gs hs : List (List MemoryTurn)) → flatten (gs ++ hs) ≡ flatten gs ++ flatten hs
flatten-append [] hs = refl
flatten-append (g ∷ gs) hs =
    ap (λ l. g ++ l) (flatten-append gs hs) ∙ sym (append_assoc g (flatten gs) (flatten hs))

length-map_ids : (ts : List MemoryTurn) → length (map (λ (t : MemoryTurn). t.id) ts) ≡ length ts
length-map_ids [] = refl
length-map_ids (t ∷ ts) = ap suc (length-map_ids ts)

eligible_lem :
    (m : ConversationMemory)
    → (k : ℕ) × (eligible m ≡ flatten (take k (groups m.turns)))
      × ((k ≡ 0) ⊎ (k + keep_exchanges m ≤ length (groups m.turns)))
unfolding eligible
eligible_lem m = elim (Bool-cases (ltb (keep_exchanges m) (length (groups m.turns)))) [
  | inl long ↦
      (length (groups m.turns) - keep_exchanges m, rw long, inr (omega (tests, ltb→lt _ _ long)))
  | inr short ↦ (0, rw short, inl refl)
]

-- The turns to summarize are the first `j` groups, and there are none or the newest `keep` are left.
summarized_lem :
    (m : ConversationMemory)
    → (j : ℕ) × (summarized m ≡ flatten (take j (groups m.turns)))
      × ((j ≡ 0) ⊎ (j + keep_exchanges m ≤ length (groups m.turns)))
unfolding summarized
summarized_lem m =
    let (k, whole, room) = eligible_lem m in
    let shape = AreExchanges-take k (groups m.turns) (groups_lem m.turns).1 in
    let grouped = ap groups whole ∙ groups-flatten (take k (groups m.turns)) shape in
    let (j, le, e) = bounded_turns_lem m.memory_context_tokens (groups (eligible m)) [] in
    let le' : j ≤ length (take k (groups m.turns)) = subst (λ g. j ≤ length g) grouped le in
    (
      j,
      e ∙ ap (λ g. flatten (take j g)) grouped ∙ ap flatten (take-take j k (groups m.turns) le'),
      elim room [
        | inl none_left ↦ inl (omega (arith, length-take_le k (groups m.turns)))
        | inr left ↦ inr (omega (arith, length-take_le k (groups m.turns)))
      ],
    )

begin_compact-summarized :
    (m : ConversationMemory) (c : Compaction)
    → begin_compact m ≡ some c
    → (length c.turn_ids ≡ length (summarized m)) × (is_empty (summarized m) ≡ false)
unfolding begin_compact
begin_compact-summarized m c h = ground (arith, length-map_ids (summarized m))

turns-split :
    (m : ConversationMemory) (j : ℕ)
    → summarized m ≡ flatten (take j (groups m.turns))
    → m.turns ≡ summarized m ++ flatten (drop j (groups m.turns))
turns-split m j e =
    let gs = groups m.turns in
    sym (groups_lem m.turns).0
    ∙ ap flatten (sym (take-append-drop j gs))
    ∙ flatten-append (take j gs) (drop j gs)
    ∙ ap (λ l. l ++ flatten (drop j gs)) (sym e)

summarized-filled :
    (m : ConversationMemory) (j : ℕ)
    → summarized m ≡ flatten (take j (groups m.turns))
    → is_empty (summarized m) ≡ false
    → j ≡ 0
    → ⊥
summarized-filled m zero e filled z = let e' = ap is_empty e in cc
summarized-filled m (suc j) e filled z = omega arith

-- The turns that a compaction may remove are whole exchanges, the oldest ones: the rest of the turns
-- groups as before, and holds at least `max(2, memory_recent_exchanges)` exchanges.
pub begin_compact-keeps_recent :
    (m : ConversationMemory) (c : Compaction)
    → begin_compact m ≡ some c
    → let rest = drop (length c.turn_ids) m.turns in
      (take (length c.turn_ids) m.turns ≡ summarized m)
      × (groups m.turns ≡ groups (summarized m) ++ groups rest)
      × (keep_exchanges m ≤ length (groups rest))
begin_compact-keeps_recent m c h =
    let (j, e, room) = summarized_lem m in
    let (count, filled) = begin_compact-summarized m c h in
    let split = turns-split m j e in
    let gs = groups m.turns in
    let rest =
      ap (λ n. drop n m.turns) count
      ∙ ap (drop (length (summarized m))) split
      ∙ drop-append (summarized m) (flatten (drop j gs)) in
    let newer =
      ap groups rest ∙ groups-flatten (drop j gs) (AreExchanges-drop j gs (groups_lem m.turns).1) in
    let older =
      ap groups e ∙ groups-flatten (take j gs) (AreExchanges-take j gs (groups_lem m.turns).1) in
    (
      ap (λ n. take n m.turns) count
          ∙ ap (take (length (summarized m))) split
          ∙ take-append (summarized m) (flatten (drop j gs)),
      rw (newer, older) (sym (take-append-drop j gs)),
      rw newer (elim room [
        | inl none_left ↦ absurd (summarized-filled m j e filled none_left)
        | inr left ↦ omega (arith, length-drop j gs)
      ]),
    )

pub begin_compact-count :
    (m : ConversationMemory) (c : Compaction)
    → begin_compact m ≡ some c
    → length c.turn_ids ≤ length m.turns
begin_compact-count m c h =
    let (j, e, _) = summarized_lem m in
    let split = ap length (turns-split m j e) in
    omega (
      arith,
      (begin_compact-summarized m c h).0,
      split,
      length-append (summarized m) (flatten (drop j (groups m.turns))),
    )
