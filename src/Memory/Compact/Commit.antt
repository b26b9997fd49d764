-- ===== src/Memory/Compact/Commit.antt =====
-- What a reply of the model can do to the memory, whatever was called in between.
use sales_girl_voice_agent.Common.{
  ◌+◌, ◌≤◌, ◌<◌, ◌≡◌, refl, Bool, true, false, Option, none, some, List, [], ◌∷◌, ◌++◌, map, arith,
  length, take, drop, Json, ap, sym, ◌∙◌, take-append_le, Bool-cases, inl, inr, ◌⊎◌, any, ◌&&◌,
}
use mathlib.Core.Bool.{decide_iff}
use sales_girl_voice_agent.Memory.Compact.Recent.{begin_compact-keeps_recent, begin_compact-count}
use sales_girl_voice_agent.Memory.Turns.{ConversationMemory, MemoryTurn}
use sales_girl_voice_agent.Memory.Groups.{messages_of}
use sales_girl_voice_agent.Memory.Calls.{Call, clear_call, run_call, run_calls}
use sales_girl_voice_agent.Memory.Compact.Defs.{
  Compaction, begin_compact, finish_compact, valid_summary, unchanged, Ids-discrete,
  Messages-discrete, summarized,
}

-- What a compaction that reports success has done.
pub record Commits (c : Compaction) (summary : Json) (m m' : ConversationMemory) : Type 0 where
  pub is_summary : valid_summary summary ≡ true
  pub installed : m'.summary ≡ some summary
  pub same_epoch : m.epoch ≡ c.epoch
  pub as_snapshot : messages_of false (take (length c.turn_ids) m.turns) ≡ c.snapshot
  pub same_ids : map (λ (t : MemoryTurn). t.id) (take (length c.turn_ids) m.turns) ≡ c.turn_ids
  pub removed : m'.turns ≡ drop (length c.turn_ids) m.turns

unchanged→ :
    (c : Compaction) (m : ConversationMemory)
    → unchanged c m ≡ true
    → (m.epoch ≡ c.epoch)
      × (map (λ (t : MemoryTurn). t.id) (take (length c.turn_ids) m.turns) ≡ c.turn_ids)
      × (messages_of false (take (length c.turn_ids) m.turns) ≡ c.snapshot)
unfolding unchanged
unchanged→ c m h = (
  ground arith,
  (decide_iff (Ids-discrete _ _)).0 (ground arith),
  (decide_iff (Messages-discrete _ _)).0 (ground arith),
)

-- A compaction either reports success and has replaced exactly the summarized turns, which still are
-- what was sent to the model, by a valid summary; or it reports failure and changes nothing.
pub finish_compact_lem :
    (c : Compaction) (reply : Option Json) (m : ConversationMemory)
    → ((s : Json) × (reply ≡ some s)
        × ((finish_compact c reply m).1 ≡ true)
        × Commits c s m (finish_compact c reply m).0)
      ⊎ (finish_compact c reply m ≡ (m, false))
unfolding finish_compact
finish_compact_lem c none m = inr refl
finish_compact_lem c (some s) m = elim (Bool-cases (valid_summary s && unchanged c m)) [
  | inl e ↦
      let valid : valid_summary s ≡ true = ground arith in
      let (epoch, turn_ids, snapshot) = unchanged→ c m (ground arith) in
      rw e (
        inl (
          s,
          refl,
          refl,
          record {
            is_summary = valid;
            installed = refl;
            same_epoch = epoch;
            as_snapshot = snapshot;
            same_ids = turn_ids;
            removed = refl;
          },
        ))
  | inr e ↦ inr (rw e)
]

begin_compact-fields :
    (m : ConversationMemory) (c : Compaction)
    → begin_compact m ≡ some c
    → (c.epoch ≡ m.epoch)
      × (c.snapshot ≡ messages_of false (summarized m))
      × (c.turn_ids ≡ map (λ (t : MemoryTurn). t.id) (summarized m))
unfolding begin_compact
begin_compact-fields m c h = ground arith

module _ (m m' : ConversationMemory) (c : Compaction) (s : Json) (later : List MemoryTurn)
    (started : begin_compact m ≡ some c) (valid : valid_summary s ≡ true)
    (appended : m'.turns ≡ m.turns ++ later) (same_epoch : m'.epoch ≡ m.epoch) where
  still_there : take (length c.turn_ids) m'.turns ≡ summarized m
  still_there =
      let (front, _, _) = begin_compact-keeps_recent m c started in
      ap (take (length c.turn_ids)) appended
      ∙ take-append_le (length c.turn_ids) m.turns later (begin_compact-count m c started)
      ∙ front

  is_unchanged : unchanged c m' ≡ true
  is_unchanged =
      unfold unchanged in
      let (e, snap, turn_ids) = begin_compact-fields m c started in
      let ids_ok =
        (decide_iff (Ids-discrete _ _)).1
          (ap (map (λ (t : MemoryTurn). t.id)) still_there ∙ sym turn_ids) in
      let messages_ok =
        (decide_iff (Messages-discrete _ _)).1 (ap (messages_of false) still_there ∙ sym snap) in
      rw (ids_ok, messages_ok) (ground arith)

  -- A valid summary of turns that are still there is installed, also where the conversation has gone
  -- on meanwhile, as long as the memory was not cleared: the summarized turns are removed, and all
  -- later ones stay.
  pub finish_compact_success :
      finish_compact c (some s) m'
      ≡ (record m' { summary = some s; turns = drop (length c.turn_ids) m'.turns }, true)
  finish_compact_success = unfold finish_compact in rw (valid, is_unchanged) refl

epoch-run_call : (x : Call) (m : ConversationMemory) → m.epoch ≤ (run_call x m).0.epoch
unfolding run_call
epoch-run_call x m = ground arith

epoch-run_calls : (xs : List Call) (m : ConversationMemory) → m.epoch ≤ (run_calls xs m).0.epoch
unfolding run_calls
epoch-run_calls [] m = omega arith
epoch-run_calls (x ∷ xs) m = omega (arith, epoch-run_call x m, epoch-run_calls xs (run_call x m).0)

abbrev pub is_clear : Call → Bool
is_clear clear_call = true
is_clear _ = false

epoch-clear :
    (x : Call) (m : ConversationMemory) → is_clear x ≡ true → (run_call x m).0.epoch ≡ m.epoch + 1
unfolding run_call
epoch-clear x m h = ground arith

epoch-run_calls_clear :
    (xs : List Call) (m : ConversationMemory)
    → any is_clear xs ≡ true
    → m.epoch < (run_calls xs m).0.epoch
unfolding run_calls
epoch-run_calls_clear [] m h = cc
epoch-run_calls_clear (x ∷ xs) m h = elim (Bool-cases (is_clear x)) [
  | inl e ↦ omega (arith, epoch-clear x m e, epoch-run_calls xs (run_call x m).0)
  | inr e ↦ omega (arith, epoch-run_call x m, epoch-run_calls_clear xs (run_call x m).0 (rw e at h))
]

-- A call that clears the memory while the model summarizes makes the reply worthless: the summary
-- of the cleared conversation is not installed, whatever it is.
pub finish_compact-clear :
    (m : ConversationMemory) (c : Compaction) (xs : List Call) (reply : Option Json)
    → begin_compact m ≡ some c
    → any is_clear xs ≡ true
    → finish_compact c reply (run_calls xs m).0 ≡ ((run_calls xs m).0, false)
finish_compact-clear m c xs reply started cleared =
    elim (finish_compact_lem c reply (run_calls xs m).0) [
      | inl (s, _, _, done) ↦ absurd (
          omega (
            arith,
            done.same_epoch,
            (begin_compact-fields m c started).0,
            epoch-run_calls_clear xs m cleared,
          ))
      | inr same ↦ same
    ]
