-- ===== src/Engagement/Book.antt =====
-- What the policy of latency_lab/engagement.py promises of requests: a book that knows of each operation
-- only its call, whether it has ended and whether its outcome is unknown.
use sales_girl_voice_agent.Common.{
  ℕ, ◌≡◌, refl, Bool, true, false, ◌||◌, not, Option, none, some, List, [], ◌∷◌, arith, length, map,
  ap, ◌==◌, if◌then◌else◌, Bool-cases, inl, inr,
}
use sales_girl_voice_agent.Engagement.State.{
  ToolCall, Operation, Engagement, find, is_pending, current,
}
use sales_girl_voice_agent.Engagement.Tools.{is_unknown, has_unknown, change, names, outcome}
use sales_girl_voice_agent.Engagement.Events.{
  Event, tool, tool_done, tool_cancelled, registers, releases, released,
}

pub record Entry : Type 0 where
  pub id : ℕ
  pub call : ToolCall
  pub done : Bool
  pub unknown : Bool

pub record Book : Type 0 where
  pub enabled : Bool
  pub entries : List Entry
  pub current : Option ℕ

abbrev pub entry_of : Operation → Entry
entry_of o = record { id = o.id; call = o.call; done = o.done; unknown = is_unknown o.result }

-- The abstract view of the policy's state.
abbrev pub view : Engagement → Book
view e = record { enabled = e.enabled; entries = map entry_of e.operations; current = e.operation }

abbrev pub find_entry : ℕ → List Entry → Option Entry
find_entry k [] = none
find_entry k (n ∷ ns) = if k == n.id then some n else find_entry k ns

abbrev pub is_open : Option Entry → Bool
is_open none = false
is_open (some n) = not n.done

abbrev pub is_blocked : Option Entry → Bool
is_blocked none = false
is_blocked (some n) = n.unknown || not n.done

abbrev pub current_entry : Book → Option Entry
current_entry b = elim b.current [ none ↦ none | some k ↦ find_entry k b.entries ]

abbrev pub new_entry : ToolCall → List Entry → List Entry
new_entry call ns = record { id = length ns; call = call; done = false; unknown = false } ∷ ns

abbrev pub open_entry : ToolCall → Book → Book
open_entry call b = record b {
  entries = new_entry call b.entries;
  current = some (length b.entries);
}

abbrev pub change_entry : (Entry → Entry) → ℕ → List Entry → List Entry
change_entry f k [] = []
change_entry f k (n ∷ ns) = if k == n.id then f n ∷ ns else n ∷ change_entry f k ns

abbrev pub settle : (Entry → Entry) → ℕ → Book → Book
settle f k b =
    if is_open (find_entry k b.entries)
    then record b { entries = change_entry f k b.entries }
    else b

abbrev pub ended : Entry → Entry
ended n = record n { done = true }

abbrev pub ended_with : Bool → Entry → Entry
ended_with u n = record n { done = true; unknown = u }

unfoldable pub book_step : Event → Book → Book
book_step (tool attempt call now) b =
    if not b.enabled || is_blocked (current_entry b) then b else open_entry call b
book_step (tool_done k r now) b = settle (ended_with (is_unknown (some (outcome r)))) k b
book_step (tool_cancelled k now) b = settle ended k b
book_step (released k) b = settle ended k b
book_step (registers call attempt now) b =
    if b.enabled then open_entry call b else record b { entries = new_entry call b.entries }
book_step (releases k now) b = record b { current = if names b.current k then none else b.current }
book_step _ b = b

pub find-entries :
    (k : ℕ) (os : List Operation)
    → (is_open (find_entry k (map entry_of os)) ≡ is_pending (find k os))
      × (is_blocked (find_entry k (map entry_of os))
          ≡ (has_unknown (find k os) || is_pending (find k os)))
find-entries k [] = (refl, refl)
find-entries k (o ∷ os) = elim (Bool-cases (k == o.id)) [
  | inl e ↦ rw e (refl, refl)
  | inr e ↦ rw e (find-entries k os)
]

pub length-map : (os : List Operation) → length (map entry_of os) ≡ length os
length-map [] = refl
length-map (o ∷ os) = omega (arith, length-map os)

-- A change of operations that their entries show as `g`.
pub change-entries :
    (f : Operation → Operation) (g : Entry → Entry) (k : ℕ) (os : List Operation)
    → ((o : Operation) → entry_of (f o) ≡ g (entry_of o))
    → map entry_of (change f k os) ≡ change_entry g k (map entry_of os)
change-entries f g k [] h = refl
change-entries f g k (o ∷ os) h = elim (Bool-cases (k == o.id)) [
  | inl e ↦ rw e (ap (λ n. n ∷ map entry_of os) (h o))
  | inr e ↦ rw e (ap (λ ns. entry_of o ∷ ns) (change-entries f g k os h))
]

pub same-entries :
    (f : Operation → Operation) (k : ℕ) (os : List Operation)
    → ((o : Operation) → entry_of (f o) ≡ entry_of o)
    → map entry_of (change f k os) ≡ map entry_of os
same-entries f k [] h = refl
same-entries f k (o ∷ os) h = elim (Bool-cases (k == o.id)) [
  | inl e ↦ rw e (ap (λ n. n ∷ map entry_of os) (h o))
  | inr e ↦ rw e (ap (λ ns. entry_of o ∷ ns) (same-entries f k os h))
]

pub current-entries :
    (e : Engagement)
    → is_blocked (current_entry (view e)) ≡ (has_unknown (current e) || is_pending (current e))
current-entries e = go e.operation refl
  where
    go :
        (o : Option ℕ)
        → e.operation ≡ o
        → is_blocked (current_entry (view e)) ≡ (has_unknown (current e) || is_pending (current e))
    go none h = rw h refl
    go (some k) h = rw h ((find-entries k e.operations).1)

unfoldable pub book_run : List Event → Book → Book
unfolding book_step
book_run [] b = b
book_run (ev ∷ evs) b = book_run evs (book_step ev b)
