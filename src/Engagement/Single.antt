-- ===== src/Engagement/Single.antt =====
-- One request at a time (`run_tool` of latency_lab/engagement.py), over any order of events.
use sales_girl_voice_agent.Common.{
  ℕ, suc, ◌≤◌, ◌≡◌, refl, sym, Bool, true, false, ◌||◌, not, Option, none, some, List, [], ◌∷◌,
  arith, length, map, ◌∙◌, ◌⊎◌, All, ◌==◌, ==_iff, if◌then◌else◌, Bool-cases, inl, inr,
}
use sales_girl_voice_agent.Engagement.State.{Config, ToolCall, Engagement, new_engagement}
use sales_girl_voice_agent.Engagement.Tools.{is_unknown, names, outcome}
use sales_girl_voice_agent.Engagement.Events.{
  Event, run, tool, tool_done, tool_cancelled, registers, releases, released,
}
use sales_girl_voice_agent.Engagement.Book.{
  Entry, Book, entry_of, view, find_entry, is_open, is_blocked, current_entry, open_entry,
  change_entry, settle, ended, ended_with, book_step, book_run,
}
use sales_girl_voice_agent.Engagement.Refines.{run_refines}

-- The pipeline runs no tool of its own in the background.
abbrev pub IsForeground : Event → Type 0
IsForeground (registers _ _ _) = ⊥
IsForeground (releases _ _) = ⊥
IsForeground _ = Unit

-- How many operations have been sent out and not ended.
abbrev pub open_count : List Entry → ℕ
open_count [] = 0
open_count (n ∷ ns) = if n.done then open_count ns else suc (open_count ns)

abbrev pub pending_count : Engagement → ℕ
pending_count e = open_count (map entry_of e.operations)

-- Entries are numbered from the oldest on.
abbrev Numbered : List Entry → Type 0
Numbered [] = Unit
Numbered (n ∷ ns) = (n.id ≡ length ns) × Numbered ns

abbrev OnlyCurrent : Option ℕ → List Entry → Type 0
OnlyCurrent cur [] = Unit
OnlyCurrent cur (n ∷ ns) = ((n.done ≡ true) ⊎ (names cur n.id ≡ true)) × OnlyCurrent cur ns

abbrev IsSingle : Book → Type 0
IsSingle b = Numbered b.entries × OnlyCurrent b.current b.entries

-- No entry has the number `k` or a greater one.
unnamed :
    (k : ℕ) (ns : List Entry)
    → length ns ≤ k
    → Numbered ns
    → OnlyCurrent (some k) ns
    → OnlyCurrent none ns
unnamed k [] h v o = tt
unnamed k (n ∷ ns) h v (inl d, o) = (inl d, unnamed k ns (omega arith) v.1 o)
unnamed k (n ∷ ns) h v (inr e, o) = absurd (ground (arith, v.0))

settled :
    (k : ℕ) (ns : List Entry)
    → is_open (find_entry k ns) ≡ false
    → Numbered ns
    → OnlyCurrent (some k) ns
    → OnlyCurrent none ns
settled k [] h v o = tt
settled k (n ∷ ns) h v o = elim (Bool-cases (k == n.id)) [
  | inl e ↦ (inl (done_of (rw e at h)), unnamed k ns (ground (arith, v.0)) v.1 o.1)
  | inr e ↦ (inl (either o.0 e), settled k ns (rw e at h) v.1 o.1)
]
  where
    done_of : not n.done ≡ false → n.done ≡ true
    done_of x = ground arith

    either : (n.done ≡ true) ⊎ ((k == n.id) ≡ true) → (k == n.id) ≡ false → n.done ≡ true
    either (inl d) e = d
    either (inr x) e = ground arith

all_settled :
    (cur : Option ℕ) (b : Book)
    → b.current ≡ cur
    → is_blocked (current_entry b) ≡ false
    → IsSingle b
    → OnlyCurrent none b.entries
all_settled none b c h (v, o) = rw c at o
all_settled (some k) b c h (v, o) =
    settled k b.entries (closed (find_entry k b.entries) (rw c at h)) v (rw c at o)
  where
    closed : (n : Option Entry) → is_blocked n ≡ false → is_open n ≡ false
    closed none x = refl
    closed (some n) x = ground arith

still_only : (cur : Option ℕ) (ns : List Entry) → OnlyCurrent none ns → OnlyCurrent cur ns
still_only cur [] o = tt
still_only cur (n ∷ ns) (inl d, o) = (inl d, still_only cur ns o)
still_only cur (n ∷ ns) (inr x, o) = ground arith

open_entry-IsSingle :
    (call : ToolCall) (b : Book)
    → is_blocked (current_entry b) ≡ false
    → IsSingle b
    → IsSingle (open_entry call b)
open_entry-IsSingle call b h v = (
  (refl, v.0),
  (
    inr ((==_iff (length b.entries) (length b.entries)).1 refl),
    still_only (some (length b.entries)) b.entries (all_settled b.current b refl h v),
  ),
)

-- A change that ends an entry and keeps its number.
abbrev Ends : (Entry → Entry) → Type 0
Ends g = (n : Entry) → ((g n).id ≡ n.id) × ((g n).done ≡ true)

pub length-change :
    (g : Entry → Entry) (k : ℕ) (ns : List Entry) → length (change_entry g k ns) ≡ length ns
length-change g k [] = refl
length-change g k (n ∷ ns) = ground (arith, length-change g k ns)

change-Numbered :
    (g : Entry → Entry) (k : ℕ) (ns : List Entry)
    → Ends g
    → Numbered ns
    → Numbered (change_entry g k ns)
change-Numbered g k [] h v = tt
change-Numbered g k (n ∷ ns) h v = elim (Bool-cases (k == n.id)) [
  | inl e ↦ rw e ((h n).0 ∙ v.0, v.1)
  | inr e ↦ rw e (v.0 ∙ sym (length-change g k ns), change-Numbered g k ns h v.1)
]

change-OnlyCurrent :
    (g : Entry → Entry) (k : ℕ) (cur : Option ℕ) (ns : List Entry)
    → Ends g
    → OnlyCurrent cur ns
    → OnlyCurrent cur (change_entry g k ns)
change-OnlyCurrent g k cur [] h o = tt
change-OnlyCurrent g k cur (n ∷ ns) h o = elim (Bool-cases (k == n.id)) [
  | inl e ↦ rw e (inl (h n).1, o.1)
  | inr e ↦ rw e (o.0, change-OnlyCurrent g k cur ns h o.1)
]

settle-IsSingle :
    (g : Entry → Entry) (k : ℕ) (b : Book) → Ends g → IsSingle b → IsSingle (settle g k b)
settle-IsSingle g k b h v = elim (Bool-cases (is_open (find_entry k b.entries))) [
  | inl e ↦
      rw e (change-Numbered g k b.entries h v.0, change-OnlyCurrent g k b.current b.entries h v.1)
  | inr e ↦ rw e v
]

tool-IsSingle :
    (call : ToolCall) (on blocked : Bool) (b : Book)
    → is_blocked (current_entry b) ≡ blocked
    → IsSingle b
    → IsSingle (if not on || blocked then b else open_entry call b)
tool-IsSingle call false blocked b h v = v
tool-IsSingle call true true b h v = v
tool-IsSingle call true false b h v = open_entry-IsSingle call b h v

step-IsSingle : (ev : Event) (b : Book) → IsForeground ev → IsSingle b → IsSingle (book_step ev b)
unfolding book_step
step-IsSingle (tool attempt call now) b f v = tool-IsSingle call b.enabled _ b refl v
step-IsSingle (tool_done k r now) b f v =
    settle-IsSingle (ended_with (is_unknown (some (outcome r)))) k b (λ n. (refl, refl)) v
step-IsSingle (tool_cancelled k now) b f v = settle-IsSingle ended k b (λ n. (refl, refl)) v
step-IsSingle (released k) b f v = settle-IsSingle ended k b (λ n. (refl, refl)) v
step-IsSingle (registers call attempt now) b f v = absurd f
step-IsSingle (releases k now) b f v = absurd f
step-IsSingle _ b f v = v

run-IsSingle :
    (evs : List Event) (b : Book) → All IsForeground evs → IsSingle b → IsSingle (book_run evs b)
unfolding book_run
run-IsSingle [] b fs v = v
run-IsSingle (ev ∷ evs) b fs v = run-IsSingle evs (book_step ev b) fs.1 (step-IsSingle ev b fs.0 v)

nothing_open : (ns : List Entry) → OnlyCurrent none ns → open_count ns ≡ 0
nothing_open [] o = refl
nothing_open (n ∷ ns) (inl d, o) = rw d (nothing_open ns o)
nothing_open (n ∷ ns) (inr x, o) = ground arith

one_open : (cur : Option ℕ) (ns : List Entry) → Numbered ns → OnlyCurrent cur ns → open_count ns ≤ 1
one_open none ns v o = omega (arith, nothing_open ns o)
one_open (some k) [] v o = omega arith
one_open (some k) (n ∷ ns) v (inl d, o) = rw d (one_open (some k) ns v.1 o)
one_open (some k) (n ∷ ns) v (inr x, o) =
    ground (arith, nothing_open ns (unnamed k ns (ground (arith, v.0)) v.1 o), v.0)

-- From a new policy, over any events other than background tools of the pipeline and whatever the
-- pipeline shows of itself, at most one operation that `run_tool` sent out has not ended.
pub single_request :
    (c : Config) (enabled : Bool) (now : ℕ) (evs : List Event)
    → All IsForeground evs
    → pending_count (run c evs (new_engagement c enabled now)) ≤ 1
unfolding new_engagement
single_request c enabled now evs fs =
    few (view (run c evs start)) (book_run evs (view start)) (run_refines c evs start)
      (run-IsSingle evs (view start) fs (tt, tt))
  where
    start : Engagement
    start = new_engagement c enabled now

    few : (b b' : Book) → b ≡ b' → IsSingle b' → open_count b.entries ≤ 1
    few b b' e v = rw e (one_open b'.current b'.entries v.0 v.1)
