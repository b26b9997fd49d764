-- ===== src/Engagement/Pinned.antt =====
-- An unknown outcome stays pinned (`run_tool` of latency_lab/engagement.py), and what unpins it.
use mathlib.Core.Option
use mathlib.Core.Path.{subst}
use sales_girl_voice_agent.Common.{
  ℕ, ◌+◌, ◌≡◌, refl, sym, Bool, true, false, ◌||◌, not, Option, none, some, List, [], ◌∷◌, arith,
  length, map, ap, ◌∙◌, All, ◌==◌, ==_iff, if◌then◌else◌, Bool-cases, inl, inr,
}
use sales_girl_voice_agent.Engagement.State.{Config, ToolCall, Operation, Engagement, find, current}
use sales_girl_voice_agent.Engagement.Tools.{
  starts, is_unknown, has_unknown, outcome, run_tool, register_operation, finish_operation,
}
use sales_girl_voice_agent.Engagement.Events.{
  Event, run, tool, tool_done, tool_cancelled, registers, releases, released,
}
use sales_girl_voice_agent.Engagement.Book.{
  Entry, Book, entry_of, view, find_entry, is_open, is_blocked, current_entry, open_entry,
  change_entry, settle, ended, ended_with, book_step, book_run, length-map,
}
use sales_girl_voice_agent.Engagement.Refines.{run_refines}
use sales_girl_voice_agent.Engagement.Single.{length-change, IsForeground, pending_count}

-- The current entry has ended with an unknown outcome.
record IsPinned (k : ℕ) (b : Book) : Type 0 where
  entry : Entry
  named : b.current ≡ some k
  found : find_entry k b.entries ≡ some entry
  done : entry.done ≡ true
  unknown : entry.unknown ≡ true

find-change :
    (g : Entry → Entry) (k j : ℕ) (ns : List Entry)
    → ((n : Entry) → (g n).id ≡ n.id)
    → (k == j) ≡ false
    → find_entry k (change_entry g j ns) ≡ find_entry k ns
find-change g k j [] h d = refl
find-change g k j (n ∷ ns) h d = elim (Bool-cases (j == n.id)) [
  | inl e ↦ let other : (k == n.id) ≡ false = ground arith in rw e (rw (h n, other) refl)
  | inr e ↦ rw e (elim (Bool-cases (k == n.id)) [
    | inl y ↦ rw y refl
    | inr z ↦ rw z (find-change g k j ns h d)
  ])
]

settle-IsPinned :
    (g : Entry → Entry) (k j : ℕ) (b : Book)
    → ((n : Entry) → (g n).id ≡ n.id)
    → IsPinned k b
    → IsPinned k (settle g j b) × (length (settle g j b).entries ≡ length b.entries)
settle-IsPinned g k j b h v = elim (Bool-cases (is_open (find_entry j b.entries))) [
  | inl e ↦ rw e (
    record {
      entry = v.entry;
      named = v.named;
      found = find-change g k j b.entries h (apart e) ∙ v.found;
      done = v.done;
      unknown = v.unknown;
    },
    length-change g j b.entries,
  )
  | inr e ↦ rw e (v, refl)
]
  where
    idem : (k == j) ≡ true → k ≡ j
    idem same = (==_iff k j).0 same

    clash : is_open (find_entry k b.entries) ≡ true → ⊥
    clash x = let y : is_open (some v.entry) ≡ true = rw v.found at x in ground (arith, v.done)

    apart : is_open (find_entry j b.entries) ≡ true → (k == j) ≡ false
    apart e = elim (Bool-cases (k == j)) [
      | inl same ↦
          absurd (clash (subst (λ i. is_open (find_entry i b.entries) ≡ true) (sym (idem same)) e))
      | inr other ↦ other
    ]

blocked-IsPinned : (k : ℕ) (b : Book) → IsPinned k b → is_blocked (current_entry b) ≡ true
blocked-IsPinned k b v = rw (v.named, v.found, v.unknown) refl

tool-IsPinned :
    (call : ToolCall) (on blocked : Bool) (k : ℕ) (b : Book)
    → blocked ≡ true
    → (if not on || blocked then b else open_entry call b) ≡ b
tool-IsPinned call false blocked k b h = refl
tool-IsPinned call true true k b h = refl
tool-IsPinned call true false k b h = ground arith

step-IsPinned :
    (ev : Event) (k : ℕ) (b : Book)
    → IsForeground ev
    → IsPinned k b
    → IsPinned k (book_step ev b) × (length (book_step ev b).entries ≡ length b.entries)
unfolding book_step
step-IsPinned (tool attempt call now) k b f v =
    rw (tool-IsPinned call b.enabled (is_blocked (current_entry b)) k b (blocked-IsPinned k b v))
      (v, refl)
step-IsPinned (tool_done j r now) k b f v =
    settle-IsPinned (ended_with (is_unknown (some (outcome r)))) k j b (λ n. refl) v
step-IsPinned (tool_cancelled j now) k b f v = settle-IsPinned ended k j b (λ n. refl) v
step-IsPinned (released j) k b f v = settle-IsPinned ended k j b (λ n. refl) v
step-IsPinned (registers call attempt now) k b f v = absurd f
step-IsPinned (releases j now) k b f v = absurd f
step-IsPinned _ k b f v = (v, refl)

run-IsPinned :
    (evs : List Event) (k : ℕ) (b : Book)
    → All IsForeground evs
    → IsPinned k b
    → IsPinned k (book_run evs b) × (length (book_run evs b).entries ≡ length b.entries)
unfolding book_run
run-IsPinned [] k b fs v = (v, refl)
run-IsPinned (ev ∷ evs) k b fs v =
    let (v', same) = step-IsPinned ev k b fs.0 v in
    let (v'', rest) = run-IsPinned evs k (book_step ev b) fs.1 v' in (v'', rest ∙ same)

find-entry_of :
    (k : ℕ) (os : List Operation) (o : Operation)
    → find k os ≡ some o
    → find_entry k (map entry_of os) ≡ some (entry_of o)
find-entry_of k [] o h = cc
find-entry_of k (p ∷ os) o h = elim (Bool-cases (k == p.id)) [
  | inl e ↦
      let same : ◌≡◌ {A = Option Operation} (some p) (some o) = rw e at h in rw e (again p same)
  | inr e ↦ rw e (find-entry_of k os o (rw e at h))
]
  where
    again :
        (p : Operation)
        → ◌≡◌ {A = Option Operation} (some p) (some o)
        → ◌≡◌ {A = Option Entry} (some (entry_of p)) (some (entry_of o))
    again p x = ap (Option.map entry_of) x

current-IsPinned :
    (e : Engagement) (o : Operation) (cur : Option ℕ)
    → e.operation ≡ cur
    → current e ≡ some o
    → o.done ≡ true
    → has_unknown (some o) ≡ true
    → (k : ℕ) × IsPinned k (view e)
current-IsPinned e o none c h d u =
    let x : ◌≡◌ {A = Option Operation} none (some o) = rw c at h in cc
current-IsPinned e o (some k) c h d u = (
  k,
  record {
    entry = entry_of o;
    named = c;
    found = find-entry_of k e.operations o (rw c at h);
    done = d;
    unknown = u;
  },
)

abbrev is_unknown_entry : Option Entry → Bool
is_unknown_entry none = false
is_unknown_entry (some n) = n.unknown

find-unknown :
    (k : ℕ) (os : List Operation)
    → is_unknown_entry (find_entry k (map entry_of os)) ≡ has_unknown (find k os)
find-unknown k [] = refl
find-unknown k (o ∷ os) = elim (Bool-cases (k == o.id)) [
  | inl e ↦ rw e refl
  | inr e ↦ rw e (find-unknown k os)
]

still_unknown : (k : ℕ) (e : Engagement) → IsPinned k (view e) → has_unknown (current e) ≡ true
still_unknown k e v =
    let x = find-unknown k e.operations in rw v.named (sym x ∙ rw v.found v.unknown)

-- Where the current operation has ended with an unknown outcome, no events other than background tools
-- of the pipeline make `run_tool` send a request again: no operation is added, and the outcome of
-- the current one stays unknown.
pub unknown_blocks :
    (c : Config) (evs : List Event) (e : Engagement) (o : Operation)
    → All IsForeground evs
    → current e ≡ some o
    → o.done ≡ true
    → has_unknown (some o) ≡ true
    → (length (run c evs e).operations ≡ length e.operations)
      × (has_unknown (current (run c evs e)) ≡ true)
unknown_blocks c evs e o fs h d u =
    let (k, v) = current-IsPinned e o e.operation refl h d u in
    let (v', same) = run-IsPinned evs k (view e) fs v in
    (
      sym (length-map (run c evs e).operations)
          ∙ ap (λ b. length b.entries) (run_refines c evs e)
          ∙ same
          ∙ length-map e.operations,
      still_unknown k (run c evs e) (subst (IsPinned k) (sym (run_refines c evs e)) v'),
    )

-- A background tool of the pipeline, once it is registered and finished, lets the policy forget what was
-- the current operation: whatever was pending or unknown, the next tool starts a new one beside it.
pub background_forgets :
    (c : Config) (call call' : ToolCall) (attempt attempt' now now' : ℕ) (e : Engagement)
    → e.enabled ≡ true
    → let e' =
        finish_operation c (length e.operations) now (register_operation c call attempt now e) in
      ((run_tool c attempt' call' now' e').0 ≡ starts (length e'.operations))
      × (pending_count (run_tool c attempt' call' now' e').1 ≡ 2 + pending_count e)
unfolding run_tool register_operation finish_operation
background_forgets c call call' attempt attempt' now now' e h =
    let same : (length e.operations == length e.operations) ≡ true = (==_iff _ _).1 refl in
    rw (h, same) (refl, omega arith)
