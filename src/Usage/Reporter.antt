-- ===== src/Usage/Reporter.antt =====
-- `UsageReporter` of latency_lab/usage.py. Whether the billing service took a snapshot is an argument.
use sales_girl_voice_agent.Common.{
  ℕ, ◌+◌, ◌≡◌, ◌≤◌, refl, Bool, true, false, ◌&&◌, not, Option, none, some, List, ◌∷◌, arith, Text,
  is_empty, length, ◌==◌, if◌then◌else◌, Bool-cases, inl, inr,
}
use sales_girl_voice_agent.Usage.Collector.{UsageCollector, Snapshot, snapshot}

-- `last_revision` is `none` for the code's -1. `posted` lists the snapshots that were sent, newest first.
pub record UsageReporter : Type 0 where
  pub billing_service_base_url : Text
  pub billing_service_token : Text
  pub session_id : Text
  pub running : Bool
  pub last_revision : Option ℕ
  pub posted : List Snapshot

abbrev is_configured : UsageReporter → Bool
is_configured r =
    not (is_empty r.billing_service_base_url) && not (is_empty r.billing_service_token)

abbrev pub can_post : UsageReporter → Bool
can_post r = not (is_empty r.session_id) && is_configured r

abbrev pub is_last : Option ℕ → ℕ → Bool
is_last none revision = false
is_last (some n) revision = n == revision

unfoldable pub start : UsageReporter → UsageReporter
start r = if is_configured r then record r { running = true } else r

abbrev pub sent : Bool → Snapshot → UsageReporter → UsageReporter
sent true s r = record r { posted = s ∷ r.posted; last_revision = some s.revision }
sent false s r = record r { posted = s ∷ r.posted }

unfoldable pub flush : Bool → Bool → UsageCollector → UsageReporter → UsageReporter
flush final taken c r =
    let s = snapshot final c in
    if not (can_post r)
    then r
    else if not final && is_last r.last_revision s.revision
    then r
    else sent taken s r

-- The two attempts of `close`, whose usage may grow in between.
unfoldable pub close : Bool → Bool → UsageCollector → UsageCollector → UsageReporter → UsageReporter
unfolding flush
close first second before after r =
    let r' = flush true first before (record r { running = false }) in
    let again = flush true second after r' in
    if is_last r'.last_revision (snapshot true after).revision then r' else again

is_last-some : (o : Option ℕ) (n : ℕ) → is_last o n ≡ true → o ≡ some n
is_last-some none n h = cc
is_last-some (some m) n h = ground arith

eq_refl : (n : ℕ) → (n == n) ≡ true
eq_refl n = ground arith

-- A live snapshot that the service took is not sent again while the usage stays as it is.
pub flush-flush :
    (taken : Bool) (c : UsageCollector) (r : UsageReporter)
    → flush false taken c (flush false true c r) ≡ flush false true c r
unfolding flush
flush-flush taken c r = elim (Bool-cases (can_post r)) [
  | inl e ↦ elim (Bool-cases (is_last r.last_revision (snapshot false c).revision)) [
    | inl l ↦ rw (e, l) (rw (e, l) refl)
    | inr l ↦ rw (e, l) (rw (e, eq_refl (snapshot false c).revision) refl)
  ]
  | inr e ↦ rw e (rw e refl)
]

flush-posted :
    (final taken : Bool) (c : UsageCollector) (r : UsageReporter)
    → length (flush final taken c r).posted ≤ length r.posted + 1
unfolding flush
flush-posted final taken c r = elim (Bool-cases (not (can_post r))) [
  | inl e ↦ rw e (omega arith)
  | inr e ↦ elim (Bool-cases (not final && is_last r.last_revision (snapshot final c).revision)) [
    | inl l ↦ rw (e, l) (omega arith)
    | inr l ↦ rw (e, l) (go taken)
  ]
]
  where
    go : (b : Bool) → length (sent b (snapshot final c) r).posted ≤ length r.posted + 1
    go true = omega arith
    go false = omega arith

flush-can_post :
    (taken : Bool) (c : UsageCollector) (r : UsageReporter)
    → can_post r ≡ true
    → can_post (flush true taken c r) ≡ true
unfolding flush
flush-can_post true c r h = rw h h
flush-can_post false c r h = rw h h

flush-last :
    (c : UsageCollector) (r : UsageReporter)
    → can_post r ≡ true
    → (flush true true c r).last_revision ≡ some (snapshot true c).revision
unfolding flush
flush-last c r h = rw h refl

-- A closed reporter has sent at most two snapshots more, and where the service takes the second
-- attempt, the last revision is that of the final usage.
pub close_complete :
    (first : Bool) (before after : UsageCollector) (r : UsageReporter)
    → can_post r ≡ true
    → ((close first true before after r).last_revision ≡ some (snapshot true after).revision)
      × (length (close first true before after r).posted ≤ length r.posted + 2)
unfolding close
close_complete first before after r h =
    let stopped : UsageReporter = record r { running = false } in
    let r' = flush true first before stopped in
    elim (Bool-cases (is_last r'.last_revision (snapshot true after).revision)) [
      | inl e ↦ rw e (
        is_last-some r'.last_revision (snapshot true after).revision e,
        omega (arith, flush-posted true first before stopped),
      )
      | inr e ↦ rw e (
        flush-last after r' (flush-can_post first before stopped h),
        omega (arith, flush-posted true first before stopped, flush-posted true true after r'),
      )
    ]
