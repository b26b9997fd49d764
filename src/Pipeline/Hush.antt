-- ===== src/Pipeline/Hush.antt =====
-- A cancelled attempt (latency_lab/pipeline.py): what is known of it in the store of attempts, and what
-- keeps it.
pub mod Attempts
pub mod Turns
use sales_girl_voice_agent.Common.{
  ℕ, suc, ◌+◌, ◌<◌, ◌≡◌, refl, sym, ap, ◌∙◌, Bool, true, false, ◌&&◌, ◌||◌, not, Option, none, some,
  List, [], ◌∷◌, ◌++◌, arith, Text, length, All, ◌==◌, ==_iff, if◌then◌else◌, Bool-cases, inl, inr,
  is_empty, strip, is_some,
}
use mathlib.Core.Path.{subst}
use sales_girl_voice_agent.Pipeline.State.{
  TurnId, caller, proactive, Attempt, Effect, remembers, sends_chunk, answers, finishes, tts_end,
  stop_tts, Config, Pipeline, find, change, emit, change_attempt, current,
}
use sales_girl_voice_agent.Pipeline.Attempts.{
  send_audio, commit_user, commit_attempt_text, send_all, release_held, is_caller, mark_sent,
  mark_committed, clear_held, hold, on_chunk, chunk_arrives, on_done, generation_done,
  mark_cancelled, keep_heard, on_cancel, cancel_attempt, new_attempt, add_attempt, start_attempt,
  or_text,
}
use sales_girl_voice_agent.Pipeline.Turns.{same_attempt}

-- How many chunks of an attempt have been sent.
abbrev pub chunks : ℕ → List Effect → ℕ
chunks k [] = 0
chunks k (sends_chunk t a ch ∷ xs) = if k == a then suc (chunks k xs) else chunks k xs
chunks k (_ ∷ xs) = chunks k xs

abbrev pub is_cut : Option Attempt → Bool
is_cut none = false
is_cut (some a) = a.cancelled

abbrev pub Below : ℕ → List Attempt → Type 0
Below m ts = All (λ (a : Attempt). a.id < m) ts

-- If `on`, the attempt `k` is cancelled, and `n` of its chunks have been sent. A new attempt will have
-- another name in any case.
abbrev pub Hush : Bool → ℕ → ℕ → Pipeline → Type 0
Hush on k n p =
    Below (length p.attempts) p.attempts
    × (on ≡ true → (is_cut (find k p.attempts) ≡ true) × (chunks k p.log ≡ n))

-- What is known of an attempt that was found.
abbrev pub Cut : Bool → ℕ → Attempt → Type 0
Cut on k a = on ≡ true → (k == a.id) ≡ true → a.cancelled ≡ true

length-change :
    (f : Attempt → Attempt) (j : ℕ) (ts : List Attempt) → length (change f j ts) ≡ length ts
length-change f j [] = refl
length-change f j (a ∷ ts) = ground (arith, length-change f j ts)

pub Below-suc : (m : ℕ) (ts : List Attempt) → Below m ts → Below (suc m) ts
Below-suc m [] h = tt
Below-suc m (a ∷ ts) h = (omega (arith, h.0), Below-suc m ts h.1)

Below-change :
    (f : Attempt → Attempt) (j m : ℕ) (ts : List Attempt)
    → ((a : Attempt) → (f a).id ≡ a.id)
    → Below m ts
    → Below m (change f j ts)
Below-change f j m [] i h = tt
Below-change f j m (a ∷ ts) i h = elim (Bool-cases (j == a.id)) [
  | inl e ↦ rw e (subst (λ x. x < m) (sym (i a)) h.0, h.1)
  | inr e ↦ rw e (h.0, Below-change f j m ts i h.1)
]

pub find-id : (j : ℕ) (ts : List Attempt) (a : Attempt) → find j ts ≡ some a → a.id ≡ j
find-id j [] a e = cc
find-id j (t ∷ ts) a e = elim (Bool-cases (j == t.id)) [
  | inl y ↦
      ap (λ (x : Attempt). x.id) (sym (same_attempt t a (rw y at e))) ∙ sym ((==_iff j t.id).0 y)
  | inr other ↦ find-id j ts a (rw other at e)
]

pub find-Below :
    (j m : ℕ) (ts : List Attempt) (a : Attempt) → Below m ts → find j ts ≡ some a → a.id < m
find-Below j m [] a h e = cc
find-Below j m (t ∷ ts) a h e = elim (Bool-cases (j == t.id)) [
  | inl y ↦ subst (λ (x : Attempt). x.id < m) (same_attempt t a (rw y at e)) h.0
  | inr other ↦ find-Below j m ts a h.1 (rw other at e)
]

is_cut-change :
    (f : Attempt → Attempt) (k j : ℕ) (ts : List Attempt)
    → ((a : Attempt) → (f a).id ≡ a.id)
    → ((a : Attempt) → a.cancelled ≡ true → (f a).cancelled ≡ true)
    → is_cut (find k ts) ≡ true
    → is_cut (find k (change f j ts)) ≡ true
is_cut-change f k j [] i w h = h
is_cut-change f k j (a ∷ ts) i w h = elim (Bool-cases (j == a.id)) [
  | inl e ↦ elim (Bool-cases (k == a.id)) [
    | inl y ↦ rw (e, i a, y) (w a (rw y at h))
    | inr other ↦ rw (e, i a, other) (rw other at h)
  ]
  | inr e ↦ elim (Bool-cases (k == a.id)) [
    | inl y ↦ rw (e, y) (rw y at h)
    | inr other ↦ rw (e, other) (is_cut-change f k j ts i w (rw other at h))
  ]
]

module _ (on : Bool) (k n : ℕ) where
  pub find-Cut :
      (j : ℕ) (p : Pipeline) (a : Attempt) → Hush on k n p → find j p.attempts ≡ some a → Cut on k a
  find-Cut j p a v e o y =
      let same : k ≡ j = (==_iff k a.id).0 y ∙ find-id j p.attempts a e in
      ap is_cut (sym e) ∙ ap (λ i. is_cut (find i p.attempts)) (sym same) ∙ (v.1 o).0

  pub current-Cut : (p : Pipeline) (a : Attempt) → Hush on k n p → current p ≡ some a → Cut on k a
  current-Cut p a v e = go p.attempt e
    where
      go :
          (cur : Option ℕ)
          → (elim cur as (λ _. Option Attempt) [ none ↦ none | some j ↦ find j p.attempts ])
            ≡ some a
          → Cut on k a
      go none y = cc
      go (some j) y = find-Cut j p a v y

  pub if-Hush :
      (b : Bool) (q r : Pipeline) → Hush on k n q → Hush on k n r → Hush on k n (if b then q else r)
  if-Hush true q r f g = f
  if-Hush false q r f g = g

  pub change-Hush :
      (f : Attempt → Attempt) (j : ℕ) (p : Pipeline)
      → ((a : Attempt) → (f a).id ≡ a.id)
      → ((a : Attempt) → a.cancelled ≡ true → (f a).cancelled ≡ true)
      → Hush on k n p
      → Hush on k n (change_attempt f j p)
  change-Hush f j p i w v = (
    subst (λ m. Below m (change f j p.attempts)) (sym (length-change f j p.attempts))
        (Below-change f j (length p.attempts) p.attempts i v.0),
    λ o. (is_cut-change f k j p.attempts i w (v.1 o).0, (v.1 o).1),
  )
