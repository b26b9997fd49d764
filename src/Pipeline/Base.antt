-- ===== src/Pipeline/Base.antt =====
-- The facts that hold between the events of the pipeline's turns (latency_lab/pipeline.py), over the
-- fields that they speak of, and what keeps them.
use mathlib.Core.Path.{subst}
use sales_girl_voice_agent.Common.{
  ℕ, ◌+◌, ◌≤◌, ◌≡◌, refl, sym, ap, ◌∙◌, Bool, true, false, ◌||◌, Option, none, some, List, [], ◌∷◌,
  arith, Text, All, ◌==◌, Bool-cases, inl, inr,
}
use sales_girl_voice_agent.Pipeline.State.{
  TurnId, caller, proactive, Attempt, Effect, accepts_final, sends_chunk, Pipeline, find, change,
  emit, change_attempt,
}
use sales_girl_voice_agent.Pipeline.Voice.{or_next}

-- The final of a turn has been accepted.
abbrev pub accepted : ℕ → List Effect → Bool
accepted n [] = false
accepted n (accepts_final m text ∷ xs) = n == m || accepted n xs
accepted n (_ ∷ xs) = accepted n xs

abbrev pub Heard : TurnId → List Effect → Type 0
Heard (caller n) xs = accepted n xs ≡ true
Heard (proactive n) xs = Unit

-- What stood in the log as the effect came: a turn has one final, and only then its audio.
abbrev pub Allowed : Effect → List Effect → Type 0
Allowed (accepts_final n text) xs = accepted n xs ≡ false
Allowed (sends_chunk t a chunk) xs = Heard t xs
Allowed _ xs = Unit

abbrev pub IsOrdered : List Effect → Type 0
IsOrdered [] = Unit
IsOrdered (x ∷ xs) = Allowed x xs × IsOrdered xs

abbrev pub IsAuthorized : List Effect → Attempt → Type 0
IsAuthorized xs a = a.authorized ≡ true → Heard a.turn_id xs

abbrev pub turn_of : Option Attempt → Option TurnId
turn_of none = none
turn_of (some a) = some a.turn_id

abbrev pub current_turn : Option ℕ → List Attempt → Option TurnId
current_turn none xs = none
current_turn (some k) xs = turn_of (find k xs)

-- A reply that waits answers a caller's final.
abbrev pub IsReply : Option (Text × Option TurnId) → List Effect → Type 0
IsReply none xs = Unit
IsReply (some (text, none)) xs = ⊥
IsReply (some (text, some (caller n))) xs = accepted n xs ≡ true
IsReply (some (text, some (proactive n))) xs = ⊥

pub record Base (turn : Option TurnId) (number : ℕ) (candidate : Option ℕ) (attempts : List Attempt)
    (attempt : Option ℕ) (log : List Effect) (response : Option (Text × Option TurnId))
    : Type 0 where
  pub fresh : or_next candidate number ≡ number + 1
  pub bounded : (n : ℕ) → accepted n log ≡ true → n ≤ number
  pub ordered : IsOrdered log
  pub reply : IsReply response log
  pub authorized : All (IsAuthorized log) attempts
  pub owned : (t : TurnId) → current_turn attempt attempts ≡ some t → turn ≡ some t

abbrev pub BaseOf : Pipeline → Type 0
BaseOf p = Base p.turn_id p.turn_number p.candidate_turn_id p.attempts p.attempt p.log p.response

-- An effect that is neither a final nor audio.
abbrev pub IsPlain : Effect → Type 0
IsPlain (accepts_final n text) = ⊥
IsPlain (sends_chunk t a chunk) = ⊥
IsPlain _ = Unit

abbrev pub IsNoFinal : Effect → Type 0
IsNoFinal (accepts_final n text) = ⊥
IsNoFinal _ = Unit

pub accepted-more :
    (n : ℕ) (x : Effect) (xs : List Effect) → accepted n xs ≡ true → accepted n (x ∷ xs) ≡ true
accepted-more n (accepts_final m text) xs h = ground arith
accepted-more n _ xs h = h

pub accepted-same :
    (n : ℕ) (x : Effect) (xs : List Effect) → IsNoFinal x → accepted n (x ∷ xs) ≡ accepted n xs
accepted-same n (accepts_final m text) xs h = absurd h
accepted-same n _ xs h = refl

pub Heard-more : (t : TurnId) (x : Effect) (xs : List Effect) → Heard t xs → Heard t (x ∷ xs)
Heard-more (caller n) x xs h = accepted-more n x xs h
Heard-more (proactive n) x xs h = tt

pub IsReply-more :
    (r : Option (Text × Option TurnId)) (x : Effect) (xs : List Effect)
    → IsReply r xs
    → IsReply r (x ∷ xs)
IsReply-more none x xs h = tt
IsReply-more (some (text, none)) x xs h = absurd h
IsReply-more (some (text, some (caller n))) x xs h = accepted-more n x xs h
IsReply-more (some (text, some (proactive n))) x xs h = absurd h

pub emit-IsAuthorized :
    (x : Effect) (xs : List Effect) (ts : List Attempt)
    → All (IsAuthorized xs) ts
    → All (IsAuthorized (x ∷ xs)) ts
emit-IsAuthorized x xs [] h = tt
emit-IsAuthorized x xs (a ∷ ts) h =
    ((λ y. Heard-more a.turn_id x xs (h.0 y)), emit-IsAuthorized x xs ts h.1)

pub plain-Allowed : (x : Effect) (xs : List Effect) → IsPlain x → Allowed x xs
plain-Allowed (accepts_final n text) xs h = absurd h
plain-Allowed (sends_chunk t a chunk) xs h = absurd h
plain-Allowed _ xs h = tt

pub plain-IsNoFinal : (x : Effect) → IsPlain x → IsNoFinal x
plain-IsNoFinal (accepts_final n text) h = h
plain-IsNoFinal _ h = tt

-- A change of an attempt that keeps its name and turn and authorizes nothing.
pub record IsMild (f : Attempt → Attempt) : Type 0 where
  pub id : (a : Attempt) → (f a).id ≡ a.id
  pub turn : (a : Attempt) → (f a).turn_id ≡ a.turn_id
  pub authorizes : (a : Attempt) → (f a).authorized ≡ true → a.authorized ≡ true

pub change-turn :
    (f : Attempt → Attempt) (k j : ℕ) (ts : List Attempt)
    → ((a : Attempt) → (f a).id ≡ a.id)
    → ((a : Attempt) → (f a).turn_id ≡ a.turn_id)
    → turn_of (find k (change f j ts)) ≡ turn_of (find k ts)
change-turn f k j [] i t = refl
change-turn f k j (a ∷ ts) i t = elim (Bool-cases (j == a.id)) [
  | inl e ↦ elim (Bool-cases (k == a.id)) [
    | inl y ↦ rw (e, i a, y) (ap some (t a))
    | inr n ↦ rw (e, i a, n) refl
  ]
  | inr e ↦ elim (Bool-cases (k == a.id)) [
    | inl y ↦ rw (e, y) refl
    | inr n ↦ rw (e, n) (change-turn f k j ts i t)
  ]
]

change-IsAuthorized :
    (f : Attempt → Attempt) (k : ℕ) (xs : List Effect) (ts : List Attempt)
    → IsMild f
    → All (IsAuthorized xs) ts
    → All (IsAuthorized xs) (change f k ts)
change-IsAuthorized f k xs [] m h = tt
change-IsAuthorized f k xs (a ∷ ts) m h = elim (Bool-cases (k == a.id)) [
  | inl e ↦ rw e (λ y. subst (λ t. Heard t xs) (sym (m.turn a)) (h.0 (m.authorizes a y)), h.1)
  | inr e ↦ rw e (h.0, change-IsAuthorized f k xs ts m h.1)
]

pub emit-Base :
    (x : Effect) (p : Pipeline) → IsNoFinal x → Allowed x p.log → BaseOf p → BaseOf (emit x p)
emit-Base x p n a b = record {
  fresh = b.fresh;
  bounded = λ i h. b.bounded i (sym (accepted-same i x p.log n) ∙ h);
  ordered = (a, b.ordered);
  reply = IsReply-more p.response x p.log b.reply;
  authorized = emit-IsAuthorized x p.log p.attempts b.authorized;
  owned = b.owned;
}

pub current-change :
    (f : Attempt → Attempt) (k : ℕ) (cur : Option ℕ) (ts : List Attempt)
    → IsMild f
    → current_turn cur (change f k ts) ≡ current_turn cur ts
current-change f k none ts m = refl
current-change f k (some j) ts m = change-turn f j k ts m.id m.turn

pub change-Base :
    (f : Attempt → Attempt) (k : ℕ) (p : Pipeline)
    → IsMild f
    → BaseOf p
    → BaseOf (change_attempt f k p)
change-Base f k p m b = record {
  fresh = b.fresh;
  bounded = b.bounded;
  ordered = b.ordered;
  reply = b.reply;
  authorized = change-IsAuthorized f k p.log p.attempts m b.authorized;
  owned = λ t h. b.owned t (sym (current-change f k p.attempt p.attempts m) ∙ h);
}
