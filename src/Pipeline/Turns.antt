-- ===== src/Pipeline/Turns.antt =====
-- Opening, cancelling and answering turns (latency_lab/pipeline.py) keep what holds between the events.
use mathlib.Core.Path.{subst}
use sales_girl_voice_agent.Common.{
  ℕ, ◌+◌, ◌≤◌, ◌≡◌, refl, sym, ap, ◌∙◌, Bool, true, false, Option, none, some, List, [], ◌∷◌, arith,
  Text, length, All, ◌==◌, ==_iff, if◌then◌else◌, Bool-cases, inl, inr, strip, is_some,
}
use sales_girl_voice_agent.Engagement.State.{PipeState, idle, speaking, speculating, awaiting_final}
use sales_girl_voice_agent.Pipeline.State.{
  TurnId, caller, proactive, Attempt, Effect, remembers, answers, finishes, stop_tts, Pipeline,
  find, emit, change_attempt, current,
}
use sales_girl_voice_agent.Pipeline.Attempts.{
  send_audio, chunk_arrives, on_chunk, hold, mark_cancelled, keep_heard, on_cancel, cancel_attempt,
  or_turn, new_attempt, add_attempt, start_attempt, or_text,
}
use sales_girl_voice_agent.Pipeline.Voice.{or_next}
use sales_girl_voice_agent.Pipeline.Base.{accepted, Heard, Base, BaseOf, IsAuthorized, current_turn}
use sales_girl_voice_agent.Pipeline.Quiet.{
  Quiet, still, then_quiet, if-Quiet, if_then-Quiet, emit-Quiet, change-Quiet, mild,
  send_audio-Quiet,
}

abbrev pub is_resting : PipeState → Bool
is_resting idle = true
is_resting _ = false

abbrev pub is_listening : PipeState → Bool
is_listening speaking = true
is_listening speculating = true
is_listening awaiting_final = true
is_listening _ = false

-- At rest no attempt is current.
abbrev pub Rests : PipeState → Option ℕ → List Attempt → Type 0
Rests s cur ts = is_resting s ≡ true → current_turn cur ts ≡ none

-- The turn that is listened to is the newest, and its final has not come.
abbrev pub Listens : PipeState → Option TurnId → ℕ → List Effect → Type 0
Listens s turn n xs = is_listening s ≡ true → (turn ≡ some (caller n)) × (accepted n xs ≡ false)

abbrev pub Inv : Pipeline → Type 0
Inv p =
    BaseOf p × Rests p.state p.attempt p.attempts × Listens p.state p.turn_id p.turn_number p.log

pub Quiet-Inv : (p p' : Pipeline) → Quiet p p' → Inv p → Inv p'
Quiet-Inv p p' q (b, r, l) = (
  q.base b,
  λ h. q.current ∙ r (sym (ap is_resting q.state) ∙ h),
  λ h.
      let (t, n) = l (sym (ap is_listening q.state) ∙ h) in
      (
        q.turn ∙ t ∙ ap (λ i. some (caller i)) (sym q.number),
        ap (λ i. accepted i p'.log) q.number ∙ q.heard p.turn_number ∙ n,
      ),
)

pub same_attempt : (a b : Attempt) → ◌≡◌ {A = Option Attempt} (some a) (some b) → a ≡ b
same_attempt a b h = ap or_a h
  where
    or_a : Option Attempt → Attempt
    or_a none = a
    or_a (some x) = x

find-IsAuthorized :
    (k : ℕ) (xs : List Effect) (ts : List Attempt) (a : Attempt)
    → All (IsAuthorized xs) ts
    → find k ts ≡ some a
    → IsAuthorized xs a
find-IsAuthorized k xs [] a h e = cc
find-IsAuthorized k xs (t ∷ ts) a h e = elim (Bool-cases (k == t.id)) [
  | inl y ↦ subst (IsAuthorized xs) (same_attempt t a (rw y at e)) h.0
  | inr n ↦ find-IsAuthorized k xs ts a h.1 (rw n at e)
]

pub chunk_arrives-Inv : (k chunk : ℕ) (p : Pipeline) → Inv p → Inv (chunk_arrives k chunk p)
unfolding chunk_arrives
chunk_arrives-Inv k chunk p v = go (find k p.attempts) refl
  where
    go : (o : Option Attempt) → find k p.attempts ≡ o → Inv (on_chunk chunk o p)
    go none e = v
    go (some a) e =
        Quiet-Inv p _ (heard a (find-IsAuthorized k p.log p.attempts a v.0.authorized e)) v
      where
        heard : (a : Attempt) → IsAuthorized p.log a → Quiet p (on_chunk chunk (some a) p)
        heard a h = if-Quiet a.cancelled p p _ (still p) (
            if_then-Quiet a.authorized p (send_audio chunk a p) _
              (λ y. send_audio-Quiet chunk a p (h y))
              (change-Quiet (hold chunk) a.id p
                (mild (hold chunk) (λ a. refl) (λ a. refl) (λ a. refl))))

-- A cancellation leaves no current attempt.
pub record Cancels (p p' : Pipeline) : Type 0 where
  pub base : BaseOf p → BaseOf p'
  pub state : p'.state ≡ p.state
  pub turn : p'.turn_id ≡ p.turn_id
  pub number : p'.turn_number ≡ p.turn_number
  pub heard : (n : ℕ) → accepted n p'.log ≡ accepted n p.log
  pub none_left : current_turn p'.attempt p'.attempts ≡ none

keep_heard-Quiet : (a : Attempt) (p : Pipeline) → Quiet p (keep_heard a p)
keep_heard-Quiet a p =
    if-Quiet _ p (emit (answers a.turn_id (strip a.answer)) p) p (emit-Quiet _ p tt) (still p)

-- What a cancellation does before it drops the attempt.
cancelling-Quiet :
    (a : Attempt) (p : Pipeline)
    → let p1 =
        emit (finishes a.turn_id true) (keep_heard a (change_attempt mark_cancelled a.id p)) in
      Quiet p (if a.authorized then emit stop_tts p1 else p1)
cancelling-Quiet a p =
    let q = change_attempt mark_cancelled a.id p in
    let r = keep_heard a q in
    let s = emit (finishes a.turn_id true) r in
    let f =
      then_quiet p q s
        (change-Quiet mark_cancelled a.id p
          (mild mark_cancelled (λ a. refl) (λ a. refl) (λ a. refl)))
        (then_quiet q r s (keep_heard-Quiet a q) (emit-Quiet (finishes a.turn_id true) r tt)) in
    if-Quiet a.authorized p (emit stop_tts s) s
      (then_quiet p s (emit stop_tts s) f (emit-Quiet stop_tts s tt)) f

-- With no attempt of its own, any turn that is not older may be current.
pub retarget :
    (turn turn' : Option TurnId) (n n' : ℕ) (candidate candidate' : Option ℕ) (ts : List Attempt)
    (cur cur' : Option ℕ) (xs : List Effect) (r : Option (Text × Option TurnId))
    → current_turn cur' ts ≡ none
    → n ≤ n'
    → or_next candidate' n' ≡ n' + 1
    → Base turn n candidate ts cur xs r
    → Base turn' n' candidate' ts cur' xs r
retarget turn turn' n n' candidate candidate' ts cur cur' xs r h le fresh b = record {
  fresh = fresh;
  bounded = λ i y. omega (arith, b.bounded i y);
  ordered = b.ordered;
  reply = b.reply;
  authorized = b.authorized;
  owned = λ t y. absurd (nothing t (sym h ∙ y));
}
  where
    nothing : (t : TurnId) → ◌≡◌ {A = Option TurnId} none (some t) → ⊥
    nothing t y = cc

abbrev cleared : Bool → Pipeline → Pipeline
cleared from_response p = record p { response = if from_response then p.response else none }

cleared-Base : (from_response : Bool) (p : Pipeline) → BaseOf p → BaseOf (cleared from_response p)
cleared-Base true p b = b
cleared-Base false p b = record {
  fresh = b.fresh;
  bounded = b.bounded;
  ordered = b.ordered;
  reply = tt;
  authorized = b.authorized;
  owned = b.owned;
}

on_cancel-Cancels : (o : Option Attempt) (p : Pipeline) → current p ≡ o → Cancels p (on_cancel o p)
on_cancel-Cancels none p e = record {
  base = λ b. b;
  state = refl;
  turn = refl;
  number = refl;
  heard = λ n. refl;
  none_left = no_turn p.attempt e;
}
  where
    no_turn :
        (cur : Option ℕ)
        → (elim cur as (λ _. Option Attempt) [ none ↦ none | some k ↦ find k p.attempts ]) ≡ none
        → current_turn cur p.attempts ≡ none
    no_turn none h = refl
    no_turn (some k) h = rw h refl
on_cancel-Cancels (some a) p e =
    let p1 = emit (finishes a.turn_id true) (keep_heard a (change_attempt mark_cancelled a.id p)) in
    let q = if a.authorized then emit stop_tts p1 else p1 in
    let f = cancelling-Quiet a p in
    record {
      base = λ b.
          retarget q.turn_id q.turn_id q.turn_number q.turn_number q.candidate_turn_id
            q.candidate_turn_id q.attempts q.attempt none q.log q.response refl (omega arith)
            (f.base b).fresh (f.base b);
      state = f.state;
      turn = f.turn;
      number = f.number;
      heard = f.heard;
      none_left = refl;
    }

pub cancel_attempt-Cancels :
    (from_response : Bool) (p : Pipeline) → Cancels p (cancel_attempt from_response p)
unfolding cancel_attempt
cancel_attempt-Cancels from_response p =
    let f = on_cancel-Cancels (current p) (cleared from_response p) refl in
    record {
      base = λ b. f.base (cleared-Base from_response p b);
      state = f.state;
      turn = f.turn;
      number = f.number;
      heard = f.heard;
      none_left = f.none_left;
    }

pub Cancels-Inv : (p p' : Pipeline) → Cancels p p' → Inv p → Inv p'
Cancels-Inv p p' q (b, r, l) = (
  q.base b,
  λ h. q.none_left,
  λ h.
      let (t, n) = l (sym (ap is_listening q.state) ∙ h) in
      (
        q.turn ∙ t ∙ ap (λ i. some (caller i)) (sym q.number),
        ap (λ i. accepted i p'.log) q.number ∙ q.heard p.turn_number ∙ n,
      ),
)

-- A new attempt of the current turn, whose final has been accepted where it is authorized.
pub record Adds (p p' : Pipeline) : Type 0 where
  pub base : BaseOf p → BaseOf p'
  pub state : p'.state ≡ p.state
  pub turn : p'.turn_id ≡ p.turn_id
  pub number : p'.turn_number ≡ p.turn_number
  pub heard : (n : ℕ) → accepted n p'.log ≡ accepted n p.log

pub added-Base :
    (a : Attempt) (p : Pipeline)
    → a.id ≡ length p.attempts
    → p.turn_id ≡ some a.turn_id
    → IsAuthorized p.log a
    → BaseOf p
    → BaseOf (record p { attempts = a ∷ p.attempts; attempt = some a.id })
added-Base a p i t h b = record {
  fresh = b.fresh;
  bounded = b.bounded;
  ordered = b.ordered;
  reply = b.reply;
  authorized = (h, b.authorized);
  owned = λ u y. let self : (a.id == a.id) ≡ true = (==_iff a.id a.id).1 refl in t ∙ rw self at y;
}

pub Heard-same :
    (t : TurnId) (xs ys : List Effect)
    → ((n : ℕ) → accepted n ys ≡ accepted n xs)
    → Heard t xs
    → Heard t ys
Heard-same (caller n) xs ys same h = same n ∙ h
Heard-same (proactive n) xs ys same h = tt

add_attempt-Adds :
    (text : Text) (speculative authorized : Bool) (t : TurnId) (p : Pipeline)
    → p.turn_id ≡ some t
    → (authorized ≡ true → Heard t p.log)
    → Adds p (add_attempt text speculative authorized p)
add_attempt-Adds text speculative authorized t p e h =
    let a = new_attempt text speculative authorized p in
    let p1 = record p { attempts = a ∷ p.attempts; attempt = some a.id } in
    let f =
      if-Quiet authorized p1 (emit (remembers a.turn_id (or_text p.final_text text)) p1) p1
        (emit-Quiet (remembers a.turn_id (or_text p.final_text text)) p1 tt) (still p1) in
    let same : or_turn p.turn_id p.turn_number ≡ t = rw e refl in
    record {
      base = λ b. f.base (
          added-Base a p refl (e ∙ ap some (sym same))
            (λ y. subst (λ u. Heard u p.log) (sym same) (h y)) b);
      state = f.state;
      turn = f.turn;
      number = f.number;
      heard = f.heard;
    }

pub start_attempt-Adds :
    (from_response : Bool) (text : Text) (speculative authorized : Bool) (t : TurnId) (p : Pipeline)
    → p.turn_id ≡ some t
    → (authorized ≡ true → Heard t p.log)
    → Adds p (start_attempt from_response text speculative authorized p)
unfolding start_attempt
start_attempt-Adds from_response text speculative authorized t p e h = go (is_some p.attempt)
  where
    go :
        (b : Bool)
        → Adds p (
            add_attempt text speculative authorized
              (if b then cancel_attempt from_response p else p))
    go false = add_attempt-Adds text speculative authorized t p e h
    go true =
        let q = cancel_attempt from_response p in
        let f = cancel_attempt-Cancels from_response p in
        let g =
          add_attempt-Adds text speculative authorized t q (f.turn ∙ e)
            (λ y. Heard-same t p.log q.log f.heard (h y)) in
        record {
          base = λ b. g.base (f.base b);
          state = g.state ∙ f.state;
          turn = g.turn ∙ f.turn;
          number = g.number ∙ f.number;
          heard = λ n. g.heard n ∙ f.heard n;
        }
