-- ===== src/Pipeline/Replies.antt =====
-- A final and its reply (latency_lab/pipeline.py) keep what holds between the events.
use mathlib.Core.Path.{subst}
use sales_girl_voice_agent.Common.{
  ℕ, ◌≤◌, ◌≡◌, refl, sym, ap, ◌∙◌, Bool, true, false, ◌&&◌, ◌||◌, not, Option, none, some, List, [],
  ◌∷◌, arith, Text, All, ◌==◌, ==_iff, if◌then◌else◌, Bool-cases, inl, inr, is_empty,
}
use sales_girl_voice_agent.Engagement.State.{PipeState, awaiting_final, releasing}
use sales_girl_voice_agent.Pipeline.State.{
  TurnId, caller, proactive, Attempt, Effect, accepts_final, Config, Pipeline, find, change, emit,
  change_attempt, current, transition,
}
use sales_girl_voice_agent.Pipeline.Attempts.{cancel_attempt}
use sales_girl_voice_agent.Pipeline.Base.{
  change-turn, accepted, Heard, BaseOf, IsAuthorized, IsReply, current_turn, emit-IsAuthorized,
  IsReply-more,
}
use sales_girl_voice_agent.Pipeline.Quiet.{release_held-Quiet}
use sales_girl_voice_agent.Pipeline.Transcript.{
  Judge, is_awaiting, is_releasing, is_valid, authorize, fresh_reply, on_reply, respond_to_final,
  on_grace, respond_after_reply_grace, reply_to_final, final_accepted, on_open_turn, on_final,
}
use sales_girl_voice_agent.Pipeline.Attempts.{release_held}
use sales_girl_voice_agent.Pipeline.State.{is_turn}
use sales_girl_voice_agent.Pipeline.Turns.{
  Inv, is_resting, is_listening, Quiet-Inv, cancel_attempt-Cancels, start_attempt-Adds, Heard-same,
  same_attempt,
}

find-id : (k : ℕ) (ts : List Attempt) (a : Attempt) → find k ts ≡ some a → k ≡ a.id
find-id k [] a e = cc
find-id k (t ∷ ts) a e = elim (Bool-cases (k == t.id)) [
  | inl x ↦ (==_iff k t.id).0 x ∙ ap (λ b. b.id) (same_attempt t a (rw x at e))
  | inr x ↦ find-id k ts a (rw x at e)
]

authorize-IsAuthorized :
    (k : ℕ) (xs : List Effect) (ts : List Attempt) (a : Attempt)
    → All (IsAuthorized xs) ts
    → find k ts ≡ some a
    → Heard a.turn_id xs
    → All (IsAuthorized xs) (change authorize k ts)
authorize-IsAuthorized k xs [] a h e y = tt
authorize-IsAuthorized k xs (t ∷ ts) a h e y = elim (Bool-cases (k == t.id)) [
  | inl s ↦
      rw s ((λ z. subst (λ b. Heard b.turn_id xs) (sym (same_attempt t a (rw s at e))) y), h.1)
  | inr s ↦ rw s (h.0, authorize-IsAuthorized k xs ts a h.1 (rw s at e) y)
]

-- Where the current attempt is of a turn whose final has come, it may be authorized.
authorize-Base :
    (k : ℕ) (a : Attempt) (p : Pipeline)
    → find k p.attempts ≡ some a
    → Heard a.turn_id p.log
    → BaseOf p
    → BaseOf (change_attempt authorize a.id p)
authorize-Base k a p e h b = record {
  fresh = b.fresh;
  bounded = b.bounded;
  ordered = b.ordered;
  reply = b.reply;
  authorized =
      subst (λ i. All (IsAuthorized p.log) (change authorize i p.attempts))
        (find-id k p.attempts a e) (authorize-IsAuthorized k p.log p.attempts a b.authorized e h);
  owned = λ t y. b.owned t (sym (kept p.attempt) ∙ y);
}
  where
    kept :
        (cur : Option ℕ)
        → current_turn cur (change authorize a.id p.attempts) ≡ current_turn cur p.attempts
    kept none = refl
    kept (some j) = change-turn authorize j a.id p.attempts (λ a. refl) (λ a. refl)

-- A state that does not listen and does not rest needs only the base.
pub base-Inv :
    (p : Pipeline) → BaseOf p → is_resting p.state ≡ false → is_listening p.state ≡ false → Inv p
base-Inv p b r l = (b, λ h. absurd (ground (arith, h, r)), λ h. absurd (ground (arith, h, l)))

pub if-Inv : (b : Bool) (p q : Pipeline) → Inv p → Inv q → Inv (if b then p else q)
if-Inv true p q v w = v
if-Inv false p q v w = w

-- The second case may use that it is the case.
pub if_else-Inv :
    (b : Bool) (p q : Pipeline) → Inv p → (b ≡ false → Inv q) → Inv (if b then p else q)
if_else-Inv true p q v w = v
if_else-Inv false p q v w = w refl

current-found :
    (cur : Option ℕ) (ts : List Attempt) (a : Attempt)
    → (elim cur as (λ _. Option Attempt) [ none ↦ none | some k ↦ find k ts ]) ≡ some a
    → (k : ℕ) × (cur ≡ some k) × (find k ts ≡ some a)
current-found none ts a h = cc
current-found (some k) ts a h = (k, refl, h)

some_turn : (a b : TurnId) → ◌≡◌ {A = Option TurnId} (some a) (some b) → a ≡ b
some_turn a b h = ap or_a h
  where
    or_a : Option TurnId → TurnId
    or_a none = a
    or_a (some x) = x

module _ (c : Config) (j : Judge) where
  fresh_reply-Inv :
      (from_response : Bool) (text : Text) (t : TurnId) (p : Pipeline)
      → p.turn_id ≡ some t
      → Heard t p.log
      → BaseOf p
      → Inv (fresh_reply c j from_response text p)
  fresh_reply-Inv from_response text t p e h b =
      let f = start_attempt-Adds from_response text false true t p e (λ _. h) in
      base-Inv (fresh_reply c j from_response text p) (f.base b) refl refl

  respond_to_final-Inv :
      (from_response : Bool) (text : Text) (t : TurnId) (p : Pipeline)
      → p.turn_id ≡ some t
      → Heard t p.log
      → BaseOf p
      → Inv (respond_to_final c j from_response text p)
  unfolding respond_to_final
  respond_to_final-Inv from_response text t p e h b = go (current p) refl
    where
      go : (o : Option Attempt) → current p ≡ o → Inv (on_reply c j from_response text o p)
      go none x = fresh_reply-Inv from_response text t p e h b
      go (some a) x =
          let (k, cur, found) = current-found p.attempt p.attempts a x in
          let own : p.turn_id ≡ some a.turn_id = b.owned a.turn_id (rw cur (rw found refl)) in
          let heard : Heard a.turn_id p.log =
            subst (λ u. Heard u p.log) (some_turn t a.turn_id (sym e ∙ own)) h in
          let p1 = transition releasing (change_attempt authorize a.id p) in
          let b1 : BaseOf p1 = authorize-Base k a p found heard b in
          let v1 : Inv p1 = base-Inv p1 b1 refl refl in
          let f = cancel_attempt-Cancels from_response p in
          let q = cancel_attempt from_response p in
          if-Inv (is_valid c j text a) _ _
            (if-Inv a.speech_control p1 (release_held c (authorize a) p1) v1 (
              Quiet-Inv p1 (release_held c (authorize a) p1)
                (release_held-Quiet c (authorize a) p1 heard) v1))
            (fresh_reply-Inv from_response text t q (f.turn ∙ e)
              (Heard-same t p.log q.log f.heard h) (f.base b))

  -- A reply that waited is given up unless its turn is still the current one.
  pub respond_after_reply_grace-Inv : (p : Pipeline) → Inv p → Inv (respond_after_reply_grace c j p)
  unfolding respond_after_reply_grace
  respond_after_reply_grace-Inv p (b, r, l) = go p.response b.reply
    where
      p1 : Pipeline
      p1 = record p { response = none }

      b1 : BaseOf p → BaseOf p1
      b1 b = record {
        fresh = b.fresh;
        bounded = b.bounded;
        ordered = b.ordered;
        reply = tt;
        authorized = b.authorized;
        owned = b.owned;
      }

      same :
          (n : ℕ) (turn : Option TurnId)
          → is_turn turn (some (caller n)) ≡ true
          → turn ≡ some (caller n)
      same n none h = cc
      same n (some (caller m)) h = ap (λ i. some (caller i)) ((==_iff m n).0 h)
      same n (some (proactive m)) h = cc

      go : (o : Option (Text × Option TurnId)) → IsReply o p.log → Inv (on_grace c j o p)
      go none y = (b, r, l)
      go (some (text, none)) y = absurd y
      go (some (text, some (proactive n))) y = absurd y
      go (some (text, some (caller n))) y =
          if_else-Inv (not (is_turn p.turn_id (some (caller n))) || not (is_releasing p.state)) p1
            (respond_to_final c j true text p1) (b1 b, r, l)
            (λ g.
              respond_to_final-Inv true text (caller n) p1 (same n p.turn_id (ground (arith, g))) y
                (b1 b))

  -- The final of the turn that is listened to is the first one of that turn.
  reply_to_final-Inv :
      (text : Text) (n : ℕ) (p : Pipeline)
      → p.turn_id ≡ some (caller n)
      → accepted n p.log ≡ true
      → BaseOf p
      → Inv (reply_to_final c j text p)
  reply_to_final-Inv text n p e h b =
      let p2 = transition releasing (record p { response = none }) in
      let b2 : BaseOf p2 = record {
        fresh = b.fresh;
        bounded = b.bounded;
        ordered = b.ordered;
        reply = tt;
        authorized = b.authorized;
        owned = b.owned;
      } in
      let p3 = transition releasing (record p { response = some (text, p.turn_id) }) in
      let b3 : BaseOf p3 = record {
        fresh = b.fresh;
        bounded = b.bounded;
        ordered = b.ordered;
        reply = subst (λ u. IsReply (some (text, u)) p.log) (sym e) h;
        authorized = b.authorized;
        owned = b.owned;
      } in
      if-Inv (not c.engagement_enabled) (respond_to_final c j false text p) _
        (respond_to_final-Inv false text (caller n) p e h b)
        (if-Inv c.grace p3 (respond_to_final c j true text p2) (base-Inv p3 b3 refl refl)
          (respond_to_final-Inv true text (caller n) p2 e h b2))

  accept-Base :
      (n : ℕ) (text : Text) (p : Pipeline)
      → n ≤ p.turn_number
      → accepted n p.log ≡ false
      → BaseOf p
      → BaseOf (emit (accepts_final n text) p)
  accept-Base n text p le h b = record {
    fresh = b.fresh;
    bounded = λ i y. elim (Bool-cases (i == n)) [
      | inl s ↦ omega (arith, (==_iff i n).0 s)
      | inr s ↦ b.bounded i (rw s at y)
    ];
    ordered = (h, b.ordered);
    reply = IsReply-more p.response (accepts_final n text) p.log b.reply;
    authorized = emit-IsAuthorized (accepts_final n text) p.log p.attempts b.authorized;
    owned = b.owned;
  }

  pub on_final-Inv : (text : Text) (p : Pipeline) → Inv p → Inv (on_final c j text p)
  unfolding on_final
  on_final-Inv text p (b, r, l) =
      if-Inv (not (is_empty text) && j.is_echo text) p _ (b, r, l)
        (if-Inv p.call_ending p _ (b, r, l) (go p.turn_id refl))
    where
      accept :
          (t : TurnId)
          → p.turn_id ≡ some t
          → is_awaiting p.state ≡ true
          → Inv (final_accepted c j text t p)
      accept t x w =
          let (turn, fresh) = l (listening p.state w) in
          let named : t ≡ caller p.turn_number =
            some_turn t (caller p.turn_number) (sym x ∙ turn) in
          subst (λ u. Inv (final_accepted c j text u p)) (sym named)
            (reply_to_final-Inv text p.turn_number _ turn
              (ground (arith, (==_iff p.turn_number p.turn_number).1 refl))
              (accept-Base p.turn_number text
                (record p { final_text = text; final_timeout = none; stability = none })
                (omega arith) fresh b))
        where
          listening : (s : PipeState) → is_awaiting s ≡ true → is_listening s ≡ true
          listening awaiting_final h = refl
          listening _ h = ground arith

      go : (o : Option TurnId) → p.turn_id ≡ o → Inv (on_open_turn c j text o p)
      go none x = (b, r, l)
      go (some t) x =
          if_else-Inv (not (is_awaiting p.state)) p _ (b, r, l)
            (λ w.
              if-Inv (not (is_empty p.final_text)) p _ (b, r, l) (accept t x (ground (arith, w))))
