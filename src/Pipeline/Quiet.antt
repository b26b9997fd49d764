-- ===== src/Pipeline/Quiet.antt =====
-- The steps of the pipeline (latency_lab/pipeline.py) that open no turn, accept no final and authorize
-- nothing: sending, holding, releasing and committing what an attempt says.
use sales_girl_voice_agent.Common.{
  ℕ, ◌≡◌, refl, sym, ◌∙◌, Bool, true, false, ◌&&◌, ◌||◌, not, List, [], ◌∷◌, if◌then◌else◌,
  is_empty, strip,
}
use sales_girl_voice_agent.Pipeline.State.{
  TurnId, caller, proactive, Attempt, Effect, answers, finishes, sends_chunk, tts_end, Config,
  Pipeline, emit, change_attempt,
}
use sales_girl_voice_agent.Pipeline.Attempts.{
  send_audio, commit_user, commit_attempt_text, send_all, release_held, is_caller, mark_sent,
  mark_committed, clear_held,
}
use sales_girl_voice_agent.Pipeline.Base.{
  accepted, Heard, BaseOf, IsPlain, IsMild, current_turn, emit-Base, change-Base, accepted-same,
  current-change, plain-Allowed, plain-IsNoFinal,
}

pub record Quiet (p p' : Pipeline) : Type 0 where
  pub base : BaseOf p → BaseOf p'
  pub state : p'.state ≡ p.state
  pub turn : p'.turn_id ≡ p.turn_id
  pub number : p'.turn_number ≡ p.turn_number
  pub heard : (n : ℕ) → accepted n p'.log ≡ accepted n p.log
  pub current : current_turn p'.attempt p'.attempts ≡ current_turn p.attempt p.attempts

abbrev pub still : (p : Pipeline) → Quiet p p
still p = record {
  base = λ b. b;
  state = refl;
  turn = refl;
  number = refl;
  heard = λ n. refl;
  current = refl;
}

abbrev pub then_quiet : (p q r : Pipeline) → Quiet p q → Quiet q r → Quiet p r
then_quiet p q r f g = record {
  base = λ b. g.base (f.base b);
  state = g.state ∙ f.state;
  turn = g.turn ∙ f.turn;
  number = g.number ∙ f.number;
  heard = λ n. g.heard n ∙ f.heard n;
  current = g.current ∙ f.current;
}

pub if-Quiet : (b : Bool) (p q r : Pipeline) → Quiet p q → Quiet p r → Quiet p (if b then q else r)
if-Quiet true p q r f g = f
if-Quiet false p q r f g = g

-- The first case may use that it is the case.
pub if_then-Quiet :
    (b : Bool) (p q r : Pipeline)
    → (b ≡ true → Quiet p q)
    → Quiet p r
    → Quiet p (if b then q else r)
if_then-Quiet true p q r f g = f refl
if_then-Quiet false p q r f g = g

pub emit-Quiet : (x : Effect) (p : Pipeline) → IsPlain x → Quiet p (emit x p)
emit-Quiet x p h = record {
  base = emit-Base x p (plain-IsNoFinal x h) (plain-Allowed x p.log h);
  state = refl;
  turn = refl;
  number = refl;
  heard = λ n. accepted-same n x p.log (plain-IsNoFinal x h);
  current = refl;
}

pub change-Quiet :
    (f : Attempt → Attempt) (k : ℕ) (p : Pipeline) → IsMild f → Quiet p (change_attempt f k p)
change-Quiet f k p m = record {
  base = change-Base f k p m;
  state = refl;
  turn = refl;
  number = refl;
  heard = λ n. refl;
  current = current-change f k p.attempt p.attempts m;
}

pub Heard-quiet : (t : TurnId) (p p' : Pipeline) → Quiet p p' → Heard t p.log → Heard t p'.log
Heard-quiet (caller n) p p' q h = q.heard n ∙ h
Heard-quiet (proactive n) p p' q h = tt

-- The fields that a change keeps by computation.
abbrev pub mild :
    (f : Attempt → Attempt)
    → ((a : Attempt) → (f a).id ≡ a.id)
    → ((a : Attempt) → (f a).turn_id ≡ a.turn_id)
    → ((a : Attempt) → (f a).authorized ≡ a.authorized)
    → IsMild f
mild f i t w = record { id = i; turn = t; authorizes = λ a h. sym (w a) ∙ h }

sent_chunk :
    (chunk : ℕ) (a : Attempt) (p : Pipeline)
    → Heard a.turn_id p.log
    → Quiet p (emit (sends_chunk a.turn_id a.id chunk) p)
sent_chunk chunk a p h = record {
  base = emit-Base (sends_chunk a.turn_id a.id chunk) p tt h;
  state = refl;
  turn = refl;
  number = refl;
  heard = λ n. refl;
  current = refl;
}

pub send_audio-Quiet :
    (chunk : ℕ) (a : Attempt) (p : Pipeline)
    → Heard a.turn_id p.log
    → Quiet p (send_audio chunk a p)
unfolding send_audio
send_audio-Quiet chunk a p h =
    let q = change_attempt mark_sent a.id p in
    if-Quiet (a.cancelled || not p.speech_enabled) p p _ (still p) (
      then_quiet p q _
        (change-Quiet mark_sent a.id p (mild mark_sent (λ a. refl) (λ a. refl) (λ a. refl)))
        (sent_chunk chunk a q h))

send_all-Quiet :
    (chs : List ℕ) (a : Attempt) (p : Pipeline) → Heard a.turn_id p.log → Quiet p (send_all chs a p)
send_all-Quiet [] a p h = still p
send_all-Quiet (ch ∷ chs) a p h =
    let q = send_audio-Quiet ch a p h in
    then_quiet p (send_audio ch a p) _ q
      (send_all-Quiet chs a (send_audio ch a p) (Heard-quiet a.turn_id p (send_audio ch a p) q h))

commit_user-Quiet : (a : Attempt) (p : Pipeline) → Quiet p (commit_user a p)
commit_user-Quiet a p = if-Quiet (is_caller a.turn_id) p _ p (emit-Quiet _ p tt) (still p)

pub commit_attempt_text-Quiet :
    (c : Config) (a : Attempt) (p : Pipeline) → Quiet p (commit_attempt_text c a p)
unfolding commit_attempt_text
commit_attempt_text-Quiet c a p =
    let q = change_attempt mark_committed a.id p in
    let r = commit_user a q in
    if-Quiet (not p.speech_enabled || (c.engagement_enabled && is_empty (strip a.answer))) p _ _
      (emit-Quiet (finishes a.turn_id false) p tt)
      (if-Quiet a.response_committed p p _ (still p) (
        then_quiet p q _
          (change-Quiet mark_committed a.id p
            (mild mark_committed (λ a. refl) (λ a. refl) (λ a. refl)))
          (then_quiet q r _ (commit_user-Quiet a q)
            (emit-Quiet (answers a.turn_id (strip a.answer)) r tt))))

pub release_held-Quiet :
    (c : Config) (a : Attempt) (p : Pipeline) → Heard a.turn_id p.log → Quiet p (release_held c a p)
unfolding release_held
release_held-Quiet c a p h =
    let clears : (p : Pipeline) → Quiet p (change_attempt clear_held a.id p) =
      λ p. change-Quiet clear_held a.id p (mild clear_held (λ a. refl) (λ a. refl) (λ a. refl)) in
    let all = send_all a.held_audio a p in
    let sent = change_attempt clear_held a.id all in
    let q = then_quiet p all sent (send_all-Quiet a.held_audio a p h) (clears all) in
    if-Quiet (not p.speech_enabled) p _ _ (clears p) (
      if-Quiet a.audio_complete p _ sent
        (then_quiet p sent _ q (
          then_quiet sent (commit_attempt_text c a sent) _ (commit_attempt_text-Quiet c a sent)
            (emit-Quiet tts_end (commit_attempt_text c a sent) tt)))
        q)
