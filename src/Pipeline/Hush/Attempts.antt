-- ===== src/Pipeline/Hush/Attempts.antt =====
-- What is done with the attempts (latency_lab/pipeline.py) sends no audio of a cancelled one.
use sales_girl_voice_agent.Common.{
  ℕ, ◌<◌, ◌≡◌, refl, Bool, true, false, ◌&&◌, ◌||◌, not, Option, none, some, List, [], ◌∷◌, arith,
  Text, length, ◌==◌, ==_iff, if◌then◌else◌, Bool-cases, inl, inr, is_empty, strip, is_some,
}
use mathlib.Core.Path.{subst}
use sales_girl_voice_agent.Pipeline.State.{
  Attempt, remembers, sends_chunk, answers, finishes, tts_end, stop_tts, Config, Pipeline, find,
  emit, change_attempt, current,
}
use sales_girl_voice_agent.Pipeline.Attempts.{
  send_audio, commit_user, commit_attempt_text, send_all, release_held, is_caller, mark_sent,
  mark_committed, clear_held, hold, on_chunk, chunk_arrives, on_done, generation_done,
  mark_cancelled, keep_heard, on_cancel, cancel_attempt, new_attempt, start_attempt, or_text,
}
use sales_girl_voice_agent.Pipeline.Hush.{
  is_cut, Hush, Cut, Below-suc, find-id, find-Below, find-Cut, if-Hush, change-Hush,
}

module _ (on : Bool) (k n : ℕ) where
  pub send_audio-Hush :
      (ch : ℕ) (a : Attempt) (p : Pipeline)
      → Cut on k a
      → Hush on k n p
      → Hush on k n (send_audio ch a p)
  unfolding send_audio
  send_audio-Hush ch a p h v =
      let q = change_attempt mark_sent a.id p in
      let w = change-Hush on k n mark_sent a.id p (λ a. refl) (λ a y. y) v in
      let sent = emit (sends_chunk a.turn_id a.id ch) q in
      elim (Bool-cases (k == a.id)) [
        | inl e ↦ elim (Bool-cases on) [
          | inl o ↦ rw (h o e) v
          | inr f ↦
              if-Hush on k n (a.cancelled || not p.speech_enabled) p sent v
                (w.0, λ o. absurd (ground (arith, o, f)))
        ]
        | inr e ↦
            if-Hush on k n (a.cancelled || not p.speech_enabled) p sent v
              (w.0, λ o. ((w.1 o).0, rw e (w.1 o).1))
      ]

  pub send_all-Hush :
      (chs : List ℕ) (a : Attempt) (p : Pipeline)
      → Cut on k a
      → Hush on k n p
      → Hush on k n (send_all chs a p)
  send_all-Hush [] a p h v = v
  send_all-Hush (ch ∷ chs) a p h v =
      send_all-Hush chs a (send_audio ch a p) h (send_audio-Hush ch a p h v)

  pub commit_attempt_text-Hush :
      (c : Config) (a : Attempt) (p : Pipeline)
      → Hush on k n p
      → Hush on k n (commit_attempt_text c a p)
  unfolding commit_attempt_text
  commit_attempt_text-Hush c a p v =
      let q = change_attempt mark_committed a.id p in
      let w = change-Hush on k n mark_committed a.id p (λ a. refl) (λ a y. y) v in
      let r = commit_user a q in
      let u =
        if-Hush on k n (is_caller a.turn_id)
          (emit (remembers a.turn_id (or_text q.final_text a.hypothesis)) q) q w w in
      if-Hush on k n (not p.speech_enabled || (c.engagement_enabled && is_empty (strip a.answer)))
        (emit (finishes a.turn_id false) p)
        (if a.response_committed then p else emit (answers a.turn_id (strip a.answer)) r) v
        (if-Hush on k n a.response_committed p (emit (answers a.turn_id (strip a.answer)) r) v u)

  pub release_held-Hush :
      (c : Config) (a : Attempt) (p : Pipeline)
      → Cut on k a
      → Hush on k n p
      → Hush on k n (release_held c a p)
  unfolding release_held
  release_held-Hush c a p h v =
      let all = send_all a.held_audio a p in
      let sent = change_attempt clear_held a.id all in
      let w =
        change-Hush on k n clear_held a.id all (λ a. refl) (λ a y. y)
          (send_all-Hush a.held_audio a p h v) in
      let done = emit tts_end (commit_attempt_text c a sent) in
      if-Hush on k n (not p.speech_enabled) (change_attempt clear_held a.id p)
        (if a.audio_complete then done else sent)
        (change-Hush on k n clear_held a.id p (λ a. refl) (λ a y. y) v)
        (if-Hush on k n a.audio_complete done sent (commit_attempt_text-Hush c a sent w) w)

  pub chunk_arrives-Hush :
      (j ch : ℕ) (p : Pipeline) → Hush on k n p → Hush on k n (chunk_arrives j ch p)
  unfolding chunk_arrives
  chunk_arrives-Hush j ch p v = go (find j p.attempts) refl
    where
      go : (o : Option Attempt) → find j p.attempts ≡ o → Hush on k n (on_chunk ch o p)
      go none e = v
      go (some a) e =
          let q = send_audio ch a p in
          let r = change_attempt (hold ch) a.id p in
          if-Hush on k n a.cancelled p (if a.authorized then q else r) v (
            if-Hush on k n a.authorized q r (send_audio-Hush ch a p (find-Cut on k n j p a v e) v)
              (change-Hush on k n (hold ch) a.id p (λ a. refl) (λ a y. y) v))

  pub generation_done-Hush :
      (c : Config) (j : ℕ) (p : Pipeline) → Hush on k n p → Hush on k n (generation_done c j p)
  unfolding generation_done
  generation_done-Hush c j p v = go (find j p.attempts)
    where
      go : (o : Option Attempt) → Hush on k n (on_done c o p)
      go none = v
      go (some a) =
          let q = change_attempt (λ a. record a { audio_complete = true }) a.id p in
          let w =
            change-Hush on k n (λ a. record a { audio_complete = true }) a.id p (λ a. refl)
              (λ a y. y) v in
          let r = emit tts_end (commit_attempt_text c a q) in
          if-Hush on k n a.cancelled q (if a.authorized then r else q) w
            (if-Hush on k n a.authorized r q (commit_attempt_text-Hush c a q w) w)

  pub on_cancel-Hush :
      (o : Option Attempt) (p : Pipeline) → Hush on k n p → Hush on k n (on_cancel o p)
  on_cancel-Hush none p v = v
  on_cancel-Hush (some a) p v =
      let q = change_attempt mark_cancelled a.id p in
      let w = change-Hush on k n mark_cancelled a.id p (λ a. refl) (λ a y. refl) v in
      let r = keep_heard a q in
      let u =
        if-Hush on k n
          (a.authorized && a.audio_sent && not (is_empty a.answer) && not a.response_committed)
          (emit (answers a.turn_id (strip a.answer)) q) q w w in
      let s = emit (finishes a.turn_id true) r in
      if-Hush on k n a.authorized (emit stop_tts s) s u u

  pub cancel_attempt-Hush :
      (from_response : Bool) (p : Pipeline)
      → Hush on k n p
      → Hush on k n (cancel_attempt from_response p)
  unfolding cancel_attempt
  cancel_attempt-Hush from_response p v =
      on_cancel-Hush (current p)
        (record p { response = if from_response then p.response else none }) v

  -- A new attempt has another name.
  pub added-Hush :
      (a : Attempt) (p : Pipeline)
      → a.id ≡ length p.attempts
      → Hush on k n p
      → Hush on k n (record p { attempts = a ∷ p.attempts; attempt = some a.id })
  added-Hush a p i v = (
    (omega (arith, i), Below-suc (length p.attempts) p.attempts v.0),
    λ o. (
      elim (Bool-cases (k == a.id)) [
        | inl y ↦
            absurd
              (omega (arith, (==_iff k a.id).0 y, i, cut_below (find k p.attempts) refl (v.1 o).0))
        | inr other ↦ rw other (v.1 o).0
      ],
      (v.1 o).1,
    ),
  )
    where
      cut_below :
          (f : Option Attempt) → find k p.attempts ≡ f → is_cut f ≡ true → k < length p.attempts
      cut_below none e h = absurd (ground (arith, h))
      cut_below (some t) e h =
          subst (λ x. x < length p.attempts) (find-id k p.attempts t e)
            (find-Below k (length p.attempts) p.attempts t v.0 e)

  pub start_attempt-Hush :
      (from_response : Bool) (text : Text) (speculative authorized : Bool) (p : Pipeline)
      → Hush on k n p
      → Hush on k n (start_attempt from_response text speculative authorized p)
  unfolding start_attempt
  start_attempt-Hush from_response text speculative authorized p v =
      let q = if is_some p.attempt then cancel_attempt from_response p else p in
      let w =
        if-Hush on k n (is_some p.attempt) (cancel_attempt from_response p) p
          (cancel_attempt-Hush from_response p v) v in
      let a = new_attempt text speculative authorized q in
      let r = record q { attempts = a ∷ q.attempts; attempt = some a.id } in
      let u = added-Hush a q refl w in
      if-Hush on k n authorized (emit (remembers a.turn_id (or_text q.final_text text)) r) r u u
