-- ===== src/Noise/FailOpen.antt =====
-- What a failing suppressor does to the audio (latency_lab/input_noise.py).
use sales_girl_voice_agent.Common.{
  ℕ, ◌*◌, ◌/◌, ◌≡◌, refl, Bool, true, false, ◌&&◌, ◌||◌, not, Option, none, some, List, [], ◌∷◌,
  ◌++◌, length, take, drop, take-append-drop, ◌==◌, ap, ◌∙◌, ◌⊎◌, inl, inr, Bool-cases,
  if◌then◌else◌, flatten, arith,
}
use sales_girl_voice_agent.Noise.Filter.{
  Bytes, block, InputNoiseFilter, Suppressors, apm_blocks, apm_done, rnnoise_done, process_apm,
  process, stream, ListeningNoiseRoute, Choice, fresh_filter, route_process,
}
use sales_girl_voice_agent.Noise.Stream.{accumulate-Same}

-- The blocks of the filter's next treatment.
abbrev pub block_count : Bytes → InputNoiseFilter → ℕ
block_count pcm f = length (f.pending ++ pcm) / block

abbrev pub whole_blocks : Bytes → InputNoiseFilter → Bytes
whole_blocks pcm f = take (block_count pcm f * block) (f.pending ++ pcm)

module _ (s : Suppressors) where
  unfoldable pub is_none : Option Bytes → Bool
  is_none none = true
  is_none (some out) = false

  -- The suppressor of the filter raises on what it is given now: RNNoise on the chunk, WebRTC on one of
  -- the whole blocks, if there is any.
  unfoldable pub fails : Bytes → InputNoiseFilter → Bool
  unfolding is_none
  fails pcm f =
      if f.rnnoise_on
      then is_none (s.denoise pcm)
      else not (block_count pcm f == 0)
        && is_none (apm_blocks s (block_count pcm f) (whole_blocks pcm f))

  -- The bytes that the filter holds back: RNNoise's filter has none of its own.
  abbrev pub held : InputNoiseFilter → Bytes
  held f = if f.rnnoise_on then [] else f.pending

  -- The filter keeps running, or it is off, and gives out what it held and the chunk as they came.
  abbrev Outcome : Bool → Bytes → InputNoiseFilter × Bytes → Type 0
  Outcome failed untreated r =
      ((failed ≡ false) × (r.0.enabled ≡ true))
      ⊎ ((failed ≡ true) × (r.0.enabled ≡ false) × (r.1 ≡ untreated))

  process_apm-Outcome :
      (pcm : Bytes) (f : InputNoiseFilter)
      → f.enabled ≡ true
      → Outcome
          (not (block_count pcm f == 0)
            && is_none (apm_blocks s (block_count pcm f) (whole_blocks pcm f)))
          (f.pending ++ pcm)
          (process_apm s pcm f)
  unfolding process_apm is_none
  process_apm-Outcome pcm f on = elim (Bool-cases (block_count pcm f == 0)) [
    | inl e ↦ rw e (inl (refl, on))
    | inr e ↦ rw e (go (apm_blocks s (block_count pcm f) (whole_blocks pcm f)))
  ]
    where
      left : Bytes
      left = drop (block_count pcm f * block) (f.pending ++ pcm)

      go :
          (o : Option Bytes)
          → Outcome
              (is_none o)
              (f.pending ++ pcm)
              (apm_done s o (whole_blocks pcm f) left (block_count pcm f) f)
      go none = inr (refl, refl, take-append-drop (block_count pcm f * block) (f.pending ++ pcm))
      go (some out) = inl (
        refl,
        (accumulate-Same (block_count pcm f) (whole_blocks pcm f)
              (record f { pending = left })).enabled
            ∙ on,
      )

  rnnoise_done-Outcome :
      (o : Option Bytes) (pcm : Bytes) (f : InputNoiseFilter)
      → f.enabled ≡ true
      → Outcome (is_none o) pcm (rnnoise_done s o pcm f)
  unfolding is_none
  rnnoise_done-Outcome none pcm f on = inr (refl, refl, refl)
  rnnoise_done-Outcome (some out) pcm f on = inl (refl, (accumulate-Same _ pcm f).enabled ∙ on)

  chosen-Outcome :
      (on rnnoise a b : Bool) (waits pcm : Bytes) (x y z : InputNoiseFilter × Bytes)
      → on ≡ true
      → Outcome a pcm y
      → Outcome b (waits ++ pcm) z
      → Outcome
          (if rnnoise then a else b)
          ((if rnnoise then [] else waits) ++ pcm)
          (if not on then x else if rnnoise then y else z)
  chosen-Outcome true true a b waits pcm x y z h f g = f
  chosen-Outcome true false a b waits pcm x y z h f g = g
  chosen-Outcome false rnnoise a b waits pcm x y z h f g = absurd (ground (arith, h))

  process-Outcome :
      (pcm : Bytes) (f : InputNoiseFilter)
      → f.enabled ≡ true
      → Outcome (fails pcm f) (held f ++ pcm) (process s pcm f)
  unfolding process fails
  process-Outcome pcm f on =
      chosen-Outcome f.enabled f.rnnoise_on (is_none (s.denoise pcm))
        (not (block_count pcm f == 0)
          && is_none (apm_blocks s (block_count pcm f) (whole_blocks pcm f)))
        f.pending pcm (f, pcm) (rnnoise_done s (s.denoise pcm) pcm f) (process_apm s pcm f) on
        (rnnoise_done-Outcome (s.denoise pcm) pcm f on) (process_apm-Outcome pcm f on)

  process-off :
      (pcm : Bytes) (f : InputNoiseFilter) → f.enabled ≡ false → process s pcm f ≡ (f, pcm)
  unfolding process
  process-off pcm f h = off f.enabled h
    where
      off :
          (b : Bool)
          → b ≡ false
          → (if not b
              then (f, pcm)
              else if f.rnnoise_on
              then rnnoise_done s (s.denoise pcm) pcm f
              else process_apm s pcm f)
            ≡ (f, pcm)
      off false h = refl
      off true h = absurd (ground (arith, h))

  -- A filter that is off gives out every chunk as it comes.
  stream-off :
      (later : List Bytes) (f : InputNoiseFilter)
      → f.enabled ≡ false
      → stream s later f ≡ (f, flatten later)
  unfolding stream
  stream-off [] f h = refl
  stream-off (pcm ∷ later) f h =
      ap (λ (r : InputNoiseFilter × Bytes). ((stream s later r.0).0, r.1 ++ (stream s later r.0).1))
        (process-off pcm f h)
      ∙ ap (λ (q : InputNoiseFilter × Bytes). (q.0, pcm ++ q.1)) (stream-off later f h)

  -- With either suppressor, whatever an enabled filter is given: if the suppressor does not raise, the
  -- filter stays on. If it raises, the filter is off, the bytes that it held (those of a block that
  -- WebRTC has not yet got whole; with RNNoise the filter itself holds none) and the chunk come out as
  -- they were, and so does every later chunk.
  pub process-fails_open :
      (pcm : Bytes) (later : List Bytes) (f : InputNoiseFilter)
      → f.enabled ≡ true
      → let r = process s pcm f in
        ((fails pcm f ≡ false) × (r.0.enabled ≡ true))
        ⊎ ((fails pcm f ≡ true)
            × (r.0.enabled ≡ false)
            × (r.1 ≡ held f ++ pcm)
            × (stream s later r.0 ≡ (r.0, flatten later)))
  process-fails_open pcm later f on = elim (process-Outcome pcm f on) [
    | inl h ↦ inl h
    | inr (failed, off, out) ↦ inr (failed, off, out, stream-off later (process s pcm f).0 off)
  ]

-- A chunk that the listening input treats itself passes the route untouched, and the next chunk of the
-- operator's filter is treated by a new filter: nothing of the utterances before comes out later.
pub route_process-fresh :
    (s : Suppressors) (c : Choice) (pcm later : Bytes) (noisy raw : Bool) (r : ListeningNoiseRoute)
    → noisy || raw ≡ true
    → ((route_process s c pcm noisy raw r).1 ≡ pcm)
      × ((route_process s c later false false (route_process s c pcm noisy raw r).0).1
          ≡ (process s later (fresh_filter c)).1)
unfolding route_process
route_process-fresh s c pcm later noisy raw r h = rw h (refl, refl)
