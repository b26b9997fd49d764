-- ===== src/Noise/Stream.antt =====
-- No audio is lost in the noise filter (latency_lab/input_noise.py), whatever the suppressor does.
use sales_girl_voice_agent.Common.{
  ℕ, zero, suc, ◌+◌, ◌-◌, ◌*◌, ◌/◌, ◌≡◌, ◌≤◌, ◌<◌, refl, Bool, true, false, not, Option, none, some,
  [], ◌∷◌, ◌++◌, arith, length, take, drop, length-append, length-drop, leb, ◌==◌, if◌then◌else◌,
  Bool-cases, inl, inr, ◌⊎◌, ◌∙◌,
}
use sales_girl_voice_agent.Noise.Filter.{
  Bytes, block, InputNoiseFilter, report, accumulate, Suppressors, apm_blocks, apm_done,
  process_apm, rnnoise_done, process,
}

-- A filter between two calls: less than a block waits, and none in a filter that is switched off.
pub record IsReady (f : InputNoiseFilter) : Type 0 where
  pub partial : length f.pending < block
  pub plain : f.rnnoise_on ≡ false
  pub off : (f.enabled ≡ true) ⊎ (f.pending ≡ [])

pub length-take : (n : ℕ) (xs : Bytes) → n ≤ length xs → length (take n xs) ≡ n
length-take zero xs h = refl
length-take (suc n) [] h = absurd (omega arith)
length-take (suc n) (x ∷ xs) h = omega (arith, length-take n xs (omega arith))

blocks_fit : (n : ℕ) → n / block * block ≤ n
blocks_fit n = omega arith

pub no_block : (n : ℕ) → (n / block == 0) ≡ true → n < block
no_block n h = ground arith

blocks_rest : (n : ℕ) → n - n / block * block < block
blocks_rest n = omega arith

pub record Same (f g : InputNoiseFilter) : Type 0 where
  pub pending : g.pending ≡ f.pending
  pub enabled : g.enabled ≡ f.enabled
  pub rnnoise_on : g.rnnoise_on ≡ f.rnnoise_on

report-Same : (f : InputNoiseFilter) → Same f (report f)
unfolding report
report-Same f = elim (Bool-cases (f.samples == 0)) [
  | inl e ↦ rw e (record { pending = refl; enabled = refl; rnnoise_on = refl })
  | inr e ↦ rw e (record { pending = refl; enabled = refl; rnnoise_on = refl })
]

pub accumulate-Same : (n : ℕ) (raw : Bytes) (f : InputNoiseFilter) → Same f (accumulate n raw f)
unfolding accumulate
accumulate-Same n raw f =
    let f' : InputNoiseFilter = record f {
      frames = f.frames + n;
      samples = f.samples + length raw / 2;
    } in
    let same = report-Same f' in
    elim (Bool-cases (leb 500 f'.frames)) [
      | inl e ↦
          rw e (record {
            pending = same.pending;
            enabled = same.enabled;
            rnnoise_on = same.rnnoise_on;
          })
      | inr e ↦ rw e (record { pending = refl; enabled = refl; rnnoise_on = refl })
    ]

-- As many bytes go out as came in, but for those that wait.
pub record Conserves (total : ℕ) (r : InputNoiseFilter × Bytes) : Type 0 where
  pub ready : IsReady r.0
  pub count : length r.1 + length r.0.pending ≡ total

module _ (s : Suppressors)
    (same_size : (b out : Bytes) → s.apm b ≡ some out → length out ≡ length b) where
  abbrev OutLength : ℕ → Option Bytes → Type 0
  OutLength n none = Unit
  OutLength n (some out) = length out ≡ n

  apm_blocks-length :
      (n : ℕ) (raw : Bytes) → length raw ≡ n * block → OutLength (n * block) (apm_blocks s n raw)
  unfolding apm_blocks
  apm_blocks-length zero raw h = refl
  apm_blocks-length (suc n) raw h =
      go (s.apm (take block raw)) refl (apm_blocks s n (drop block raw))
        (apm_blocks-length n (drop block raw) (omega (arith, length-drop block raw)))
    where
      go :
          (o : Option Bytes)
          → s.apm (take block raw) ≡ o
          → (p : Option Bytes) → OutLength (n * block) p
          → OutLength (suc n * block) (elim o [
            | none ↦ none
            | some out ↦ elim p [ none ↦ none | some rest ↦ some (out ++ rest) ]
          ])
      go none e p h' = tt
      go (some out) e none h' = tt
      go (some out) e (some rest) h' = omega (
        arith,
        length-append out rest,
        same_size (take block raw) out e,
        length-take block raw (omega arith),
      )

  apm_done-Conserves :
      (o : Option Bytes) (raw left : Bytes) (n : ℕ) (f : InputNoiseFilter)
      → f.rnnoise_on ≡ false
      → f.enabled ≡ true
      → length left < block
      → OutLength (length raw) o
      → Conserves (length raw + length left) (apm_done s o raw left n f)
  apm_done-Conserves none raw left n f plain on l out = record {
    ready = record { partial = omega arith; plain = plain; off = inr refl };
    count = omega (arith, length-append raw left);
  }
  apm_done-Conserves (some output) raw left n f plain on l out =
      let same = accumulate-Same n raw (record f { pending = left }) in
      record {
        ready = record {
          partial = rw same.pending l;
          plain = same.rnnoise_on ∙ plain;
          off = inl (same.enabled ∙ on);
        };
        count = rw same.pending (omega arith);
      }

  pub process_apm-Conserves :
      (pcm : Bytes) (f : InputNoiseFilter)
      → f.rnnoise_on ≡ false
      → f.enabled ≡ true
      → Conserves (length f.pending + length pcm) (process_apm s pcm f)
  unfolding process_apm
  process_apm-Conserves pcm f plain on =
      let all_pcm = f.pending ++ pcm in
      let n = length all_pcm / block in
      let raw = take (n * block) all_pcm in
      let left = drop (n * block) all_pcm in
      let joined = length-append f.pending pcm in
      let fits = blocks_fit (length all_pcm) in
      let raw_length = length-take (n * block) all_pcm fits in
      let left_length = length-drop (n * block) all_pcm in
      let rest = blocks_rest (length all_pcm) in
      let done =
        apm_done-Conserves (apm_blocks s n raw) raw left n f plain on
          (omega (arith, left_length, rest)) (rw raw_length (apm_blocks-length n raw raw_length)) in
      elim (Bool-cases (n == 0)) [
        | inl e ↦ rw e (record {
          ready = record { partial = no_block (length all_pcm) e; plain = plain; off = inl on };
          count = omega (arith, joined);
        })
        | inr e ↦ rw e (record {
          ready = done.ready;
          count = omega (arith, done.count, raw_length, left_length, fits, joined);
        })
      ]

  -- Whatever the suppressor does, failing included, `process` puts out as many bytes as it is given,
  -- but for less than one block that waits.
  pub process-Conserves :
      (pcm : Bytes) (f : InputNoiseFilter)
      → IsReady f
      → Conserves (length f.pending + length pcm) (process s pcm f)
  unfolding process
  process-Conserves pcm f h = go f.enabled f.rnnoise_on refl refl
    where
      go :
          (on plain : Bool)
          → f.enabled ≡ on
          → f.rnnoise_on ≡ plain
          → Conserves (length f.pending + length pcm) (
              if not on
              then (f, pcm)
              else if plain
              then rnnoise_done s (s.denoise pcm) pcm f
              else process_apm s pcm f)
      go false plain e p = record { ready = h; count = omega arith }
      go true false e p = process_apm-Conserves pcm f p e
      go true true e p = absurd (ground (arith, h.plain, p))
