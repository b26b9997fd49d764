-- ===== src/Noise/Filter.antt =====
-- `InputNoiseFilter` and `ListeningNoiseRoute` of latency_lab/input_noise.py over bytes. The two
-- suppressors are packages: their answers on a block, `none` where they raise, are parameters. The
-- clock and the energy sums, which only metrics read, are left out, and so are the metrics' texts.
use sales_girl_voice_agent.Common.{
  ℕ, zero, suc, ◌+◌, ◌-◌, ◌*◌, ◌/◌, Bool, true, false, ◌&&◌, ◌||◌, not, Option, none, some, List,
  [], ◌∷◌, ◌++◌, length, take, drop, leb, ◌==◌, if◌then◌else◌,
}

abbrev pub Bytes : Type 0
Bytes = List ℕ

-- 10 ms at 16 kHz.
abbrev pub block : ℕ
block = 320

pub data Implementation : Type 0 where
  webrtc rnnoise : Implementation

-- `rnnoise_on` says that the suppressor `rnnoise` is set up. `frames` and `samples` are the counts since
-- the last report.
pub record InputNoiseFilter : Type 0 where
  pub enabled : Bool
  pub rnnoise_on : Bool
  pub pending : Bytes
  pub frames : ℕ
  pub samples : ℕ
  pub reports : ℕ

-- The operator's choice and whether the package could be set up.
unfoldable pub new_filter : Bool → Implementation → Bool → InputNoiseFilter
new_filter wanted implementation works = record {
  enabled = wanted && works;
  rnnoise_on = wanted && works && (elim implementation [ rnnoise ↦ true | webrtc ↦ false ]);
  pending = [];
  frames = 0;
  samples = 0;
  reports = 0;
}

unfoldable pub report : InputNoiseFilter → InputNoiseFilter
report f =
    if f.samples == 0 then f else record f { frames = 0; samples = 0; reports = f.reports + 1 }

unfoldable pub accumulate : ℕ → Bytes → InputNoiseFilter → InputNoiseFilter
unfolding report
accumulate frame_units raw f =
    let f' : InputNoiseFilter = record f {
      frames = f.frames + frame_units;
      samples = f.samples + length raw / 2;
    } in
    if leb 500 f'.frames then report f' else f'

abbrev at_least_one : ℕ → ℕ
at_least_one zero = 1
at_least_one (suc n) = suc n

-- The suppressors: of one block, and of any chunk.
pub record Suppressors : Type 0 where
  pub apm : Bytes → Option Bytes
  pub denoise : Bytes → Option Bytes

abbrev pub zeros : ℕ → Bytes
zeros zero = []
zeros (suc n) = 0 ∷ zeros n

module _ (s : Suppressors) where
  -- The blocks of `_process_apm`, one after the other; one that raises ends them.
  unfoldable pub apm_blocks : ℕ → Bytes → Option Bytes
  apm_blocks zero raw = some []
  apm_blocks (suc n) raw = elim (s.apm (take block raw)) [
    | none ↦ none
    | some out ↦ elim (apm_blocks n (drop block raw)) [
      | none ↦ none
      | some rest ↦ some (out ++ rest)
    ]
  ]

  abbrev pub apm_done :
      Option Bytes → Bytes → Bytes → ℕ → InputNoiseFilter → InputNoiseFilter × Bytes
  apm_done (some output) raw left n f = (accumulate n raw (record f { pending = left }), output)
  apm_done none raw left n f = (record f { enabled = false; pending = [] }, raw ++ left)

  unfoldable pub process_apm : Bytes → InputNoiseFilter → InputNoiseFilter × Bytes
  unfolding apm_blocks accumulate
  process_apm pcm f =
      let all_pcm = f.pending ++ pcm in
      let n = length all_pcm / block in
      let raw = take (n * block) all_pcm in
      let left = drop (n * block) all_pcm in
      if n == 0
      then (record f { pending = all_pcm }, [])
      else apm_done (apm_blocks n raw) raw left n f

  abbrev pub rnnoise_done : Option Bytes → Bytes → InputNoiseFilter → InputNoiseFilter × Bytes
  rnnoise_done (some output) pcm f = (accumulate (at_least_one (length pcm / block)) pcm f, output)
  rnnoise_done none pcm f = (record f { enabled = false; rnnoise_on = false }, pcm)

  unfoldable pub process : Bytes → InputNoiseFilter → InputNoiseFilter × Bytes
  unfolding process_apm
  process pcm f =
      if not f.enabled
      then (f, pcm)
      else if f.rnnoise_on
      then rnnoise_done (s.denoise pcm) pcm f
      else process_apm pcm f

  -- A partial block is filled up with zeros, and as much of the answer is kept as there was.
  unfoldable pub finish : InputNoiseFilter → InputNoiseFilter × Bytes
  unfolding process report
  finish f =
      let count = length f.pending in
      let (g, output) = process (zeros (block - count)) f in
      if count == 0 then (report f, []) else (report g, take count output)

  -- A stream in chunks: the filter after them, and all that it put out.
  unfoldable pub stream : List Bytes → InputNoiseFilter → InputNoiseFilter × Bytes
  stream [] f = (f, [])
  stream (pcm ∷ chunks) f = let r = process pcm f in let q = stream chunks r.0 in (q.0, r.1 ++ q.1)

-- The route: the operator's filter, or none while the listening input has the audio.
pub record ListeningNoiseRoute : Type 0 where
  pub filter : InputNoiseFilter
  pub bypassing : Bool

-- The operator's choice, with which filters are made anew.
pub record Choice : Type 0 where
  pub wanted : Bool
  pub implementation : Implementation
  pub works : Bool

abbrev pub fresh_filter : Choice → InputNoiseFilter
fresh_filter c = new_filter c.wanted c.implementation c.works

module _ (s : Suppressors) (c : Choice) where
  abbrev through : InputNoiseFilter × Bytes → ListeningNoiseRoute × Bytes
  through (f, out) = (record { filter = f; bypassing = false }, out)

  unfoldable pub route_process :
      Bytes → Bool → Bool → ListeningNoiseRoute → ListeningNoiseRoute × Bytes
  unfolding process report new_filter
  route_process pcm noisy_environment raw_level_detection r =
      if noisy_environment || raw_level_detection
      then (
        record { filter = if r.bypassing then r.filter else report r.filter; bypassing = true },
        pcm,
      )
      else through (process s pcm (if r.bypassing then fresh_filter c else r.filter))

  unfoldable pub route_finish : ListeningNoiseRoute → ListeningNoiseRoute × Bytes
  unfolding finish
  route_finish r = elim r.bypassing [
    | true ↦ (r, [])
    | false ↦ let (f, out) = finish s r.filter in (record r { filter = f }, out)
  ]
