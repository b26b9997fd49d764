-- ===== src/Noise/Tests.antt =====
-- The noise filter (latency_lab/input_noise.py) at concrete inputs.
use sales_girl_voice_agent.Common.{
  ◌⊎◌, ◌+◌, ◌≡◌, refl, true, false, none, some, [], ◌∷◌, ◌++◌, arith, length,
}
use sales_girl_voice_agent.Noise.Filter.{
  Bytes, InputNoiseFilter, new_filter, stream, webrtc, Suppressors, process, finish, zeros,
  apm_blocks,
}
use sales_girl_voice_agent.Noise.Whole.{stream-finish}
use sales_girl_voice_agent.Noise.FailOpen.{process-fails_open, fails, is_none}

-- A suppressor that changes nothing, and one that fails.
abbrev quiet : Suppressors
quiet = record { apm = λ b. some b; denoise = λ b. some b }

abbrev broken : Suppressors
broken = record { apm = λ b. none; denoise = λ b. none }

quiet-same_size : (b out : Bytes) → quiet.apm b ≡ some out → length out ≡ length b
quiet-same_size b out h = ground (arith, h)

abbrev filter : InputNoiseFilter
filter = record {
  enabled = true;
  rnnoise_on = false;
  pending = 7 ∷ 8 ∷ [];
  frames = 0;
  samples = 0;
  reports = 0;
}

stream-finish_example :
    length (stream quiet ((1 ∷ []) ∷ (2 ∷ 3 ∷ []) ∷ []) (new_filter true webrtc true)).1
      + length
          (finish quiet
            (stream quiet ((1 ∷ []) ∷ (2 ∷ 3 ∷ []) ∷ []) (new_filter true webrtc true)).0).1
    ≡ 3
stream-finish_example = stream-finish quiet quiet-same_size true true ((1 ∷ []) ∷ (2 ∷ 3 ∷ []) ∷ [])

process-fails_open_example :
    ((fails broken (zeros 318) filter ≡ false)
      × ((process broken (zeros 318) filter).0.enabled ≡ true))
    ⊎ ((fails broken (zeros 318) filter ≡ true)
        × ((process broken (zeros 318) filter).0.enabled ≡ false)
        × ((process broken (zeros 318) filter).1 ≡ filter.pending ++ zeros 318)
        × (stream broken ((5 ∷ []) ∷ (6 ∷ []) ∷ []) (process broken (zeros 318) filter).0
            ≡ ((process broken (zeros 318) filter).0, 5 ∷ 6 ∷ [])))
process-fails_open_example =
    process-fails_open broken (zeros 318) ((5 ∷ []) ∷ (6 ∷ []) ∷ []) filter refl

-- Both suppressors fail here.
webrtc_fails : fails broken (zeros 318) filter ≡ true
unfolding fails apm_blocks is_none
webrtc_fails = refl

rnnoise_fails : fails broken (5 ∷ []) (record filter { rnnoise_on = true; pending = [] }) ≡ true
unfolding fails is_none
rnnoise_fails = refl
