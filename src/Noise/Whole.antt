-- ===== src/Noise/Whole.antt =====
-- A whole stream through the noise filter (latency_lab/input_noise.py), to its end.
use sales_girl_voice_agent.Common.{
  ℕ, zero, suc, ◌+◌, ◌-◌, ◌*◌, ◌/◌, ◌%◌, ◌≡◌, ◌≤◌, ◌<◌, refl, Bool, true, false, Option, none, some,
  List, [], ◌∷◌, ◌++◌, arith, length, take, drop, length-append, length-drop, ◌==◌, Bool-cases, inl,
  inr, ◌⊎◌, ap, ◌∙◌,
}
use sales_girl_voice_agent.Noise.Filter.{
  Bytes, block, InputNoiseFilter, Suppressors, apm_blocks, apm_done, process_apm, process, zeros,
  stream, finish, new_filter, webrtc,
}
use sales_girl_voice_agent.Noise.Stream.{
  IsReady, Conserves, accumulate-Same, length-take, no_block, process_apm-Conserves,
  process-Conserves,
}

module _ (s : Suppressors)
    (same_size : (b out : Bytes) → s.apm b ≡ some out → length out ≡ length b) where
  abbrev pub total_length : List Bytes → ℕ
  total_length [] = 0
  total_length (pcm ∷ chunks) = length pcm + total_length chunks

  stream-Conserves :
      (chunks : List Bytes) (f : InputNoiseFilter)
      → IsReady f
      → Conserves (length f.pending + total_length chunks) (stream s chunks f)
  unfolding stream
  stream-Conserves [] f h = record { ready = h; count = omega arith }
  stream-Conserves (pcm ∷ chunks) f h =
      let r = process s pcm f in
      let first = process-Conserves s same_size pcm f h in
      let rest = stream-Conserves chunks r.0 first.ready in
      record {
        ready = rest.ready;
        count = omega (arith, first.count, rest.count, length-append r.1 (stream s chunks r.0).1);
      }

  length-zeros : (n : ℕ) → length (zeros n) ≡ n
  length-zeros zero = refl
  length-zeros (suc n) = omega (arith, length-zeros n)

  running :
      (pcm : Bytes) (f : InputNoiseFilter)
      → f.enabled ≡ true
      → f.rnnoise_on ≡ false
      → process s pcm f ≡ process_apm s pcm f
  running pcm f on plain = unfold process in simp (on, plain) refl

  abbrev Waits : ℕ → InputNoiseFilter → Type 0
  Waits total g = (length g.pending ≡ 0) ⊎ (length g.pending ≡ total % block)

  process_apm-Waits :
      (pcm : Bytes) (f : InputNoiseFilter)
      → Waits (length (f.pending ++ pcm)) (process_apm s pcm f).0
  unfolding process_apm
  process_apm-Waits pcm f =
      let all_pcm = f.pending ++ pcm in
      let n = length all_pcm / block in
      elim (Bool-cases (n == 0)) [
        | inl e ↦ rw e (inr (small (length all_pcm) (no_block (length all_pcm) e)))
        | inr e ↦ rw e (go (apm_blocks s n (take (n * block) all_pcm)))
      ]
    where
      small : (m : ℕ) → m < block → m ≡ m % block
      small m h = omega arith

      rest : (m : ℕ) → m - m / block * block ≡ m % block
      rest m = omega arith

      go :
          (o : Option Bytes)
          → Waits
              (length (f.pending ++ pcm))
              (apm_done s o
                (take (length (f.pending ++ pcm) / block * block) (f.pending ++ pcm))
                (drop (length (f.pending ++ pcm) / block * block) (f.pending ++ pcm))
                (length (f.pending ++ pcm) / block)
                f).0
      go none = inl refl
      go (some output) =
          let m = length (f.pending ++ pcm) in
          let left = drop (m / block * block) (f.pending ++ pcm) in
          let same =
            accumulate-Same (m / block) (take (m / block * block) (f.pending ++ pcm))
              (record f { pending = left }) in
          inr (ap length same.pending ∙ length-drop (m / block * block) (f.pending ++ pcm) ∙ rest m)

  process-last :
      (f : InputNoiseFilter)
      → IsReady f
      → f.enabled ≡ true
      → length f.pending ≤ length (process s (zeros (block - length f.pending)) f).1
  process-last f h on =
      let n = length f.pending in
      let pcm = zeros (block - n) in
      let count = (process_apm-Conserves s same_size pcm f h.plain on).count in
      let joined = length-append f.pending pcm in
      let filled = length-zeros (block - n) in
      let some_left = h.partial in
      rw (running pcm f on h.plain)
        (elim (process_apm-Waits pcm f) [ inl e ↦ omega arith | inr e ↦ omega arith ])

  finish-length : (f : InputNoiseFilter) → IsReady f → length (finish s f).1 ≡ length f.pending
  unfolding finish
  finish-length f h =
      let n = length f.pending in
      elim (Bool-cases (n == 0)) [
        | inl e ↦ rw e (none_left n e)
        | inr e ↦
            rw e (length-take n (process s (zeros (block - n)) f).1 (process-last f h (go h.off e)))
      ]
    where
      none_left : (n : ℕ) → (n == 0) ≡ true → 0 ≡ n
      none_left n e = ground arith

      go :
          (f.enabled ≡ true) ⊎ (f.pending ≡ []) → (length f.pending == 0) ≡ false → f.enabled ≡ true
      go (inl e) x = e
      go (inr e) x = absurd (ground (arith, ap length e))

  -- From a new filter with WebRTC, the default suppressor, to the end of the call: as many bytes come out
  -- as went in, in whatever chunks they come and whatever blocks the suppressor fails on, provided
  -- that a block which the suppressor treats keeps its length. A filter with RNNoise, which may keep
  -- part of a frame to itself, is not meant here.
  pub stream-finish :
      (wanted works : Bool) (chunks : List Bytes)
      → (let r = stream s chunks (new_filter wanted webrtc works) in
          length r.1 + length (finish s r.0).1)
        ≡ total_length chunks
  unfolding new_filter
  stream-finish wanted works chunks =
      let f = new_filter wanted webrtc works in
      let r = stream s chunks f in
      let h : IsReady f = record { partial = omega arith; plain = ground arith; off = inr refl } in
      let c = stream-Conserves chunks f h in omega (arith, c.count, finish-length r.0 c.ready)
