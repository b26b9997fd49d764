-- ===== src/Pipeline/Ends.antt =====
-- The loop of the phrase tokenizer (latency_lab/pipeline.py) ends: each round but the last takes
-- something off the buffer.
use sales_girl_voice_agent.Common.{
  join_words, ℕ, zero, suc, ◌+◌, ◌≤◌, ◌≡◌, refl, ap, ◌∙◌, arith, true, false, Option, none, some,
  List, [], ◌∷◌, ◌++◌, Text, length, take, drop, is_space, strip, split, split_from, flush, leb,
  Bool-cases, inl, inr, length-drop, length-append,
}
use sales_girl_voice_agent.Pipeline.Phrases.{boundary, with_phrase, clause_of, round, push_loop}
use sales_girl_voice_agent.Common.{All}
use sales_girl_voice_agent.Pipeline.Whole.{ink, ink-append, ink-strip, boundary-advances}

-- Something, and no white space.
IsWord : Text → Type 0
IsWord w = (1 ≤ length w) × (ink w ≡ w)

flush-IsWord :
    (word : Text) (ws : List Text) → ink word ≡ word → All IsWord ws → All IsWord (flush word ws)
unfolding IsWord
flush-IsWord [] ws h hs = hs
flush-IsWord (c ∷ word) ws h hs = ((omega arith, h), hs)

split_from-IsWord : (word s : Text) → ink word ≡ word → All IsWord (split_from word s)
unfolding split_from
split_from-IsWord word [] h = flush-IsWord word [] h tt
split_from-IsWord word (c ∷ s) h =
    let next = split_from-IsWord [] s refl in
    elim (Bool-cases (is_space c)) [
      | inl y ↦ rw y (flush-IsWord word (split_from [] s) h next)
      | inr n ↦
          let kept : ink (c ∷ []) ≡ c ∷ [] = rw n refl in
          rw n (
            split_from-IsWord (word ++ (c ∷ [])) s
              (ink-append word (c ∷ []) ∙ ap (λ t. t ++ ink (c ∷ [])) h ∙ ap (λ t. word ++ t) kept))
    ]

length-ink : (s : Text) → length (ink s) ≤ length s
length-ink [] = omega arith
length-ink (c ∷ s) = ground (arith, length-ink s)

joined-long : (w : Text) (ws : List Text) → IsWord w → 1 ≤ length (strip (join_words (w ∷ ws)))
unfolding IsWord join_words
joined-long w [] (l, k) = omega (arith, length-ink (strip w), ap length (ink-strip w ∙ k))
joined-long w (v ∷ ws) (l, k) =
    let joined = w ++ (32 ∷ join_words (v ∷ ws)) in
    let whole : ink (strip joined) ≡ w ++ ink (32 ∷ join_words (v ∷ ws)) =
      ink-strip joined
      ∙ ink-append w (32 ∷ join_words (v ∷ ws))
      ∙ ap (λ t. t ++ ink (32 ∷ join_words (v ∷ ws))) k in
    omega (
      arith,
      length-ink (strip joined),
      ap length whole,
      length-append w (ink (32 ∷ join_words (v ∷ ws))),
    )

-- A clause of at least one word is not empty.
clause-advances :
    (n : ℕ) (ws : List Text)
    → 1 ≤ n
    → leb n (length ws) ≡ true
    → All IsWord ws
    → 1 ≤ length (strip (join_words (take n ws)))
clause-advances zero ws h e hs = absurd (omega arith)
clause-advances (suc n) [] h e hs = absurd (ground (arith, e))
clause-advances (suc n) (w ∷ ws) h e hs = joined-long w (take n ws) hs.0

split-IsWord : (s : Text) → All IsWord (split s)
unfolding split
split-IsWord s = split_from-IsWord [] s refl

split-nothing : (m : ℕ) → 1 ≤ m → leb m (length (split [])) ≡ false
unfolding split split_from
split-nothing m h = ground (arith, h)

one_more :
    (k max_words : ℕ) (buffer : Text)
    → 1 ≤ max_words
    → length buffer ≤ k
    → push_loop (suc k) max_words buffer ≡ push_loop k max_words buffer
unfolding push_loop
one_more zero max_words [] h le =
    let none_left : leb max_words (length (split [])) ≡ false = split-nothing max_words h in
    rw none_left refl
one_more zero max_words (c ∷ buffer) h le = absurd (omega arith)
one_more (suc k) max_words buffer h le =
    go (boundary buffer) (boundary-advances buffer) (one_more k max_words)
  where
    go :
        (o : Option ℕ)
        → ((n : ℕ) → o ≡ some n → (1 ≤ n) × (n ≤ length buffer))
        → ((t : Text)
            → 1 ≤ max_words
            → length t ≤ k
            → push_loop (suc k) max_words t ≡ push_loop k max_words t)
        → round max_words buffer o (λ t. push_loop (suc k) max_words t)
          ≡ round max_words buffer o (λ t. push_loop k max_words t)
    go (some n) f ih =
        ap (with_phrase (strip (take n buffer)))
          (ih (drop n buffer) h (omega (arith, (f n refl).0, length-drop n buffer)))
    go none f ih = elim (Bool-cases (leb max_words (length (split buffer)))) [
      | inl y ↦
          let phrase = clause_of max_words buffer in
          let long = clause-advances max_words (split buffer) h y (split-IsWord buffer) in
          rw y (
            ap (λ r. (phrase ∷ r.0, r.1))
              (ih (drop (length phrase) buffer) h
                (omega (arith, long, length-drop (length phrase) buffer))))
      | inr n ↦ rw n refl
    ]

-- For a word limit of at least one, the loop of `push` ends: more rounds than the buffer has
-- characters change nothing.
pub push_loop-ends :
    (k max_words : ℕ) (buffer : Text)
    → 1 ≤ max_words
    → push_loop (k + length buffer) max_words buffer ≡ push_loop (length buffer) max_words buffer
push_loop-ends zero max_words buffer h = ap (λ n. push_loop n max_words buffer) (omega arith)
push_loop-ends (suc k) max_words buffer h =
    ap (λ n. push_loop n max_words buffer) (omega arith)
    ∙ one_more (k + length buffer) max_words buffer h (omega arith)
    ∙ push_loop-ends k max_words buffer h
