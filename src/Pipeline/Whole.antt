-- ===== src/Pipeline/Whole.antt =====
-- The phrase tokenizer (latency_lab/pipeline.py) ends, and keeps the text below its word limit.
use mathlib.Core.List.{reverse, reverse_aux, reverse-reverse}
use sales_girl_voice_agent.Common.{
  ℕ, zero, suc, ◌+◌, ◌≤◌, ◌<◌, ◌≡◌, refl, sym, ap, ◌∙◌, arith, Bool, true, false, not, Option, none,
  some, List, [], ◌∷◌, ◌++◌, Text, length, take, drop, is_empty, is_space, strip, lstrip, split,
  keep_if, flatten, leb, if◌then◌else◌, Bool-cases, inl, inr, append_assoc, append-nil,
  take-append-drop,
}
use sales_girl_voice_agent.Pipeline.Phrases.{
  PhraseTokenizer, after_stop, add_to, or_else, is_stop, stop_end, boundary, with_phrase, round,
  push_loop, push, finish,
}

-- A text without its white space.
abbrev pub ink : Text → Text
ink = keep_if (λ c. not (is_space c))

pub ink-append : (s t : Text) → ink (s ++ t) ≡ ink s ++ ink t
ink-append [] t = refl
ink-append (c ∷ s) t = ground (arith, ink-append s t)

ink-lstrip : (s : Text) → ink (lstrip s) ≡ ink s
ink-lstrip [] = refl
ink-lstrip (c ∷ s) = ground (arith, ink-lstrip s)

ink-reverse_aux : (s t : Text) → ink (reverse_aux s t) ≡ reverse_aux (ink s) (ink t)
ink-reverse_aux [] t = refl
ink-reverse_aux (c ∷ s) t = elim (Bool-cases (is_space c)) [
  | inl y ↦ ink-reverse_aux s (c ∷ t) ∙ rw y refl
  | inr n ↦ ink-reverse_aux s (c ∷ t) ∙ rw n refl
]

pub ink-strip : (s : Text) → ink (strip s) ≡ ink s
unfolding strip
ink-strip s =
    ink-reverse_aux (lstrip (reverse (lstrip s))) []
    ∙ ap reverse (ink-lstrip (reverse (lstrip s)))
    ∙ ap reverse (ink-reverse_aux (lstrip s) [])
    ∙ reverse-reverse (ink (lstrip s))
    ∙ ink-lstrip s

add_to-some : (k n : ℕ) (o : Option ℕ) → add_to k o ≡ some n → (m : ℕ) × (o ≡ some m) × (n ≡ m + k)
add_to-some k n none h = cc
add_to-some k n (some m) h = (m, refl, sym (same_number (m + k) n h))
  where
    same_number : (a b : ℕ) → ◌≡◌ {A = Option ℕ} (some a) (some b) → a ≡ b
    same_number a b h = ap or_a h
      where
        or_a : Option ℕ → ℕ
        or_a none = a
        or_a (some x) = x

stop_end-bound : (s : Text) (n : ℕ) → stop_end s ≡ some n → n ≤ length s
unfolding stop_end
stop_end-bound [] n h = cc
stop_end-bound (c ∷ s) n h = go (is_stop c) (after_stop s) (after-bound s) (stop_end-bound s) h
  where
    after-bound : (s : Text) (k : ℕ) → after_stop s ≡ some k → k ≤ length s
    after-bound [] k h = ground (arith, h)
    after-bound (d ∷ s) k h = ground (arith, h)

    go :
        (b : Bool) (o : Option ℕ)
        → ((k : ℕ) → o ≡ some k → k ≤ length s)
        → ((k : ℕ) → stop_end s ≡ some k → k ≤ length s)
        → (if b then or_else (add_to 1 o) (add_to 1 (stop_end s)) else add_to 1 (stop_end s))
          ≡ some n
        → n ≤ suc (length s)
    go false o f g h = let (m, e, t) = add_to-some 1 n (stop_end s) h in omega (arith, t, g m e)
    go true none f g h = let (m, e, t) = add_to-some 1 n (stop_end s) h in omega (arith, t, g m e)
    go true (some k) f g h = let (m, e, t) = add_to-some 1 n (some k) h in omega (arith, t, f m e)

-- The end of a boundary is past one character, and no further than the buffer.
pub boundary-advances : (s : Text) (n : ℕ) → boundary s ≡ some n → (1 ≤ n) × (n ≤ length s)
unfolding boundary
boundary-advances [] n h = cc
boundary-advances (c ∷ s) n h =
    let (m, e, k) = add_to-some 1 n (stop_end s) h in
    (omega (arith, k), omega (arith, k, stop_end-bound s m e))

with_phrase-ink :
    (phrase : Text) (r : List Text × Text)
    → ink (flatten (with_phrase phrase r).0) ++ ink (with_phrase phrase r).1
      ≡ ink phrase ++ (ink (flatten r.0) ++ ink r.1)
with_phrase-ink [] r = refl
with_phrase-ink (c ∷ s) r =
    ap (λ t. t ++ ink r.1) (ink-append (c ∷ s) (flatten r.0))
    ∙ append_assoc (ink (c ∷ s)) (ink (flatten r.0)) (ink r.1)

-- What is left of a text after its boundaries have been taken off, one after the other.
abbrev after_boundary : Text → Option ℕ → (Text → Text) → Text
after_boundary s none next = s
after_boundary s (some n) next = next (drop n s)

unfoldable pub open_clause : ℕ → Text → Text
open_clause zero s = s
open_clause (suc k) s = after_boundary s (boundary s) (λ t. open_clause k t)

-- Where the clause that is open at the end is short of the word limit, the loop keeps the ink.
loop-ink :
    (k max_words : ℕ) (buffer : Text)
    → length (split (open_clause k buffer)) < max_words
    → let (phrases, rest) = push_loop k max_words buffer in
      ink (flatten phrases) ++ ink rest ≡ ink buffer
unfolding push_loop open_clause
loop-ink zero max_words buffer h = refl
loop-ink (suc k) max_words buffer h = go (boundary buffer) (loop-ink k max_words) h
  where
    go :
        (o : Option ℕ)
        → ((t : Text)
            → length (split (open_clause k t)) < max_words
            → let (phrases, rest) = push_loop k max_words t in
              ink (flatten phrases) ++ ink rest ≡ ink t)
        → length (split (after_boundary buffer o (λ t. open_clause k t))) < max_words
        → let (phrases, rest) = round max_words buffer o (λ t. push_loop k max_words t) in
          ink (flatten phrases) ++ ink rest ≡ ink buffer
    go none ih h =
        let few : leb max_words (length (split buffer)) ≡ false = ground (arith, h) in rw few refl
    go (some n) ih h =
        with_phrase-ink (strip (take n buffer)) (push_loop k max_words (drop n buffer))
        ∙ ap (λ t. ink (strip (take n buffer)) ++ t) (ih (drop n buffer) h)
        ∙ ap (λ t. t ++ ink (drop n buffer)) (ink-strip (take n buffer))
        ∙ sym (ink-append (take n buffer) (drop n buffer))
        ∙ ap ink (take-append-drop n buffer)

-- Take a tokenizer with any buffer, and a piece that comes to it, where what is left of the two together,
-- after every boundary (a stop with what ends it) has been taken off, has fewer words than the word limit:
-- a longer clause without a boundary is excluded. Then the phrases of `push` and of the `finish` that
-- follows it hold the characters of the buffer and of the piece other than white space, in order, and no
-- other.
pub push-finish_whole :
    (t : PhraseTokenizer) (delta : Text)
    → length (split (open_clause (length (t.buffer ++ delta)) (t.buffer ++ delta))) < t.max_words
    → let (phrases, t') = push delta t in
      ink (flatten (phrases ++ (finish t').0)) ≡ ink (t.buffer ++ delta)
unfolding push finish
push-finish_whole t delta h =
    let buffer = t.buffer ++ delta in
    let r = push_loop (length buffer) t.max_words buffer in
    ink-last r.0 r.1 (strip r.1) (ink-strip r.1) ∙ loop-ink (length buffer) t.max_words buffer h
  where
    flatten-last : (ps : List Text) (last : Text) → flatten (ps ++ (last ∷ [])) ≡ flatten ps ++ last
    flatten-last [] last = append-nil last
    flatten-last (p ∷ ps) last =
        ap (λ t. p ++ t) (flatten-last ps last) ∙ sym (append_assoc p (flatten ps) last)

    ink-last :
        (ps : List Text) (rest last : Text)
        → ink last ≡ ink rest
        → ink (flatten (ps ++ (if is_empty last then [] else last ∷ [])))
          ≡ ink (flatten ps) ++ ink rest
    ink-last ps rest [] e =
        ap (λ qs. ink (flatten qs)) (append-nil ps)
        ∙ sym (append-nil (ink (flatten ps)))
        ∙ ap (λ t. ink (flatten ps) ++ t) e
    ink-last ps rest (c ∷ last) e =
        ap ink (flatten-last ps (c ∷ last))
        ∙ ink-append (flatten ps) (c ∷ last)
        ∙ ap (λ t. ink (flatten ps) ++ t) e
