-- ===== src/Pipeline/Phrases.antt =====
-- `PhraseTokenizer` of latency_lab/pipeline.py. The loop of `push` runs on fuel: every round but the last
-- takes a character off the buffer, so that the buffer's length is enough.
use sales_girl_voice_agent.Common.{
  join_words, ℕ, zero, suc, ◌+◌, Bool, ◌||◌, Option, none, some, List, [], ◌∷◌, ◌++◌, Text, length,
  take, drop, is_empty, is_space, strip, split, leb, ◌==◌, if◌then◌else◌,
}

pub record PhraseTokenizer : Type 0 where
  pub buffer : Text
  pub max_words : ℕ

abbrev pub is_stop : ℕ → Bool
is_stop c = c == 46 || c == 33 || c == 63

-- `(?:["']|\s|$)` after a stop: how many characters it takes, where it matches.
abbrev pub after_stop : Text → Option ℕ
after_stop [] = some 0
after_stop (c ∷ s) = if c == 34 || c == 39 || is_space c then some 1 else none

abbrev pub add_to : ℕ → Option ℕ → Option ℕ
add_to k none = none
add_to k (some n) = some (n + k)

abbrev pub or_else : Option ℕ → Option ℕ → Option ℕ
or_else none o = o
or_else (some n) o = some n

-- The end of the first stop that is followed so.
unfoldable pub stop_end : Text → Option ℕ
stop_end [] = none
stop_end (c ∷ s) =
    let rest = add_to 1 (stop_end s) in
    if is_stop c then or_else (add_to 1 (after_stop s)) rest else rest

-- `_boundary.match(buffer)`: at least one character stands before the stop.
unfoldable pub boundary : Text → Option ℕ
unfolding stop_end
boundary [] = none
boundary (c ∷ s) = add_to 1 (stop_end s)

abbrev pub with_phrase : Text → List Text × Text → List Text × Text
with_phrase [] r = r
with_phrase (c ∷ s) (phrases, rest) = ((c ∷ s) ∷ phrases, rest)

abbrev pub clause_of : ℕ → Text → Text
clause_of n buffer = strip (join_words (take n (split buffer)))

-- One round at a buffer: what follows a boundary or a long clause is the rest of the loop.
abbrev pub round : ℕ → Text → Option ℕ → (Text → List Text × Text) → List Text × Text
round max_words buffer (some n) next = with_phrase (strip (take n buffer)) (next (drop n buffer))
round max_words buffer none next =
    let phrase = clause_of max_words buffer in
    let (more, rest) = next (drop (length phrase) buffer) in
    if leb max_words (length (split buffer)) then (phrase ∷ more, rest) else ([], buffer)

unfoldable pub push_loop : ℕ → ℕ → Text → List Text × Text
unfolding boundary strip split join_words
push_loop zero max_words buffer = ([], buffer)
push_loop (suc k) max_words buffer =
    let next : Text → List Text × Text = λ t. push_loop k max_words t in
    round max_words buffer (boundary buffer) next

unfoldable pub push : Text → PhraseTokenizer → List Text × PhraseTokenizer
unfolding push_loop
push delta t =
    let buffer = t.buffer ++ delta in
    let (phrases, rest) = push_loop (length buffer) t.max_words buffer in
    (phrases, record t { buffer = rest })

unfoldable pub finish : PhraseTokenizer → List Text × PhraseTokenizer
unfolding strip
finish t =
    let phrase = strip t.buffer in
    (if is_empty phrase then [] else phrase ∷ [], record t { buffer = [] })
