-- ===== src/Speech/Spoken.antt =====
-- What `push` of latency_lab/llm_output.py speaks, and that its loop ends.
use sales_girl_voice_agent.Common.{
  ℕ, zero, suc, ◌≡◌, ◌≤◌, ◌<◌, refl, Bool, true, false, Option, none, some, List, [], ◌∷◌, ◌++◌,
  arith, Text, codes, any, length, drop, is_empty, ◌==◌, Bool-cases, inl, inr, ap, length-drop,
}
use sales_girl_voice_agent.Speech.Tags.{
  TagName, Tag, match_tag, possible_tag, match_name, names, is_slash, tag_of,
}
use sales_girl_voice_agent.Speech.Filter.{
  before_tag, from_tag, on_tag, spoken, with_output, round, push_loop, push,
}

abbrev pub has_tag_start : Text → Bool
has_tag_start = any (λ c. c == 60)

pub before_plain : (s : Text) → has_tag_start s ≡ false → before_tag s ≡ s
unfolding before_tag
before_plain [] h = refl
before_plain (c ∷ s) h = ground (arith, before_plain s)

pub from_plain : (s : Text) → has_tag_start s ≡ false → from_tag s ≡ []
unfolding from_tag
from_plain [] h = refl
from_plain (c ∷ s) h = ground (arith, from_plain s)

spoken_nil : (hidden : List TagName) → spoken hidden [] ≡ []
spoken_nil [] = refl
spoken_nil (h ∷ hs) = refl

-- Outside every tag a text without `<` is spoken whole and at once; inside a tag none of it is.
pub push-plain :
    (text : Text) (hidden : List TagName)
    → has_tag_start text ≡ false
    → push text (record { buffer = []; hidden = hidden })
      ≡ (spoken hidden text, record { buffer = []; hidden = hidden })
unfolding push push_loop
push-plain [] hidden h = rw (spoken_nil hidden) refl
push-plain (c ∷ s) hidden h = rw (before_plain (c ∷ s) h, from_plain (c ∷ s) h) refl

abbrev pub stuck_buffer : Text
stuck_buffer = codes "<think <"

-- Once the buffer begins with `<think <`, nothing more is spoken, whatever the model goes on to write:
-- the buffer keeps all of it.
pub push_stuck :
    (before text : Text) (hidden : List TagName)
    → push text (record { buffer = stuck_buffer ++ before; hidden = hidden })
      ≡ (spoken hidden [], record { buffer = stuck_buffer ++ (before ++ text); hidden = hidden })
unfolding push push_loop before_tag from_tag match_tag possible_tag
push_stuck before text hidden = refl

from_le : (s : Text) → length (from_tag s) ≤ length s
unfolding from_tag
from_le [] = omega arith
from_le (c ∷ s) = elim (Bool-cases (c == 60)) [
  | inl e ↦ rw e (omega arith)
  | inr e ↦ rw e (omega (arith, from_le s))
]

abbrev Sized : Option Tag → Type 0
Sized none = Unit
Sized (some t) = 0 < t.size

match_tag-Sized : (s : Text) → Sized (match_tag s)
unfolding match_tag
match_tag-Sized s = elim (Bool-cases (is_slash (drop 1 s))) [
  | inl e ↦ rw e (go true 1 (match_name names (drop 2 s)))
  | inr e ↦ rw e (go false 0 (match_name names (drop 1 s)))
]
  where
    go : (closing : Bool) (n : ℕ) (o : Option (TagName × ℕ)) → Sized (tag_of closing (suc n) s o)
    go closing n none = tt
    go closing n (some (name, k)) = omega arith

empty_buffer : (s : Text) → length s ≤ 0 → s ≡ []
empty_buffer [] h = refl
empty_buffer (c ∷ s) h = absurd (omega arith)

drop_lt :
    (k n : ℕ) (at : Text) → 0 < k → is_empty at ≡ false → length at ≤ suc n → length (drop k at) ≤ n
drop_lt k n [] h e l = absurd (ground (arith, e))
drop_lt k n (c ∷ s) h e l = omega (arith, length-drop k (c ∷ s))

-- The loop of `push` ends: with at least as many rounds as the buffer has characters, more rounds change
-- nothing.
pub push_loop-enough :
    (n m : ℕ) (buffer : Text) (hidden : List TagName)
    → length buffer ≤ n
    → length buffer ≤ m
    → push_loop n (record { buffer = buffer; hidden = hidden })
      ≡ push_loop m (record { buffer = buffer; hidden = hidden })
unfolding push_loop
push_loop-enough zero zero buffer hidden h k = refl
push_loop-enough zero (suc m) buffer hidden h k =
    rw (empty_buffer buffer h) (unfold before_tag from_tag in rw (spoken_nil hidden) refl)
push_loop-enough (suc n) zero buffer hidden h k =
    rw (empty_buffer buffer k) (unfold before_tag from_tag in rw (spoken_nil hidden) refl)
push_loop-enough (suc n) (suc m) buffer hidden h k =
    let at = from_tag buffer in
    let l = from_le buffer in
    elim (Bool-cases (is_empty at)) [
      | inl e ↦ rw e refl
      | inr e ↦ rw e (
          go (spoken hidden (before_tag buffer)) at e (omega (arith, l)) (omega (arith, l))
            (match_tag at) (match_tag-Sized at) (possible_tag at)
            (λ b hs x y. push_loop-enough n m b hs x y))
    ]
  where
    go :
        (text at : Text)
        → is_empty at ≡ false
        → length at ≤ suc n
        → length at ≤ suc m
        → (o : Option Tag) → Sized o
        → (possible : Bool)
        → ((b : Text) (hs : List TagName)
            → length b ≤ n
            → length b ≤ m
            → push_loop n (record { buffer = b; hidden = hs })
              ≡ push_loop m (record { buffer = b; hidden = hs }))
        → round text at hidden o possible
            (λ t. push_loop n (record { buffer = drop t.size at; hidden = on_tag t hidden }))
            (push_loop n (record { buffer = drop 1 at; hidden = hidden }))
          ≡ round text at hidden o possible
              (λ t. push_loop m (record { buffer = drop t.size at; hidden = on_tag t hidden }))
              (push_loop m (record { buffer = drop 1 at; hidden = hidden }))
    go text at e x y (some t) sized possible same = ap (with_output text) (
        same (drop t.size at) (on_tag t hidden) (drop_lt t.size n at sized e x)
          (drop_lt t.size m at sized e y))
    go text at e x y none sized true same = refl
    go text at e x y none sized false same =
        ap (λ r. with_output text (with_output (spoken hidden (60 ∷ [])) r))
          (same (drop 1 at) hidden (drop_lt 1 n at (omega arith) e x)
            (drop_lt 1 m at (omega arith) e y))
