-- ===== src/Speech/Hidden.antt =====
-- Thoughts between tags (latency_lab/llm_output.py).
use sales_girl_voice_agent.Common.{
  ℕ, suc, ◌≡◌, refl, false, [], ◌∷◌, ◌++◌, arith, Text, codes, length, drop, ap, ◌∙◌,
}
use sales_girl_voice_agent.Speech.Tags.{think, match_tag, possible_tag, match_name, end_of_tag}
use sales_girl_voice_agent.Speech.Filter.{
  SpokenTextFilter, new_filter, before_tag, from_tag, on_tag, up_to_last, with_output, round,
  push_loop, push,
}
use sales_girl_voice_agent.Speech.Spoken.{has_tag_start, before_plain, from_plain}

from_append : (t r : Text) → has_tag_start t ≡ false → from_tag (t ++ (60 ∷ r)) ≡ 60 ∷ r
unfolding from_tag
from_append [] r h = refl
from_append (c ∷ t) r h = ground (arith, from_append t r)

abbrev pub closed : Text → Text
closed u = codes "</think>" ++ u

loop_plain :
    (n : ℕ) (u : Text)
    → has_tag_start u ≡ false
    → push_loop (suc n) (record { buffer = u; hidden = [] }) ≡ (u, new_filter)
unfolding push_loop
loop_plain n u h = rw (before_plain u h, from_plain u h) refl

loop_closing :
    (n : ℕ) (u : Text)
    → round []
        (closed u)
        (think ∷ [])
        (match_tag (closed u))
        (possible_tag (closed u))
        (λ t.
          push_loop n (record { buffer = drop t.size (closed u); hidden = on_tag t (think ∷ []) }))
        (push_loop n (record { buffer = drop 1 (closed u); hidden = think ∷ [] }))
      ≡ with_output [] (push_loop n (record { buffer = u; hidden = [] }))
unfolding match_tag match_name end_of_tag on_tag up_to_last
loop_closing n u = refl

loop_hidden :
    (n : ℕ) (t u : Text)
    → has_tag_start t ≡ false
    → push_loop (suc n) (record { buffer = t ++ closed u; hidden = think ∷ [] })
      ≡ with_output [] (push_loop n (record { buffer = u; hidden = [] }))
unfolding push_loop
loop_hidden n t u h = rw (from_append t (drop 1 (closed u)) h) (loop_closing n u)

with_output_nil : (r : Text × SpokenTextFilter) → with_output [] r ≡ r
with_output_nil (out, f) = refl

-- The fuel that is left after the opening tag.
abbrev after_opening : ℕ → ℕ
after_opening n = suc (suc (suc (suc (suc (suc n)))))

opening :
    (rest : Text)
    → push (codes "<think>" ++ rest) new_filter
      ≡ with_output []
          (push_loop (after_opening (length rest)) (record { buffer = rest; hidden = think ∷ [] }))
unfolding push push_loop before_tag from_tag match_tag match_name end_of_tag on_tag
opening rest = refl

-- One `push`, to a new filter, of exactly `<think>`, a thought, `</think>` and a text, where neither the
-- thought nor the text has a `<` in it: it gives out the text and nothing else, and the filter is again as
-- new, with nothing kept back and no tag open.
pub push-hidden :
    (thought text : Text)
    → has_tag_start thought ≡ false
    → has_tag_start text ≡ false
    → push (codes "<think>" ++ (thought ++ (codes "</think>" ++ text))) new_filter
      ≡ (text, new_filter)
push-hidden thought text h k =
    let rest = thought ++ closed text in
    let n = suc (suc (suc (suc (length rest)))) in
    opening rest
    ∙ ap (with_output [])
        (loop_hidden (suc n) thought text h ∙ ap (with_output []) (loop_plain n text k))
