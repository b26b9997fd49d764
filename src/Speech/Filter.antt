-- ===== src/Speech/Filter.antt =====
-- `SpokenTextFilter` of latency_lab/llm_output.py. The loop of `push` runs on fuel: every round but the
-- last takes a character off the buffer, so that the buffer's length is enough.
use sales_girl_voice_agent.Common.{
  ℕ, zero, suc, Bool, true, false, Option, none, some, List, [], ◌∷◌, ◌++◌, Text, text_eq, any,
  length, drop, is_empty, ◌==◌, if◌then◌else◌,
}
use sales_girl_voice_agent.Speech.Tags.{TagName, text_of, Tag, match_tag, possible_tag}

-- `hidden` has the newest name first.
pub record SpokenTextFilter : Type 0 where
  pub buffer : Text
  pub hidden : List TagName

abbrev pub new_filter : SpokenTextFilter
new_filter = record { buffer = []; hidden = [] }

-- The buffer up to the first `<`, and from it on.
unfoldable pub before_tag : Text → Text
before_tag [] = []
before_tag (c ∷ s) = let rest = before_tag s in if c == 60 then [] else c ∷ rest

unfoldable pub from_tag : Text → Text
from_tag [] = []
from_tag (c ∷ s) = let rest = from_tag s in if c == 60 then c ∷ s else rest

abbrev same_name : TagName → TagName → Bool
same_name a b = text_eq (text_of a) (text_of b)

-- The hidden names before the last one that is closed, which takes those after it along.
unfoldable pub up_to_last : TagName → List TagName → List TagName
up_to_last n [] = []
up_to_last n (h ∷ hs) = let rest = up_to_last n hs in if same_name h n then hs else rest

unfoldable pub on_tag : Tag → List TagName → List TagName
unfolding up_to_last
on_tag t hidden =
    if t.closing
    then (if any (λ h. same_name h t.name) hidden then up_to_last t.name hidden else hidden)
    else if t.self_closing
    then hidden
    else t.name ∷ hidden

abbrev pub spoken : List TagName → Text → Text
spoken hidden text = if is_empty hidden then text else []

abbrev pub with_output : Text → Text × SpokenTextFilter → Text × SpokenTextFilter
with_output out (more, f) = (out ++ more, f)

-- One round at a buffer `at` that starts with `<`, where `text` stood before it: what follows a tag, or
-- the character past the `<`, is the rest of the loop.
abbrev pub round :
    Text
    → Text
    → List TagName
    → Option Tag
    → Bool
    → (Tag → Text × SpokenTextFilter)
    → Text × SpokenTextFilter
    → Text × SpokenTextFilter
round text at hidden (some t) possible next past = with_output text (next t)
round text at hidden none true next past = (text, record { buffer = at; hidden = hidden })
round text at hidden none false next past =
    with_output text (with_output (spoken hidden (60 ∷ [])) past)

unfoldable pub push_loop : ℕ → SpokenTextFilter → Text × SpokenTextFilter
unfolding before_tag from_tag on_tag match_tag possible_tag
push_loop zero f = ([], f)
push_loop (suc n) f =
    let text = spoken f.hidden (before_tag f.buffer) in
    let at = from_tag f.buffer in
    let next : Tag → Text × SpokenTextFilter =
      λ t. push_loop n (record { buffer = drop t.size at; hidden = on_tag t f.hidden }) in
    let past = push_loop n (record { buffer = drop 1 at; hidden = f.hidden }) in
    if is_empty at
    then (text, record { buffer = []; hidden = f.hidden })
    else round text at f.hidden (match_tag at) (possible_tag at) next past

unfoldable pub push : Text → SpokenTextFilter → Text × SpokenTextFilter
unfolding push_loop
push text f = push_loop (length (f.buffer ++ text)) (record f { buffer = f.buffer ++ text })
