-- ===== src/Speech/Tags.antt =====
-- The internal tags of latency_lab/llm_output.py: the pattern `_TAG`, and `_possible_tag`.
use sales_girl_voice_agent.Common.{
  ℕ, suc, ◌+◌, Bool, true, false, ◌&&◌, ◌||◌, Option, none, some, List, [], ◌∷◌, ◌++◌, Text, codes,
  any, length, drop, take, lower, starts_with, is_space, ◌==◌, if◌then◌else◌, map,
}

pub data TagName : Type 0 where
  think thinking reasoning tool_call function parameter : TagName

abbrev pub text_of : TagName → Text
text_of think = codes "think"
text_of thinking = codes "thinking"
text_of reasoning = codes "reasoning"
text_of tool_call = codes "tool_call"
text_of function = codes "function"
text_of parameter = codes "parameter"

abbrev pub names : List TagName
names = think ∷ thinking ∷ reasoning ∷ tool_call ∷ function ∷ parameter ∷ []

-- A tag that the pattern matches. `size` counts its characters.
pub record Tag : Type 0 where
  pub closing : Bool
  pub name : TagName
  pub self_closing : Bool
  pub size : ℕ

abbrev add_one : Option ℕ → Option ℕ
add_one none = none
add_one (some n) = some (suc n)

-- `[^<>]*>`: the number of characters that it takes.
unfoldable pub rest_of_tag : Text → Option ℕ
rest_of_tag [] = none
rest_of_tag (c ∷ s) =
    let more = add_one (rest_of_tag s) in if c == 62 then some 1 else if c == 60 then none else more

-- `(?:[=\s/][^<>]*)?>`
unfoldable pub end_of_tag : Text → Option ℕ
unfolding rest_of_tag
end_of_tag [] = none
end_of_tag (c ∷ s) =
    if c == 62
    then some 1
    else if c == 61 || c == 47 || is_space c
    then add_one (rest_of_tag s)
    else none

-- The name at the start of a text, and the characters up to the end of the tag.
unfoldable pub match_name : List TagName → Text → Option (TagName × ℕ)
unfolding end_of_tag
match_name [] s = none
match_name (n ∷ ns) s =
    let size = length (text_of n) in
    let others = match_name ns s in
    if starts_with (text_of n) (lower s)
    then (elim (end_of_tag (drop size s)) [ none ↦ others | some k ↦ some (n, size + k) ])
    else others

abbrev ends_closed : Text → Bool
ends_closed [] = false
ends_closed (c ∷ []) = false
ends_closed (c ∷ d ∷ []) = c == 47 && d == 62
ends_closed (c ∷ d ∷ e ∷ s) = ends_closed (d ∷ e ∷ s)

abbrev pub tag_of : Bool → ℕ → Text → Option (TagName × ℕ) → Option Tag
tag_of closing before buffer none = none
tag_of closing before buffer (some (n, k)) = some (record {
  closing = closing;
  name = n;
  self_closing = ends_closed (take (before + k) buffer);
  size = before + k;
})

abbrev pub is_slash : Text → Bool
is_slash [] = false
is_slash (c ∷ s) = c == 47

-- `_TAG.match(buffer)`, for a buffer that starts with `<`.
unfoldable pub match_tag : Text → Option Tag
unfolding match_name
match_tag buffer =
    if is_slash (drop 1 buffer)
    then tag_of true 2 buffer (match_name names (drop 2 buffer))
    else tag_of false 1 buffer (match_name names (drop 1 buffer))

abbrev prefixes : List Text
prefixes = map (λ n. 60 ∷ text_of n) names ++ map (λ n. 60 ∷ 47 ∷ text_of n) names

-- `text[len(prefix):len(prefix) + 1] in " =/>\t\r\n"`, of which the empty text is a part.
abbrev is_separated : Text → Bool
is_separated [] = true
is_separated (c ∷ s) = c == 32 || c == 61 || c == 47 || c == 62 || c == 9 || c == 13 || c == 10

unfoldable pub possible_tag : Text → Bool
possible_tag buffer =
    let text = lower buffer in
    any
      (λ (prefix : Text).
        starts_with text prefix
        || (starts_with prefix text && is_separated (drop (length prefix) text)))
      prefixes
