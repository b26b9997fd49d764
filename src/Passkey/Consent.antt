-- ===== src/Passkey/Consent.antt =====
-- `start_requested`, `_canon` and `enabled` of latency_lab/passkey.py.
use sales_girl_voice_agent.Common.{
  ℕ, ◌≡◌, refl, Bool, true, false, ◌&&◌, ◌||◌, not, List, [], ◌∷◌, ◌++◌, arith, Text, codes,
  text_eq, any, map, lower, strip, is_empty, leb, ◌==◌, if◌then◌else◌, keep_if, lower_code, ap, ◌∙◌,
}
use mathlib.Core.List.{map-append}

abbrev is_letter : ℕ → Bool
is_letter c = leb b'a' c && leb c b'z'

-- `re.sub(r"[^a-z ]", " ", text.lower())`
abbrev letters : Text → Text
letters s = map (λ c. if is_letter (lower_code c) then lower_code c else 32) s

-- `text.split()`, on a text of letters and blanks. The first argument is the word so far.
words_from : Text → Text → List Text
words_from word [] = if is_empty word then [] else word ∷ []
words_from word (c ∷ s) =
    let next = words_from [] s in
    let longer = words_from (word ++ (c ∷ [])) s in
    if c == 32 then (if is_empty word then next else word ∷ next) else longer

unfoldable pub words : Text → List Text
unfolding words_from
words s = words_from [] (letters s)

abbrev pub refusals : List Text
refusals =
    codes "no"
    ∷ codes "nope"
    ∷ codes "not"
    ∷ codes "dont"
    ∷ codes "stop"
    ∷ codes "wait"
    ∷ codes "hold"
    ∷ codes "cancel"
    ∷ codes "later"
    ∷ []

abbrev pub agreements : List Text
agreements =
    codes "yes"
    ∷ codes "yeah"
    ∷ codes "yep"
    ∷ codes "sure"
    ∷ codes "okay"
    ∷ codes "ok"
    ∷ codes "alright"
    ∷ codes "start"
    ∷ codes "begin"
    ∷ codes "passkey"
    ∷ codes "continue"
    ∷ codes "proceed"
    ∷ []

-- `\b(?:…)\b` between single blanks: a whole word of the list.
abbrev pub has_word : List Text → List Text → Bool
has_word list = any (λ w. any (text_eq w) list)

abbrev pub has_pair : Text → Text → List Text → Bool
has_pair a b [] = false
has_pair a b (w ∷ []) = false
has_pair a b (w ∷ v ∷ ws) = (text_eq w a && text_eq v b) || has_pair a b (v ∷ ws)

abbrev pub agrees : List Text → Bool
agrees ws =
    has_word agreements ws
    || has_pair (codes "go") (codes "ahead") ws
    || has_pair (codes "do") (codes "it") ws
    || has_pair (codes "run") (codes "it") ws
    || has_pair (codes "pass") (codes "key") ws

unfoldable pub start_requested : Text → Bool
start_requested s =
    if is_empty (words s)
    then false
    else if has_word refusals (words s)
    then false
    else agrees (words s)

-- `str(value or "").strip().lower().replace("-", "")`
unfoldable pub canon : Text → Text
canon s = keep_if (λ c. not (c == 45)) (lower (strip s))

-- `setting.split(",")`
split_from : Text → Text → List Text
split_from part [] = part ∷ []
split_from part (c ∷ s) =
    let next = part ∷ split_from [] s in
    let longer = split_from (part ++ (c ∷ [])) s in if c == 44 then next else longer

unfoldable pub configured : Text → List Text
unfolding split_from
configured setting = map canon (keep_if (λ s. not (is_empty (strip s))) (split_from [] setting))

-- The two settings are ATTENTIVE_PASSKEY_REAL_BUSINESS_IDS and ATTENTIVE_PASSKEY_REAL_AGENT_IDS.
unfoldable pub enabled : Text → Text → Text → Text → Bool
enabled business_setting agent_setting business_id config_agent_id =
    any (text_eq (canon business_id)) (configured business_setting)
    && any (text_eq (canon config_agent_id)) (configured agent_setting)

start_requested_lem : (s : Text) → has_word refusals (words s) ≡ true → start_requested s ≡ false
unfolding start_requested
start_requested_lem s h = ground arith

words_from-append :
    (word s t : Text) → words_from word (s ++ (32 ∷ t)) ≡ words_from word s ++ words_from [] t
unfolding words_from
words_from-append word [] t = ground arith
words_from-append word (c ∷ s) t =
    ground (arith, words_from-append [] s t, words_from-append (word ++ (c ∷ [])) s t)

-- A blank parts the words.
words-append : (s t : Text) → words (s ++ (32 ∷ t)) ≡ words s ++ words t
words-append s t =
    unfold words in
    ap (words_from [])
      (map-append (λ c. if is_letter (lower_code c) then lower_code c else 32) s (32 ∷ t))
    ∙ words_from-append [] (letters s) (letters t)

has_word-append :
    (list xs ys : List Text) → has_word list (xs ++ ys) ≡ (has_word list xs || has_word list ys)
has_word-append list [] ys = refl
has_word-append list (x ∷ xs) ys = ground (arith, has_word-append list xs ys)

-- A caller who says a refusing word starts no ceremony, whatever is said before and after it.
pub start_requested_refused :
    (before refusal after : Text)
    → has_word refusals (words refusal) ≡ true
    → start_requested (before ++ (32 ∷ (refusal ++ (32 ∷ after)))) ≡ false
start_requested_refused before refusal after h =
    start_requested_lem (before ++ (32 ∷ (refusal ++ (32 ∷ after)))) (
      rw (words-append before (refusal ++ (32 ∷ after)), words-append refusal after)
        (rw
          (
            has_word-append refusals (words before) (words refusal ++ words after),
            has_word-append refusals (words refusal) (words after),
            h,
          )
          (ground arith)))

-- With either setting empty no caller is enabled.
pub enabled_needs_settings :
    (setting business_id agent_id : Text)
    → (enabled [] setting business_id agent_id ≡ false)
      × (enabled setting [] business_id agent_id ≡ false)
unfolding enabled configured strip
enabled_needs_settings setting business_id agent_id = (refl, ground arith)
