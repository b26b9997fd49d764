-- ===== src/Memory/Budget.antt =====
-- `estimated_tokens` of latency_lab/memory.py on lists of messages, and its bound on appended lists.
use sales_girl_voice_agent.Common.{
  ℕ, ◌+◌, ◌/◌, ◌≤◌, ◌≡◌, refl, Option, none, some, List, [], ◌∷◌, ◌++◌, arith, Text, codes, Json,
  json_bytes, str_bytes,
}
use sales_girl_voice_agent.Memory.Turns.{Role, from_user, from_assistant, from_tool, Message}

abbrev role_text : Role → Text
role_text from_user = codes "user"
role_text from_assistant = codes "assistant"
role_text from_tool = codes "tool"

-- One `"key": value` of a dict and the separator after it.
key_bytes : Text → ℕ → ℕ
unfolding str_bytes
key_bytes key value = str_bytes key + 2 + value + 2

content_bytes : Option Text → ℕ
unfolding key_bytes
content_bytes none = key_bytes (codes "content") 4
content_bytes (some s) = key_bytes (codes "content") (str_bytes s)

text_key_bytes : Text → Option Text → ℕ
unfolding key_bytes
text_key_bytes key none = 0
text_key_bytes key (some s) = key_bytes key (str_bytes s)

calls_bytes : Option Json → ℕ
unfolding key_bytes json_bytes
calls_bytes none = 0
calls_bytes (some j) = key_bytes (codes "tool_calls") (json_bytes j)

-- The braces of the dict take the place of the last separator.
unfoldable pub message_bytes : Message → ℕ
unfolding key_bytes content_bytes text_key_bytes calls_bytes
message_bytes m =
    key_bytes (codes "role") (str_bytes (role_text m.role))
    + content_bytes m.content
    + text_key_bytes (codes "reasoning_content") m.reasoning_content
    + calls_bytes m.tool_calls
    + text_key_bytes (codes "tool_call_id") m.tool_call_id

unfoldable pub messages_bytes : List Message → ℕ
unfolding message_bytes
messages_bytes [] = 0
messages_bytes (m ∷ ms) = message_bytes m + 2 + messages_bytes ms

-- `len(json.dumps(list_of_messages, ensure_ascii=False).encode("utf-8"))`
unfoldable pub list_bytes : List Message → ℕ
unfolding messages_bytes
list_bytes [] = 2
list_bytes (m ∷ ms) = messages_bytes (m ∷ ms)

unfoldable pub estimated_tokens : List Message → ℕ
unfolding list_bytes
estimated_tokens ms = (list_bytes ms + 2) / 3

-- `estimated_tokens` of a JSON value that is no list of messages, as the summary.
unfoldable pub estimated_json_tokens : Json → ℕ
unfolding json_bytes
estimated_json_tokens j = (json_bytes j + 2) / 3

messages_bytes-append :
    (xs ys : List Message) → messages_bytes (xs ++ ys) ≡ messages_bytes xs + messages_bytes ys
unfolding messages_bytes
messages_bytes-append [] ys = omega arith
messages_bytes-append (x ∷ xs) ys = omega (arith, messages_bytes-append xs ys)

list_bytes-append : (xs ys : List Message) → list_bytes (xs ++ ys) ≤ list_bytes xs + list_bytes ys
unfolding list_bytes
list_bytes-append [] ys = omega arith
list_bytes-append (x ∷ xs) [] = omega (arith, messages_bytes-append xs [])
list_bytes-append (x ∷ xs) (y ∷ ys) = omega (arith, messages_bytes-append xs (y ∷ ys))

-- Two lists sent together never cost more than their separate estimates.
pub estimated_tokens-append :
    (xs ys : List Message) → estimated_tokens (xs ++ ys) ≤ estimated_tokens xs + estimated_tokens ys
unfolding estimated_tokens
estimated_tokens-append xs ys = omega (arith, list_bytes-append xs ys)

pub estimated_tokens-nil : estimated_tokens [] ≡ 1
unfolding estimated_tokens
estimated_tokens-nil = refl
