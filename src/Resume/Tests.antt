-- ===== src/Resume/Tests.antt =====
-- A caller's history (agent/conversation_memory.py) at concrete inputs.
use sales_girl_voice_agent.Common.{◌≡◌, refl, List, [], Text, codes, strip}
use sales_girl_voice_agent.Resume.Store.{
  Row, Limits, append_message, load_resume_context, normalize_phone, found, context_of,
  context_lines, join_lines, line_of, cut, conversation_id_for,
}
use sales_girl_voice_agent.Resume.Isolation.{append_message-isolated}

abbrev limits : Limits
limits = record { max_context_chars = 20; recent_turns = 2 }

abbrev message : Text → Text → Row
message phone content = record {
  conversation_id = [];
  agent_id = codes "a";
  phone = phone;
  role = codes "User";
  content = content;
}

abbrev rows : List Row
rows =
    append_message (message (codes "+1 23") (codes " hi "))
      (append_message (message (codes "(123)") (codes "hello")) [])

history :
    (load_resume_context limits (codes "a") (codes "123") rows).context_text
    ≡ codes ": hello\nCustomer: hi"
unfolding load_resume_context found context_of context_lines join_lines line_of cut append_message
    normalize_phone strip conversation_id_for
history = refl

append_message-isolated_example :
    load_resume_context limits
      (codes "a")
      (codes "123")
      (append_message (message (codes "124") (codes "x")) rows)
    ≡ load_resume_context limits (codes "a") (codes "123") rows
append_message-isolated_example =
    append_message-isolated limits (codes "a") (codes "123") (message (codes "124") (codes "x"))
      rows (unfold normalize_phone strip in refl)
