-- ===== src/Speech/Tests.antt =====
-- The speech filter (latency_lab/llm_output.py) at concrete inputs.
use sales_girl_voice_agent.Common.{◌≡◌, refl, [], ◌++◌, arith, codes}
use sales_girl_voice_agent.Speech.Tags.{
  match_tag, match_name, possible_tag, end_of_tag, rest_of_tag,
}
use sales_girl_voice_agent.Speech.Filter.{
  new_filter, push, push_loop, before_tag, from_tag, on_tag, up_to_last,
}
use sales_girl_voice_agent.Speech.Spoken.{push_stuck, stuck_buffer, push_loop-enough}
use sales_girl_voice_agent.Speech.Hidden.{push-hidden}

thoughts_are_hidden :
    push (codes "Hi <think>no</think>there <b") new_filter ≡ (codes "Hi there <b", new_filter)
unfolding push push_loop before_tag from_tag match_tag match_name possible_tag end_of_tag
    rest_of_tag on_tag up_to_last
thoughts_are_hidden = refl

push_stuck_example :
    push (codes " more>") (record { buffer = stuck_buffer ++ codes " x"; hidden = [] })
    ≡ ([], record { buffer = stuck_buffer ++ (codes " x" ++ codes " more>"); hidden = [] })
push_stuck_example = push_stuck (codes " x") (codes " more>") []

push_loop-enough_example :
    push_loop 2 (record { buffer = codes "a<"; hidden = [] })
    ≡ push_loop 9 (record { buffer = codes "a<"; hidden = [] })
push_loop-enough_example = push_loop-enough 2 9 (codes "a<") [] (omega arith) (omega arith)

push-hidden_example :
    push (codes "<think>" ++ (codes "hm" ++ (codes "</think>" ++ codes "Yes"))) new_filter
    ≡ (codes "Yes", new_filter)
push-hidden_example = push-hidden (codes "hm") (codes "Yes") refl refl
