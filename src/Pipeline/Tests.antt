-- ===== src/Pipeline/Tests.antt =====
-- A turn with a speculation that its final confirms, at concrete inputs.
use sales_girl_voice_agent.Common.{
  join_words, ◌≤◌, ◌≡◌, refl, true, false, some, List, [], ◌∷◌, ◌++◌, Text, codes, text_eq, strip,
}
use sales_girl_voice_agent.Pipeline.State.{
  announces, Attempt, current, Config, new_pipeline, caller, accepts_final, sends_chunk,
  sends_partial, stt_commit,
}
use sales_girl_voice_agent.Pipeline.Attempts.{
  cancel_attempt, chunk_arrives, send_audio, start_attempt, release_held,
}
use sales_girl_voice_agent.Pipeline.Transcript.{
  Judge, normalize, on_partial, on_final, stable_after_delay, respond_to_final, is_valid,
}
use sales_girl_voice_agent.Pipeline.Voice.{audio, is_voiced, speech_started, speech_ended}
use sales_girl_voice_agent.Pipeline.Client.{
  Event, step, run, frame, partial, stable, final, chunk, playback_starts, tts_start, announcement,
  announced, announce, announce_chunk,
}
use sales_girl_voice_agent.Pipeline.Hush.{chunks}
use sales_girl_voice_agent.Pipeline.Cancelled.{cancel_attempt-silences}
use sales_girl_voice_agent.Pipeline.Base.{accepted}
use sales_girl_voice_agent.Common.{flatten, length, ltb→lt, ◌+◌, arith, split, split_from}
use sales_girl_voice_agent.Pipeline.Phrases.{
  PhraseTokenizer, push, finish, push_loop, boundary, stop_end,
}
use sales_girl_voice_agent.Pipeline.Whole.{ink, open_clause, push-finish_whole}
use sales_girl_voice_agent.Pipeline.Ends.{push_loop-ends}
use sales_girl_voice_agent.Pipeline.Authority.{finals, one_final_per_turn, audio_after_final}

abbrev config : Config
config = record {
  engagement_enabled = true;
  grace = false;
  records = true;
  uses_sbpn = false;
  speech_rms = 10;
  min_speech_ms = 4;
  end_silence_ms = 4;
  stable_min_chars = 2;
}

abbrev judge : Judge
judge = record { is_echo = λ text. false; is_similar = λ a b. text_eq a b }

abbrev voiced : Event
voiced = frame (0 ∷ 1 ∷ 0 ∷ 1 ∷ [])

abbrev silent : Event
silent = frame (0 ∷ 0 ∷ 0 ∷ 0 ∷ [])

abbrev said : Text
said = codes "my balance"

-- The caller speaks, a reply is prepared on the partial text, and the final confirms it.
abbrev evs : List Event
evs = voiced ∷ partial said ∷ stable ∷ chunk 0 7 ∷ silent ∷ final said ∷ final said ∷ chunk 0 8 ∷ []

log_of_turn :
    (run config judge evs new_pipeline).log
    ≡ sends_chunk (caller 1) 0 8
      ∷ sends_chunk (caller 1) 0 7
      ∷ accepts_final 1 said
      ∷ stt_commit 8
      ∷ sends_partial said
      ∷ []
unfolding run step audio is_voiced speech_started speech_ended on_partial on_final
    stable_after_delay respond_to_final is_valid start_attempt cancel_attempt chunk_arrives
    send_audio release_held normalize strip
log_of_turn = refl

one_final_per_turn_example : finals 1 (run config judge evs new_pipeline).log ≤ 1
one_final_per_turn_example = one_final_per_turn config judge evs 1

audio_after_final_example :
    accepted 1 (accepts_final 1 said ∷ stt_commit 8 ∷ sends_partial said ∷ []) ≡ true
audio_after_final_example =
    audio_after_final config judge evs (sends_chunk (caller 1) 0 8 ∷ [])
      (accepts_final 1 said ∷ stt_commit 8 ∷ sends_partial said ∷ []) 1 0 7 log_of_turn

abbrev spoken : Attempt
spoken = record {
  id = 0;
  hypothesis = said;
  speculative = true;
  authorized = true;
  cancelled = false;
  answer = [];
  held_audio = [];
  audio_complete = false;
  audio_sent = true;
  response_committed = false;
  speech_control = false;
  speech_control_applied = false;
  turn_id = caller 1;
}

spoken_current : current (run config judge evs new_pipeline) ≡ some spoken
unfolding run step audio is_voiced speech_started speech_ended on_partial on_final
    stable_after_delay respond_to_final is_valid start_attempt cancel_attempt chunk_arrives
    send_audio release_held normalize strip
spoken_current = refl

-- Speech over the reply cancels it, and its next chunk is not sent.
barge_in :
    chunks 0
      (run config judge (evs ++ (playback_starts ∷ voiced ∷ chunk 0 9 ∷ [])) new_pipeline).log
    ≡ 2
unfolding run step audio is_voiced speech_started speech_ended on_partial on_final
    stable_after_delay respond_to_final is_valid start_attempt cancel_attempt chunk_arrives
    send_audio release_held normalize strip tts_start
barge_in = refl

cancel_attempt-silences_example :
    chunks 0
      (run config judge
        (chunk 0 9 ∷ [])
        (cancel_attempt false (run config judge evs new_pipeline))).log
    ≡ chunks 0 (cancel_attempt false (run config judge evs new_pipeline)).log
cancel_attempt-silences_example =
    cancel_attempt-silences config judge evs (chunk 0 9 ∷ []) false spoken spoken_current

-- A line of the application is spoken while the caller is, before the final of the turn.
announced_before_final :
    (run config judge (voiced ∷ announcement said ∷ announced 0 5 ∷ []) new_pipeline).log
    ≡ announces (caller 1) 5 ∷ []
unfolding run step audio is_voiced speech_started on_partial cancel_attempt normalize strip announce
    announce_chunk
announced_before_final = refl

abbrev tokenizer : PhraseTokenizer
tokenizer = record { buffer = []; max_words = 24 }

-- Thirty words in two sentences, and a clause that is still open.
abbrev thirty_words : Text
thirty_words =
    codes "One two three four five six seven eight nine ten. "
    ++ (codes "Eleven words and then four and ten more to make it thirty. "
        ++ codes "But the last clause is open")

push-finish_whole_example :
    ink (flatten ((push thirty_words tokenizer).0 ++ (finish (push thirty_words tokenizer).1).0))
    ≡ ink (tokenizer.buffer ++ thirty_words)
unfolding open_clause boundary stop_end split split_from
push-finish_whole_example = push-finish_whole tokenizer thirty_words (ltb→lt _ _ refl)

push_loop-ends_example :
    push_loop (3 + length (codes "Yes. No")) 24 (codes "Yes. No")
    ≡ push_loop (length (codes "Yes. No")) 24 (codes "Yes. No")
push_loop-ends_example = push_loop-ends 3 24 (codes "Yes. No") (omega arith)

-- A long clause after a blank: its last letter stays in the buffer and is spoken again.
repeated_letter :
    push (codes " one two") (record { buffer = []; max_words = 2 })
    ≡ (codes "one two" ∷ [], record { buffer = codes "o"; max_words = 2 })
unfolding push push_loop boundary stop_end split split_from join_words strip
repeated_letter = refl
