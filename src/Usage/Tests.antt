-- ===== src/Usage/Tests.antt =====
-- Usage of a session (latency_lab/usage.py), and its theorems at concrete inputs.
use sales_girl_voice_agent.Common.{◌≡◌, refl, true, none, some, [], ◌∷◌, codes}
use sales_girl_voice_agent.Usage.Collector.{
  whole, boolean, Report, UsageCollector, new_collector, llm_started, llm_usage, updated,
  update_request, total_of, observed, partial,
}
use sales_girl_voice_agent.Usage.Reporter.{UsageReporter}

abbrev report : Report
report = record {
  prompt_tokens = whole 120;
  completion_tokens = whole 9;
  details = some (boolean true);
}

-- Two requests, of which the first has reported.
abbrev two_requests : UsageCollector
two_requests = record {
  revision = 3;
  llm_requests =
      (1, record { input = some 120; output = some 9; cached = none })
      ∷ (2, record { input = none; output = none; cached = none })
      ∷ [];
  stt_bytes = 0;
  tts_characters = 0;
}

two_requests_run :
    llm_usage 1 (some report) (llm_started (llm_started new_collector).0).0 ≡ two_requests
unfolding llm_usage llm_started update_request updated
two_requests_run = refl

partial_total :
    total_of (λ v. v.input) two_requests.llm_requests
    ≡ record { total = some 120; status = partial }
unfolding total_of observed
partial_total = refl

abbrev reporter : UsageReporter
reporter = record {
  billing_service_base_url = codes "https://billing.example";
  billing_service_token = codes "t";
  session_id = codes "s-1";
  running = true;
  last_revision = none;
  posted = [];
}
