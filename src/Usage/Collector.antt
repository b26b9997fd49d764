-- ===== src/Usage/Collector.antt =====
-- `UsageCollector` of latency_lab/usage.py. The seconds of speech are kept as bytes of PCM, of which
-- 32000 make one; the fixed text of `measurement_basis` is left out of the snapshot.
use sales_girl_voice_agent.Common.{
  ℕ, ◌+◌, ◌≡◌, Bool, true, ◌&&◌, ◌||◌, not, Option, none, some, List, [], ◌∷◌, ◌++◌, Text, length,
  leb, ◌==◌, if◌then◌else◌, contains, map,
}

-- A value of the provider's report: nothing of use, a Boolean, or an integer with its sign.
pub data Reported : Type 0 where
  absent : Reported
  boolean : Bool → Reported
  negative : ℕ → Reported
  whole : ℕ → Reported

-- The integers from 0 on that are no Booleans.
abbrev pub counted : Reported → Option ℕ
counted (whole n) = some n
counted _ = none

-- A usage report; `details` is `none` where it is no dict.
pub record Report : Type 0 where
  pub prompt_tokens : Reported
  pub completion_tokens : Reported
  pub details : Option Reported

pub record Values : Type 0 where
  pub input : Option ℕ
  pub output : Option ℕ
  pub cached : Option ℕ

-- `llm_requests` is in the order of the dict.
pub record UsageCollector : Type 0 where
  pub revision : ℕ
  pub llm_requests : List (ℕ × Values)
  pub stt_bytes : ℕ
  pub tts_characters : ℕ

abbrev pub new_collector : UsageCollector
new_collector = record { revision = 0; llm_requests = []; stt_bytes = 0; tts_characters = 0 }

abbrev pub no_values : Values
no_values = record { input = none; output = none; cached = none }

unfoldable pub llm_started : UsageCollector → UsageCollector × ℕ
llm_started c =
    let request_id = length c.llm_requests + 1 in
    (
      record c {
        llm_requests = c.llm_requests ++ ((request_id, no_values) ∷ []);
        revision = c.revision + 1;
      },
      request_id,
    )

-- `values.update`, key by key: an observed count replaces the one before.
abbrev pub replace : Option ℕ → Option ℕ → Option ℕ
replace none old = old
replace (some n) old = some n

unfoldable pub updated : Report → Values → Values
updated r v = record {
  input = replace (counted r.prompt_tokens) v.input;
  output = replace (counted r.completion_tokens) v.output;
  cached = replace (elim r.details [ none ↦ none | some d ↦ counted d ]) v.cached;
}

abbrev pub ids : List (ℕ × Values) → List ℕ
ids = map (λ (e : ℕ × Values). e.0)

unfoldable pub update_request : ℕ → Report → List (ℕ × Values) → List (ℕ × Values)
unfolding updated
update_request id r [] = []
update_request id r ((k, v) ∷ rs) =
    if k == id then (k, updated r v) ∷ rs else (k, v) ∷ update_request id r rs

-- A report that is no dict is `none`.
unfoldable pub llm_usage : ℕ → Option Report → UsageCollector → UsageCollector
unfolding update_request
llm_usage id none c = c
llm_usage id (some r) c =
    if contains id (ids c.llm_requests)
    then record c { llm_requests = update_request id r c.llm_requests; revision = c.revision + 1 }
    else c

unfoldable pub stt_submitted : ℕ → UsageCollector → UsageCollector
stt_submitted pcm_bytes c = record c {
  stt_bytes = c.stt_bytes + pcm_bytes;
  revision = c.revision + 1;
}

unfoldable pub tts_accepted : Text → UsageCollector → UsageCollector
tts_accepted text c = record c {
  tts_characters = c.tts_characters + length text;
  revision = c.revision + 1;
}

pub data Status : Type 0 where
  recorded partial unavailable : Status

pub record Total : Type 0 where
  pub total : Option ℕ
  pub status : Status

-- The counts of one field that were observed.
unfoldable pub observed : (Values → Option ℕ) → List (ℕ × Values) → List ℕ
observed field [] = []
observed field ((k, v) ∷ rs) = elim (field v) [
  | none ↦ observed field rs
  | some n ↦ n ∷ observed field rs
]

abbrev pub sum : List ℕ → ℕ
sum [] = 0
sum (n ∷ ns) = n + sum ns

unfoldable pub total_of : (Values → Option ℕ) → List (ℕ × Values) → Total
unfolding observed
total_of field rs =
    let ns = observed field rs in
    record {
      total = if not (length ns == 0) || length rs == 0 then some (sum ns) else none;
      status =
          if length ns == length rs
          then recorded
          else if not (length ns == 0)
          then partial
          else unavailable;
    }

pub record Snapshot : Type 0 where
  pub revision : ℕ
  pub final : Bool
  pub stt_bytes : ℕ
  pub tts_characters : ℕ
  pub input : Total
  pub output : Total
  pub cached : Total
  pub requests : ℕ

unfoldable pub snapshot : Bool → UsageCollector → Snapshot
unfolding total_of
snapshot final c = record {
  revision = c.revision + (if final then 1 else 0);
  final = final;
  stt_bytes = c.stt_bytes;
  tts_characters = c.tts_characters;
  input = total_of (λ v. v.input) c.llm_requests;
  output = total_of (λ v. v.output) c.llm_requests;
  cached = total_of (λ v. v.cached) c.llm_requests;
  requests = length c.llm_requests;
}

-- Ids that are taken: each at most the number of the requests.
abbrev pub below : ℕ → List ℕ → Bool
below n [] = true
below n (k ∷ ks) = leb k n && below n ks

abbrev pub distinct : List ℕ → Bool
distinct [] = true
distinct (k ∷ ks) = not (contains k ks) && distinct ks

pub record IsValid (c : UsageCollector) : Type 0 where
  pub small : below (length c.llm_requests) (ids c.llm_requests) ≡ true
  pub once : distinct (ids c.llm_requests) ≡ true
