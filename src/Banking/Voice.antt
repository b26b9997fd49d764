-- ===== src/Banking/Voice.antt =====
-- The voice checks of latency_lab/banking_tools.py: the caller's audio, the session's status, and the
-- authorization of one action. The answers of the verification sidecar are arguments.
use sales_girl_voice_agent.Common.{
  ℕ, ◌+◌, ◌-◌, ◌≤◌, ◌≡◌, Bool, true, false, ◌&&◌, ◌||◌, not, Option, List, ◌++◌, arith, Text, codes,
  is_empty, strip, length, drop, ltb, leb, ◌==◌, if◌then◌else◌, Fields, length-drop, ◌↔◌, ◌⊎◌, inl,
  inr, refl, none, some,
}
use sales_girl_voice_agent.Banking.Records.{Tool, Schema}

pub data SessionStatus : Type 0 where
  pending verified failed : SessionStatus

abbrev pub is_verified : SessionStatus → Bool
is_verified verified = true
is_verified _ = false

-- A prepared operation: the data of its preview.
pub record Prepared : Type 0 where
  pub operation_id : Text
  pub preview : Fields

-- `identity_known` is the truth of the identity dict, `has_owner` and `has_sidecar` that of the owner
-- and of the sidecar's address, and `monitored` says that the monitor task runs.
pub record BankingTools : Type 0 where
  pub voice_auth_required : Bool
  pub identity_known : Bool
  pub profile : Fields
  pub customer : Text
  pub has_owner : Bool
  pub has_sidecar : Bool
  pub records : List (Tool × Schema)
  pub session_status : SessionStatus
  pub generation : ℕ
  pub checked_generation : ℕ
  pub clip : List ℕ
  pub audio_buffer : List ℕ
  pub prepared : Option Prepared
  pub monitored : Bool
  pub last_reason : Text

-- Eight seconds of 16 kHz audio in 16 bits.
abbrev pub window : ℕ
window = 256000

-- 1.2 seconds.
abbrev pub min_clip : ℕ
min_clip = 38400

-- `del buffer[:-n]`
unfoldable pub keep_last : ℕ → List ℕ → List ℕ
keep_last n xs = drop (length xs - n) xs

abbrev can_monitor : BankingTools → Bool
can_monitor b = b.voice_auth_required && not (is_empty b.records) && b.identity_known

-- `_ensure_monitor`
unfoldable pub ensure_monitor : BankingTools → BankingTools
ensure_monitor b = if can_monitor b then record b { monitored = true } else b

unfoldable pub ingest_pcm : List ℕ → BankingTools → BankingTools
unfolding ensure_monitor
ingest_pcm pcm b =
    if b.voice_auth_required
    then ensure_monitor (record b { audio_buffer = keep_last window (b.audio_buffer ++ pcm) })
    else b

-- The flag says that a session check of the new clip is started.
unfoldable pub utterance : List ℕ → BankingTools → BankingTools × Bool
utterance pcm b =
    if b.voice_auth_required
    then (
      record b {
        generation = b.generation + 1;
        clip = if is_empty b.audio_buffer then keep_last window pcm else b.audio_buffer;
      },
      not (is_empty b.records) && b.identity_known && not (is_verified b.session_status),
    )
    else (b, false)

pub record VoiceResult : Type 0 where
  pub matched : Bool
  pub reason : Text

-- `compare`. `none` is a request to the sidecar that failed.
unfoldable pub compare_clip : BankingTools → List ℕ → Option VoiceResult → VoiceResult
compare_clip b clip reply =
    if not (b.has_owner || not (is_empty (strip b.customer)))
      || not b.has_sidecar
      || ltb (length clip) min_clip
    then record { matched = false; reason = codes "audio_too_short_or_not_enrolled" }
    else (elim reply [
      | none ↦ record { matched = false; reason = codes "voice_verification_unavailable" }
      | some r ↦ r
    ])

abbrev status_of : Bool → SessionStatus
status_of true = verified
status_of false = failed

-- `check_session`, which holds the lock from its guards to its writes.
unfoldable pub check_session : ℕ → List ℕ → Option VoiceResult → BankingTools → BankingTools
unfolding compare_clip
check_session generation clip reply b =
    let result = compare_clip b clip reply in
    if not b.voice_auth_required
      || is_verified b.session_status
      || leb generation b.checked_generation
    then b
    else record b {
      checked_generation = generation;
      session_status = status_of result.matched;
      last_reason = result.reason;
    }

-- `_periodic_check` of the monitor.
unfoldable pub periodic_check : List ℕ → Option VoiceResult → BankingTools → BankingTools
unfolding compare_clip
periodic_check clip reply b =
    let result = compare_clip b clip reply in
    record b { session_status = status_of result.matched; last_reason = result.reason }

-- `authorize` up to its first wait: decided at once, or the generation and the clip to check.
pub data Authorizing : Type 0 where
  decided : Bool → Authorizing
  checks : ℕ → List ℕ → Authorizing

unfoldable pub authorize_start : BankingTools → Authorizing
authorize_start b =
    if not b.identity_known
    then decided false
    else if not b.voice_auth_required
    then decided true
    else if b.generation == 0
    then decided false
    else checks b.generation b.clip

-- `authorize` after `check_session` and its own comparison: what it returns.
unfoldable pub authorize_end : ℕ → List ℕ → Option VoiceResult → BankingTools → Bool
unfolding compare_clip
authorize_end generation clip reply b =
    let result = compare_clip b clip reply in
    is_verified b.session_status && (result.matched && generation == b.generation)

length-keep_last : (n : ℕ) (xs : List ℕ) → length (keep_last n xs) ≤ n
unfolding keep_last
length-keep_last n xs = omega (arith, length-drop (length xs - n) xs)

-- The audio that is kept, and the clip that is checked.
pub record IsBounded (b : BankingTools) : Type 0 where
  pub small_buffer : length b.audio_buffer ≤ window
  pub small_clip : length b.clip ≤ window

-- However much audio arrives, neither the buffer nor the clip of an utterance outgrows eight seconds.
pub ingest-IsBounded :
    (pcm : List ℕ) (b : BankingTools)
    → IsBounded b
    → IsBounded (ingest_pcm pcm b) × IsBounded (utterance pcm b).0
unfolding ingest_pcm utterance
ingest-IsBounded pcm b h = (
  ground (arith, length-keep_last window (b.audio_buffer ++ pcm), h.small_buffer, h.small_clip),
  ground (arith, length-keep_last window pcm, h.small_buffer, h.small_clip),
)

-- `authorize` as a whole: its state as it begins, and that after its waits.
unfoldable pub authorize : BankingTools → Option VoiceResult → BankingTools → Bool
unfolding authorize_start authorize_end
authorize b reply b' = elim (authorize_start b) [
  | decided passed ↦ passed
  | checks generation clip ↦ authorize_end generation clip reply b'
]

abbrev pub Matched : Option VoiceResult → Type 0
Matched none = ⊥
Matched (some r) = r.matched ≡ true

-- What a passed voice check rests on: `b` as it begins, `b'` as it ends.
pub record IsAuthorized (b : BankingTools) (reply : Option VoiceResult) (b' : BankingTools)
    : Type 0 where
  pub spoken : (b.generation == 0) ≡ false
  pub session : b'.session_status ≡ verified
  pub current : b.generation ≡ b'.generation
  pub known_voice : (b'.has_owner || not (is_empty (strip b'.customer))) ≡ true
  pub sidecar : b'.has_sidecar ≡ true
  pub long_enough : min_clip ≤ length b.clip
  pub matched : Matched reply

authorize_end_iff :
    (b b' : BankingTools) (reply : Option VoiceResult)
    → (b.generation == 0) ≡ false
    → (authorize_end b.generation b.clip reply b' ≡ true) ↔ IsAuthorized b reply b'
unfolding authorize_end
authorize_end_iff b b' (some r) h = (λ e. ground arith, λ a. ground arith)
authorize_end_iff b b' none h = (λ e. absurd (ground arith), λ a. absurd a.matched)

pub authorize_iff :
    (b : BankingTools) (reply : Option VoiceResult) (b' : BankingTools)
    → (authorize b reply b' ≡ true) ↔ (
        (b.identity_known ≡ true)
        × ((b.voice_auth_required ≡ false)
            ⊎ ((b.voice_auth_required ≡ true) × IsAuthorized b reply b')))
unfolding authorize authorize_start
authorize_iff b reply b' = go b.identity_known b.voice_auth_required (b.generation == 0) refl
  where
    go :
        (known required silent : Bool)
        → (b.generation == 0) ≡ silent
        → ((elim (if not known
              then decided false
              else if not required
              then decided true
              else if silent
              then decided false
              else checks b.generation b.clip) [
                | decided passed ↦ passed
                | checks generation clip ↦ authorize_end generation clip reply b'
              ])
            ≡ true)
          ↔ ((known ≡ true) × ((required ≡ false) ⊎ ((required ≡ true) × IsAuthorized b reply b')))
    go false required silent s =
        (λ e. absurd (ground (arith, e)), λ a. absurd (ground (arith, a.0)))
    go true false silent s = (λ e. (refl, inl refl), λ a. refl)
    go true true true s = (
      λ e. absurd (ground (arith, e)),
      λ a. elim a.1 [
        | inl f ↦ absurd (ground (arith, f))
        | inr f ↦ absurd (ground (arith, s, f.1.spoken))
      ],
    )
    go true true false s =
        let ended = authorize_end_iff b b' reply s in
        (
          λ e. (refl, inr (refl, ended.0 e)),
          λ a. elim a.1 [ inl f ↦ absurd (ground (arith, f)) | inr f ↦ ended.1 f.1 ],
        )
