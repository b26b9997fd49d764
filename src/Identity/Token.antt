-- ===== src/Identity/Token.antt =====
-- `verify_session_token` of latency_lab/session_identity.py. The keyed digest, the base 64 decoding, the
-- JSON parser and the reading of a time are parameters; a time is a whole number of one unit, of which
-- `minutes3` make the longest life of a token, 180 seconds.
use sales_girl_voice_agent.Common.{
  ℕ, ◌+◌, Bool, false, ◌&&◌, ◌||◌, not, Option, none, some, List, [], ◌∷◌, ◌++◌, Text, codes,
  text_eq, any, all, length, strip, is_empty, leb, ltb, ◌==◌, if◌then◌else◌, Json, str, Fields, get,
}

-- `_used`: the nonces of the calls that were started, with their expiry.
pub record Used : Type 0 where
  pub nonce : Text
  pub expiry : ℕ

-- `token.split(".")`. The first argument is the part so far.
unfoldable pub split_dots : Text → Text → List Text
split_dots part [] = part ∷ []
split_dots part (c ∷ s) =
    let next = split_dots [] s in
    let longer = split_dots (part ++ (c ∷ [])) s in if c == 46 then part ∷ next else longer

abbrev pub two_parts : List Text → Option (Text × Text)
two_parts (a ∷ b ∷ []) = some (a, b)
two_parts _ = none

-- A claim that is a string.
abbrev pub text_claim : Text → Fields → Option Text
text_claim key claims = elim (get key claims) [
  | some j ↦ elim j [ str s ↦ some s | _ ↦ none ]
  | none ↦ none
]

abbrev pub is_scope : Text → Fields → Bool
is_scope key claims = elim (text_claim key claims) [
  | some s ↦ not (is_empty (strip s))
  | none ↦ false
]

abbrev pub is_audience : Fields → Bool
is_audience claims = elim (text_claim (codes "aud") claims) [
  | some s ↦ text_eq s (codes "odion-rvc-tools")
  | none ↦ false
]

abbrev pub nonce_of : Fields → Option Text
nonce_of claims = elim (text_claim (codes "nonce") claims) [
  | some s ↦ if leb 16 (length s) && leb (length s) 128 then some s else none
  | none ↦ none
]

-- The deletion of the nonces that have expired.
unfoldable pub purge : ℕ → List Used → List Used
purge now [] = []
purge now (u ∷ us) = let rest = purge now us in if leb u.expiry now then rest else u ∷ rest

abbrev pub is_used : Text → List Used → Bool
is_used nonce us = any (λ (u : Used). text_eq u.nonce nonce) us

pub record Codec : Type 0 where
  pub digest : Text → Text → Text
  pub decode : Text → Option Text
  pub loads : Text → Option Fields
  pub time_of : Json → Option ℕ
  pub minutes3 : ℕ

module _ (codec : Codec) where
  -- The claims of a token whose signature is right.
  unfoldable pub signed_claims : Text → Text → Option Fields
  unfolding split_dots
  signed_claims token service_token = elim (two_parts (split_dots [] token)) [
    | none ↦ none
    | some (encoded, signature) ↦
        let expected =
          codec.digest (codec.digest service_token (codes "odion-rvc-session-v1")) encoded in
        elim (codec.decode signature) [
          | none ↦ none
          | some given ↦
              if all (λ c. ltb c 128) encoded && text_eq expected given
              then (elim (codec.decode encoded) [ none ↦ none | some text ↦ codec.loads text ])
              else none
        ]
  ]

  abbrev pub expiry_of : Fields → Option ℕ
  expiry_of claims = elim (get (codes "exp") claims) [ none ↦ none | some j ↦ codec.time_of j ]

  -- The nonce and the expiry of claims that pass the tests that do not depend on the time.
  unfoldable pub claim_of : Fields → Option Used
  claim_of claims = elim (expiry_of claims) [
    | none ↦ none
    | some expiry ↦ elim (nonce_of claims) [
      | none ↦ none
      | some nonce ↦
          if is_audience claims
            && is_scope (codes "business_id") claims
            && is_scope (codes "config_agent_id") claims
            && is_scope (codes "end_user_id") claims
          then some (record { nonce = nonce; expiry = expiry })
          else none
    ]
  ]

  -- `now < expiry <= now + 180`
  abbrev pub in_time : ℕ → Option Used → Option Used
  in_time now none = none
  in_time now (some u) =
      if not (leb u.expiry now) && leb u.expiry (now + codec.minutes3) then some u else none

  unfoldable pub admitted : ℕ → Fields → Option Used
  unfolding claim_of
  admitted now claims = in_time now (claim_of claims)

  -- `none` is the `ValueError`.
  unfoldable pub use_nonce : ℕ → Fields → Option Used → List Used → List Used × Option Fields
  unfolding purge
  use_nonce now claims none used = (used, none)
  use_nonce now claims (some u) used =
      let kept = purge now used in
      if is_used u.nonce kept then (kept, none) else (u ∷ kept, some claims)

  unfoldable pub on_claims : ℕ → Option Fields → List Used → List Used × Option Fields
  unfolding admitted use_nonce
  on_claims now none used = (used, none)
  on_claims now (some claims) used = use_nonce now claims (admitted now claims) used

  unfoldable pub verify_session_token : Text → Text → ℕ → List Used → List Used × Option Fields
  unfolding signed_claims on_claims
  verify_session_token token service_token now used =
      if is_empty service_token || not (leb (length token) 16384)
      then (used, none)
      else on_claims now (signed_claims token service_token) used
