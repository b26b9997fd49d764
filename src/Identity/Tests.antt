-- ===== src/Identity/Tests.antt =====
-- A bootstrap token (latency_lab/session_identity.py) that is used twice.
use sales_girl_voice_agent.Common.{
  ◌≡◌, refl, none, some, [], ◌∷◌, arith, Text, codes, str, num, Fields, end, field, get, strip,
  ◌++◌,
}
use sales_girl_voice_agent.Identity.Token.{
  Codec, verify_session_token, split_dots, signed_claims, on_claims, admitted, claim_of, use_nonce,
  purge,
}
use sales_girl_voice_agent.Identity.Once.{run, verify_session_token-single_use}

abbrev claims : Fields
claims = field (codes "aud") (str (codes "odion-rvc-tools")) (
    field (codes "exp") (num (codes "100")) (
      field (codes "nonce") (str (codes "0123456789abcdef")) (
        field (codes "business_id") (str (codes "b-1")) (
          field (codes "config_agent_id") (str (codes "a-1"))
            (field (codes "end_user_id") (str (codes "u-1")) end)))))

-- A digest, a decoding and a parser for the one token of the example.
abbrev codec : Codec
codec = record {
  digest = λ key message. key ++ message;
  decode = λ s. some s;
  loads = λ s. some claims;
  time_of = λ j. some 100;
  minutes3 = 180;
}

abbrev token : Text
token = codes "x.kodion-rvc-session-v1x"

starts_a_call : (verify_session_token codec token (codes "k") 50 []).1 ≡ some claims
unfolding verify_session_token split_dots signed_claims on_claims admitted claim_of use_nonce purge
    get strip
starts_a_call = refl

verify_session_token-single_use_example :
    (verify_session_token codec token (codes "k") 70 (
      run codec
        (record { token = codes "a.b"; service_token = codes "k"; now = 60 } ∷ [])
        (verify_session_token codec token (codes "k") 50 []).0)).1
    ≡ none
verify_session_token-single_use_example =
    verify_session_token-single_use codec token (codes "k") 50 70 [] claims
      (record { token = codes "a.b"; service_token = codes "k"; now = 60 } ∷ []) starts_a_call
      (omega arith, tt) (omega arith)
