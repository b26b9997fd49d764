-- ===== src/Identity/Once.antt =====
-- A bootstrap token (latency_lab/session_identity.py) starts one call.
use sales_girl_voice_agent.Common.{
  ℕ, ◌+◌, ◌≡◌, ◌≤◌, ◌<◌, refl, Bool, true, false, ◌&&◌, ◌||◌, not, Option, none, some, List, [],
  ◌∷◌, arith, Text, text_eq, text_eq_refl, any, length, is_empty, leb, ◌==◌, Fields, Bool-cases,
  inl, inr, ◌⊎◌,
}
use sales_girl_voice_agent.Identity.Token.{
  Used, Codec, purge, is_used, signed_claims, admitted, use_nonce, on_claims, verify_session_token,
  in_time, claim_of,
}

pub record Attempt : Type 0 where
  pub token : Text
  pub service_token : Text
  pub now : ℕ

-- The clock does not go back.
abbrev pub Ascending : ℕ → List Attempt → Type 0
Ascending now [] = Unit
Ascending now (a ∷ ts) = (now ≤ a.now) × Ascending a.now ts

abbrev pub end_of : ℕ → List Attempt → ℕ
end_of now [] = now
end_of now (a ∷ ts) = end_of a.now ts

abbrev is_entry : Used → Used → Bool
is_entry u v = text_eq v.nonce u.nonce && v.expiry == u.expiry

-- A nonce that cannot be used again: it is remembered, or its token has expired.
abbrev Blocked : ℕ → Used → List Used → Type 0
Blocked now u us = (u.expiry ≤ now) ⊎ (any (is_entry u) us ≡ true)

purge-entry :
    (now : ℕ) (u : Used) (us : List Used)
    → now < u.expiry
    → any (is_entry u) us ≡ true
    → any (is_entry u) (purge now us) ≡ true
unfolding purge
purge-entry now u [] h e = e
purge-entry now u (v ∷ vs) h e = elim (Bool-cases (is_entry u v)) [
  | inl x ↦ let live : leb v.expiry now ≡ false = ground arith in rw live (rw x refl)
  | inr x ↦
      let rest = purge-entry now u vs h (rw x at e) in
      elim (Bool-cases (leb v.expiry now)) [ inl y ↦ rw y rest | inr y ↦ rw y (rw x rest) ]
]

purge-Blocked :
    (now later : ℕ) (u : Used) (us : List Used)
    → now ≤ later
    → Blocked now u us
    → Blocked later u (purge later us)
purge-Blocked now later u us h (inl e) = inl (omega arith)
purge-Blocked now later u us h (inr e) = elim (Bool-cases (leb u.expiry later)) [
  | inl x ↦ inl (ground arith)
  | inr x ↦ inr (purge-entry later u us (ground arith) e)
]

more-Blocked : (now : ℕ) (u v : Used) (us : List Used) → Blocked now u us → Blocked now u (v ∷ us)
more-Blocked now u v us (inl e) = inl e
more-Blocked now u v us (inr e) = inr (ground arith)

later-Blocked :
    (now later : ℕ) (u : Used) (us : List Used)
    → now ≤ later
    → Blocked now u us
    → Blocked later u us
later-Blocked now later u us h (inl e) = inl (omega arith)
later-Blocked now later u us h (inr e) = inr e

entry→used : (u : Used) (us : List Used) → any (is_entry u) us ≡ true → is_used u.nonce us ≡ true
entry→used u [] h = h
entry→used u (v ∷ vs) h = ground (arith, entry→used u vs)

module _ (codec : Codec) where
  pub run : List Attempt → List Used → List Used
  run [] used = used
  run (a ∷ ts) used = run ts (verify_session_token codec a.token a.service_token a.now used).0

  use_nonce-Blocked :
      (now later : ℕ) (u : Used) (claims : Fields) (o : Option Used) (us : List Used)
      → now ≤ later
      → Blocked now u us
      → Blocked later u (use_nonce codec later claims o us).0
  unfolding use_nonce
  use_nonce-Blocked now later u claims none us h b = later-Blocked now later u us h b
  use_nonce-Blocked now later u claims (some v) us h b =
      elim (Bool-cases (is_used v.nonce (purge later us))) [
        | inl e ↦ rw e (purge-Blocked now later u us h b)
        | inr e ↦ rw e (more-Blocked later u v (purge later us) (purge-Blocked now later u us h b))
      ]

  on_claims-Blocked :
      (now later : ℕ) (u : Used) (o : Option Fields) (us : List Used)
      → now ≤ later
      → Blocked now u us
      → Blocked later u (on_claims codec later o us).0
  unfolding on_claims
  on_claims-Blocked now later u none us h b = later-Blocked now later u us h b
  on_claims-Blocked now later u (some claims) us h b =
      use_nonce-Blocked now later u claims (admitted codec later claims) us h b

  verify-Blocked :
      (a : Attempt) (now : ℕ) (u : Used) (us : List Used)
      → now ≤ a.now
      → Blocked now u us
      → Blocked a.now u (verify_session_token codec a.token a.service_token a.now us).0
  unfolding verify_session_token
  verify-Blocked a now u us h b =
      elim (Bool-cases (is_empty a.service_token || not (leb (length a.token) 16384))) [
        | inl e ↦ rw e (later-Blocked now a.now u us h b)
        | inr e ↦
            rw e
              (on_claims-Blocked now a.now u (signed_claims codec a.token a.service_token) us h b)
      ]

  run-Blocked :
      (ts : List Attempt) (now : ℕ) (u : Used) (us : List Used)
      → Ascending now ts
      → Blocked now u us
      → Blocked (end_of now ts) u (run ts us)
  unfolding run
  run-Blocked [] now u us h b = b
  run-Blocked (a ∷ ts) now u us h b = run-Blocked ts a.now u _ h.1 (verify-Blocked a now u us h.0 b)

  -- A nonce that starts a call is blocked from then on.
  use_nonce-first :
      (now : ℕ) (claims c : Fields) (u : Used) (us : List Used)
      → (use_nonce codec now claims (some u) us).1 ≡ some c
      → Blocked now u (use_nonce codec now claims (some u) us).0
  unfolding use_nonce
  use_nonce-first now claims c u us h = elim (Bool-cases (is_used u.nonce (purge now us))) [
    | inl e ↦ let refused : ◌≡◌ {A = Option Fields} none (some c) = rw e at h in cc
    | inr e ↦ rw e (inr (rw (text_eq_refl u.nonce) (ground arith)))
  ]

  use_nonce-again :
      (later : ℕ) (claims : Fields) (u : Used) (us : List Used)
      → Blocked later u us
      → (use_nonce codec later claims (in_time codec later (some u)) us).1 ≡ none
  unfolding use_nonce
  use_nonce-again later claims u us b =
      elim (Bool-cases (not (leb u.expiry later) && leb u.expiry (later + codec.minutes3))) [
        | inl e ↦ rw e (go b (ground arith))
        | inr e ↦ rw e refl
      ]
    where
      go :
          Blocked later u us
          → later < u.expiry
          → (use_nonce codec later claims (some u) us).1 ≡ none
      go (inl x) live = absurd (omega arith)
      go (inr x) live = rw (entry→used u (purge later us) (purge-entry later u us live x)) refl

  use_nonce-admitted :
      (now : ℕ) (claims c : Fields) (o : Option Used) (us : List Used)
      → (use_nonce codec now claims (in_time codec now o) us).1 ≡ some c
      → (u : Used) × (o ≡ some u)
        × Blocked now u (use_nonce codec now claims (in_time codec now o) us).0
  use_nonce-admitted now claims c none us h = absurd (refused (unfold use_nonce in h))
    where
      refused : ◌≡◌ {A = Option Fields} none (some c) → ⊥
      refused e = cc
  use_nonce-admitted now claims c (some u) us h =
      elim (Bool-cases (not (leb u.expiry now) && leb u.expiry (now + codec.minutes3))) [
        | inl e ↦ rw e (u, refl, use_nonce-first now claims c u us (rw e at h))
        | inr e ↦
            let refused : ◌≡◌ {A = Option Fields} none (some c) = unfold use_nonce in (rw e at h) in
            cc
      ]

  on_claims-again :
      (now later : ℕ) (o : Option Fields) (c : Fields) (us : List Used)
      → (on_claims codec now o us).1 ≡ some c
      → (u : Used) × Blocked now u (on_claims codec now o us).0
        × ((vs : List Used) → Blocked later u vs → (on_claims codec later o vs).1 ≡ none)
  unfolding on_claims admitted
  on_claims-again now later none c us h = cc
  on_claims-again now later (some claims) c us h =
      let (u, e, b) = use_nonce-admitted now claims c (claim_of codec claims) us h in
      (u, b, λ vs blocked. rw e (use_nonce-again later claims u vs blocked))

  -- A token that has started a call starts no other: whatever tokens are tried afterwards, the same
  -- one is refused, as long as the clock does not go back.
  pub verify_session_token-single_use :
      (token service_token : Text) (now later : ℕ) (used : List Used) (claims : Fields)
      (ts : List Attempt)
      → (verify_session_token codec token service_token now used).1 ≡ some claims
      → Ascending now ts
      → end_of now ts ≤ later
      → (verify_session_token codec token service_token later
          (run ts (verify_session_token codec token service_token now used).0)).1
        ≡ none
  unfolding verify_session_token
  verify_session_token-single_use token service_token now later used claims ts h asc last =
      elim (Bool-cases (is_empty service_token || not (leb (length token) 16384))) [
        | inl e ↦ rw e refl
        | inr e ↦
            let (u, first, again) =
              on_claims-again now later (signed_claims codec token service_token) claims used
                (rw e at h) in
            rw e (
              again _
                (later-Blocked (end_of now ts) later u _ last (run-Blocked ts now u _ asc first)))
      ]
