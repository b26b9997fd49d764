-- ===== src/Usage/Requests.antt =====
-- The requests that `UsageCollector` (latency_lab/usage.py) counts.
use sales_girl_voice_agent.Common.{
  ℕ, suc, ◌+◌, ◌≡◌, ◌≤◌, ◌<◌, refl, Bool, true, false, ◌&&◌, ◌||◌, not, Option, none, some, List,
  [], ◌∷◌, ◌++◌, arith, length, ◌==◌, if◌then◌else◌, Bool-cases, inl, inr, ◌↔◌, contains,
  length-append, ap, all, is_some, ◌∙◌,
}
use sales_girl_voice_agent.Usage.Collector.{
  counted, Report, Values, UsageCollector, no_values, llm_started, replace, updated, ids,
  update_request, llm_usage, recorded, partial, unavailable, observed, sum, total_of, below,
  distinct, IsValid,
}

below-not_contains : (n : ℕ) (ks : List ℕ) → below n ks ≡ true → contains (n + 1) ks ≡ false
below-not_contains n [] h = refl
below-not_contains n (k ∷ ks) h = ground (arith, below-not_contains n ks)

below-append :
    (n : ℕ) (v : Values) (rs : List (ℕ × Values))
    → below n (ids rs) ≡ true
    → below (n + 1) (ids (rs ++ ((n + 1, v) ∷ []))) ≡ true
below-append n v [] h = ground arith
below-append n v ((k, u) ∷ rs) h = ground (arith, below-append n v rs)

contains-append :
    (k n : ℕ) (v : Values) (rs : List (ℕ × Values))
    → k ≤ n
    → contains k (ids rs) ≡ false
    → contains k (ids (rs ++ ((n + 1, v) ∷ []))) ≡ false
contains-append k n v [] h e = ground arith
contains-append k n v ((j, u) ∷ rs) h e = ground (arith, contains-append k n v rs)

distinct-append :
    (n : ℕ) (v : Values) (rs : List (ℕ × Values))
    → below n (ids rs) ≡ true
    → distinct (ids rs) ≡ true
    → distinct (ids (rs ++ ((n + 1, v) ∷ []))) ≡ true
distinct-append n v [] h d = refl
distinct-append n v ((k, u) ∷ rs) h d =
    ground (arith, distinct-append n v rs, contains-append k n v rs)

ids-update : (id : ℕ) (r : Report) (rs : List (ℕ × Values)) → ids (update_request id r rs) ≡ ids rs
unfolding update_request
ids-update id r [] = refl
ids-update id r ((k, v) ∷ rs) = elim (Bool-cases (k == id)) [
  | inl e ↦ rw e refl
  | inr e ↦ rw e (ap (λ ks. k ∷ ks) (ids-update id r rs))
]

length-update :
    (id : ℕ) (r : Report) (rs : List (ℕ × Values)) → length (update_request id r rs) ≡ length rs
unfolding update_request
length-update id r [] = refl
length-update id r ((k, v) ∷ rs) = elim (Bool-cases (k == id)) [
  | inl e ↦ rw e refl
  | inr e ↦ rw e (ap suc (length-update id r rs))
]

-- A new request has an id that no other has, and the ids stay distinct.
pub llm_started-IsValid :
    (c : UsageCollector)
    → IsValid c
    → IsValid (llm_started c).0 × (contains (llm_started c).1 (ids c.llm_requests) ≡ false)
unfolding llm_started
llm_started-IsValid c h =
    let n = length c.llm_requests in
    (
      record {
        small =
            rw (length-append c.llm_requests ((n + 1, no_values) ∷ []))
              (below-append n no_values c.llm_requests h.small);
        once = distinct-append n no_values c.llm_requests h.small h.once;
      },
      below-not_contains n (ids c.llm_requests) h.small,
    )

pub llm_usage-IsValid :
    (id : ℕ) (r : Option Report) (c : UsageCollector) → IsValid c → IsValid (llm_usage id r c)
unfolding llm_usage
llm_usage-IsValid id none c h = h
llm_usage-IsValid id (some r) c h = elim (Bool-cases (contains id (ids c.llm_requests))) [
  | inl e ↦ rw e (record {
    small = rw (length-update id r c.llm_requests, ids-update id r c.llm_requests) h.small;
    once = rw (ids-update id r c.llm_requests) h.once;
  })
  | inr e ↦ rw e h
]

replace-replace : (a b : Option ℕ) → replace a (replace a b) ≡ replace a b
replace-replace none b = refl
replace-replace (some n) b = refl

updated-updated : (r : Report) (v : Values) → updated r (updated r v) ≡ updated r v
unfolding updated
updated-updated r v =
    rw
      (
        replace-replace (counted r.prompt_tokens) v.input,
        replace-replace (counted r.completion_tokens) v.output,
        replace-replace (elim r.details [ none ↦ none | some d ↦ counted d ]) v.cached,
      )
      refl

update-update :
    (id : ℕ) (r : Report) (rs : List (ℕ × Values))
    → update_request id r (update_request id r rs) ≡ update_request id r rs
unfolding update_request
update-update id r [] = refl
update-update id r ((k, v) ∷ rs) = elim (Bool-cases (k == id)) [
  | inl e ↦ rw e (rw e (rw (updated-updated r v) refl))
  | inr e ↦ rw e (rw e (ap (λ l. (k, v) ∷ l) (update-update id r rs)))
]

-- A report that the provider sends twice for one request counts once.
pub llm_usage-llm_usage :
    (id : ℕ) (r : Option Report) (c : UsageCollector)
    → (llm_usage id r (llm_usage id r c)).llm_requests ≡ (llm_usage id r c).llm_requests
unfolding llm_usage
llm_usage-llm_usage id none c = refl
llm_usage-llm_usage id (some r) c = elim (Bool-cases (contains id (ids c.llm_requests))) [
  | inl e ↦ rw e (rw (ids-update id r c.llm_requests) (rw e (update-update id r c.llm_requests)))
  | inr e ↦ rw e (rw e refl)
]

eq_suc : (a b : ℕ) → (suc a == suc b) ≡ (a == b)
eq_suc a b = ground arith

module _ (field : Values → Option ℕ) where
  abbrev pub reported : List (ℕ × Values) → Bool
  reported = all (λ (e : ℕ × Values). is_some (field e.1))

  observed_le : (rs : List (ℕ × Values)) → length (observed field rs) ≤ length rs
  unfolding observed
  observed_le [] = omega arith
  observed_le ((k, v) ∷ rs) = go (field v) (observed_le rs)
    where
      go :
          (o : Option ℕ)
          → length (observed field rs) ≤ length rs
          → length (elim o [ none ↦ observed field rs | some n ↦ n ∷ observed field rs ])
            ≤ suc (length rs)
      go none h = omega arith
      go (some n) h = omega arith

  observed-reported :
      (rs : List (ℕ × Values)) → (length (observed field rs) == length rs) ≡ reported rs
  unfolding observed
  observed-reported [] = refl
  observed-reported ((k, v) ∷ rs) = go (field v) (observed_le rs) (observed-reported rs)
    where
      go :
          (o : Option ℕ)
          → length (observed field rs) ≤ length rs
          → (length (observed field rs) == length rs) ≡ reported rs
          → (length (elim o [ none ↦ observed field rs | some n ↦ n ∷ observed field rs ])
              == suc (length rs))
            ≡ (is_some o && reported rs)
      go none h e = ground arith
      go (some n) h e = eq_suc (length (observed field rs)) (length rs) ∙ e

-- A total is called recorded exactly where every request has reported it, and it is missing exactly
-- where there are requests and none has reported it.
pub total_of_lem :
    (field : Values → Option ℕ) (rs : List (ℕ × Values))
    → (((total_of field rs).status ≡ recorded) ↔ (reported field rs ≡ true))
      × (((total_of field rs).total ≡ none) ↔ ((length (observed field rs) ≡ 0) × (0 < length rs)))
unfolding total_of
total_of_lem field rs =
    let e = observed-reported field rs in
    (
      rw e (as_recorded (reported field rs) (length (observed field rs))),
      as_missing (length (observed field rs)) (length rs) (sum (observed field rs)),
    )
  where
    as_recorded :
        (b : Bool) (n : ℕ)
        → ((if b then recorded else if not (n == 0) then partial else unavailable) ≡ recorded)
          ↔ (b ≡ true)
    as_recorded b n = ground arith

    as_missing :
        (n m total : ℕ)
        → (◌≡◌ {A = Option ℕ} (if not (n == 0) || m == 0 then some total else none) none)
          ↔ ((n ≡ 0) × (0 < m))
    as_missing n m total = ground arith
