-- ===== src/Sip/Called.antt =====
-- Which attributes of a participant decide the called number (latency_lab/sip_bootstrap.py).
use sales_girl_voice_agent.Common.{
  ◌≡◌, refl, Bool, true, false, ◌||◌, not, Option, List, [], ◌∷◌, arith, Text, codes, text_eq,
  text_eq→eq, any, all, is_empty, if◌then◌else◌, Bool-cases, inl, inr, Fields, ap,
}
use sales_girl_voice_agent.Sip.Party.{
  Attributes, put_text, get_text, first_value, called_keys, caller_keys, is_caller_key,
  called_number, other_values, did_route,
}

get-put_other :
    (key k v : Text) (l : Attributes)
    → text_eq k key ≡ false
    → get_text key (put_text k v l) ≡ get_text key l
unfolding get_text put_text
get-put_other key k v [] h = rw h refl
get-put_other key k v ((j, w) ∷ rest) h = elim (Bool-cases (text_eq j k)) [
  | inl e ↦ rw e (rw (text_eq→eq j k e) (rw h refl))
  | inr e ↦ rw e (ap (λ t. if text_eq j key then w else t) (get-put_other key k v rest h))
]

first_value-put :
    (keys : List Text) (k v : Text) (l : Attributes)
    → any (text_eq k) keys ≡ false
    → first_value keys (put_text k v l) ≡ first_value keys l
unfolding first_value
first_value-put [] k v l h = refl
first_value-put (key ∷ keys) k v l h = rw (get-put_other key k v l (ground (arith, h))) (
    ap (λ t. if is_empty (get_text key l) then t else get_text key l)
      (first_value-put keys k v l (ground (arith, h))))

other_values-put :
    (k v : Text) (l : Attributes)
    → is_caller_key k ≡ true
    → other_values (put_text k v l) ≡ other_values l
unfolding other_values put_text
other_values-put k v [] h = rw h refl
other_values-put k v ((j, w) ∷ rest) h = elim (Bool-cases (text_eq j k)) [
  | inl e ↦ rw e (rw (text_eq→eq j k e) (rw h refl))
  | inr e ↦ rw e (
      ap (λ t. if is_caller_key j || text_eq j (codes "sip.trunkid") then t else w ∷ t)
        (other_values-put k v rest h))
]

negated : (b : Bool) → not b ≡ true → b ≡ false
negated b h = ground arith

member_apart :
    (p : Text → Bool) (k : Text) (ks : List Text)
    → any (text_eq k) ks ≡ true
    → all (λ c. not (p c)) ks ≡ true
    → p k ≡ false
member_apart p k [] h a = cc
member_apart p k (c ∷ cs) h a = elim (Bool-cases (text_eq k c)) [
  | inl e ↦ rw (text_eq→eq k c e) (negated (p c) (ground (arith, a)))
  | inr e ↦ member_apart p k cs (rw e at h) (ground (arith, a))
]

caller_key_apart : (k : Text) → is_caller_key k ≡ true → any (text_eq k) called_keys ≡ false
caller_key_apart k h = member_apart (λ c. any (text_eq c) called_keys) k caller_keys h refl

-- The caller's number is never taken for the called one: whatever a caller puts into an attribute of the
-- From number, the route of the called number stays the same.
pub did_route_ignores_caller :
    (did_map : Option Fields) (called_override key value : Text) (lowered : Attributes)
    → is_caller_key key ≡ true
    → did_route did_map called_override (put_text key value lowered)
      ≡ did_route did_map called_override lowered
unfolding did_route called_number
did_route_ignores_caller did_map called_override key value lowered h =
    rw
      (
        first_value-put called_keys key value lowered (caller_key_apart key h),
        other_values-put key value lowered h,
      )
      refl
