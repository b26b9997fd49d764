-- ===== src/Banking/Arguments.antt =====
-- `activity`'s redaction, and `arguments` of latency_lab/banking_tools.py: what a tool call of the
-- model is turned into before it is sent. The validator is that of the package jsonschema: its first
-- error message, if there is one, and a parameter.
use sales_girl_voice_agent.Common.{
  ◌≡◌, refl, Bool, true, false, ◌&&◌, ◌||◌, not, Option, none, some, arith, Text, codes, text_eq,
  Json, str, arr, obj, Fields, end, field, if◌then◌else◌, drop_keys, has_key, put, pop, get, truthy,
  all_keys, all_keys-put, all_keys-pop, get-put_ne, get-pop_ne, inl, inr, Bool-cases, ◌∙◌,
}
use sales_girl_voice_agent.Banking.Records.{auth_fields, is_auth, Schema}

-- The arguments as the client's activity events show them.
unfoldable pub shown_arguments : Text → Fields → Fields
shown_arguments name args =
    let shown = drop_keys auth_fields args in
    if text_eq name (codes "email_provider_results") && has_key (codes "recipient_email") shown
    then put (codes "recipient_email") (str (codes "[redacted]")) shown
    else shown

pub data Checked : Type 0 where
  ready : Fields → Checked
  type_error : Checked
  invalid : Text → Checked

abbrev pub has_auth : Fields → Bool
has_auth end = false
has_auth (field k v fs) = is_auth k || has_auth fs

-- `args.pop("recipient_scope", "self")`
abbrev scope_of : Fields → Option Json
scope_of args = elim (get (codes "recipient_scope") args) [
  | none ↦ some (str (codes "self"))
  | some j ↦ some j
]

abbrev is_text : Text → Option Json → Bool
is_text t (some (str s)) = text_eq s t
is_text t _ = false

-- A list or a dict is no member of a set: the test raises a `TypeError`.
abbrev is_unhashable : Option Json → Bool
is_unhashable (some (arr _)) = true
is_unhashable (some (obj _)) = true
is_unhashable _ = false

-- One round of the loop that fills a missing argument from the caller's profile.
unfoldable pub fill : Text → Text → Fields → Fields → Fields → Fields
fill key profile_key props profile args =
    if has_key key props && not (truthy (get key args))
    then (elim (get profile_key profile) [
      | none ↦ args
      | some j ↦ if truthy (some j) then put key j args else args
    ])
    else args

module _ (first_error : Json → Fields → Option Text) where
  unfoldable pub arguments : Schema → Fields → Fields → Checked
  unfolding fill
  arguments schema profile given =
      let scope = scope_of given in
      let args = pop (codes "recipient_scope") given in
      let with_account =
        fill (codes "source_account") (codes "account_number") schema.properties profile args in
      let filled =
        fill (codes "phone_number") (codes "phone_number") schema.properties profile with_account in
      let checked = first_error schema.whole filled in
      if has_auth given
      then invalid (codes "Authentication flags cannot be supplied by a tool call.")
      else if is_unhashable scope
      then type_error
      else if not (is_text (codes "self") scope || is_text (codes "other") scope)
      then invalid (codes "Choose self or other for the recipient.")
      else if has_key (codes "phone_number") schema.properties
          && not (truthy (get (codes "phone_number") with_account))
          && is_text (codes "other") scope
      then invalid (codes "Ask for the other person's phone number.")
      else (elim checked [ none ↦ ready filled | some message ↦ invalid message ])

no_flags : (fs : Fields) → has_auth fs ≡ false → all_keys (λ k. not (is_auth k)) fs ≡ true
no_flags end h = refl
no_flags (field k v fs) h = ground (arith, no_flags fs)

fill-no_flags :
    (key profile_key : Text) (props profile args : Fields)
    → is_auth key ≡ false
    → all_keys (λ k. not (is_auth k)) args ≡ true
    → all_keys (λ k. not (is_auth k)) (fill key profile_key props profile args) ≡ true
unfolding fill
fill-no_flags key profile_key props profile args h a =
    elim (Bool-cases (has_key key props && not (truthy (get key args)))) [
      | inl e ↦ rw e (go (get profile_key profile))
      | inr e ↦ rw e a
    ]
  where
    go :
        (o : Option Json)
        → all_keys
            (λ k. not (is_auth k))
            (elim o [ none ↦ args | some j ↦ if truthy (some j) then put key j args else args ])
          ≡ true
    go none = a
    go (some j) = elim (Bool-cases (truthy (some j))) [
      | inl e ↦ rw e (all_keys-put (λ k. not (is_auth k)) key j args (rw h refl) a)
      | inr e ↦ rw e a
    ]

-- `fill` touches one key only.
get-fill_ne :
    (key profile_key other : Text) (props profile args : Fields)
    → text_eq key other ≡ false
    → get other (fill key profile_key props profile args) ≡ get other args
unfolding fill
get-fill_ne key profile_key other props profile args h =
    elim (Bool-cases (has_key key props && not (truthy (get key args)))) [
      | inl e ↦ rw e (go (get profile_key profile))
      | inr e ↦ rw e refl
    ]
  where
    go :
        (o : Option Json)
        → get other
            (elim o [ none ↦ args | some j ↦ if truthy (some j) then put key j args else args ])
          ≡ get other args
    go none = refl
    go (some j) = elim (Bool-cases (truthy (some j))) [
      | inl e ↦ rw e (get-put_ne key other j args h)
      | inr e ↦ rw e refl
    ]

module _ (first_error : Json → Fields → Option Text) (schema : Schema)
    (profile given : Fields) where
  prepared_args : Fields
  prepared_args = fill (codes "phone_number") (codes "phone_number") schema.properties profile (
      fill (codes "source_account") (codes "account_number") schema.properties profile
        (pop (codes "recipient_scope") given))

  arguments-ready :
      (args : Fields)
      → arguments first_error schema profile given ≡ ready args
      → (has_auth given ≡ false) × (first_error schema.whole args ≡ none) × (args ≡ prepared_args)
  unfolding arguments prepared_args
  arguments-ready args h = ground arith

  -- The arguments that are sent pass the tool's schema and hold no authentication flag, and apart from
  -- the account, the phone number and the recipient scope they are those of the model's call.
  pub arguments_lem :
      (args : Fields) (k : Text)
      → arguments first_error schema profile given ≡ ready args
      → text_eq (codes "phone_number") k ≡ false
      → text_eq (codes "source_account") k ≡ false
      → text_eq (codes "recipient_scope") k ≡ false
      → (all_keys (λ k. not (is_auth k)) args ≡ true)
        × (first_error schema.whole args ≡ none)
        × (get k args ≡ get k given)
  unfolding prepared_args
  arguments_lem args k h phone account scope =
      let (flagless, fine, e) = arguments-ready args h in
      let popped = pop (codes "recipient_scope") given in
      let with_account =
        fill (codes "source_account") (codes "account_number") schema.properties profile popped in
      (
        rw e (
            fill-no_flags (codes "phone_number") (codes "phone_number") schema.properties profile
              with_account refl
              (fill-no_flags (codes "source_account") (codes "account_number") schema.properties
                profile popped refl
                (all_keys-pop (λ k. not (is_auth k)) (codes "recipient_scope") given
                  (no_flags given flagless)))),
        fine,
        rw e (
            get-fill_ne (codes "phone_number") (codes "phone_number") k schema.properties profile
              with_account phone
            ∙ get-fill_ne (codes "source_account") (codes "account_number") k schema.properties
                profile popped account
            ∙ get-pop_ne (codes "recipient_scope") k given scope),
      )
