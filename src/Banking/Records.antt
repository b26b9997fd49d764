-- ===== src/Banking/Records.antt =====
-- `bank_records` and `bank_tool_definitions` of latency_lab/banking_tools.py. The check of a JSON
-- schema is that of the package jsonschema, a parameter.
use sales_girl_voice_agent.Common.{
  ◌≡◌, refl, Bool, true, false, ◌||◌, not, Option, none, some, List, [], ◌∷◌, map, arith, Text,
  codes, text_eq, any, all, All, keep_if, is_empty, Json, str, arr, obj, nil, cons, Fields, end,
  field, if◌then◌else◌, drop_keys, has_key, put, all_keys, all_keys-drop, all_keys-put, inl, inr,
  Bool-cases, lower,
}

abbrev pub bank_tools : List Text
bank_tools =
    codes "wema_get_balance"
    ∷ codes "wema_get_transactions"
    ∷ codes "wema_list_data_plans"
    ∷ codes "wema_list_transfer_banks"
    ∷ codes "wema_prepare_data_purchase"
    ∷ codes "wema_prepare_airtime_purchase"
    ∷ codes "wema_prepare_transfer"
    ∷ codes "wema_execute_prepared"
    ∷ []

abbrev pub auth_fields : List Text
auth_fields =
    codes "authenticated"
    ∷ codes "auth_status"
    ∷ codes "skip_auth"
    ∷ codes "voice_auth_authorized"
    ∷ []

abbrev pub is_auth : Text → Bool
is_auth k = any (text_eq k) auth_fields

-- A request schema: its `properties`, its `required` names, and the schema as a value.
pub record Schema : Type 0 where
  pub properties : Fields
  pub required : List Text
  pub whole : Json

-- The parts of the tool's URL by `urlsplit`.
pub record Url : Type 0 where
  pub scheme : Text
  pub netloc : Text
  pub has_username : Bool

-- A tool of the agent's configuration. A schema that is no dict is `none`.
pub record Tool : Type 0 where
  pub name : Text
  pub description : Text
  pub is_active : Bool
  pub url : Url
  pub method : Text
  pub request_schema : Option Schema

abbrev is_http : Text → Bool
is_http s = text_eq s (codes "http") || text_eq s (codes "https")

-- `text.upper() == "POST"`
abbrev is_post : Text → Bool
is_post s = text_eq (lower s) (codes "post")

module _ (check_schema : Json → Bool) where
  -- The tests of the loop of `bank_records`: the schema of a tool that passes them all.
  unfoldable pub usable : Tool → Option Schema
  usable t =
      if not (any (text_eq t.name) bank_tools) || not t.is_active
      then none
      else if not (is_http t.url.scheme) || is_empty t.url.netloc || t.url.has_username
      then none
      else if not (is_post t.method)
      then none
      else (elim t.request_schema [
        | none ↦ none
        | some s ↦ if check_schema s.whole then some s else none
      ])

-- `records[name] = tool`
unfoldable pub put_record : Tool → Schema → List (Tool × Schema) → List (Tool × Schema)
put_record t s [] = (t, s) ∷ []
put_record t s ((u, r) ∷ rs) =
    if text_eq u.name t.name then (t, s) ∷ rs else (u, r) ∷ put_record t s rs

module _ (check_schema : Json → Bool) where
  unfoldable pub records_from : List (Tool × Schema) → List Tool → List (Tool × Schema)
  unfolding put_record usable
  records_from rs [] = rs
  records_from rs (t ∷ ts) =
      records_from (elim (usable check_schema t) [ none ↦ rs | some s ↦ put_record t s rs ]) ts

  unfoldable pub bank_records : List Tool → List (Tool × Schema)
  unfolding records_from
  bank_records tools = records_from [] tools

-- A function definition for the model.
pub record Definition : Type 0 where
  pub name : Text
  pub description : Text
  pub properties : Fields
  pub required : List Text

abbrev recipient_scope : Json
recipient_scope = obj (
    field (codes "type") (str (codes "string")) (
      field (codes "enum") (arr (cons (str (codes "self")) (cons (str (codes "other")) nil))) (
        field (codes "description")
          (str (
            codes
              "Use self for the caller's own line, other for another person. Other requires their phone_number."))
          end)))

-- The keys that are not required of the model.
abbrev pub supplied : List Text
supplied = codes "source_account" ∷ codes "phone_number" ∷ auth_fields

unfoldable pub definition : Tool × Schema → Definition
definition (t, s) =
    let props = drop_keys auth_fields s.properties in
    record {
      name = t.name;
      description = if is_empty t.description then t.name else t.description;
      properties =
          if has_key (codes "phone_number") props
          then put (codes "recipient_scope") recipient_scope props
          else props;
      required = keep_if (λ k. not (any (text_eq k) supplied)) s.required;
    }

unfoldable pub bank_tool_definitions : (Json → Bool) → List Tool → List Definition
unfolding bank_records definition
bank_tool_definitions check_schema tools = map definition (bank_records check_schema tools)

-- What is advertised: a bank tool of a usable record, and no authentication flag in its parameters.
pub record IsSafe (check_schema : Json → Bool) (d : Definition) : Type 0 where
  pub bank_tool : any (text_eq d.name) bank_tools ≡ true
  pub no_flags : all_keys (λ k. not (is_auth k)) d.properties ≡ true
  pub none_required : all (λ k. not (any (text_eq k) supplied)) d.required ≡ true

all-keep_if : (p : Text → Bool) (ks : List Text) → all p (keep_if p ks) ≡ true
all-keep_if p [] = refl
all-keep_if p (k ∷ ks) = ground (arith, all-keep_if p ks)

module _ (check_schema : Json → Bool) where
  usable-bank :
      (t : Tool) (s : Schema)
      → usable check_schema t ≡ some s
      → any (text_eq t.name) bank_tools ≡ true
  usable-bank t s h = unfold usable in ground arith

  definition-IsSafe :
      (t : Tool) (s : Schema)
      → any (text_eq t.name) bank_tools ≡ true
      → IsSafe check_schema (definition (t, s))
  definition-IsSafe t s h =
      unfold definition in
      record {
        bank_tool = h;
        no_flags = go (has_key (codes "phone_number") (drop_keys auth_fields s.properties));
        none_required = all-keep_if (λ k. not (any (text_eq k) supplied)) s.required;
      }
    where
      go :
          (b : Bool)
          → all_keys
              (λ k. not (is_auth k))
              (if b
                then put
                    (codes "recipient_scope")
                    recipient_scope
                    (drop_keys auth_fields s.properties)
                else drop_keys auth_fields s.properties)
            ≡ true
      go true =
          all_keys-put (λ k. not (is_auth k)) (codes "recipient_scope") recipient_scope
            (drop_keys auth_fields s.properties) refl (all_keys-drop auth_fields s.properties)
      go false = all_keys-drop auth_fields s.properties

  abbrev AllBank : List (Tool × Schema) → Type 0
  AllBank rs = All (λ (r : Tool × Schema). any (text_eq r.0.name) bank_tools ≡ true) rs

  AllBank-put :
      (t : Tool) (s : Schema) (rs : List (Tool × Schema))
      → any (text_eq t.name) bank_tools ≡ true
      → AllBank rs
      → AllBank (put_record t s rs)
  unfolding put_record
  AllBank-put t s [] h a = (h, tt)
  AllBank-put t s ((u, r) ∷ rs) h a = elim (Bool-cases (text_eq u.name t.name)) [
    | inl e ↦ rw e (h, a.1)
    | inr e ↦ rw e (a.0, AllBank-put t s rs h a.1)
  ]

  AllBank-from :
      (ts : List Tool) (rs : List (Tool × Schema))
      → AllBank rs
      → AllBank (records_from check_schema rs ts)
  unfolding records_from
  AllBank-from [] rs a = a
  AllBank-from (t ∷ ts) rs a = AllBank-from ts _ (go (usable check_schema t) refl)
    where
      go :
          (o : Option Schema)
          → usable check_schema t ≡ o
          → AllBank (elim o [ none ↦ rs | some s ↦ put_record t s rs ])
      go none e = a
      go (some s) e = AllBank-put t s rs (usable-bank t s e) a

  definitions-IsSafe :
      (rs : List (Tool × Schema)) → AllBank rs → All (IsSafe check_schema) (map definition rs)
  definitions-IsSafe [] a = tt
  definitions-IsSafe ((t, s) ∷ rs) a = (definition-IsSafe t s a.0, definitions-IsSafe rs a.1)

  -- Every function that is advertised to the model is one of the eight bank tools, none of its
  -- parameters is an authentication flag, and neither such a flag nor the caller's own account or
  -- phone number is required of the model.
  pub bank_tool_definitions-IsSafe :
      (tools : List Tool) → All (IsSafe check_schema) (bank_tool_definitions check_schema tools)
  bank_tool_definitions-IsSafe tools =
      unfold bank_tool_definitions bank_records in
      definitions-IsSafe (records_from check_schema [] tools) (AllBank-from tools [] tt)
