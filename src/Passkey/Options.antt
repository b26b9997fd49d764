-- ===== src/Passkey/Options.antt =====
-- `supported_options` of latency_lab/passkey.py: the ceremony options that are forwarded to the app.
use sales_girl_voice_agent.Common.{
  ◌≡◌, refl, Bool, true, false, List, [], ◌∷◌, Text, codes, text_eq, any, Json, null, bool, num,
  str, arr, obj, Fields, end, keep_keys, pop, put, get, all_keys, all_keys-keep, all_keys-put,
  get-put, get-put_ne, Option, some, none, ◌∙◌,
}

abbrev pub option_keys : List Text
option_keys =
    codes "challenge"
    ∷ codes "rp"
    ∷ codes "rpId"
    ∷ codes "user"
    ∷ codes "pubKeyCredParams"
    ∷ codes "excludeCredentials"
    ∷ codes "allowCredentials"
    ∷ codes "authenticatorSelection"
    ∷ codes "attestation"
    ∷ codes "timeout"
    ∷ codes "authenticatorAttachment"
    ∷ codes "userVerification"
    ∷ []

abbrev pub selection_key : Text
selection_key = codes "authenticatorSelection"

abbrev pub selection_keys : List Text
selection_keys =
    codes "residentKey"
    ∷ codes "requireResidentKey"
    ∷ codes "userVerification"
    ∷ codes "authenticatorAttachment"
    ∷ []

unfoldable pub cleaned_selection : Fields → Fields
unfolding keep_keys pop put
cleaned_selection fs = put (codes "userVerification") (str (codes "required")) (
    put (codes "residentKey") (str (codes "required")) (
      pop (codes "authenticatorAttachment")
        (pop (codes "requireResidentKey") (keep_keys selection_keys fs))))

abbrev clean : Option Json → Fields → Fields
clean (some (obj selection)) fs = put selection_key (obj (cleaned_selection selection)) fs
clean _ fs = fs

-- `trim` is the setting ATTENTIVE_PASSKEY_TRIM_OPTIONS. Options that are no dict give `{}`.
unfoldable pub supported_options : Bool → Json → Json
unfolding cleaned_selection get
supported_options true (obj fs) =
    let trimmed = keep_keys option_keys fs in obj (clean (get selection_key trimmed) trimmed)
supported_options false (obj fs) = obj fs
supported_options _ _ = obj end

abbrev pub HasRequired : Option Json → Type 0
HasRequired (some (obj selection)) =
    (get (codes "userVerification") selection ≡ some (str (codes "required")))
    × (get (codes "residentKey") selection ≡ some (str (codes "required")))
HasRequired _ = Unit

cleaned_selection_lem : (fs : Fields) → HasRequired (some (obj (cleaned_selection fs)))
unfolding cleaned_selection
cleaned_selection_lem fs =
    let selected = keep_keys selection_keys fs in
    let popped =
      pop (codes "authenticatorAttachment") (pop (codes "requireResidentKey") selected) in
    (
      get-put (codes "userVerification") (str (codes "required"))
          (put (codes "residentKey") (str (codes "required")) popped),
      get-put_ne (codes "userVerification") (codes "residentKey") (str (codes "required"))
            (put (codes "residentKey") (str (codes "required")) popped) refl
          ∙ get-put (codes "residentKey") (str (codes "required")) popped,
    )

clean_lem :
    (sel : Option Json) (fs : Fields)
    → get selection_key fs ≡ sel
    → all_keys (λ k. any (text_eq k) option_keys) fs ≡ true
    → (all_keys (λ k. any (text_eq k) option_keys) (clean sel fs) ≡ true)
      × HasRequired (get selection_key (clean sel fs))
clean_lem (some (obj selection)) fs e h = (
  all_keys-put (λ k. any (text_eq k) option_keys) selection_key (obj (cleaned_selection selection))
      fs refl h,
  rw (get-put selection_key (obj (cleaned_selection selection)) fs)
      (cleaned_selection_lem selection),
)
clean_lem none fs e h = (h, rw e tt)
clean_lem (some null) fs e h = (h, rw e tt)
clean_lem (some (bool b)) fs e h = (h, rw e tt)
clean_lem (some (num s)) fs e h = (h, rw e tt)
clean_lem (some (str s)) fs e h = (h, rw e tt)
clean_lem (some (arr xs)) fs e h = (h, rw e tt)

-- Trimmed options are a dict with only the keys that the app's checker knows, and where they select
-- an authenticator, user verification and a resident key are required, whatever the bank sent.
pub supported_options_lem :
    (j : Json)
    → (fs : Fields) × (supported_options true j ≡ obj fs)
      × (all_keys (λ k. any (text_eq k) option_keys) fs ≡ true)
      × HasRequired (get selection_key fs)
unfolding supported_options
supported_options_lem (obj fs) =
    let trimmed = keep_keys option_keys fs in
    (
      clean (get selection_key trimmed) trimmed,
      refl,
      (clean_lem (get selection_key trimmed) trimmed refl (all_keys-keep option_keys fs)).0,
      (clean_lem (get selection_key trimmed) trimmed refl (all_keys-keep option_keys fs)).1,
    )
supported_options_lem null = (end, refl, refl, tt)
supported_options_lem (bool b) = (end, refl, refl, tt)
supported_options_lem (num s) = (end, refl, refl, tt)
supported_options_lem (str s) = (end, refl, refl, tt)
supported_options_lem (arr xs) = (end, refl, refl, tt)
