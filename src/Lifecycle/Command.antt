-- ===== src/Lifecycle/Command.antt =====
-- The check of a lifecycle command (ztd-lifecycle.js, `validate`). The regular expressions are
-- written out as tests on the characters.
use facis_zero_trust_demonst.Base.{
  ℕ, String, Bool, true, false, ◌&&◌, ◌||◌, not, Option, none, some, List, [], ◌∷◌, if◌then◌else◌,
  leb, nat_eq, ◌==◌, Dict, insert, includes, Value, Fields, keys, get, as_string, as_object,
  is_text, text_length, is_lower, is_digit, every_char, obj, arr, str, end, is_empty, is_none, suc,
}
use Prim.Native.Char.{code}

abbrev pub is_alphanumeric : ℕ → Bool
is_alphanumeric c = is_lower c || is_digit c

abbrev pub is_label_char : ℕ → Bool
is_label_char c = nat_eq c b'-' || is_alphanumeric c

-- The last character is a letter or a digit; the empty text passes.
unfoldable pub ends_well : String → Bool
ends_well String.[] = true
ends_well (String.◌∷◌ c s) = if is_empty s then is_alphanumeric (code c) else ends_well s

-- `[a-z0-9]([-a-z0-9]{0,n}[a-z0-9])?` on the whole text.
unfoldable pub is_label : ℕ → String → Bool
is_label n String.[] = false
is_label n (String.◌∷◌ c s) =
    is_alphanumeric (code c)
    && every_char is_label_char s
    && ends_well s
    && leb (text_length s) (suc n)

unfoldable pub dns_label : String → Bool
dns_label s = is_label 61 s

unfoldable pub release_label : String → Bool
release_label s = is_label 51 s

-- The properties of `command && typeof command === 'object'`; an array has none of those read here.
unfoldable pub members : Value → Option Fields
members (obj fs) = some fs
members (arr _) = some end
members _ = none

-- `fields[key] = message` where a test fails. Setting `__proto__` to a text does nothing.
unfoldable pub note : Bool → String → String → Dict Value → Dict Value
note bad key message fields =
    if bad && not (key == "__proto__") then insert key (str message) fields else fields

abbrev pub is_some_text : (String → Bool) → Value → Bool
is_some_text p v = elim (as_string v) [ none ↦ false | some s ↦ p s ]

abbrev pub usable_id : String → Bool
usable_id s = leb 1 (text_length s) && leb (text_length s) 128

abbrev pub known_action : Value → Bool
known_action v = is_text v "deploy" || is_text v "uninstall"

abbrev pub parameters : List String
parameters = "release" ∷ "namespace" ∷ "chart" ∷ "values" ∷ []

unfoldable pub unknown_parameters : List String → Dict Value → Dict Value
unknown_parameters [] fields = fields
unknown_parameters (key ∷ rest) fields =
    unknown_parameters rest
      (note (not (includes parameters key)) key "is not a known parameter" fields)

abbrev pub is_object : Value → Bool
is_object v = not (is_none (as_object v))

unfoldable pub deploy_errors : Fields → Dict Value → Dict Value
deploy_errors payload fields =
    note (not (is_object (get "values" payload))) "values" "is required for deploy: an object" (
      note (not (is_some_text (λ s. not (is_empty s)) (get "chart" payload))) "chart"
        "is required for deploy" fields)

unfoldable pub payload_errors : Value → Fields → Dict Value → Dict Value
payload_errors action payload fields =
    let named =
      note (not (is_some_text dns_label (get "namespace" payload))) "namespace"
        "is required: a DNS-1123 label"
        (note (not (is_some_text release_label (get "release" payload))) "release"
          "is required: a DNS-1123 label of at most 53 characters"
          (unknown_parameters (keys payload) fields)) in
    if is_text action "deploy" then deploy_errors payload named else named

unfoldable pub command_errors : Fields → Dict Value
command_errors command =
    note (not (is_some_text usable_id (get "requestId" command))) "requestId"
      "must be a string of 1 to 128 characters"
      (note (not (known_action (get "action" command))) "action" "must be deploy or uninstall"
        (note (not (is_text (get "type" command) "command")) "type" "must be \"command\"" []))

unfoldable pub validate : Value → Dict Value
validate command = elim (members command) [
  | none ↦ ("command", str "must be an object") ∷ []
  | some fs ↦ elim (as_object (get "payload" fs)) [
    | none ↦ note true "payload" "must be an object" (command_errors fs)
    | some payload ↦ payload_errors (get "action" fs) payload (command_errors fs)
  ]
]
