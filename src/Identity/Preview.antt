-- ===== src/Identity/Preview.antt =====
-- The preview of a change of the configuration, and the role of a user (`validateConfigChange` and
-- `role` in identity-on-start.js). `{...p}` is kept as the payload that it copies.
use facis_zero_trust_demonst.Base.{
  ℕ, zero, suc, String, Bool, false, ◌&&◌, ◌||◌, not, Option, none, some, List, [], ◌∷◌,
  if◌then◌else◌, ◌==◌, Value, Fields, Items, arr, nil, cons, as_string, as_object, is_text,
  property, get, key_of, keys, includes, all, length, nat_eq, leb, text_length, is_empty, trim,
  every_char, starts_with, is_digit,
}

pub data Role : Type 0 where
  operator : Role
  observer : Role

-- `roles.includes(name)` on the items of an array.
unfoldable pub has_text : String → Items → Bool
has_text name nil = false
has_text name (cons v vs) = is_text v name || has_text name vs

abbrev pub items_of : Value → Items
items_of (arr vs) = vs
items_of _ = nil

-- One of the two roles, and not both.
unfoldable pub role : Fields → Option Role
role claims =
    let roles = items_of (property "roles" (get "realm_access" claims)) in
    let is_operator = has_text "ztd-operator" roles in
    let is_observer = has_text "ztd-observer" roles in
    if is_operator
    then if is_observer then none else some operator
    else if is_observer
    then some observer
    else none

-- `exact(v, keys)`
unfoldable pub exact : Value → List String → Bool
exact v names = elim (as_object v) [
  | none ↦ false
  | some fs ↦ nat_eq (length (keys fs)) (length names) && all (includes (keys fs)) names
]

unfoldable pub targets : String → List String
targets kind =
    if kind == "trust-zone"
    then "zone-a" ∷ "zone-b" ∷ []
    else if kind == "policy-ref"
    then "guard-a" ∷ "guard-b" ∷ []
    else if kind == "measurement"
    then "zone-a-gateway" ∷ "zone-b-gateway" ∷ []
    else if kind == "mock-replacement"
    then "participant-backend" ∷ "protected-resource" ∷ []
    else []

-- The target, where it is one of those of the kind.
unfoldable pub target_of : Value → Value → Option String
target_of kind target = elim (key_of kind) [
  | none ↦ none
  | some name ↦ elim (as_string target) [
    | none ↦ none
    | some text ↦ if includes (targets name) text then some text else none
  ]
]

abbrev is_hex : ℕ → Bool
is_hex c = is_digit c || (leb b'a' c && leb c b'f') || (leb b'A' c && leb c b'F')

abbrev after : ℕ → String → String
after n String.[] = ""
after zero s = s
after (suc n) (String.◌∷◌ c s) = after n s

-- `/^sha256:[0-9a-fA-F]{64}$/`
unfoldable pub is_digest : Value → Bool
is_digest v = elim (as_string v) [
  | none ↦ false
  | some s ↦ starts_with "sha256:" s && nat_eq (text_length s) 71 && every_char is_hex (after 7 s)
]

abbrev pub is_label : Value → Bool
is_label v = elim (as_string v) [
  | none ↦ false
  | some s ↦ not (is_empty (trim s)) && leb (text_length s) 200
]

-- The first check of the payload that fails.
unfoldable pub payload_error : Value → String → Value → Option String
payload_error kind target p =
    if is_text kind "trust-zone"
      && not (exact p ("zone" ∷ []) && is_text (property "zone" p) target)
    then some "CFG-SCHEMA-INVALID"
    else if is_text kind "measurement"
        && not (exact p ("digest" ∷ []) && is_digest (property "digest" p))
    then some "CFG-SCHEMA-INVALID"
    else if is_text kind "mock-replacement"
        && not (
            exact p ("adapter" ∷ [])
            && (is_text (property "adapter" p) "mock" || is_text (property "adapter" p) "real"))
    then some "CFG-SCHEMA-INVALID"
    else if is_text kind "mock-replacement" && is_text (property "adapter" p) "real"
    then some "CFG-REAL-API-UNAVAILABLE"
    else if is_text kind "policy-ref"
        && not (
            exact p ("bundle" ∷ "revision" ∷ [])
            && (is_label (property "bundle" p) && is_label (property "revision" p)))
    then some "CFG-SCHEMA-INVALID"
    else none

pub record Preview : Type 0 where
  pub kind : Value
  pub target : String
  pub payload : Value
  pub validation : String

pub data Verdict : Type 0 where
  invalid : (code : String) → Verdict
  valid : Preview → Verdict

unfoldable pub validate_config_change : Value → Verdict
validate_config_change d =
    if not (exact d ("kind" ∷ "target" ∷ "payload" ∷ []))
    then invalid "CFG-SCHEMA-INVALID"
    else elim (target_of (property "kind" d) (property "target" d)) [
      | none ↦ invalid "CFG-SCHEMA-INVALID"
      | some target ↦ elim (payload_error (property "kind" d) target (property "payload" d)) [
        | some code ↦ invalid code
        | none ↦ valid (record {
          kind = property "kind" d;
          target = target;
          payload = property "payload" d;
          validation =
              if is_text (property "kind" d) "policy-ref"
              then "awaiting-registry"
              else "local-schema-valid";
        })
      ]
    ]
