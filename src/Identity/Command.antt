-- ===== src/Identity/Command.antt =====
-- The requests of a user with a session, and the gate of the commands (`status`, `csrf`, `command`
-- and `logout` in identity-on-start.js).
use facis_zero_trust_demonst.Base.{
  ℕ, String, Bool, true, false, ◌&&◌, ◌||◌, not, Option, none, some, List, [], ◌∷◌, if◌then◌else◌,
  ◌==◌, Value, get, property, as_string, as_object, is_text, is_given, leb, text_length, is_none,
  includes,
}
use facis_zero_trust_demonst.Identity.Preview.{
  Role, operator, observer, Preview, invalid, valid, validate_config_change,
}
use facis_zero_trust_demonst.Identity.State.{
  Session, Auth, Provider, Outcome, ok, err, same, or_else,
}
use facis_zero_trust_demonst.Identity.Sessions.{session, delete_at}
use facis_zero_trust_demonst.Identity.Login.{drop_session, refusal, redirect, Reply}

pub record Request : Type 0 where
  pub session_cookie : Option String
  pub origin : Value
  pub csrf_header : Value
  pub body : Value

-- A command that is passed on, with the user in whose name it runs.
pub record Command : Type 0 where
  pub kind : String
  pub inputs : List (String × String)
  pub subject : Value
  pub username : Value
  pub role : Role

pub data Result : Type 0 where
  refused : (status : ℕ) (code : String) (state : Option String) → Result
  previewed : Preview → (username : Value) → Result
  emitted : Command → Result

abbrev pub kinds : List String
kinds = "status" ∷ "start" ∷ "next" ∷ "reset" ∷ "config-preview" ∷ []

abbrev pub input_names : List String
input_names =
    "commandId" ∷ "runId" ∷ "scenario" ∷ "serviceScenario" ∷ "profile" ∷ "variant"
    ∷ "credentialToRevoke" ∷ []

-- The fields that are passed on, unless one of them is no text or too long.
unfoldable pub inputs_of : List String → Value → Option (List (String × String))
inputs_of [] v = some []
inputs_of (name ∷ names) v =
    let rest = inputs_of names v in
    if is_given (property name v)
    then elim (as_string (property name v)) [
      | none ↦ none
      | some text ↦
          if leb (text_length text) 120
          then elim rest [ none ↦ none | some ins ↦ some ((name, text) ∷ ins) ]
          else none
    ]
    else rest

-- The kind of a well-formed command.
unfoldable pub kind_of : Value → Option String
kind_of body = elim (as_object body) [
  | none ↦ none
  | some fs ↦ elim (as_string (get "type" fs)) [
    | none ↦ none
    | some kind ↦ if includes kinds kind then some kind else none
  ]
]

abbrev state_of : String → String
state_of code = if code == "EXPIRED" then "expired" else "logged out"

-- `csrf`
unfoldable pub csrf : String → Request → Session → Bool
csrf origin req s = is_text req.origin origin && same s.csrf req.csrf_header

unfoldable pub may_run : String → Option Role → Option Role
may_run kind none = none
may_run kind (some operator) = some operator
may_run kind (some observer) = if kind == "status" then some observer else none

abbrev pub denial : String → String
denial kind = if kind == "config-preview" then "CFG-NOT-AUTHORISED" else "UI-NOT-AUTHORISED"

abbrev pub preview_of : Value → Value → Result
preview_of input username = elim (validate_config_change input) [
  | invalid code ↦ refused 400 code none
  | valid preview ↦ previewed preview username
]

-- The command of a session, once its kind is known.
unfoldable pub admit : String → Request → Session → String → Result
admit origin req s kind =
    if not (csrf origin req s)
    then refused 403 "CSRF_DENIED" (some "denied")
    else elim (may_run kind s.role) [
      | none ↦ refused 403 (denial kind) (some "denied")
      | some role ↦
          if kind == "config-preview"
          then preview_of (property "data" req.body) s.username
          else elim (inputs_of input_names (property "data" req.body)) [
            | none ↦ refused 400 "INVALID_COMMAND" none
            | some inputs ↦ emitted (record {
              kind = kind;
              inputs = inputs;
              subject = get "sub" s.claims;
              username = s.username;
              role = role;
            })
          ]
    ]

abbrev pub answered : String → Request → Outcome Session × Auth → Result × Auth
answered origin req (err code, t) = (refused 401 code (some (state_of code)), t)
answered origin req (ok s, t) = elim (kind_of req.body) [
  | none ↦ (refused 400 "INVALID_COMMAND" none, t)
  | some kind ↦ (admit origin req s kind, t)
]

pub data Status : Type 0 where
  failed : (status : ℕ) (code : String) (state : Option String) → Status
  shown :
      (state : String) (username : Value) (role : Option Role) (can_operate : Bool) (csrf : String)
      → Status

abbrev is_operator : Option Role → Bool
is_operator (some operator) = true
is_operator _ = false

abbrev pub shown_of : Outcome Session × Auth → Status × Auth
shown_of (err code, t) = (
  failed (if code == "IDENTITY_PROVIDER_UNAVAILABLE" then 503 else 401) code (some (state_of code)),
  t,
)
shown_of (ok s, t) = (
  shown (if is_none s.role then "denied" else "authenticated") s.username s.role
      (is_operator s.role) s.csrf,
  t,
)

abbrev text_of : Value → String
text_of v = elim (as_string v) [ none ↦ "" | some s ↦ s ]

-- The session ends only for a request from the page itself.
abbrev pub logged_out : Provider → String → Request → Outcome Session × Auth → Reply × Auth
logged_out p home req (err code, t) = (
  record { answer = refusal 401 "LOGGED_OUT" (some "logged out"); cookies = drop_session ∷ [] },
  t,
)
logged_out p home req (ok s, t) =
    if not (is_text req.origin p.origin)
      || not (same s.csrf (or_else req.csrf_header (property "csrf" req.body)))
    then (record { answer = refusal 403 "CSRF_DENIED" none; cookies = [] }, t)
    else (
      record {
        answer = redirect "/logout" (
            ("client_id", "ztd-ui")
            ∷ ("id_token_hint", text_of s.id_token)
            ∷ ("post_logout_redirect_uri", home)
            ∷ []);
        cookies = drop_session ∷ [];
      },
      record t { sessions = delete_at req.session_cookie t.sessions },
    )

module _ (p : Provider) where
  unfoldable pub command : ℕ → Request → Auth → Result × Auth
  command now req before = answered p.origin req (session p now req.session_cookie before)

  unfoldable pub status : ℕ → Request → Auth → Status × Auth
  status now req before = shown_of (session p now req.session_cookie before)

  unfoldable pub logout : String → ℕ → Request → Auth → Reply × Auth
  logout home now req before = logged_out p home req (session p now req.session_cookie before)
