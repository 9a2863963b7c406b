-- ===== src/Identity/Gate.antt =====
-- Which commands pass the identity boundary (`command` in identity-on-start.js).
use facis_zero_trust_demonst.Base.{
  ℕ, String, true, ◌≡◌, ◌⊎◌, refl, ap, subst, Option, none, some, Value, Bool-cases, Option-cases,
  inl, inr, property, if◌then◌else◌, ◌==◌, eq_iff,
}
use facis_zero_trust_demonst.Identity.Preview.{
  Role, operator, observer, Verdict, invalid, valid, validate_config_change,
}
use facis_zero_trust_demonst.Identity.State.{Session, Auth, Provider, Outcome, ok, err}
use facis_zero_trust_demonst.Identity.Sessions.{session}
use facis_zero_trust_demonst.Identity.Command.{
  Request, Command, Result, refused, previewed, emitted, command, answered, admit, csrf, may_run,
  kind_of, inputs_of, input_names, preview_of,
}

-- What lets a command of this session pass.
abbrev pub IsAllowed : String → Request → Session → Command → Type 0
IsAllowed origin req s c =
    (csrf origin req s ≡ true)
    × (s.role ≡ some c.role)
    × ((c.kind ≡ "status") ⊎ (c.role ≡ operator))
    × (kind_of req.body ≡ some c.kind)

-- A result that is passed on only as a command with `P`.
record Lets (P : Command → Type 0) (r : Result) : Type 0 where
  lets : (c : Command) → r ≡ emitted c → P c

module _ {P : Command → Type 0} where
  refused-Lets :
      {status : ℕ} {code : String} {state : Option String} → Lets P (refused status code state)
  refused-Lets = record { lets = λ c e. cc }

  preview-Lets : (v username : Value) → Lets P (preview_of v username)
  preview-Lets v username = of_verdict (validate_config_change v)
    where
      of_verdict :
          (w : Verdict)
          → Lets P (elim w [
            | invalid code ↦ refused 400 code none
            | valid preview ↦ previewed preview username
          ])
      of_verdict (invalid code) = refused-Lets
      of_verdict (valid preview) = record { lets = λ c e. cc }

  emitted-Lets : (c : Command) → P c → Lets P (emitted c)
  emitted-Lets c p = record {
    lets = λ d e.
        subst P (ap (λ r. elim r [ emitted b ↦ b | refused _ _ _ ↦ c | previewed _ _ ↦ c ]) e) p;
  }

none-some : {A : Type 0} {a : A} → ¬ (none ≡ some a)
none-some e = cc

may_run-allows :
    (kind : String) (role : Option Role) (granted : Role)
    → may_run kind role ≡ some granted
    → (role ≡ some granted) × ((kind ≡ "status") ⊎ (granted ≡ operator))
unfolding may_run
may_run-allows kind none granted e = cc
may_run-allows kind (some operator) operator e = (refl, inr refl)
may_run-allows kind (some operator) observer e = cc
may_run-allows kind (some observer) granted e = elim (Bool-cases (kind == "status")) [
  | inl is_status ↦ (
    subst (λ b. (if b then some observer else none) ≡ some granted) is_status e,
    inl ((eq_iff kind "status").0 is_status),
  )
  | inr other ↦
      absurd (none-some (subst (λ b. (if b then some observer else none) ≡ some granted) other e))
]

admit-Lets :
    (origin : String) (req : Request) (s : Session) (kind : String)
    → kind_of req.body ≡ some kind
    → Lets (IsAllowed origin req s) (admit origin req s kind)
unfolding admit
admit-Lets origin req s kind known = elim (Bool-cases (csrf origin req s)) [
  | inr foreign ↦ rw foreign refused-Lets
  | inl own ↦ elim (Option-cases (may_run kind s.role)) [
    | inl denied ↦ rw (own, denied) refused-Lets
    | inr (role, granted) ↦ elim (Bool-cases (kind == "config-preview")) [
      | inl preview ↦
          rw (own, granted, preview) (preview-Lets (property "data" req.body) s.username)
      | inr other ↦ elim (Option-cases (inputs_of input_names (property "data" req.body))) [
        | inl bad ↦ rw (own, granted, other, bad) refused-Lets
        | inr (inputs, given) ↦
            let (has, may) = may_run-allows kind s.role role granted in
            rw (own, granted, other, given) (emitted-Lets _ (own, has, may, known))
      ]
    ]
  ]
]

-- The session in whose name a command is passed on.
abbrev Vouched : Provider → ℕ → Request → Auth → Command → Type 0
Vouched p now req before c =
    (s : Session) × (t : Auth) × (session p now req.session_cookie before ≡ (ok s, t))
    × IsAllowed p.origin req s c

answered-Lets :
    (p : Provider) (now : ℕ) (req : Request) (before : Auth) (r : Outcome Session × Auth)
    → session p now req.session_cookie before ≡ r
    → Lets (Vouched p now req before) (answered p.origin req r).0
answered-Lets p now req before (err code, t) e = refused-Lets
answered-Lets p now req before (ok s, t) e = elim (Option-cases (kind_of req.body)) [
  | inl malformed ↦ rw (malformed, answered) refused-Lets
  | inr (kind, known) ↦
      rw (known, answered)
        (record {
          lets = λ c passed. (s, t, e, (admit-Lets p.origin req s kind known).lets c passed);
        })
]

-- A command is passed on only for a session that is found and verified, in a request from the page
-- with the session's own token, in the session's role, and it is a status or that role operates.
pub command-IsAllowed :
    (p : Provider) (now : ℕ) (req : Request) (before : Auth) (c : Command)
    → (command p now req before).0 ≡ emitted c
    → (s : Session) × (t : Auth) × (session p now req.session_cookie before ≡ (ok s, t))
      × IsAllowed p.origin req s c
unfolding command
command-IsAllowed p now req before c e =
    (answered-Lets p now req before (session p now req.session_cookie before) refl).lets c e
