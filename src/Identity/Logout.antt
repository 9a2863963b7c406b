-- ===== src/Identity/Logout.antt =====
-- The ends of sessions that the provider asks for (`backchannel` and `frontchannel` in
-- identity-on-start.js).
use facis_zero_trust_demonst.Base.{
  ℕ, String, Bool, true, ◌&&◌, ◌||◌, not, Option, none, some, [], ◌∷◌, ◌+◌, if◌then◌else◌, Value,
  Fields, get, property, as_string, is_text, leb, is_empty, length, insert, lookup, is_none,
}
use facis_zero_trust_demonst.Identity.State.{
  Session, Auth, Provider, Outcome, ok, err, truthy, identical,
}
use facis_zero_trust_demonst.Identity.Verify.{verify, Check}
use facis_zero_trust_demonst.Identity.Sessions.{limit, cleanup, retain}
use facis_zero_trust_demonst.Identity.Login.{Reply, refusal, done, drop_session}

-- The sessions that a logout token names: by the provider's session and, where both are there, its
-- subject, or else by the subject.
unfoldable pub names_session : Fields → Session → Bool
names_session c s =
    if truthy (get "sid" c)
    then identical s.sid (get "sid" c)
      && (not (truthy (get "sub" c)) || identical s.subject (get "sub" c))
    else identical s.subject (get "sub" c)

abbrev invalid_token : Reply
invalid_token = record { answer = refusal 400 "INVALID_LOGOUT_TOKEN" none; cookies = [] }

-- A logout token is used once.
unfoldable pub end_named : ℕ → Fields → String → Auth → Reply × Auth
end_named now c jti s =
    if not (is_none (lookup jti s.replays)) || leb limit (length s.replays)
    then (invalid_token, s)
    else (
      record { answer = done; cookies = [] },
      record s {
        replays = insert jti (now + 300000) s.replays;
        sessions = retain (λ v. not (names_session c v)) s.sessions;
      },
    )

abbrev pub verified : ℕ → Outcome Fields × Auth → Reply × Auth
verified now (err code, s) = (invalid_token, s)
verified now (ok c, s) = elim (as_string (get "jti" c)) [
  | none ↦ (invalid_token, cleanup now s)
  | some jti ↦ end_named now c jti (cleanup now s)
]

abbrev pub logout_check : Check
logout_check = record { nonce = none; logout = true }

unfoldable pub backchannel : Provider → ℕ → Value → Auth → Reply × Auth
backchannel p now body before =
    verified now (verify p logout_check now (property "logout_token" body) before)

abbrev pub sid_of : Value → Option String
sid_of v = elim (as_string v) [ none ↦ none | some sid ↦ if is_empty sid then none else some sid ]

unfoldable pub frontchannel : Provider → Value → Auth → Reply × Auth
frontchannel p query s =
    if not (is_text (property "iss" query) p.issuer)
    then (record { answer = refusal 400 "INVALID_LOGOUT_REQUEST" none; cookies = [] }, s)
    else elim (sid_of (property "sid" query)) [
      | none ↦ (record { answer = refusal 400 "INVALID_LOGOUT_REQUEST" none; cookies = [] }, s)
      | some sid ↦ (
        record { answer = done; cookies = drop_session ∷ [] },
        record s { sessions = retain (λ v. not (is_text v.sid sid)) s.sessions },
      )
    ]
