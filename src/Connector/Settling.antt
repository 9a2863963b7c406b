-- ===== src/Connector/Settling.antt =====
-- The parts of the adapter that leave its state as it is, and whose errors name one stage
-- (connector-adapter.mjs).
use facis_zero_trust_demonst.Base.{
  ℕ, String, Bool, ◌≡◌, refl, List, as_object, Option-cases, Bool-cases, inl, inr, Value, Fields,
  get,
}
use facis_zero_trust_demonst.Connector.Protocol.{Session, Result, ok, err}
use facis_zero_trust_demonst.Connector.Request.{Reply, conclude, object_reply, is_ok}
use facis_zero_trust_demonst.Connector.Tokens.{
  token_value, token_of, scopes_granted, registered_client, client_of,
}

module _ {A : Type 0} where
  -- An error names its stage.
  abbrev pub IsAt : String → Result A → Type 0
  IsAt stage (ok a) = Unit
  IsAt stage (err e) = e.stage ≡ stage

  abbrev pub Settles : String → Session → Result A × Session → Type 0
  Settles stage s x = (r : Result A) × IsAt stage r × (x ≡ (r, s))

object_reply-Settles :
    (stage : String) (status : ℕ) (content : Value) (s : Session)
    → Settles stage s (object_reply stage status content s)
object_reply-Settles stage status content s = elim (Option-cases (as_object content)) [
  | inl other ↦ rw (other, object_reply) (_, refl, refl)
  | inr (fs, object) ↦ rw (object, object_reply) (_, tt, refl)
]

pub conclude-Settles :
    (stage : String) (status : ℕ) (content : Value) (s : Session)
    → Settles stage s (conclude stage status content s)
unfolding conclude
conclude-Settles stage status content s = elim (Bool-cases (is_ok status)) [
  | inr failed ↦ rw failed (_, refl, refl)
  | inl accepted ↦ rw accepted (object_reply-Settles stage status content s)
]

pub token_value-Settles :
    (scopes : List String) (stage : String) (require_dpop : Bool) (fs : Fields) (s : Session)
    → Settles stage s (token_value scopes stage require_dpop fs s)
unfolding token_value
token_value-Settles scopes stage require_dpop fs s =
    elim (Option-cases (token_of require_dpop fs)) [
      | inl malformed ↦ rw (malformed, token_value) (_, refl, refl)
      | inr (t, given) ↦ elim (Bool-cases (scopes_granted scopes (get "scope" fs))) [
        | inl complete ↦ rw (given, token_value, complete) (_, tt, refl)
        | inr missing ↦ rw (given, token_value, missing) (_, refl, refl)
      ]
    ]

pub registered_client-Settles :
    (reply : Reply) (s : Session) → Settles "registration" s (registered_client reply s)
registered_client-Settles reply s = elim (Option-cases (client_of reply)) [
  | inl malformed ↦ rw (malformed, registered_client) (_, refl, refl)
  | inr (client, given) ↦ rw (given, registered_client) (_, tt, refl)
]
