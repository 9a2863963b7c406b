-- ===== src/Connector/Credentials.antt =====
-- Where a run of the adapter sends its credentials (connector-adapter.mjs).
use facis_zero_trust_demonst.Base.{
  String, ◌≡◌, ◌⊎◌, refl, Option, some, none, [], as_object, ◌==◌, arith, Option-cases, Bool-cases,
  inl, inr, Value, ◌&&◌,
}
use facis_zero_trust_demonst.Connector.Protocol.{
  Session, Network, Client, Body, json, Result, ok, err,
}
use facis_zero_trust_demonst.Connector.Config.{Adapter}
use facis_zero_trust_demonst.Connector.Request.{Reply, call_of, proof}
use facis_zero_trust_demonst.Connector.Tokens.{Token, bootstrap_options, registration_options}
use facis_zero_trust_demonst.Connector.Run.{
  Input, token_options, protected_options, protocol, run, settle, body_of, valid_id,
}
use facis_zero_trust_demonst.Connector.Calls.{Grows, Adds, Adds-none, Adds-more}
use facis_zero_trust_demonst.Connector.Bound.{IsBound, Allowed, protocol-Grows}

-- The body of the call of the protected endpoint.
abbrev IsPayload : Value → Option Body → Type 0
IsPayload payload body = (body ≡ none) ⊎ (body ≡ some (json payload))

body_of-IsPayload :
    (stringify : Value → String) (a : Adapter) (payload : Value) (body : Option Body)
    → body_of stringify a payload ≡ some body
    → IsPayload payload body
body_of-IsPayload stringify a payload body e = elim (Bool-cases (a.method == "POST")) [
  | inr get ↦ inl (ground arith)
  | inl post ↦ elim (Option-cases (as_object payload)) [
    | inl missing ↦ ground arith
    | inr (fs, there) ↦ inr (ground arith)
  ]
]

module _ (net : Network) (a : Adapter) (payload : Value) where
  bootstrap-IsBound : Allowed (IsBound net a payload) net (bootstrap_options a)
  unfolding IsBound call_of bootstrap_options
  bootstrap-IsBound supplied = inl (refl, inl (refl, refl))

  registration-IsBound :
      (t : Token) → Allowed (IsBound net a payload) net (registration_options a t)
  unfolding IsBound call_of registration_options proof
  registration-IsBound t supplied =
      inr (inl (refl, (t, refl, λ dpop. (supplied, rw dpop refl)), refl))

  token-IsBound : (client : Client) → Allowed (IsBound net a payload) net (token_options a client)
  unfolding IsBound call_of token_options
  token-IsBound client supplied = elim (Option-cases a.audience) [
    | inl everyone ↦ inl (refl, inr (client, inl (refl, rw everyone refl)))
    | inr (audience, named) ↦ inl (refl, inr (client, inr (audience, named, (refl, rw named refl))))
  ]

  protected-IsBound :
      (body : Option Body)
      → IsPayload payload body
      → (t : Token) → Allowed (IsBound net a payload) net (protected_options a body t)
  unfolding IsBound call_of protected_options proof
  protected-IsBound body own t supplied = inr (inr (refl, (t.value, refl, (supplied, refl)), own))

  protocol-IsBound :
      (body : Option Body)
      → IsPayload payload body
      → Grows (IsBound net a payload) 8 (protocol net a body)
  protocol-IsBound body own =
      protocol-Grows net a bootstrap-IsBound registration-IsBound body token-IsBound
        (protected-IsBound body own)

module _ (net : Network) (a : Adapter) where
  settle_calls : (r : Result Reply × Session) → (settle r).1.calls ≡ r.1.calls
  settle_calls (ok reply, s) = refl
  settle_calls (err e, s) = refl

  -- A run, whatever the network answers, adds at most eight calls to those before, and each of them
  -- keeps to the use of credentials: a client's secret goes to the token endpoint alone, and there in
  -- the header only, since the forms name no more than the grant, scopes and an audience, the
  -- registration sends no more than the client's metadata, and the protected call no more than the
  -- payload; a DPoP token goes with a proof that is bound to it, to the method and to the endpoint, and
  -- the protected endpoint is called only with a DPoP token.
  pub run-IsBound :
      (stringify : Value → String) (input : Input) (s : Session)
      → Adds (IsBound net a input.payload) 8 s.calls (run net stringify a input s).1.calls
  unfolding run
  run-IsBound stringify input s =
      elim (Bool-cases (valid_id input.request_id && valid_id input.correlation_id)) [
        | inr bad ↦ rw bad (Adds-more s.calls s.calls (omega arith) (Adds-none 0 s.calls))
        | inl valid ↦ elim (Option-cases (body_of stringify a input.payload)) [
          | inl refused ↦
              rw (valid, refused) (Adds-more s.calls s.calls (omega arith) (Adds-none 0 s.calls))
          | inr (body, given) ↦
              rw (valid, given, settle_calls (protocol net a body (record s { events = [] })))
                ((protocol-IsBound net a input.payload body
                    (body_of-IsPayload stringify a input.payload body given)).adds
                  (record s { events = [] }))
        ]
      ]
