-- ===== src/Connector/Bound.antt =====
-- Which calls a run of the adapter makes, and how many (connector-adapter.mjs).
use facis_zero_trust_demonst.Base.{
  String, true, false, List, Value, join, object, str, arr, cons, nil, bool, ◌≡◌, ◌⊎◌, ◌∙◌, ap,
  Option, none, some, [], ◌∷◌, arith, Option-cases, inl, inr,
}
use mathlib.Core.List.{append_assoc}
use facis_zero_trust_demonst.Connector.Protocol.{
  Call, Session, Network, Client, Body, form, json, token, basic, ok,
}
use facis_zero_trust_demonst.Connector.Config.{Adapter, registration_scope}
use facis_zero_trust_demonst.Connector.Request.{Options, request, call_of, proof}
use facis_zero_trust_demonst.Connector.Tokens.{
  Token, register, bootstrap_options, registration_options,
}
use facis_zero_trust_demonst.Connector.Run.{
  cached_client, token_options, protected_options, protocol,
}
use facis_zero_trust_demonst.Connector.Attempts.{request_calls}
use facis_zero_trust_demonst.Connector.Settling.{token_value-Settles, registered_client-Settles}
use facis_zero_trust_demonst.Connector.Calls.{
  Grows, Adds-none, Adds-more, emit-Grows, continue-Grows, bind-Grows, pure-Grows, Settles-Grows,
}

-- A request for a token: the client's secret stands in its header alone, and its form names the
-- grant, the scopes and at most an audience.
abbrev pub AsksToken : Call → Client → List String → List (String × String) → Type 0
AsksToken call client scopes audience =
    (call.authorization ≡ basic client.id client.secret)
    × (call.body
        ≡ some
            (form (("grant_type", "client_credentials") ∷ ("scope", join " " scopes) ∷ audience)))

-- The metadata that a client is registered with.
abbrev pub registration_body : Adapter → Body
registration_body a = json (
    object (
      ("client_name", str "participant backend")
      ∷ ("grant_types", arr (cons (str "client_credentials") nil))
      ∷ ("token_endpoint_auth_method", str "client_secret_basic")
      ∷ ("scope", str (join " " a.scopes))
      ∷ ("dpop_bound_access_tokens", bool true)
      ∷ []))

-- The credentials and the body of a call: a client's secret goes to the token endpoint alone, in the
-- header; a token of the kind DPoP goes with a proof that is bound to it, to the method and to the
-- endpoint; the protected endpoint sees no other kind of token, and no body but the payload.
unfoldable pub IsBound : Network → Adapter → Value → Call → Type 0
unfolding proof
IsBound net a payload call =
    let Bound : String → Type 0 = λ t.
      (nonce : Option String) × (call.proof
        ≡ some (proof net call.method call.endpoint (some t) nonce)) in
    ((call.endpoint ≡ a.token_endpoint)
      × (AsksToken call (record { id = a.registrar_id; secret = a.registrar_secret })
            (registration_scope ∷ a.scopes) (("audience", a.register_endpoint) ∷ [])
          ⊎ ((client : Client) × (AsksToken call client a.scopes []
                ⊎ ((audience : String) × (a.audience ≡ some audience)
                    × AsksToken call client a.scopes (("audience", audience) ∷ []))))))
    ⊎ (((call.endpoint ≡ a.register_endpoint)
          × ((t : Token) × (call.authorization ≡ token t.kind t.value)
              × (t.kind ≡ "DPoP" → Bound t.value))
          × (call.body ≡ some (registration_body a)))
        ⊎ ((call.endpoint ≡ a.resource_endpoint)
            × ((t : String) × (call.authorization ≡ token "DPoP" t) × Bound t)
            × ((call.body ≡ none) ⊎ (call.body ≡ some (json payload)))))

abbrev pub Allowed : (Call → Type 0) → Network → Options → Type 0
Allowed Q net o = (nonce : Option String) → Q (call_of net o nonce)

module _ (net : Network) {Q : Call → Type 0} where
  request-Grows :
      (o : Options)
      → ((nonce : Option String) → Q (call_of net o nonce))
      → Grows Q 2 (request net o)
  request-Grows o q = record {
    adds = λ s. elim (request_calls net o s) [
      | inl once ↦ record {
        new = call_of net o none ∷ [];
        appended = ap (λ (t : Session). t.calls) once;
        each = (q none, tt);
        few = omega arith;
      }
      | inr (nonce, challenge, twice) ↦ record {
        new = call_of net o none ∷ call_of net o (some nonce) ∷ [];
        appended = ap (λ (t : Session). t.calls) twice ∙ append_assoc s.calls _ _;
        each = (q none, (q (some nonce), tt));
        few = omega arith;
      }
    ];
  }

  module _ (a : Adapter) (bootstrap : Allowed Q net (bootstrap_options a))
      (registration : (t : Token) → Allowed Q net (registration_options a t)) where
    register-Grows : Grows Q 4 (register net a)
    unfolding register
    register-Grows = bind-Grows (request-Grows (bootstrap_options a) bootstrap) (λ first.
        bind-Grows
          (Settles-Grows _ (token_value-Settles a.scopes "registration-token" false first.content))
          (λ t.
            bind-Grows (request-Grows (registration_options a t) (registration t))
              (λ reply. Settles-Grows _ (registered_client-Settles reply))))

    cached_client-Grows : Grows Q 4 (cached_client net a)
    unfolding cached_client
    cached_client-Grows = record {
      adds = λ s. elim (Option-cases s.registered) [
        | inr (client, known) ↦
            rw (known, cached_client)
              (Adds-more s.calls s.calls (omega arith) (Adds-none 0 s.calls))
        | inl unknown ↦
            rw (unknown, cached_client)
              (continue-Grows s.calls (register net a s)
                (λ client t. (ok client, record t { registered = some client }))
                (register-Grows.adds s) (λ client. record { adds = λ t. Adds-none 0 t.calls }))
      ];
    }

    pub protocol-Grows :
        (body : Option Body)
        → ((client : Client) → Allowed Q net (token_options a client))
        → ((t : Token) → Allowed Q net (protected_options a body t))
        → Grows Q 8 (protocol net a body)
    unfolding protocol
    protocol-Grows body client_token protected = bind-Grows (emit-Grows _) (λ _.
        bind-Grows cached_client-Grows (λ client. bind-Grows (emit-Grows _) (λ _.
          bind-Grows (request-Grows (token_options a client) (client_token client)) (λ reply.
            bind-Grows (Settles-Grows _ (token_value-Settles a.scopes "token" true reply.content))
              (λ t. bind-Grows (emit-Grows _) (λ _. bind-Grows (emit-Grows _) (λ _.
                bind-Grows (request-Grows (protected_options a body t) (protected t))
                  (λ response. bind-Grows (emit-Grows _) (λ _. pure-Grows response)))))))))
