-- ===== src/Connector/Phases.antt =====
-- The events of a run of the adapter (connector-adapter.mjs): each part of the protocol goes through
-- its phases.
use facis_zero_trust_demonst.Base.{
  ℕ, String, true, false, ◌≡◌, ◌⊎◌, refl, sym, ap, subst, Option, none, some, [], ◌∷◌, ◌++◌,
  includes, Option-cases, Bool-cases, inl, inr, Value, ◌&&◌,
}
use mathlib.Core.List.{append-nil}
use facis_zero_trust_demonst.Connector.Protocol.{
  Session, Network, Client, Body, Result, ok, err, Failure, Event, emit,
}
use facis_zero_trust_demonst.Connector.Config.{Adapter}
use facis_zero_trust_demonst.Connector.Request.{Options, Reply, request}
use facis_zero_trust_demonst.Connector.Tokens.{register, bootstrap_options, registration_options}
use facis_zero_trust_demonst.Connector.Run.{
  Input, Outcome, cached_client, token_options, protected_options, protocol, settle, refused_event,
  run, valid_id, body_of,
}
use facis_zero_trust_demonst.Connector.Attempts.{request_calls, request-IsAt}
use facis_zero_trust_demonst.Connector.Settling.{token_value-Settles, registered_client-Settles}
use facis_zero_trust_demonst.Connector.Traces.{
  Phase, idle, registering, answered, failed, stages, Step, Route, one, Route-append, Moved, Moves,
  still, Settles-Moves, continue-Moves, bind-Moves, stop, begin, registration, authorisation, call,
  response, failure,
}

emit-Moves : {p q : Phase} {event : Event} → Step p event q → Moves p (λ (u : Unit). q) (emit event)
unfolding emit
emit-Moves {p = p} {q = q} {event = event} e = record {
  moves = λ s. (event ∷ [], refl, one p q event e);
}

request_events : (net : Network) (o : Options) (s : Session) → (request net o s).1.events ≡ s.events
request_events net o s = elim (request_calls net o s) [
  | inl once ↦ ap (λ (t : Session). t.events) once
  | inr (nonce, challenge, twice) ↦ ap (λ (t : Session). t.events) twice
]

request-Moves :
    {p : Phase} (net : Network) (o : Options)
    → includes (stages p) o.stage ≡ true
    → Moves p (λ (reply : Reply). p) (request net o)
request-Moves {p = p} net o allowed = record {
  moves = λ s.
      still p _ o.stage s.events (request net o s) allowed (λ a. refl) (request-IsAt net o s)
        (request_events net o s);
}

module _ (net : Network) (a : Adapter) where
  register-Moves : Moves registering (λ (c : Client). registering) (register net a)
  unfolding register bootstrap_options registration_options
  register-Moves = bind-Moves (request-Moves net (bootstrap_options a) refl) (λ first.
      bind-Moves
        (Settles-Moves _ refl
          (token_value-Settles a.scopes "registration-token" false first.content))
        (λ t.
          bind-Moves (request-Moves net (registration_options a t) refl)
            (λ reply. Settles-Moves _ refl (registered_client-Settles reply))))

  cached_client-Moves : Moves registering (λ (c : Client). registering) (cached_client net a)
  unfolding cached_client
  cached_client-Moves = record {
    moves = λ s. elim (Option-cases s.registered) [
      | inr (client, known) ↦
          simp (known, cached_client)
            (still registering (λ (c : Client). registering) "registration" s.events (ok client, s)
              refl (λ a. refl) tt refl)
      | inl unknown ↦
          simp (unknown, cached_client)
            (continue-Moves registering (λ (c : Client). registering) (λ (c : Client). registering)
              s.events (register net a s)
              (λ client t. (ok client, record t { registered = some client }))
              (register-Moves.moves s)
              (λ client. record {
                moves = λ t.
                    still registering (λ (c : Client). registering) "registration" t.events
                      (ok client, record t { registered = some client }) refl (λ a. refl) tt refl;
              }))
    ];
  }

  protocol-Moves :
      (body : Option Body) → Moves idle (λ (r : Reply). answered r.status) (protocol net a body)
  unfolding protocol token_options protected_options
  protocol-Moves body = bind-Moves (emit-Moves begin) (λ _.
      bind-Moves cached_client-Moves (λ client. bind-Moves (emit-Moves registration) (λ _.
        bind-Moves (request-Moves net (token_options a client) refl) (λ reply.
          bind-Moves
            (Settles-Moves _ refl (token_value-Settles a.scopes "token" true reply.content))
            (λ t. bind-Moves (emit-Moves authorisation) (λ _. bind-Moves (emit-Moves call) (λ _.
              bind-Moves (request-Moves net (protected_options a body t) refl) (λ r.
                bind-Moves (emit-Moves (response r.status)) (λ _. record {
                  moves = λ s. ([], sym (append-nil s.events), stop (answered r.status));
                })))))))))

-- The outcome is the end of a path through the phases, which its events are.
abbrev pub IsTrace : Outcome → Type 0
IsTrace o =
    ((o.ok ≡ true)
      × ((status : ℕ) × (o.status ≡ some status) × Route idle o.events (answered status)))
    ⊎ ((o.ok ≡ false)
        × ((e : Failure) × (o.reason_code ≡ some e.code)
            × (o.failed_stage ≡ some e.stage)
            × (o.status ≡ e.status)
            × Route idle o.events (failed e)))

settle-IsTrace :
    (x : Result Reply × Session)
    → Moved idle (λ (r : Reply). answered r.status) [] x
    → IsTrace (settle x).0
settle-IsTrace (ok reply, s) (new, events, path) = inl (
  refl,
  (reply.status, refl, subst (λ l. Route idle l (answered reply.status)) (sym events) path),
)
settle-IsTrace (err e, s) (p, (new, events, path), allowed) = inr (
  refl,
  (
    e,
    refl,
    refl,
    refl,
    subst (λ l. Route idle (l ++ refused_event e ∷ []) (failed e)) (sym events)
        (Route-append idle p (failed e) new (refused_event e ∷ []) path
          (one p (failed e) (refused_event e) (failure p e allowed))),
  ),
)

-- A run either is refused for its input and changes nothing, or has an outcome whose events are a path
-- of the protocol from its first phase: to the answer of the protected endpoint, with its status, or
-- to a refusal with the outcome's code, in a stage that belongs to the phase it was in.
pub run-IsTrace :
    (net : Network) (stringify : Value → String) (a : Adapter) (input : Input) (s : Session)
    → let r = run net stringify a input s in
      ((r.0.0 ≡ none) × (r.1 ≡ s)) ⊎ ((o : Outcome) × (r.0 ≡ (some o, none)) × IsTrace o)
unfolding run
run-IsTrace net stringify a input s =
    elim (Bool-cases (valid_id input.request_id && valid_id input.correlation_id)) [
      | inr bad ↦ rw bad (inl (refl, refl))
      | inl valid ↦ elim (Option-cases (body_of stringify a input.payload)) [
        | inl invalid ↦ rw (valid, invalid) (inl (refl, refl))
        | inr (body, given) ↦
            rw (valid, given)
              (inr (
                _,
                refl,
                settle-IsTrace _ ((protocol-Moves net a body).moves (record s { events = [] })),
              ))
      ]
    ]
