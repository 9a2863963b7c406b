-- ===== src/Participant/Completed.antt =====
-- What the completion of a request does to the runs (flows/demonstrator/journey-http-complete.js).
use facis_zero_trust_demonst.Base.{
  bind_some, test_some, some_injective, ℕ, String, true, false, ◌≡◌, ◌≢◌, refl, sym, ◌∙◌, ap, subst,
  none, some, arith, Option-cases, inl, inr, length, length-modify, ◌-◌, lookup, lookup-insert,
  eq_refl, eq_iff, ◌==◌, lookup-Entries, ℕ,
}
use facis_zero_trust_demonst.Journey.State.{Run, Flow, ServiceRequest}
use facis_zero_trust_demonst.Journey.Record.{add_event, add_evidence}
use facis_zero_trust_demonst.Journey.Request.{Pending, is_pending}
use facis_zero_trust_demonst.Journey.Handler.{store}
use facis_zero_trust_demonst.Journey.Engine.{user_of}
use facis_zero_trust_demonst.Journey.Invariant.{IsSound}
use facis_zero_trust_demonst.Journey.Soundness.{FlowIsSound, store-FlowIsSound}
use facis_zero_trust_demonst.Participant.Results.{Dates, ServiceResult}
use facis_zero_trust_demonst.Participant.Completion.{
  Arrival, awaiting, awaited, complete, service_result, answered_run, answered_check,
}

-- What an awaited request says of the flow context.
record IsAwaited (arrival : Arrival) (flow : Flow) (user : String) (pending : Pending) (run : Run)
    (request : ServiceRequest) : Type 0 where
  known : user_of arrival.viewer ≡ some user
  asked : arrival.pending ≡ some pending
  own : (pending.owner_id == user) ≡ true
  found : lookup user flow.journey_states ≡ some run
  awaits : awaiting user pending run ≡ some request

awaited-IsAwaited :
    (arrival : Arrival) (flow : Flow) (user : String) (pending : Pending) (run : Run)
    (request : ServiceRequest)
    → awaited arrival flow ≡ some (user, pending, run, request)
    → IsAwaited arrival flow user pending run request
unfolding awaited
awaited-IsAwaited arrival flow user pending run request e =
    let (u, known, after_user) = bind_some (user_of arrival.viewer) _ e in
    let (p, asked, after_pending) = bind_some arrival.pending _ after_user in
    let (own, after_test) = test_some (p.owner_id == u) _ after_pending in
    let (r, found, after_run) = bind_some (lookup u flow.journey_states) _ after_test in
    let (q, awaits, whole) = bind_some (awaiting u p r) _ after_run in
    subst (λ (t : String × Pending × Run × ServiceRequest). IsAwaited arrival flow t.0 t.1 t.2 t.3)
      (some_injective whole)
      (record { known = known; asked = asked; own = own; found = found; awaits = awaits })

answered_run-IsSound :
    (user : String) (r : ServiceResult) (pending : Pending) (request : ServiceRequest) (now : ℕ)
    (run : Run)
    → IsSound user run
    → IsSound user (answered_run r pending request now run)
unfolding answered_run add_event add_evidence
answered_run-IsSound user r pending request now run s = record {
  owned = s.owned;
  ended = refl;
  waiting = λ h. cc;
  six_checks =
      λ h. length-modify run.checks (length run.checks - 1) (answered_check r now) ∙ s.six_checks h;
  step_in_range = s.step_in_range;
}

-- The completion keeps every stored run sound, whatever the result is.
pub complete-FlowIsSound :
    (dates : Dates) (arrival : Arrival) (flow : Flow)
    → FlowIsSound flow
    → FlowIsSound (complete dates arrival flow)
unfolding complete
complete-FlowIsSound dates arrival flow h = elim (Option-cases (awaited arrival flow)) [
  | inl discarded ↦ rw (discarded, complete) h
  | inr ((user, pending, run, request), accepted) ↦
      let a = awaited-IsAwaited arrival flow user pending run request accepted in
      rw (accepted, complete)
        (store-FlowIsSound user _ flow
          (answered_run-IsSound user _ pending request arrival.now run
            (lookup-Entries IsSound user run flow.journey_states a.found h))
          h)
]

-- Only a pending request is awaited.
awaiting_pending :
    (user : String) (pending : Pending) (run : Run) (request : ServiceRequest)
    → awaiting user pending run ≡ some request
    → is_pending run.service_request ≡ true
unfolding awaiting
awaiting_pending user pending run request e =
    let (owner, owned, after_owner) = bind_some run.owner_id _ e in
    let (asked, there, after_request) = bind_some run.service_request _ after_owner in
    let tests = (test_some _ (some asked) after_request).0 in ground (arith, there, tests)

contrary : true ≢ false
contrary e = cc

awaited_absent :
    (arrival : Arrival) (flow : Flow) (user : String) (pending : Pending) (run : Run)
    → arrival.pending ≡ some pending
    → pending.owner_id ≡ user
    → lookup user flow.journey_states ≡ some run
    → is_pending run.service_request ≡ false
    → awaited arrival flow ≡ none
unfolding awaited
awaited_absent arrival flow user pending run asked own found idle =
    elim (Option-cases (awaited arrival flow)) [
      | inl discarded ↦ discarded
      | inr ((u, p, r, q), awaits) ↦
          let a = awaited-IsAwaited arrival flow u p r q awaits in
          let same_pending : p ≡ pending = some_injective (sym a.asked ∙ asked) in
          let same_user : u ≡ user =
            sym ((eq_iff p.owner_id u).0 a.own)
            ∙ ap (λ (p : Pending). p.owner_id) same_pending
            ∙ own in
          let same_run : r ≡ run =
            some_injective
              (sym a.found ∙ ap (λ k. lookup k flow.journey_states) same_user ∙ found) in
          let busy = awaiting_pending u p r q a.awaits in
          absurd
            (contrary (sym busy ∙ ap (λ (r : Run). is_pending r.service_request) same_run ∙ idle))
    ]

answered_idle :
    (r : ServiceResult) (pending : Pending) (request : ServiceRequest) (now : ℕ) (run : Run)
    → is_pending (answered_run r pending request now run).service_request ≡ false
unfolding answered_run add_event add_evidence
answered_idle r pending request now run = refl

-- The run that a completion leaves.
pub complete_stored :
    (dates : Dates) (arrival : Arrival) (flow : Flow) (user : String) (pending : Pending)
    (run : Run) (request : ServiceRequest)
    → awaited arrival flow ≡ some (user, pending, run, request)
    → lookup user (complete dates arrival flow).journey_states
      ≡ some (
          answered_run
            (service_result dates pending arrival.result arrival.now)
            pending
            request
            arrival.now
            run)
unfolding complete store
complete_stored dates arrival flow user pending run request accepted =
    let r = service_result dates pending arrival.result arrival.now in
    let next = answered_run r pending request arrival.now run in
    rw (accepted, complete)
      (ground (arith, eq_refl user, lookup-insert user user next flow.journey_states))

-- A request is completed once: after a response was accepted, whatever comes for the same request,
-- from whom and whenever, leaves the flow context as it is.
pub complete_once :
    (dates : Dates) (first second : Arrival) (flow : Flow)
    → awaited first flow ≢ none
    → second.pending ≡ first.pending
    → complete dates second (complete dates first flow) ≡ complete dates first flow
unfolding complete
complete_once dates first second flow accepted same = elim (Option-cases (awaited first flow)) [
  | inl discarded ↦ absurd (accepted discarded)
  | inr ((user, pending, run, request), awaits) ↦
      let a = awaited-IsAwaited first flow user pending run request awaits in
      let stored = complete_stored dates first flow user pending run request awaits in
      rw
        (
          awaited_absent second (complete dates first flow) user pending _ (same ∙ a.asked)
              ((eq_iff pending.owner_id user).0 a.own) stored (answered_idle _ _ _ _ run),
          complete,
        )
        refl
]
