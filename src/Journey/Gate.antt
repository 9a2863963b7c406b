-- ===== src/Journey/Gate.antt =====
-- What one message may do to the flow context: who may command, what a refusal leaves, and that a
-- command is processed once.
use facis_zero_trust_demonst.Base.{
  String, true, ◌≡◌, ◌≢◌, ◌⊎◌, inl, inr, Option, none, some, arith, Option-cases, Bool-cases,
  eq_iff, ◌==◌,
}
use facis_zero_trust_demonst.Journey.State.{Run, Flow}
use facis_zero_trust_demonst.Journey.Fixtures.{Message, Env, Viewer}
use facis_zero_trust_demonst.Journey.Handler.{refused, reply_state}
use facis_zero_trust_demonst.Journey.Engine.{
  handle, after_deadline, expire_current, current_run, admits, user_of, is_observed, type_of,
  remember, operator, command_of, command_id_of,
}
use facis_zero_trust_demonst.Journey.Refusals.{run_command_keeps}

-- The flow context once the deadline of the viewer's run has been tested.
unfoldable pub settled : Env → Message → Flow → Flow
settled env msg flow = elim (user_of msg.viewer) [
  | none ↦ flow
  | some user ↦
      (expire_current env.now (current_run flow user (is_observed (type_of msg) msg.viewer)) flow).1
]

pub settled_known :
    (env : Env) (msg : Message) (flow : Flow) {user : String}
    → user_of msg.viewer ≡ some user
    → settled env msg flow
      ≡ (expire_current env.now
          (current_run flow user (is_observed (type_of msg) msg.viewer))
          flow).1
unfolding settled
settled_known env msg flow h = ground arith

after_deadline_refused :
    (env : Env) (msg : Message) (user : String) (current : Option Run) (flow : Flow)
    (code detail : String)
    → (after_deadline env msg user current flow).1.reply ≡ refused code detail
    → (after_deadline env msg user current flow).0.journey_states ≡ flow.journey_states
unfolding after_deadline remember reply_state
after_deadline_refused env msg user current flow code detail h = ground (
  arith,
  run_command_keeps (command_of env msg user) (remember user (command_id_of msg) flow) (type_of msg)
      current code detail,
)

after_deadline_status :
    (env : Env) (msg : Message) (user : String) (current : Option Run) (flow : Flow)
    → (type_of msg == "status") ≡ true
    → ((after_deadline env msg user current flow).0 ≡ flow)
      × ((after_deadline env msg user current flow).1.request ≡ none)
unfolding after_deadline reply_state
after_deadline_status env msg user current flow h = ground arith

admits-status :
    (type : String) (v : Viewer)
    → v.role ≢ operator
    → admits type (some v) ≡ true
    → (type == "status") ≡ true
unfolding admits
admits-status type v role h = ground (arith, eq_iff v.role operator)

-- A refused message changes no run: the runs are those before it, or those after an overdue request
-- was closed, which happens before the command is read.
pub handle-refused :
    (env : Env) (msg : Message) (flow : Flow) (code detail : String)
    → (handle env msg flow).1.reply ≡ refused code detail
    → ((handle env msg flow).0.journey_states ≡ flow.journey_states)
      ⊎ ((handle env msg flow).0.journey_states ≡ (settled env msg flow).journey_states)
unfolding handle settled
handle-refused env msg flow code detail h = elim (Option-cases (user_of msg.viewer)) [
  | inl nobody ↦ inl (ground arith)
  | inr (user, known) ↦
      let next =
        expire_current env.now (current_run flow user (is_observed (type_of msg) msg.viewer))
          flow in
      ground (arith, after_deadline_refused env msg user next.0 next.1 code detail)
]

-- A viewer who is no operator changes nothing, whatever the message: the flow context is as it was,
-- or as the deadline's test left it, and no request is sent.
pub handle-observer :
    (env : Env) (msg : Message) (flow : Flow) (v : Viewer)
    → msg.viewer ≡ some v
    → v.role ≢ operator
    → (((handle env msg flow).0 ≡ flow) ⊎ ((handle env msg flow).0 ≡ settled env msg flow))
      × ((handle env msg flow).1.request ≡ none)
unfolding handle settled
handle-observer env msg flow v seen role = elim (Bool-cases (admits (type_of msg) msg.viewer)) [
  | inl admitted ↦ elim (Option-cases (user_of msg.viewer)) [
    | inl nobody ↦ ground arith
    | inr (user, known) ↦
        let next =
          expire_current env.now (current_run flow user (is_observed (type_of msg) msg.viewer))
            flow in
        let status = admits-status (type_of msg) v role (rw seen at admitted) in
        ground (arith, after_deadline_status env msg user next.0 next.1 status)
  ]
  | inr denied ↦ ground arith
]
