-- ===== src/Journey/Replay.antt =====
-- Commands and their identifiers: one that was processed is in the history, and is refused when it
-- comes again; the history of a user stays short.
use facis_zero_trust_demonst.Base.{
  ℕ, String, Bool, true, false, ◌≡◌, sym, ◌∙◌, ap, Option, none, some, List, [], ◌∷◌, ◌++◌, arith,
  Option-cases, Bool-cases, length, ◌≤◌, last_n, length-last_n-le, includes, eq_refl, ◌==◌, subst,
  if◌then◌else◌, inl, inr,
}
use facis_zero_trust_demonst.Journey.State.{Run, Flow}
use facis_zero_trust_demonst.Journey.Fixtures.{Message, Env}
use facis_zero_trust_demonst.Journey.Handler.{Outcome, refuse, refused}
use facis_zero_trust_demonst.Journey.Gate.{settled, settled_known}
use facis_zero_trust_demonst.Journey.Engine.{
  handle, after_deadline, run_command, expire_current, current_run, admits, user_of, is_observed,
  type_of, history_of, recent, remember, operations, valid_command_id, command_of, command_id_of,
}
use facis_zero_trust_demonst.Journey.History.{
  run_command-KeepsHistory, expire_current_keeps_history, includes-last_n, history_of-remember,
}

-- A message that reaches the command history: a command of an admitted viewer with an identifier,
-- under a configuration without an error.
pub record IsCommand (msg : Message) (user : String) : Type 0 where
  pub admitted : admits (type_of msg) msg.viewer ≡ true
  pub known : user_of msg.viewer ≡ some user
  pub operation : includes operations (type_of msg) ≡ true
  pub not_status : (type_of msg == "status") ≡ false
  pub configured : msg.config.error ≡ none
  pub identified : valid_command_id (command_id_of msg) ≡ true

module _ (env : Env) (msg : Message) (user : String) (current : Option Run) (flow : Flow)
    (c : IsCommand msg user) where
  duplicate_step :
      includes (history_of user flow) (command_id_of msg) ≡ true
      → after_deadline env msg user current flow
        ≡ (flow, refuse "DUPLICATE_COMMAND" "This Journey command was already processed.")
  unfolding after_deadline
  duplicate_step seen = ground arith

  fresh_step :
      includes (history_of user flow) (command_id_of msg) ≡ false
      → after_deadline env msg user current flow
        ≡ run_command
            (type_of msg)
            (command_of env msg user)
            current
            (remember user (command_id_of msg) flow)
  unfolding after_deadline
  fresh_step new = ground arith

  remembered :
      includes (history_of user (remember user (command_id_of msg) flow)) (command_id_of msg) ≡ true
  remembered =
      let id = command_id_of msg in
      let e : history_of user (remember user id flow)
          ≡ last_n 100 (history_of user flow ++ id ∷ []) =
        ground (arith, eq_refl user, history_of-remember user user id flow) in
      subst (λ h. includes h id ≡ true) (sym e) (includes-last_n (history_of user flow) id)

  recorded :
      includes (history_of user (after_deadline env msg user current flow).0) (command_id_of msg)
      ≡ true
  recorded = elim (Bool-cases (includes (history_of user flow) (command_id_of msg))) [
    | inl seen ↦
        subst (λ (o : Outcome). includes (history_of user o.0) (command_id_of msg) ≡ true)
          (sym (duplicate_step seen)) seen
    | inr new ↦
        let kept =
          run_command-KeepsHistory (command_of env msg user)
            (remember user (command_id_of msg) flow) (type_of msg) current in
        subst (λ (o : Outcome). includes (history_of user o.0) (command_id_of msg) ≡ true)
          (sym (fresh_step new))
          (subst (λ h. includes (recent user h) (command_id_of msg) ≡ true) (sym kept) remembered)
  ]

-- The part of `handle` behind the gates.
handle-IsCommand :
    (env : Env) (msg : Message) (user : String) (flow : Flow)
    → IsCommand msg user
    → let next =
        expire_current env.now
          (current_run flow user (is_observed (type_of msg) msg.viewer))
          flow in
      handle env msg flow ≡ after_deadline env msg user next.0 next.1
unfolding handle
handle-IsCommand env msg user flow c = ground arith

handle_recorded :
    (env : Env) (msg : Message) (user : String) (flow : Flow)
    → IsCommand msg user
    → includes (history_of user (handle env msg flow).0) (command_id_of msg) ≡ true
handle_recorded env msg user flow c =
    let next =
      expire_current env.now (current_run flow user (is_observed (type_of msg) msg.viewer)) flow in
    subst (λ (o : Outcome). includes (history_of user o.0) (command_id_of msg) ≡ true)
      (sym (handle-IsCommand env msg user flow c)) (recorded env msg user next.0 next.1 c)

-- A command is in its user's history once it was processed; and as long as its identifier is there
-- (the history holds the last hundred), the same message is refused as a duplicate, whatever happened
-- in between and whatever the time is, and no run changes but for an overdue request that is closed on
-- the way.
pub handle-replay :
    (env env' : Env) (msg : Message) (user : String) (flow later : Flow)
    → IsCommand msg user
    → includes (history_of user later) (command_id_of msg) ≡ true
    → (includes (history_of user (handle env msg flow).0) (command_id_of msg) ≡ true)
      × ((handle env' msg later).1.reply
          ≡ refused "DUPLICATE_COMMAND" "This Journey command was already processed.")
      × ((handle env' msg later).0 ≡ settled env' msg later)
handle-replay env env' msg user flow later c kept =
    let current = current_run later user (is_observed (type_of msg) msg.viewer) in
    let next = expire_current env'.now current later in
    let seen : includes (history_of user next.1) (command_id_of msg) ≡ true =
      subst (λ h. includes (recent user h) (command_id_of msg) ≡ true)
        (sym (expire_current_keeps_history env'.now current later)) kept in
    let same =
      handle-IsCommand env' msg user later c ∙ duplicate_step env' msg user next.0 next.1 c seen in
    (
      handle_recorded env msg user flow c,
      ap (λ (o : Outcome). o.1.reply) same,
      ap (λ (o : Outcome). o.0) same ∙ sym (settled_known env' msg later c.known),
    )

length_if :
    (b : Bool) (xs ys : List String) {n : ℕ}
    → length xs ≤ n
    → length ys ≤ n
    → length (if b then xs else ys) ≤ n
length_if true xs ys h k = h
length_if false xs ys h k = k

remember_bound :
    (user other id : String) (flow : Flow)
    → length (history_of other flow) ≤ 100
    → length (history_of other (remember user id flow)) ≤ 100
remember_bound user other id flow h =
    let longer = history_of user flow ++ id ∷ [] in
    subst (λ h. length h ≤ 100) (sym (history_of-remember user other id flow))
      (length_if (user == other) (last_n 100 longer) (history_of other flow)
        (length-last_n-le 100 longer) h)

after_deadline_bound :
    (env : Env) (msg : Message) (user : String) (current : Option Run) (flow : Flow)
    (other : String)
    → length (history_of other flow) ≤ 100
    → length (history_of other (after_deadline env msg user current flow).0) ≤ 100
unfolding after_deadline
after_deadline_bound env msg user current flow other h = ground (
  arith,
  remember_bound user other (command_id_of msg) flow h,
  ap (λ d. length (recent other d))
      (run_command-KeepsHistory (command_of env msg user) (remember user (command_id_of msg) flow)
        (type_of msg) current),
)

-- No message makes a user's history longer than a hundred commands.
pub handle_history_bound :
    (env : Env) (msg : Message) (flow : Flow) (other : String)
    → length (history_of other flow) ≤ 100
    → length (history_of other (handle env msg flow).0) ≤ 100
unfolding handle
handle_history_bound env msg flow other h = elim (Option-cases (user_of msg.viewer)) [
  | inl nobody ↦ ground arith
  | inr (user, known) ↦
      let current = current_run flow user (is_observed (type_of msg) msg.viewer) in
      let next = expire_current env.now current flow in
      let bound : length (history_of other next.1) ≤ 100 =
        subst (λ d. length (recent other d) ≤ 100)
          (sym (expire_current_keeps_history env.now current flow)) h in
      ground (arith, after_deadline_bound env msg user next.0 next.1 other bound)
]
