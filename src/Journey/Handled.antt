-- ===== src/Journey/Handled.antt =====
-- The whole message keeps every stored run sound (journey-engine.js).
use facis_zero_trust_demonst.Base.{
  ℕ, String, Bool, false, ◌≡◌, refl, subst, Option, none, some, List, [], ◌∷◌, arith, Option-cases,
  inl, inr, if-both, if-each, Dict, lookup, values, lookup-Entries, keep, All, ltb, ◌==◌, not,
  includes, Entries,
}
use facis_zero_trust_demonst.Journey.State.{Run, Flow}
use facis_zero_trust_demonst.Journey.Fixtures.{Env, Message, Viewer}
use facis_zero_trust_demonst.Journey.Request.{is_overdue, expire}
use facis_zero_trust_demonst.Journey.Handler.{Outcome}
use facis_zero_trust_demonst.Journey.Engine.{
  handle, after_deadline, expire_current, current_run, latest, later, is_observable, admits,
  user_of, is_observed, type_of, remember, command_of, command_id_of, valid_command_id, history_of,
  operations,
}
use facis_zero_trust_demonst.Journey.Invariant.{IsSound, expire-IsSound}
use facis_zero_trust_demonst.Journey.Soundness.{FlowIsSound, store-FlowIsSound, run_command_sound}

-- Sound under whoever owns it.
abbrev IsOwned : Run → Type 0
IsOwned run = (owner : String) → run.owner_id ≡ some owner → IsSound owner run

abbrev IsOwnedOption : Option Run → Type 0
IsOwnedOption current = (run : Run) → current ≡ some run → IsOwned run

IsSound-IsOwned : (k : String) (run : Run) → IsSound k run → IsOwned run
IsSound-IsOwned k run s owner e =
    let same : k ≡ owner = ground (arith, s.owned) in subst (λ o. IsSound o run) same s

All-IsOwned : (m : Dict Run) → Entries IsSound m → All IsOwned (keep is_observable (values m))
All-IsOwned [] h = tt
All-IsOwned ((k, run) ∷ m) h =
    let rest = All-IsOwned m h.1 in
    if-both (All IsOwned) (is_observable run) (IsSound-IsOwned k run h.0, rest) rest

later-IsOwned :
    (run : Run) (other : Option Run) → IsOwned run → IsOwnedOption other → IsOwned (later run other)
later-IsOwned run none o h = o
later-IsOwned run (some other) o h =
    if-both IsOwned (ltb run.updated_at other.updated_at) (h other refl) o

latest-IsOwned : (runs : List Run) → All IsOwned runs → IsOwnedOption (latest runs)
unfolding latest
latest-IsOwned [] h run e = cc
latest-IsOwned (r ∷ runs) h run e =
    let first : later r (latest runs) ≡ run = ground arith in
    subst IsOwned first (later-IsOwned r (latest runs) h.0 (latest-IsOwned runs h.1))

not_observed :
    (type : String) (viewer : Option Viewer)
    → (type == "status") ≡ false
    → is_observed type viewer ≡ false
not_observed type none e = refl
not_observed type (some v) e = ground arith

lookup-IsOwned :
    (user : String) (flow : Flow)
    → FlowIsSound flow
    → IsOwnedOption (lookup user flow.journey_states)
lookup-IsOwned user flow h run e =
    IsSound-IsOwned user run (lookup-Entries IsSound user run flow.journey_states e h)

current_run-IsOwned :
    (flow : Flow) (user : String) (observed : Bool)
    → FlowIsSound flow
    → IsOwnedOption (current_run flow user observed)
unfolding current_run
current_run-IsOwned flow user observed h =
    if-both IsOwnedOption observed
      (latest-IsOwned (keep is_observable (values flow.journey_states))
        (All-IsOwned flow.journey_states h))
      (lookup-IsOwned user flow h)

expire_current-FlowIsSound :
    (now : ℕ) (current : Option Run) (flow : Flow)
    → IsOwnedOption current
    → FlowIsSound flow
    → FlowIsSound (expire_current now current flow).1
unfolding expire_current
expire_current-FlowIsSound now none flow o h = h
expire_current-FlowIsSound now (some run) flow o h =
    if-both (λ (r : Option Run × Flow). FlowIsSound r.1) (is_overdue now run)
      (elim (Option-cases run.owner_id) [
        | inl nobody ↦ rw nobody h
        | inr (owner, owned) ↦ rw owned (
            store-FlowIsSound owner (expire now run) flow
              (expire-IsSound owner now run (o run refl owner owned)) h)
      ])
      h

expire_current-IsSound :
    (now : ℕ) (user : String) (flow : Flow)
    → FlowIsSound flow
    → (run : Run) → (expire_current now (current_run flow user false) flow).0 ≡ some run
    → IsSound user run
unfolding expire_current current_run
expire_current-IsSound now user flow h run e =
    elim (Option-cases (lookup user flow.journey_states)) [
      | inl missing ↦ ground arith
      | inr (found, there) ↦
          let sound = lookup-Entries IsSound user found flow.journey_states there h in
          ground (arith, sound, expire-IsSound user now found sound)
    ]

after_deadline-FlowIsSound :
    (env : Env) (msg : Message) (user : String) (current : Option Run) (flow : Flow)
    → ((type_of msg == "status") ≡ false → (run : Run) → current ≡ some run → IsSound user run)
    → FlowIsSound flow
    → FlowIsSound (after_deadline env msg user current flow).0
unfolding after_deadline remember
after_deadline-FlowIsSound env msg user current flow s h =
    if-each (λ (o : Outcome). FlowIsSound o.0) (type_of msg == "status") (λ status. h)
      (λ command. elim (Option-cases msg.config.error) [
        | inr (error, failed) ↦ rw failed h
        | inl working ↦ rw working (
            if-both (λ (o : Outcome). FlowIsSound o.0) (not (valid_command_id (command_id_of msg)))
              h
              (if-both (λ (o : Outcome). FlowIsSound o.0)
                (includes (history_of user flow) (command_id_of msg)) h
                (run_command_sound (command_of env msg user)
                  (remember user (command_id_of msg) flow) h (type_of msg) current s command)))
      ])

-- Whatever the message and whenever it comes, a flow context whose runs are sound is left with sound
-- runs: each stands under its owner, has a result exactly when it has ended, waits for a response
-- only while it has not ended, and, when it is a sample run, has six checks and a step among them.
pub handle-FlowIsSound :
    (env : Env) (msg : Message) (flow : Flow)
    → FlowIsSound flow
    → FlowIsSound (handle env msg flow).0
unfolding handle
handle-FlowIsSound env msg flow h =
    if-both (λ (o : Outcome). FlowIsSound o.0) (not (admits (type_of msg) msg.viewer)) h
      (elim (Option-cases (user_of msg.viewer)) [
        | inl nobody ↦ rw nobody h
        | inr (user, known) ↦ rw known (
            if-both (λ (o : Outcome). FlowIsSound o.0) (not (includes operations (type_of msg))) h
              (let observed = is_observed (type_of msg) msg.viewer in
                let current = current_run flow user observed in
                let next = expire_current env.now current flow in
                after_deadline-FlowIsSound env msg user next.0 next.1
                  (λ command. λ run. λ e. expire_current-IsSound env.now user flow h run (
                    subst
                      (λ b. (expire_current env.now (current_run flow user b) flow).0 ≡ some run)
                      (not_observed (type_of msg) msg.viewer command) e))
                  (expire_current-FlowIsSound env.now current flow
                    (current_run-IsOwned flow user observed h) h)))
      ])
