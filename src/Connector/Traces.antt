-- ===== src/Connector/Traces.antt =====
-- The events of a run, against the states a client of the Connector goes through
-- (connector-adapter.mjs).
use facis_zero_trust_demonst.Base.{
  ℕ, String, true, ◌≡◌, refl, sym, ◌∙◌, ap, subst, List, [], ◌∷◌, ◌++◌, includes,
}
use mathlib.Core.List.{append-nil, append_assoc}
use facis_zero_trust_demonst.Connector.Protocol.{
  Action, Session, Result, ok, err, Failure, Event, plain_event, continue, ◌>>=◌,
}
use facis_zero_trust_demonst.Connector.Run.{responded, refused_event}
use facis_zero_trust_demonst.Connector.Settling.{IsAt, Settles}

pub data Phase : Type 0 where
  idle : Phase
  registering : Phase
  registered : Phase
  authorised : Phase
  calling : Phase
  answered : (status : ℕ) → Phase
  failed : Failure → Phase

-- The stages in which an error ends a phase.
abbrev pub stages : Phase → List String
stages registering = "registration-token" ∷ "registration" ∷ []
stages registered = "token" ∷ []
stages calling = "protected-call" ∷ []
stages _ = []

pub data Step : Phase → Event → Phase → Type 0 where
  begin : Step idle (plain_event "registration.requested" "registration") registering
  registration : Step registering (plain_event "registration.ready" "registration") registered
  authorisation : Step registered (plain_event "token.acquired" "token") authorised
  call : Step authorised (plain_event "protected.requested" "protected-call") calling
  response : (status : ℕ) → Step calling (responded status) (answered status)
  failure :
      (p : Phase) (e : Failure)
      → includes (stages p) e.stage ≡ true
      → Step p (refused_event e) (failed e)

pub data Route : Phase → List Event → Phase → Type 0 where
  stop : (p : Phase) → Route p [] p
  step :
      (p q r : Phase) (event : Event) (events : List Event)
      → Step p event q
      → Route q events r
      → Route p (event ∷ events) r

pub Route-append :
    (p q r : Phase) (l k : List Event) → Route p l q → Route q k r → Route p (l ++ k) r
Route-append p q r l k (stop _) y = y
Route-append p q r l k (step _ p' _ event events e x) y =
    step p p' r event (events ++ k) e (Route-append p' q r events k x y)

pub one : (p q : Phase) (event : Event) → Step p event q → Route p (event ∷ []) q
one p q event e = step p q q event [] e (stop q)

module _ {A : Type 0} where
  -- From `p` the new events lead to the phase `q` of the result, or to one in which the error may occur.
  abbrev pub Moved : Phase → (A → Phase) → List Event → Result A × Session → Type 0
  Moved p q before (ok a, t) = (new : List Event) × (t.events ≡ before ++ new) × Route p new (q a)
  Moved p q before (err e, t) =
      (r : Phase) × ((new : List Event) × (t.events ≡ before ++ new) × Route p new r)
      × (includes (stages r) e.stage ≡ true)

  pub record Moves (p : Phase) (q : A → Phase) (m : Action A) : Type 0 where
    pub moves : (s : Session) → Moved p q s.events (m s)

  -- A part that emits nothing, with errors of one stage.
  pub still :
      (p : Phase) (q : A → Phase) (stage : String) (before : List Event) (x : Result A × Session)
      → includes (stages p) stage ≡ true
      → ((a : A) → p ≡ q a)
      → IsAt stage x.0
      → x.1.events ≡ before
      → Moved p q before x
  still p q stage before (ok a, t) allowed same at events =
      ([], events ∙ sym (append-nil before), subst (Route p []) (same a) (stop p))
  still p q stage before (err e, t) allowed same at events =
      (p, ([], events ∙ sym (append-nil before), stop p), ap (includes (stages p)) at ∙ allowed)

  pub Settles-Moves :
      {p : Phase} {m : Action A} (stage : String)
      → includes (stages p) stage ≡ true
      → ((s : Session) → Settles stage s (m s))
      → Moves p (λ (a : A). p) m
  Settles-Moves {p = p} stage allowed settles = record {
    moves = λ s.
        let (r, at, same) = settles s in
        subst (Moved p (λ (a : A). p) s.events) (sym same)
          (still p (λ a. p) stage s.events (r, s) allowed (λ a. refl) at refl);
  }

module _ {A B : Type 0} where
  pub continue-Moves :
      (p : Phase) (q : A → Phase) (r : B → Phase) (before : List Event) (x : Result A × Session)
      (f : A → Action B)
      → Moved p q before x
      → ((a : A) → Moves (q a) r (f a))
      → Moved p r before (continue x f)
  continue-Moves p q r before (err e, t) f m g = m
  continue-Moves p q r before (ok a, t) f (new, events, path) g = after (f a t) ((g a).moves t)
    where
      joined :
          (later after : List Event) → after ≡ t.events ++ later → after ≡ before ++ (new ++ later)
      joined later after e = e ∙ ap (λ l. l ++ later) events ∙ append_assoc before new later

      after : (y : Result B × Session) → Moved (q a) r t.events y → Moved p r before y
      after (ok b, u) (later, e, path') =
          (new ++ later, joined later u.events e, Route-append p (q a) (r b) new later path path')
      after (err e, u) (o, (later, same, path'), allowed) = (
        o,
        (new ++ later, joined later u.events same, Route-append p (q a) o new later path path'),
        allowed,
      )

  pub bind-Moves :
      {p : Phase} {q : A → Phase} {r : B → Phase} {x : Action A} {f : A → Action B}
      → Moves p q x
      → ((a : A) → Moves (q a) r (f a))
      → Moves p r (x >>= f)
  bind-Moves {p = p} {q = q} {r = r} {x = x} {f = f} m g = record {
    moves = λ s. continue-Moves p q r s.events (x s) f (m.moves s) g;
  }
