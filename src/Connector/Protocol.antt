-- ===== src/Connector/Protocol.antt =====
-- What the adapter sends and receives, its state, and a call's result: a value, or an `AdapterError`.
-- The network is a parameter that may answer by all that was sent before. Random identifiers, times
-- and signatures of the proofs are left out: a proof is what it claims.
use facis_zero_trust_demonst.Base.{
  ℕ, String, Bool, true, false, Option, none, some, List, [], ◌∷◌, ◌++◌, Value,
}

pub data Authorization : Type 0 where
  basic : (id secret : String) → Authorization
  token : (kind value : String) → Authorization

pub data Body : Type 0 where
  form : List (String × String) → Body
  json : Value → Body

-- The claims of a DPoP proof; `ath`, the hash of the access token, stands as the token itself.
pub record Proof : Type 0 where
  pub htm : String
  pub htu : String
  pub nonce : Option String
  pub access_token : Option String

pub record Call : Type 0 where
  pub stage : String
  pub endpoint : String
  pub method : String
  pub body : Option Body
  pub authorization : Authorization
  pub proof : Option Proof

-- A response; its body comes in chunks, after which the connection may break (`some aborted`).
pub record Response : Type 0 where
  pub status : ℕ
  pub authenticate : String
  pub nonce : Option String
  pub chunks : List String
  pub broken : Option Bool

pub data Fetched : Type 0 where
  unanswered : (aborted : Bool) → Fetched
  answered : Response → Fetched

pub record Network : Type 0 where
  pub fetch : List Call → Call → Fetched
  pub parse_json : String → Option Value
  -- `uri.search = ''; uri.hash = ''`, then `uri.href`
  pub bare_url : String → String

-- `AdapterError`
pub record Failure : Type 0 where
  pub code : String
  pub stage : String
  pub status : Option ℕ

pub record Event : Type 0 where
  pub event : String
  pub stage : String
  pub status : Option ℕ
  pub reason_code : Option String

pub record Client : Type 0 where
  pub id : String
  pub secret : String

-- The calls that were sent, the events of this run, and `registered`.
pub record Session : Type 0 where
  pub calls : List Call
  pub events : List Event
  pub registered : Option Client

pub data Result (A : Type 0) : Type 0 where
  ok : A → Result A
  err : Failure → Result A

abbrev pub Action : Type 0 → Type 0
Action A = Session → Result A × Session

module _ {A : Type 0} where
  abbrev pub pure : A → Action A
  pure a s = (ok a, s)

  abbrev pub raise : String → String → Option ℕ → Action A
  raise code stage status s = (err (record { code = code; stage = stage; status = status }), s)

  abbrev pub or_raise : Option A → String → String → Option ℕ → Action A
  or_raise none code stage status = raise code stage status
  or_raise (some a) code stage status = pure a

-- A value or an error ends one part; the state that was written stays written.
abbrev pub continue : {A B : Type 0} → Result A × Session → (A → Action B) → Result B × Session
continue (ok a, s) f = f a s
continue (err e, s) f = (err e, s)

infixl 5 ◌>>=◌
abbrev pub ◌>>=◌ : {A B : Type 0} → Action A → (A → Action B) → Action B
◌>>=◌ m f s = continue (m s) f

infixl 5 ◌>>◌
abbrev pub ◌>>◌ : {A B : Type 0} → Action A → Action B → Action B
m >> k = m >>= λ _. k

abbrev pub raise_if : Bool → String → String → Option ℕ → Action Unit
raise_if true code stage status = raise code stage status
raise_if false code stage status = pure tt

unfoldable pub send : Network → Call → Action Fetched
send net call s = (ok (net.fetch s.calls call), record s { calls = s.calls ++ call ∷ [] })

unfoldable pub emit : Event → Action Unit
emit event s = (ok tt, record s { events = s.events ++ event ∷ [] })

abbrev pub plain_event : String → String → Event
plain_event event stage = record { event = event; stage = stage; status = none; reason_code = none }
