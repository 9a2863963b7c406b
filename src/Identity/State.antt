-- ===== src/Identity/State.antt =====
-- The state of the identity boundary and its operations with results (`UIAuth` in
-- identity-on-start.js). What the provider answers is a parameter that may depend on how often it was
-- asked. Operations do not overlap, so no refresh or fetch is shared between two of them.
use facis_zero_trust_demonst.Base.{
  ℕ, String, Bool, true, false, not, Option, List, [], if◌then◌else◌, ◌==◌, Value, Fields, Items,
  str, num, bool, null, undefined, obj, arr, nat_eq, is_empty, Dict, suc,
}
use facis_zero_trust_demonst.Identity.Preview.{Role}

pub record Transaction : Type 0 where
  pub state : String
  pub nonce : String
  pub verifier : String
  pub expires : ℕ

pub record Session : Type 0 where
  pub access : Value
  pub id_token : Value
  pub refresh : String
  pub claims : Fields
  pub username : Value
  pub subject : Value
  pub sid : Value
  pub role : Option Role
  pub expires : ℕ
  pub created : ℕ
  pub last : ℕ
  pub csrf : String

-- `this`; `asked` counts the requests to the provider.
pub record Auth : Type 0 where
  pub sessions : Dict Session
  pub ended : Dict ℕ
  pub transactions : Dict Transaction
  pub replays : Dict ℕ
  pub known_keys : Option Items
  pub key_at : ℕ
  pub asked : ℕ
  pub generation : ℕ

-- What comes back from the provider: nothing, a body that is too long, or a status with the body as
-- JSON, if it is JSON.
pub data Received : Type 0 where
  unreachable : Received
  too_long : Received
  response : (status : ℕ) (content : Option Value) → Received

-- The options of the boundary and what it asks of others: decoding, signatures and the provider.
pub record Provider : Type 0 where
  pub issuer : String
  pub origin : String
  pub split : String → List String
  pub decode : String → Option Value
  pub signed : (header claims signature : String) → Value → Bool
  pub key_bytes : Value → ℕ
  pub certs : ℕ → Received
  pub token : ℕ → List (String × String) → Received
  pub hash : String → String

pub data Outcome (A : Type 0) : Type 0 where
  ok : A → Outcome A
  err : (code : String) → Outcome A

abbrev pub Action : Type 0 → Type 0
Action A = Auth → Outcome A × Auth

module _ {A : Type 0} where
  abbrev pub pure : A → Action A
  pure a s = (ok a, s)

  abbrev pub raise : String → Action A
  raise code s = (err code, s)

abbrev pub continue : {A B : Type 0} → Outcome A × Auth → (A → Action B) → Outcome B × Auth
continue (ok a, s) f = f a s
continue (err code, s) f = (err code, s)

infixl 5 ◌>>=◌
abbrev pub ◌>>=◌ : {A B : Type 0} → Action A → (A → Action B) → Action B
◌>>=◌ m f s = continue (m s) f

infixl 5 ◌>>◌
abbrev pub ◌>>◌ : {A B : Type 0} → Action A → Action B → Action B
m >> k = m >>= λ _. k

abbrev pub raise_if : Bool → String → Action Unit
raise_if true code = raise code
raise_if false code = pure tt

abbrev pub truthy : Value → Bool
truthy undefined = false
truthy null = false
truthy (bool b) = b
truthy (num n) = not (nat_eq n 0)
truthy (str s) = not (is_empty s)
truthy (obj fs) = true
truthy (arr vs) = true

-- `a === b`; two objects that were read from texts are never the same.
unfoldable pub identical : Value → Value → Bool
identical undefined undefined = true
identical null null = true
identical (bool true) (bool b) = b
identical (bool false) (bool b) = not b
identical (num m) (num n) = nat_eq m n
identical (str s) (str t) = s == t
identical _ _ = false

abbrev pub or_else : Value → Value → Value
or_else v w = if truthy v then v else w

-- `same(a, b)`
abbrev pub same : String → Value → Bool
same a (str b) = a == b
same a _ = false

abbrev pub reset : Auth → Auth
reset s = record s {
  generation = suc s.generation;
  sessions = [];
  ended = [];
  transactions = [];
  replays = [];
}
