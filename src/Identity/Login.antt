-- ===== src/Identity/Login.antt =====
-- The login and the ends of sessions that the provider asks for (`login`, `callbackHandler`,
-- `backchannel` and `frontchannel` in identity-on-start.js). Random texts are arguments.
use facis_zero_trust_demonst.Base.{
  ℕ, String, ◌&&◌, ◌||◌, not, Option, none, some, List, [], ◌∷◌, ◌+◌, if◌then◌else◌, Value,
  property, as_string, is_text, leb, text_length, length, insert, nat_eq,
}
use facis_zero_trust_demonst.Identity.State.{
  Session, Transaction, Auth, Provider, Outcome, ok, err, Action, ◌>>=◌, truthy, same,
}
use facis_zero_trust_demonst.Identity.Verify.{client_id}
use facis_zero_trust_demonst.Identity.Sessions.{limit, cleanup, tokens, ask, lookup_at, delete_at}

-- What is set in the browser, and the answer.
pub data Cookie : Type 0 where
  keep_session : (key : String) → Cookie
  keep_transaction : (key : String) → Cookie
  drop_session : Cookie
  drop_transaction : Cookie

pub data Answer : Type 0 where
  refusal : (status : ℕ) (code : String) (state : Option String) → Answer
  redirect : (path : String) (query : List (String × String)) → Answer
  to_page : Answer
  done : Answer

pub record Reply : Type 0 where
  pub answer : Answer
  pub cookies : List Cookie

pub record Random : Type 0 where
  pub transaction : String
  pub state : String
  pub nonce : String
  pub verifier : String
  pub key : String
  pub csrf : String

abbrev pub opened :
    ℕ → Random → Option String → (generation : ℕ) → Outcome Session × Auth → Reply × Auth
opened now random old generation (err code, s) =
    (record { answer = refusal 401 "LOGIN_FAILED" none; cookies = drop_transaction ∷ [] }, s)
opened now random old generation (ok v, s) =
    if not (nat_eq generation s.generation)
    then (record { answer = refusal 401 "LOGIN_FAILED" none; cookies = drop_transaction ∷ [] }, s)
    else (
      record { answer = to_page; cookies = drop_transaction ∷ keep_session random.key ∷ [] },
      record s {
        sessions =
            insert random.key (record v { created = now; last = now; csrf = random.csrf })
              (delete_at old s.sessions);
      },
    )

module _ (p : Provider) (callback : String) where
  unfoldable pub login : ℕ → Random → Auth → Reply × Auth
  login now random before =
      let s = cleanup now before in
      if leb limit (length s.transactions)
      then (record { answer = refusal 503 "IDENTITY_BUSY" none; cookies = [] }, s)
      else (
        record {
          answer = redirect "/auth" (
              ("client_id", client_id)
              ∷ ("redirect_uri", callback)
              ∷ ("response_type", "code")
              ∷ ("scope", "openid profile roles")
              ∷ ("state", random.state)
              ∷ ("nonce", random.nonce)
              ∷ ("code_challenge", p.hash random.verifier)
              ∷ ("code_challenge_method", "S256")
              ∷ []);
          cookies = keep_transaction random.transaction ∷ [];
        },
        record s {
          transactions =
              insert random.transaction
                (record {
                  state = random.state;
                  nonce = random.nonce;
                  verifier = random.verifier;
                  expires = now + 300000;
                })
                s.transactions;
        },
      )

  -- The code of a callback, where it belongs to its transaction.
  unfoldable pub code_of : ℕ → Option Transaction → Value → Option String
  code_of now none query = none
  code_of now (some v) query = elim (as_string (property "code" query)) [
    | none ↦ none
    | some code ↦
        if leb v.expires now
          || not (same v.state (property "state" query))
          || not (leb (text_length code) 4096)
          || (truthy (property "iss" query) && not (is_text (property "iss" query) p.issuer))
        then none
        else some code
  ]

  -- The exchange of the code for a session.
  unfoldable pub exchange : ℕ → String → Transaction → Action Session
  exchange now code v s =
      let t = cleanup now s in
      if leb limit (length t.sessions)
      then (err "IDENTITY_BUSY", t)
      else (ask p (
              ("grant_type", "authorization_code")
              ∷ ("code", code)
              ∷ ("redirect_uri", callback)
              ∷ ("code_verifier", v.verifier)
              ∷ [])
            >>= λ answer. tokens p now answer (some v.nonce) none)
          t

  abbrev pub exchanged :
      ℕ → Random → Option String → Option Transaction → Option String → Auth → Reply × Auth
  exchanged now random old (some v) (some code) s =
      opened now random old s.generation (exchange now code v s)
  exchanged now random old _ _ s = (
    record { answer = refusal 400 "INVALID_OIDC_CALLBACK" none; cookies = drop_transaction ∷ [] },
    s,
  )

  -- The transaction is deleted before anything else.
  unfoldable pub callback_handler :
      ℕ → Random → (transaction session : Option String) → Value → Auth → Reply × Auth
  callback_handler now random transaction old query before =
      let v = lookup_at transaction before.transactions in
      exchanged now random old v (code_of now v query)
        (record before { transactions = delete_at transaction before.transactions })
