-- ===== src/Identity/Kept.antt =====
-- What asking the provider and verifying a token leave as it is (identity-on-start.js).
use facis_zero_trust_demonst.Base.{
  ℕ, suc, String, Bool, true, false, ◌≡◌, refl, ◌∙◌, Option, none, some, List, Value, Fields, Items,
  if◌then◌else◌, inl, inr, ◌⊎◌, property, ◌-◌, ◌/◌, ◌∷◌,
}
use facis_zero_trust_demonst.Identity.State.{
  Session, Auth, Provider, Outcome, ok, err, Action, pure, raise, continue, ◌>>=◌,
}
use facis_zero_trust_demonst.Identity.Token.{Parts, parts_of}
use facis_zero_trust_demonst.Identity.Verify.{
  verify, Check, jwks, key_for, cached_keys, cached_or, fetched, received, raised_or, verify_parts,
  client_id, content_of, keys_in, find_key, claims_error,
}
use facis_zero_trust_demonst.Identity.Sessions.{
  tokens, assemble, ask, answer_of, tokens_agree, plain,
}

-- The same sessions, transactions and records.
pub record Same (s t : Auth) : Type 0 where
  pub sessions : t.sessions ≡ s.sessions
  pub ended : t.ended ≡ s.ended
  pub transactions : t.transactions ≡ s.transactions
  pub replays : t.replays ≡ s.replays
  pub generation : t.generation ≡ s.generation

pub record Keeps {A : Type 0} (m : Action A) : Type 0 where
  pub keeps : (s : Auth) → Same s (m s).1

pub Same-refl : (s : Auth) → Same s s
Same-refl s = record {
  sessions = refl;
  ended = refl;
  transactions = refl;
  replays = refl;
  generation = refl;
}

pub Same-trans : (s t u : Auth) → Same s t → Same t u → Same s u
Same-trans s t u a b = record {
  sessions = b.sessions ∙ a.sessions;
  ended = b.ended ∙ a.ended;
  transactions = b.transactions ∙ a.transactions;
  replays = b.replays ∙ a.replays;
  generation = b.generation ∙ a.generation;
}

module _ {A : Type 0} where
  pure-Keeps : (a : A) → Keeps (pure a)
  pure-Keeps a = record { keeps = λ s. Same-refl s }

  raise-Keeps : (code : String) → Keeps {A = A} (raise code)
  raise-Keeps code = record { keeps = λ s. Same-refl s }

  if-Keeps : {m k : Action A} (b : Bool) → Keeps m → Keeps k → Keeps (λ s. (if b then m else k) s)
  if-Keeps true m k = m
  if-Keeps false m k = k

module _ {A B : Type 0} where
  pub bind-Keeps :
      {m : Action A} {f : A → Action B} → Keeps m → ((a : A) → Keeps (f a)) → Keeps (m >>= f)
  bind-Keeps {m = m} {f = f} x g = record { keeps = λ s. next s (m s) (x.keeps s) }
    where
      next : (s : Auth) (r : Outcome A × Auth) → Same s r.1 → Same s (continue r f).1
      next s (ok a, t) kept = Same-trans s t _ kept ((g a).keeps t)
      next s (err code, t) kept = kept

Same-other :
    (s t : Auth) (vs : Option Items) (at asked : ℕ)
    → Same s t
    → Same s (record t { known_keys = vs; key_at = at; asked = asked })
Same-other s t vs at asked h = record {
  sessions = h.sessions;
  ended = h.ended;
  transactions = h.transactions;
  replays = h.replays;
  generation = h.generation;
}

received-Same : (now : ℕ) (s t : Auth) (vs : Option Items) → Same s t → Same s (received now t vs).1
received-Same now s t none h = h
received-Same now s t (some vs) h = Same-other s t (some vs) now t.asked h

fetched-Same :
    (now : ℕ) (s t : Auth) (answer : String ⊎ Value) → Same s t → Same s (fetched now t answer).1
fetched-Same now s t (inl code) h = h
fetched-Same now s t (inr answer) h = received-Same now s t (keys_in answer) h

answer_of-Same : (s t : Auth) (answer : String ⊎ Value) → Same s t → Same s (answer_of t answer).1
answer_of-Same s t (inl code) h = h
answer_of-Same s t (inr answer) h = h

asked-Same : (s : Auth) → Same s (record s { asked = suc s.asked })
asked-Same s = Same-other s s s.known_keys s.key_at (suc s.asked) (Same-refl s)

cached_or-Keeps :
    {A : Type 0} {other : Action A} (o : Option A) → Keeps other → Keeps (cached_or o other)
cached_or-Keeps none k = k
cached_or-Keeps (some a) k = pure-Keeps a

raised_or-Keeps : {A : Type 0} (o : Option String) (a : A) → Keeps (raised_or o a)
raised_or-Keeps none a = pure-Keeps a
raised_or-Keeps (some code) a = raise-Keeps code

module _ (p : Provider) where
  jwks-Keeps : (force : Bool) (now : ℕ) → Keeps (jwks p force now)
  unfolding jwks
  jwks-Keeps force now = record {
    keeps = λ s.
        (cached_or-Keeps (cached_keys force (now - s.key_at) s.known_keys) (record {
          keeps = λ t. fetched-Same now t _ (content_of false (p.certs t.asked)) (asked-Same t);
        })).keeps
          s;
  }

  key_for-Keeps : (kid : String) (now : ℕ) → Keeps (key_for p kid now)
  unfolding key_for
  key_for-Keeps kid now = bind-Keeps (jwks-Keeps false now) (λ vs.
      cached_or-Keeps (find_key kid vs) (
        bind-Keeps (jwks-Keeps true now)
          (λ fresh. cached_or-Keeps (find_key kid fresh) (raise-Keeps "INVALID_TOKEN"))))

  verify_parts-Keeps :
      (check : Check) (now : ℕ) (parts : Option Parts) → Keeps (verify_parts p check now parts)
  unfolding verify_parts
  verify_parts-Keeps check now none = raise-Keeps "INVALID_TOKEN"
  verify_parts-Keeps check now (some parts) = bind-Keeps (key_for-Keeps parts.kid now) (λ key.
      if-Keeps _ (raised_or-Keeps (claims_error p check (now / 1000) parts.claims) parts.claims)
        (raise-Keeps "INVALID_TOKEN"))

  pub verify-Keeps : (check : Check) (now : ℕ) (tok : Value) → Keeps (verify p check now tok)
  unfolding verify
  verify-Keeps check now tok = verify_parts-Keeps check now (parts_of p tok)

  pub ask-Keeps : (form : List (String × String)) → Keeps (ask p form)
  unfolding ask
  ask-Keeps form = record {
    keeps = λ s.
        answer_of-Same s _ (content_of true (p.token s.asked (("client_id", client_id) ∷ form)))
          (asked-Same s);
  }

  assemble-Keeps :
      (now : ℕ) (answer : Value) (previous : Option Session) (access id : Fields)
      (supplied : Option String)
      → Keeps (assemble now answer previous access id supplied)
  unfolding assemble
  assemble-Keeps now answer previous access id none = raise-Keeps "INVALID_IDENTITY_RESPONSE"
  assemble-Keeps now answer previous access id (some supplied) =
      if-Keeps (tokens_agree access id previous supplied) (pure-Keeps _)
        (raise-Keeps "INVALID_IDENTITY_RESPONSE")

  pub tokens-Keeps :
      (now : ℕ) (answer : Value) (sent : Option String) (previous : Option Session)
      → Keeps (tokens p now answer sent previous)
  unfolding tokens
  tokens-Keeps now answer sent previous =
      bind-Keeps (verify-Keeps plain now (property "access_token" answer)) (λ access.
        bind-Keeps (verify-Keeps _ now (property "id_token" answer))
          (λ id. assemble-Keeps now answer previous access id _))
