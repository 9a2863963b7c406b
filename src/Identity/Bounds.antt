-- ===== src/Identity/Bounds.antt =====
-- No request makes a record of the boundary longer than its limit (identity-on-start.js and
-- identity-on-message.js).
use facis_zero_trust_demonst.Base.{
  ℕ, String, Bool, true, false, ◌≡◌, refl, sym, ◌∙◌, ap, subst, Option, none, some, [], ◌∷◌, ◌≤◌,
  ◌-◌, length, arith, Bool-cases, inl, inr, Dict, lookup, delete, ltb, leb, not, get, if-both,
}
use facis_zero_trust_demonst.Identity.State.{
  Session, Auth, Provider, Outcome, ok, err, Action, raise_if, continue, ◌>>=◌, identical,
}
use facis_zero_trust_demonst.Identity.Sessions.{
  cleanup, session, session_at, found, renew, refresh, refreshed, seen, store, plain, limit,
}
use facis_zero_trust_demonst.Identity.Kept.{
  Same, Same-refl, Keeps, bind-Keeps, verify-Keeps, ask-Keeps, tokens-Keeps,
}
use facis_zero_trust_demonst.Identity.Sizes.{
  IsBounded, cleanup-IsBounded, delete_le, insert_known, mark_expired_le,
}

pub Same-IsBounded : (s t : Auth) → Same s t → IsBounded s → IsBounded t
Same-IsBounded s t h b = record {
  sessions = subst (λ m. length m ≤ limit) (sym h.sessions) b.sessions;
  ended = subst (λ m. length m ≤ limit) (sym h.ended) b.ended;
  transactions = subst (λ m. length m ≤ limit) (sym h.transactions) b.transactions;
  replays = subst (λ m. length m ≤ limit) (sym h.replays) b.replays;
}

-- Other sessions, of which there are no more.
pub fewer-IsBounded :
    (s : Auth) (sessions : Dict Session)
    → length sessions ≤ limit
    → IsBounded s
    → IsBounded (record s { sessions = sessions })
fewer-IsBounded s sessions le b = record {
  sessions = le;
  ended = b.ended;
  transactions = b.transactions;
  replays = b.replays;
}

-- A part that keeps the bounds while there is a session at a key.
record Stays {A : Type 0} (key : String) (m : Action A) : Type 0 where
  stays :
      (s : Auth) (v : Session) → IsBounded s → lookup key s.sessions ≡ some v → IsBounded (m s).1

module _ {A B : Type 0} (key : String) where
  keep-Stays :
      {m : Action A} {f : A → Action B}
      → Keeps m
      → ((a : A) → Stays key (f a))
      → Stays key (m >>= f)
  keep-Stays {m = m} {f = f} x g = record { stays = λ s v b at. next s v b at (m s) (x.keeps s) }
    where
      next :
          (s : Auth) (v : Session)
          → IsBounded s
          → lookup key s.sessions ≡ some v
          → (r : Outcome A × Auth) → Same s r.1
          → IsBounded (continue r f).1
      next s v b at (err code, t) kept = Same-IsBounded s t kept b
      next s v b at (ok a, t) kept =
          (g a).stays t v (Same-IsBounded s t kept b) (ap (lookup key) kept.sessions ∙ at)

-- What a refresh leaves: all as it was, or the bounds after an error.
abbrev Refreshed : Auth → Outcome Session × Auth → Type 0
Refreshed s (ok v, t) = Same s t
Refreshed s (err code, t) = IsBounded t

module _ (p : Provider) (now : ℕ) (key : String) where
  refreshed-Refreshed :
      (s : Auth) (v : Session) (r : Outcome Session × Auth)
      → IsBounded s
      → Same s r.1
      → Refreshed s (refreshed key v r)
  refreshed-Refreshed s v (ok u, t) b kept = kept
  refreshed-Refreshed s v (err code, t) b kept =
      let whole = Same-IsBounded s t kept b in
      let le = delete_le key t.sessions in
      fewer-IsBounded t (delete key t.sessions) (omega (arith, le, whole.sessions)) whole

  refresh-Refreshed : (s : Auth) (v : Session) → IsBounded s → Refreshed s (refresh p now key v s)
  unfolding refresh
  refresh-Refreshed s v b =
      if-both (Refreshed s) (ltb (v.expires - now) 60000)
        (refreshed-Refreshed s v _ b (
          (bind-Keeps
              (ask-Keeps p (("grant_type", "refresh_token") ∷ ("refresh_token", v.refresh) ∷ []))
              (λ answer. tokens-Keeps p now answer none (some v))).keeps
            s))
        (Same-refl s)

  stored-IsBounded :
      (s : Auth) (v : Session) (change : Session → Session) (r : Outcome Session × Auth)
      → IsBounded s
      → lookup key s.sessions ≡ some v
      → Refreshed s r
      → IsBounded (continue r (λ current. store key (change current))).1
  stored-IsBounded s v change (err code, t) b at h = h
  stored-IsBounded s v change (ok current, t) b at h =
      let whole = Same-IsBounded s t h b in
      fewer-IsBounded t _
        (subst (λ n. n ≤ limit)
          (sym (insert_known key v (change current) t.sessions (ap (lookup key) h.sessions ∙ at)))
          whole.sessions)
        whole

  raise_if-Keeps : (b : Bool) (code : String) → Keeps (raise_if b code)
  raise_if-Keeps true code = record { keeps = λ s. Same-refl s }
  raise_if-Keeps false code = record { keeps = λ s. Same-refl s }

  saved-Stays :
      (u : Session)
      → Stays key (refresh p now key u >>= λ current. store key (record current { last = now }))
  saved-Stays u = record {
    stays = λ s v b at.
        stored-IsBounded s v (λ current. record current { last = now }) (refresh p now key u s) b at
          (refresh-Refreshed s u b);
  }

  renew-IsBounded :
      (v : Session) (s : Auth)
      → IsBounded s
      → lookup key s.sessions ≡ some v
      → IsBounded (renew p now key v s).1
  unfolding renew
  renew-IsBounded v s b at = elim (Bool-cases (leb v.expires now)) [
    | inl over ↦
        let le = delete_le key s.sessions in
        rw over (record {
          sessions = omega (arith, le, b.sessions);
          ended = mark_expired_le now key s.ended b.ended;
          transactions = b.transactions;
          replays = b.replays;
        })
    | inr live ↦ rw live (
        (keep-Stays key (verify-Keeps p plain now v.access) (λ access.
            keep-Stays key
              (raise_if-Keeps (not (identical (get "sub" access) v.subject))
                "INVALID_IDENTITY_RESPONSE")
              (λ _. saved-Stays (seen access v)))).stays
          s v b at)
  ]

  found-IsBounded :
      (o : Option Session) (s : Auth)
      → lookup key s.sessions ≡ o
      → IsBounded s
      → IsBounded (found p now key o s).1
  found-IsBounded none s at b = b
  found-IsBounded (some v) s at b = renew-IsBounded v s b at

module _ (p : Provider) (now : ℕ) where
  session_at-IsBounded :
      (cookie : Option String) (s : Auth) → IsBounded s → IsBounded (session_at p now cookie s).1
  session_at-IsBounded none s b = b
  session_at-IsBounded (some key) s b = found-IsBounded p now key _ s refl b

  pub session-IsBounded :
      (cookie : Option String) (s : Auth) → IsBounded s → IsBounded (session p now cookie s).1
  unfolding session
  session-IsBounded cookie s b =
      session_at-IsBounded cookie (cleanup now s) (cleanup-IsBounded now s b)
