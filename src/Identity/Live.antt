-- ===== src/Identity/Live.antt =====
-- Which sessions answer (`session` in identity-on-start.js).
use facis_zero_trust_demonst.Base.{
  ℕ, String, Bool, true, ◌≡◌, refl, sym, ◌∙◌, ap, subst, Option, none, some, [], ◌∷◌, Bool-cases,
  inl, inr, not, if◌then◌else◌, ◌==◌, eq_iff, eq_refl, arith, Dict, lookup, some_injective,
  lookup-insert, leb, ◌<◌, ◌-◌, Memᴰ, get,
}
use facis_zero_trust_demonst.Identity.State.{
  Session, Auth, Provider, Outcome, ok, err, Action, raise_if, continue, ◌>>=◌, identical,
}
use facis_zero_trust_demonst.Identity.Verify.{verify}
use facis_zero_trust_demonst.Identity.Sessions.{
  session, session_at, found, renew, refresh, store, cleanup, retain, is_stale, plain, seen,
}

-- What a part ensures where it succeeds.
pub record Ends {A : Type 0} (P : A → Auth → Type 0) (m : Action A) : Type 0 where
  pub ends : (s : Auth) (a : A) (t : Auth) → m s ≡ (ok a, t) → P a t

module _ {A B : Type 0} {P : B → Auth → Type 0} where
  pub bind-Ends : (m : Action A) {f : A → Action B} → ((a : A) → Ends P (f a)) → Ends P (m >>= f)
  bind-Ends m {f = f} g = record { ends = λ s. next (m s) }
    where
      next : (r : Outcome A × Auth) (b : B) (t : Auth) → continue r f ≡ (ok b, t) → P b t
      next (ok a, u) b t e = (g a).ends u b t e
      next (err code, u) b t e = cc

-- The session that is answered stands in the store, used just now.
abbrev IsStored : ℕ → String → Session → Auth → Type 0
IsStored now key s t = (s.last ≡ now) × (lookup key t.sessions ≡ some s)

store-Ends :
    (now : ℕ) (key : String) (current : Session)
    → Ends (IsStored now key) (store key (record current { last = now }))
store-Ends now key current = record { ends = λ s v t e. stored s v t e }
  where
    stored :
        (s : Auth) (v : Session) (t : Auth)
        → store key (record current { last = now }) s ≡ (ok v, t)
        → IsStored now key v t
    stored s v t e =
        let w : Session = record current { last = now } in
        subst (λ (x : Session × Auth). IsStored now key x.0 x.1) (ap taken e)
          (refl, lookup-insert key key w s.sessions ∙ rw (eq_refl key) refl)
      where
        taken : Outcome Session × Auth → Session × Auth
        taken (ok a, u) = (a, u)
        taken (err code, u) = (record current { last = now }, u)

module _ {V : Type 0} (test : V → Bool) (k : String) (v : V) where
  -- What a lookup says of an entry at the head.
  head-keeps :
      (j : String) (w : V) (m rest : Dict V)
      → test w ≡ true
      → (lookup k rest ≡ some v → (test v ≡ true) × Memᴰ (k, v) m)
      → (if j == k then some w else lookup k rest) ≡ some v
      → (test v ≡ true) × Memᴰ (k, v) ((j, w) ∷ m)
  head-keeps j w m rest kept later e =
      let branch : Bool → Option V = λ b. if b then some w else lookup k rest in
      elim (Bool-cases (j == k)) [
        | inl same ↦
            let is_v = some_injective (subst (λ b. branch b ≡ some v) same e) in
            (
              subst (λ u. test u ≡ true) is_v kept,
              Memᴰ.head (sym (ap (λ i. (i, w)) ((eq_iff j k).0 same) ∙ ap (λ u. (k, u)) is_v)),
            )
        | inr other ↦
            let (holds, within) = later (subst (λ b. branch b ≡ some v) other e) in
            (holds, Memᴰ.tail within)
      ]

  -- What is found among the entries that a test keeps.
  pub retain-keeps :
      (m : Dict V) → lookup k (retain test m) ≡ some v → (test v ≡ true) × Memᴰ (k, v) m
  unfolding retain lookup
  retain-keeps [] e = cc
  retain-keeps ((j, w) ∷ m) e =
      let later = retain-keeps m in
      let branch : Bool → Dict V = λ b. if b then (j, w) ∷ retain test m else retain test m in
      elim (Bool-cases (test w)) [
        | inr dropped ↦
            let (holds, within) = later (subst (λ b. lookup k (branch b) ≡ some v) dropped e) in
            (holds, Memᴰ.tail within)
        | inl kept ↦
            head-keeps j w m (retain test m) kept later
              (subst (λ b. lookup k (branch b) ≡ some v) kept e)
      ]

-- A session that answers at a time: it has not expired, and stands in the store.
abbrev Answers : ℕ → String → Session → Session → Auth → Type 0
Answers now key v s t = (now < v.expires) × IsStored now key s t

module _ (p : Provider) (now : ℕ) (key : String) where
  under :
      (v : Session)
      → now < v.expires
      → (current : Session) → Ends (Answers now key v) (store key (record current { last = now }))
  under v before current = record {
    ends = λ s u t e. (before, (store-Ends now key current).ends s u t e);
  }

  renew-Ends : (v : Session) → Ends (Answers now key v) (renew p now key v)
  unfolding renew lookup
  renew-Ends v = record {
    ends = λ s. elim (Bool-cases (leb v.expires now)) [
      | inl over ↦ rw (over, renew) (λ u t e. cc)
      | inr live ↦
          rw (live, renew)
            ((bind-Ends (verify p plain now v.access) (λ access.
                bind-Ends
                  (raise_if (not (identical (get "sub" access) v.subject))
                    "INVALID_IDENTITY_RESPONSE")
                  (λ _.
                    bind-Ends (refresh p now key (seen access v))
                      (λ current. under v (ground (arith, live)) current)))).ends
              s)
    ];
  }

-- The session that a cookie names and that is still in time.
abbrev pub IsLive : ℕ → Option String → Auth → Session → Auth → Type 0
IsLive now cookie before s t =
    (key : String) × (v : Session) × (cookie ≡ some key)
    × Memᴰ (key, v) before.sessions
    × (now - v.created < 28800000)
    × (now - v.last < 1800000)
    × (now < v.expires)
    × (s.last ≡ now)
    × (lookup key t.sessions ≡ some s)

found-IsLive :
    (p : Provider) (now : ℕ) (key : String) (before : Auth) (o : Option Session) (s : Session)
    (t : Auth)
    → lookup key (cleanup now before).sessions ≡ o
    → found p now key o (cleanup now before) ≡ (ok s, t)
    → IsLive now (some key) before s t
unfolding cleanup
found-IsLive p now key before none s t at e = cc
found-IsLive p now key before (some v) s t at e =
    let (live, stored) = retain-keeps (λ v. not (is_stale now v)) key v before.sessions at in
    let (in_time, (used, here)) = (renew-Ends p now key v).ends (cleanup now before) s t e in
    (key, v, refl, stored, ground (arith, live), ground (arith, live), in_time, used, here)

session_at-IsLive :
    (p : Provider) (now : ℕ) (cookie : Option String) (before : Auth) (s : Session) (t : Auth)
    → session_at p now cookie (cleanup now before) ≡ (ok s, t)
    → IsLive now cookie before s t
session_at-IsLive p now none before s t e = cc
session_at-IsLive p now (some key) before s t e = found-IsLive p now key before _ s t refl e

-- A session answers only to a cookie that names one of the stored sessions, which is younger than
-- eight hours, was used in the last thirty minutes, and whose token has not expired; it then stands in
-- the store under that name, as used just now.
pub session-IsLive :
    (p : Provider) (now : ℕ) (cookie : Option String) (before : Auth) (s : Session) (t : Auth)
    → session p now cookie before ≡ (ok s, t)
    → IsLive now cookie before s t
unfolding session
session-IsLive p now cookie before s t e = session_at-IsLive p now cookie before s t e
