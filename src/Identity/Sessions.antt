-- ===== src/Identity/Sessions.antt =====
-- The sessions: what ends them, their refresh, and the tokens they are made of (`cleanup`,
-- `markExpired`, `tokens` and `session` in identity-on-start.js).
use facis_zero_trust_demonst.Base.{
  ℕ, ◌⊎◌, suc, String, Bool, true, false, ◌&&◌, ◌||◌, not, Option, none, some, List, [], ◌∷◌, ◌+◌,
  ◌-◌, ◌*◌, if◌then◌else◌, ◌==◌, Value, Fields, num, str, get, property, as_string, leb, ltb,
  text_length, is_empty, inl, inr, length, drop, Dict, lookup, insert, delete, is_none,
}
use facis_zero_trust_demonst.Identity.Preview.{role}
use facis_zero_trust_demonst.Identity.State.{
  Session, Auth, Provider, Outcome, ok, err, Action, pure, raise, raise_if, ◌>>=◌, ◌>>◌, truthy,
  identical, or_else,
}
use facis_zero_trust_demonst.Identity.Verify.{content_of, verify, Check, client_id}

abbrev pub limit : ℕ
limit = 500

-- The entries that a test keeps.
unfoldable pub retain : {V : Type 0} → (V → Bool) → Dict V → Dict V
retain test [] = []
retain test ((k, v) ∷ m) = let rest = retain test m in if test v then (k, v) ∷ rest else rest

unfoldable pub mark_expired : ℕ → String → Dict ℕ → Dict ℕ
mark_expired now key ended =
    insert key (now + 300000) (if leb limit (length ended) then drop 1 ended else ended)

abbrev pub is_stale : ℕ → Session → Bool
is_stale now v = leb 28800000 (now - v.created) || leb 1800000 (now - v.last)

unfoldable pub mark_all : ℕ → Dict Session → Dict ℕ → Dict ℕ
mark_all now [] ended = ended
mark_all now ((k, v) ∷ m) ended =
    if is_stale now v then mark_all now m (mark_expired now k ended) else mark_all now m ended

unfoldable pub cleanup : ℕ → Auth → Auth
cleanup now s = record s {
  transactions = retain (λ v. ltb now v.expires) s.transactions;
  replays = retain (ltb now) s.replays;
  ended = mark_all now s.sessions (retain (ltb now) s.ended);
  sessions = retain (λ v. not (is_stale now v)) s.sessions;
}

-- `Map.get`, `has` and `delete` at a key that may be missing.
abbrev pub lookup_at : {V : Type 0} → Option String → Dict V → Option V
lookup_at none m = none
lookup_at (some k) m = lookup k m

abbrev pub delete_at : {V : Type 0} → Option String → Dict V → Dict V
delete_at none m = m
delete_at (some k) m = delete k m

abbrev seconds : Value → ℕ
seconds (num n) = n
seconds _ = 0

abbrev filled : Value → Option String
filled v = elim (as_string v) [
  | none ↦ none
  | some s ↦ if not (is_empty s) && leb (text_length s) 32768 then some s else none
]

abbrev username_of : Fields → Value
username_of claims = elim (as_string (get "preferred_username" claims)) [
  | none ↦ get "sub" claims
  | some name ↦ if is_empty name then get "sub" claims else str name
]

-- The subjects, the session at the provider and the refresh token agree with each other, and with the
-- session that is refreshed.
unfoldable pub tokens_agree : Fields → Fields → Option Session → String → Bool
tokens_agree access id previous refresh =
    identical (get "sub" access) (get "sub" id)
    && (not (truthy (get "sid" access) && truthy (get "sid" id))
        || identical (get "sid" access) (get "sid" id))
    && continues previous
  where
    continues : Option Session → Bool
    continues none = true
    continues (some s) =
        identical (get "sub" id) s.subject
        && (not (truthy s.sid) || identical (or_else (get "sid" id) (get "sid" access)) s.sid)
        && not (refresh == s.refresh)

-- The session of two verified tokens; `created`, `last` and `csrf` are set by what asked for it.
unfoldable pub assemble :
    ℕ → Value → Option Session → (access id : Fields) → Option String → Action Session
assemble now answer previous access id none = raise "INVALID_IDENTITY_RESPONSE"
assemble now answer previous access id (some refresh) =
    if tokens_agree access id previous refresh
    then pure (record {
      access = property "access_token" answer;
      id_token = property "id_token" answer;
      refresh = refresh;
      claims = access;
      username = username_of access;
      subject = get "sub" access;
      sid = or_else (get "sid" id) (get "sid" access);
      role = role access;
      expires = seconds (get "exp" access) * 1000;
      created = now;
      last = now;
      csrf = "";
    })
    else raise "INVALID_IDENTITY_RESPONSE"

abbrev pub store : String → Session → Action Session
store key current t = (ok current, record t { sessions = insert key current t.sessions })

-- Why there is no session at a key.
abbrev pub absence : String → Dict ℕ → String
absence key ended = if is_none (lookup key ended) then "LOGGED_OUT" else "EXPIRED"

abbrev pub plain : Check
plain = record { nonce = none; logout = false }

-- The session with the claims of its token, as they are now.
abbrev pub seen : Fields → Session → Session
seen access v = record v {
  claims = access;
  username = or_else (get "preferred_username" access) (get "sub" access);
  role = role access;
}

abbrev pub answer_of : Auth → String ⊎ Value → Outcome Value × Auth
answer_of s (inl code) = (err code, s)
answer_of s (inr answer) = (ok answer, s)

-- `Object.assign(s, updated)`; where it fails, the session is deleted.
abbrev pub refreshed : String → Session → Outcome Session × Auth → Outcome Session × Auth
refreshed key v (ok updated, s) =
    (ok (record updated { created = v.created; last = v.last; csrf = v.csrf }), s)
refreshed key v (err code, s) = (err code, record s { sessions = delete key s.sessions })

module _ (p : Provider) where
  -- A new session of what the provider sends.
  unfoldable pub tokens : ℕ → Value → Option String → Option Session → Action Session
  tokens now answer nonce previous = do
    access ← verify p plain now (property "access_token" answer)
    id ← verify p (record { nonce = nonce; logout = false }) now (property "id_token" answer)
    assemble now answer previous access id (filled (property "refresh_token" answer))

  unfoldable pub ask : List (String × String) → Action Value
  ask form s =
      answer_of (record s { asked = suc s.asked })
        (content_of true (p.token s.asked (("client_id", client_id) ∷ form)))

  unfoldable pub refresh : ℕ → String → Session → Action Session
  refresh now key v s =
      if ltb (v.expires - now) 60000
      then refreshed key v (
          (ask (("grant_type", "refresh_token") ∷ ("refresh_token", v.refresh) ∷ []) >>= λ answer.
          tokens now answer none (some v))
            s)
      else (ok v, s)

  -- The session once it is found: verified again, and refreshed when it ends soon.
  unfoldable pub renew : ℕ → String → Session → Action Session
  renew now key v s =
      if leb v.expires now
      then (
        err "EXPIRED",
        record s { sessions = delete key s.sessions; ended = mark_expired now key s.ended },
      )
      else (do
        access ← verify p plain now v.access
        raise_if (not (identical (get "sub" access) v.subject)) "INVALID_IDENTITY_RESPONSE"
        current ← refresh now key (seen access v)
        store key (record current { last = now }))
          s

  abbrev pub found : ℕ → String → Option Session → Action Session
  found now key none s = (err (absence key s.ended), s)
  found now key (some v) s = renew now key v s

  abbrev pub session_at : ℕ → Option String → Action Session
  session_at now none s = (err "LOGGED_OUT", s)
  session_at now (some key) s = found now key (lookup key s.sessions) s

  unfoldable pub session : ℕ → Option String → Action Session
  session now cookie before = session_at now cookie (cleanup now before)
