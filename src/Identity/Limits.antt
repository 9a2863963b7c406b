-- ===== src/Identity/Limits.antt =====
-- No request makes a record of the boundary longer than its limit (identity-on-message.js).
use facis_zero_trust_demonst.Base.{
  ℕ, String, Bool, sym, subst, Option, none, some, ◌<◌, ◌+◌, length, arith, Bool-cases,
  Option-cases, inl, inr, lookup, leb, if◌then◌else◌, not, Value, Fields, get, property, if-both,
  nat_eq, as_string, ◌==◌, is_none, ◌||◌, is_text,
}
use facis_zero_trust_demonst.Identity.State.{
  Session, Transaction, Auth, Provider, Outcome, ok, err, same, or_else,
}
use facis_zero_trust_demonst.Identity.Verify.{verify}
use facis_zero_trust_demonst.Identity.Sessions.{cleanup, session, delete_at, limit}
use facis_zero_trust_demonst.Identity.Login.{
  Reply, Random, login, callback_handler, exchange, exchanged, opened,
}
use facis_zero_trust_demonst.Identity.Logout.{
  backchannel, frontchannel, verified, logout_check, end_named, names_session, sid_of,
}
use facis_zero_trust_demonst.Identity.Command.{
  Request, Result, Status, command, status, logout, answered, shown_of, logged_out, kind_of,
}
use facis_zero_trust_demonst.Identity.Routes.{
  Message, Response, dispatch, with_cookies, on_message, body_refusal, as_reply, as_status,
  as_result,
}
use facis_zero_trust_demonst.Identity.Kept.{Same, bind-Keeps, verify-Keeps, ask-Keeps, tokens-Keeps}
use facis_zero_trust_demonst.Identity.Sizes.{
  IsBounded, cleanup-IsBounded, delete_at_le, insert_le, retain_le,
}
use facis_zero_trust_demonst.Identity.Bounds.{Same-IsBounded, fewer-IsBounded, session-IsBounded}

module _ (p : Provider) (callback : String) (now : ℕ) (random : Random) where
  login-IsBounded : (s : Auth) → IsBounded s → IsBounded (login p callback now random s).1
  unfolding login
  login-IsBounded s b =
      let whole = cleanup-IsBounded now s b in
      elim (Bool-cases (leb limit (length (cleanup now s).transactions))) [
        | inl full ↦ rw full whole
        | inr room ↦
            let grown =
              insert_le random.transaction
                (record {
                  state = random.state;
                  nonce = random.nonce;
                  verifier = random.verifier;
                  expires = now + 300000;
                })
                (cleanup now s).transactions in
            rw room (record {
              sessions = whole.sessions;
              ended = whole.ended;
              transactions = ground (arith, grown, room);
              replays = whole.replays;
            })
      ]

  -- An exchange leaves the bounds, and room for a session where it succeeds.
  abbrev HasRoom : Outcome Session × Auth → Type 0
  HasRoom (ok v, t) = IsBounded t × (length t.sessions < limit)
  HasRoom (err code, t) = IsBounded t

  room_after :
      (s : Auth) (r : Outcome Session × Auth)
      → IsBounded s
      → length s.sessions < limit
      → Same s r.1
      → HasRoom r
  room_after s (ok v, t) b room kept =
      (Same-IsBounded s t kept b, subst (λ m. length m < limit) (sym kept.sessions) room)
  room_after s (err code, t) b room kept = Same-IsBounded s t kept b

  exchange-HasRoom :
      (code : String) (v : Transaction) (s : Auth)
      → IsBounded s
      → HasRoom (exchange p callback now code v s)
  unfolding exchange
  exchange-HasRoom code v s b =
      let t = cleanup now s in
      let whole = cleanup-IsBounded now s b in
      elim (Bool-cases (leb limit (length t.sessions))) [
        | inl full ↦ rw full whole
        | inr room ↦ rw room (
            room_after t _ whole (ground (arith, room)) (
              (bind-Keeps (ask-Keeps p _)
                  (λ answer. tokens-Keeps p now answer (some v.nonce) none)).keeps
                t))
      ]

  opened-IsBounded :
      (old : Option String) (generation : ℕ) (r : Outcome Session × Auth)
      → HasRoom r
      → IsBounded (opened now random old generation r).1
  opened-IsBounded old generation (err code, s) h = h
  opened-IsBounded old generation (ok v, s) (b, room) =
      let grown =
        insert_le random.key (record v { created = now; last = now; csrf = random.csrf })
          (delete_at old s.sessions) in
      let fewer = delete_at_le old s.sessions in
      elim (Bool-cases (nat_eq generation s.generation)) [
        | inr reset ↦ rw reset b
        | inl here ↦ rw here (fewer-IsBounded s _ (omega (arith, grown, fewer, room)) b)
      ]

  exchanged-IsBounded :
      (old : Option String) (v : Option Transaction) (code : Option String) (s : Auth)
      → IsBounded s
      → IsBounded (exchanged p callback now random old v code s).1
  exchanged-IsBounded old none code s b = b
  exchanged-IsBounded old (some v) none s b = b
  exchanged-IsBounded old (some v) (some code) s b =
      opened-IsBounded old s.generation _ (exchange-HasRoom code v s b)

  callback_handler-IsBounded :
      (transaction old : Option String) (query : Value) (s : Auth)
      → IsBounded s
      → IsBounded (callback_handler p callback now random transaction old query s).1
  unfolding callback_handler
  callback_handler-IsBounded transaction old query s b =
      let le = delete_at_le transaction s.transactions in
      exchanged-IsBounded old _ _ _ (record {
        sessions = b.sessions;
        ended = b.ended;
        transactions = omega (arith, le, b.transactions);
        replays = b.replays;
      })

module _ (p : Provider) (now : ℕ) where
  end_named-IsBounded :
      (c : Fields) (jti : String) (s : Auth) → IsBounded s → IsBounded (end_named now c jti s).1
  unfolding end_named
  end_named-IsBounded c jti s b =
      let fewer = retain_le (λ v. not (names_session c v)) s.sessions in
      let grown = insert_le jti (now + 300000) s.replays in
      elim (Bool-cases (not (is_none (lookup jti s.replays)) || leb limit (length s.replays))) [
        | inl refused ↦ rw refused b
        | inr fresh ↦ rw fresh (record {
          sessions = omega (arith, fewer, b.sessions);
          ended = b.ended;
          transactions = b.transactions;
          replays = ground (arith, fresh, grown);
        })
      ]

  verified-IsBounded :
      (s : Auth) (r : Outcome Fields × Auth)
      → IsBounded s
      → Same s r.1
      → IsBounded (verified now r).1
  verified-IsBounded s (err code, t) b kept = Same-IsBounded s t kept b
  verified-IsBounded s (ok c, t) b kept =
      let whole = cleanup-IsBounded now t (Same-IsBounded s t kept b) in
      elim (Option-cases (as_string (get "jti" c))) [
        | inl missing ↦ rw (missing, verified) whole
        | inr (jti, given) ↦ rw (given, verified) (end_named-IsBounded c jti (cleanup now t) whole)
      ]

  backchannel-IsBounded :
      (body : Value) (s : Auth) → IsBounded s → IsBounded (backchannel p now body s).1
  unfolding backchannel
  backchannel-IsBounded body s b =
      verified-IsBounded s (verify p logout_check now (property "logout_token" body) s) b
        ((verify-Keeps p logout_check now (property "logout_token" body)).keeps s)

  frontchannel-IsBounded :
      (query : Value) (s : Auth) → IsBounded s → IsBounded (frontchannel p query s).1
  unfolding frontchannel
  frontchannel-IsBounded query s b = elim (Bool-cases (is_text (property "iss" query) p.issuer)) [
    | inr other ↦ rw other b
    | inl own ↦ elim (Option-cases (sid_of (property "sid" query))) [
      | inl missing ↦ rw (own, missing) b
      | inr (sid, given) ↦
          let fewer = retain_le (λ (v : Session). not (is_text v.sid sid)) s.sessions in
          rw (own, given) (fewer-IsBounded s _ (omega (arith, fewer, b.sessions)) b)
    ]
  ]

  answered-IsBounded :
      (req : Request) (r : Outcome Session × Auth)
      → IsBounded r.1
      → IsBounded (answered p.origin req r).1
  answered-IsBounded req (err code, t) b = b
  answered-IsBounded req (ok s, t) b = elim (Option-cases (kind_of req.body)) [
    | inl malformed ↦ rw (malformed, answered) b
    | inr (kind, given) ↦ rw (given, answered) b
  ]

  shown_of-IsBounded : (r : Outcome Session × Auth) → IsBounded r.1 → IsBounded (shown_of r).1
  shown_of-IsBounded (err code, t) b = b
  shown_of-IsBounded (ok s, t) b = b

  logged_out-IsBounded :
      (home : String) (req : Request) (r : Outcome Session × Auth)
      → IsBounded r.1
      → IsBounded (logged_out p home req r).1
  logged_out-IsBounded home req (err code, t) b = b
  logged_out-IsBounded home req (ok s, t) b =
      let fewer = delete_at_le req.session_cookie t.sessions in
      if-both (λ (x : Reply × Auth). IsBounded x.1)
        (not (is_text req.origin p.origin)
          || not (same s.csrf (or_else req.csrf_header (property "csrf" req.body))))
        b
        (fewer-IsBounded t (delete_at req.session_cookie t.sessions)
          (omega (arith, fewer, b.sessions)) b)

-- A response with a state in bounds.
record InBounds (x : Response × Auth) : Type 0 where
  bounded : IsBounded x.1

as_reply-InBounds : (r : Reply × Auth) → IsBounded r.1 → InBounds (as_reply r)
as_reply-InBounds (reply, s) b = record { bounded = b }

as_status-InBounds : (r : Status × Auth) → IsBounded r.1 → InBounds (as_status r)
as_status-InBounds (answer, s) b = record { bounded = b }

as_result-InBounds : (r : Result × Auth) → IsBounded r.1 → InBounds (as_result r)
as_result-InBounds (outcome, s) b = record { bounded = b }

routed :
    {x y : Response × Auth} (test : Bool)
    → InBounds x
    → InBounds y
    → InBounds (if test then x else y)
routed test x y = if-both InBounds test x y

module _ (p : Provider) (callback home : String) (now : ℕ) where
  dispatch-IsBounded :
      (m : Message) (s : Auth) → IsBounded s → IsBounded (dispatch p callback home now m s).1
  unfolding dispatch command status logout
  dispatch-IsBounded m s b =
      let cookie = m.request.session_cookie in
      let found = session-IsBounded p now cookie s b in
      (routed (m.route == "/ztd/oidc/login")
        (as_reply-InBounds (login p callback now m.random s)
          (login-IsBounded p callback now m.random s b))
        (routed (m.route == "/ztd/oidc/callback")
          (as_reply-InBounds
            (callback_handler p callback now m.random m.transaction_cookie cookie m.query s)
            (callback_handler-IsBounded p callback now m.random m.transaction_cookie cookie m.query
              s b))
          (routed (m.route == "/ztd/api/session")
            (as_status-InBounds (status p now m.request s)
              (shown_of-IsBounded p now (session p now cookie s) found))
            (routed (m.route == "/ztd/oidc/logout")
              (as_reply-InBounds (logout p home now m.request s)
                (logged_out-IsBounded p now home m.request (session p now cookie s) found))
              (routed (m.route == "/ztd/oidc/frontchannel-logout")
                (as_reply-InBounds (frontchannel p m.query s)
                  (frontchannel-IsBounded p now m.query s b))
                (routed (m.route == "/ztd/oidc/backchannel-logout")
                  (as_reply-InBounds (backchannel p now m.request.body s)
                    (backchannel-IsBounded p now m.request.body s b))
                  (routed (m.route == "/ztd/api/journey")
                    (as_result-InBounds (command p now m.request s)
                      (answered-IsBounded p now m.request (session p now cookie s) found))
                    (record { bounded = b })))))))).bounded

  -- Whatever request arrives, the sessions, the ended sessions, the transactions and the used logout
  -- tokens stay at most five hundred each.
  pub on_message-IsBounded :
      (m : Message) (s : Auth) → IsBounded s → IsBounded (on_message p callback home now m s).1
  unfolding on_message
  on_message-IsBounded m s b = elim (Option-cases (body_refusal m)) [
    | inr (code, refused) ↦ rw (refused, on_message) b
    | inl taken ↦ rw (taken, on_message) (dispatch-IsBounded (with_cookies m) s b)
  ]
