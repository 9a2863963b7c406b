-- ===== src/Identity/Once.antt =====
-- What is used once: a login's transaction and a logout token (`callbackHandler` and `backchannel` in
-- identity-on-start.js).
use facis_zero_trust_demonst.Base.{
  ℕ, String, Bool, true, ◌≡◌, refl, sym, ◌∙◌, ap, subst, Option, none, some, [], ◌∷◌, Value,
  Bool-cases, Option-cases, inl, inr, not, if◌then◌else◌, ◌==◌, eq_refl, arith, Dict, lookup,
  delete, lookup-insert, lookup-delete, leb, ltb, ◌<◌, ◌+◌, ◌||◌, Fields, get, property, length,
  as_string, Entries, nat_eq, ◌&&◌, text_length, is_text,
}
use facis_zero_trust_demonst.Identity.State.{
  Session, Transaction, Auth, Provider, Outcome, ok, err, same, truthy,
}
use facis_zero_trust_demonst.Identity.Verify.{verify}
use facis_zero_trust_demonst.Identity.Sessions.{cleanup, retain, limit}
use facis_zero_trust_demonst.Identity.Login.{
  Reply, refusal, to_page, done, Random, callback_handler, exchange, exchanged, opened, code_of,
}
use facis_zero_trust_demonst.Identity.Logout.{
  backchannel, verified, logout_check, end_named, names_session,
}
use facis_zero_trust_demonst.Identity.Kept.{bind-Keeps, ask-Keeps, tokens-Keeps}

none-some : {A : Type 0} {a : A} → ¬ (none ≡ some a)
none-some e = cc

module _ {V : Type 0} where
  retain-none :
      (test : V → Bool) (k : String) (m : Dict V)
      → lookup k m ≡ none
      → lookup k (retain test m) ≡ none
  unfolding retain lookup
  retain-none test k [] e = refl
  retain-none test k ((j, w) ∷ m) e = elim (Bool-cases (j == k)) [
    | inl same ↦
        absurd (none-some (sym (subst (λ b. (if b then some w else lookup k m) ≡ none) same e)))
    | inr other ↦
        let ih =
          retain-none test k m (subst (λ b. (if b then some w else lookup k m) ≡ none) other e) in
        elim (Bool-cases (test w)) [ inl kept ↦ rw (kept, other) ih | inr dropped ↦ rw dropped ih ]
  ]

  -- None of the entries that a test keeps fails it.
  retain-Entries : (test : V → Bool) (m : Dict V) → Entries (λ k v. test v ≡ true) (retain test m)
  unfolding retain
  retain-Entries test [] = tt
  retain-Entries test ((j, w) ∷ m) = elim (Bool-cases (test w)) [
    | inl kept ↦ rw kept (kept, retain-Entries test m)
    | inr dropped ↦ rw dropped (retain-Entries test m)
  ]

-- The sessions without those that a logout token names.
abbrev pub IsEnded : ℕ → Fields → String → Auth → Auth → Type 0
IsEnded now c jti before after =
    Entries (λ k v. not (names_session c v) ≡ true) after.sessions
    × (lookup jti before.replays ≡ none)
    × (lookup jti after.replays ≡ some (now + 300000))

-- A reply that says it is done has ended the sessions of a token.
record Ending (now : ℕ) (c : Fields) (jti : String) (s : Auth) (x : Reply × Auth) : Type 0 where
  ending : x.0.answer ≡ done → IsEnded now c jti s x.1

refusal-done :
    {status : ℕ} {code : String} {state : Option String} → ¬ (refusal status code state ≡ done)
refusal-done e = cc

end_named-Ending :
    (now : ℕ) (c : Fields) (jti : String) (s : Auth) → Ending now c jti s (end_named now c jti s)
unfolding end_named
end_named-Ending now c jti s = elim (Option-cases (lookup jti s.replays)) [
  | inr (at, used) ↦ rw (used, end_named) (record { ending = λ e. absurd (refusal-done e) })
  | inl unused ↦ elim (Bool-cases (leb limit (length s.replays))) [
    | inl full ↦ rw (unused, full, end_named) (record { ending = λ e. absurd (refusal-done e) })
    | inr room ↦
        rw (unused, room, end_named)
          (record {
            ending = λ e. (
              retain-Entries (λ v. not (names_session c v)) s.sessions,
              unused,
              lookup-insert jti jti (now + 300000) s.replays ∙ rw (eq_refl jti) refl,
            );
          })
  ]
]

-- What a token's verification says of the reply.
abbrev Answered : ℕ → Outcome Fields × Auth → Reply × Auth → Type 0
Answered now r x =
    x.0.answer ≡ done
    → (c : Fields) × (u : Auth) × (r ≡ (ok c, u))
      × ((jti : String) × (as_string (get "jti" c) ≡ some jti)
          × IsEnded now c jti (cleanup now u) x.1)

verified-Answered : (now : ℕ) (r : Outcome Fields × Auth) → Answered now r (verified now r)
verified-Answered now (err code, s) = λ e. absurd (refusal-done e)
verified-Answered now (ok c, s) = elim (Option-cases (as_string (get "jti" c))) [
  | inl missing ↦ rw (missing, verified) (λ e. absurd (refusal-done e))
  | inr (jti, given) ↦
      rw (given, verified)
        (λ e. (c, s, refl, (jti, given, (end_named-Ending now c jti (cleanup now s)).ending e)))
]

-- A logout at the provider that is answered with success had a verified token that was not recorded
-- as used: it is now recorded for five minutes, and no session is left that the token names.
pub backchannel-IsEnded :
    (p : Provider) (now : ℕ) (body : Value) (before : Auth)
    → (backchannel p now body before).0.answer ≡ done
    → (c : Fields) × (u : Auth) × (verify p logout_check now (property "logout_token" body) before
        ≡ (ok c, u))
      × ((jti : String) × (as_string (get "jti" c) ≡ some jti)
          × IsEnded now c jti (cleanup now u) (backchannel p now body before).1)
unfolding backchannel
backchannel-IsEnded p now body before =
    verified-Answered now (verify p logout_check now (property "logout_token" body) before)

-- The transaction is gone, and a page is opened only for one that was there, in time, and with the
-- state that was sent.
abbrev pub IsUsed : ℕ → String → Value → Dict Transaction → Reply × Auth → Type 0
IsUsed now key query before x =
    (lookup key x.1.transactions ≡ none)
    × (x.0.answer ≡ to_page
        → (v : Transaction) × (lookup key before ≡ some v)
          × (now < v.expires)
          × (same v.state (property "state" query) ≡ true))

-- A code is taken only in time and with the state that was sent.
record Accepts (now : ℕ) (v : Transaction) (query : Value) (o : Option String) : Type 0 where
  accepts :
      (code : String)
      → o ≡ some code
      → (now < v.expires) × (same v.state (property "state" query) ≡ true)

code_of-Accepts :
    (p : Provider) (callback : String) (now : ℕ) (v : Transaction) (query : Value)
    → Accepts now v query (code_of p callback now (some v) query)
unfolding code_of
code_of-Accepts p callback now v query = elim (Option-cases (as_string (property "code" query))) [
  | inl missing ↦ rw (missing, code_of) (record { accepts = λ code e. absurd (none-some e) })
  | inr (code, given) ↦
      elim (Bool-cases (
        leb v.expires now
        || not (same v.state (property "state" query))
        || not (leb (text_length code) 4096)
        || (truthy (property "iss" query) && not (is_text (property "iss" query) p.issuer)))) [
          | inl bad ↦ rw (given, bad, code_of) (record { accepts = λ code e. absurd (none-some e) })
          | inr good ↦
              rw (given, good, code_of)
                (record { accepts = λ code e. (ground (arith, good), ground (arith, good)) })
        ]
]

refusal-to_page :
    {status : ℕ} {code : String} {state : Option String} → ¬ (refusal status code state ≡ to_page)
refusal-to_page e = cc

module _ (p : Provider) (callback : String) (now : ℕ) (random : Random) (key : String) where
  exchange-none :
      (code : String) (v : Transaction) (s : Auth)
      → lookup key s.transactions ≡ none
      → lookup key (exchange p callback now code v s).1.transactions ≡ none
  unfolding exchange cleanup
  exchange-none code v s gone =
      let t = cleanup now s in
      let cleaned = retain-none (λ (v : Transaction). ltb now v.expires) key s.transactions gone in
      elim (Bool-cases (leb limit (length t.sessions))) [
        | inl full ↦ rw full cleaned
        | inr room ↦ rw room (
            ap (lookup key)
              ((bind-Keeps (ask-Keeps p _)
                  (λ answer. tokens-Keeps p now answer (some v.nonce) none)).keeps
                t).transactions
            ∙ cleaned)
      ]

  opened-none :
      (old : Option String) (generation : ℕ) (r : Outcome Session × Auth)
      → lookup key r.1.transactions ≡ none
      → lookup key (opened now random old generation r).1.transactions ≡ none
  opened-none old generation (err code, s) gone = gone
  opened-none old generation (ok v, s) gone = elim (Bool-cases (nat_eq generation s.generation)) [
    | inr reset ↦ rw (reset, opened) gone
    | inl here ↦ rw (here, opened) gone
  ]

  exchanged-IsUsed :
      (old : Option String) (query : Value) (before : Dict Transaction) (v : Option Transaction)
      (s : Auth)
      → lookup key before ≡ v
      → lookup key s.transactions ≡ none
      → IsUsed now key query before
          (exchanged p callback now random old v (code_of p callback now v query) s)
  exchanged-IsUsed old query before none s at gone = (gone, λ e. absurd (refusal-to_page e))
  exchanged-IsUsed old query before (some v) s at gone =
      elim (Option-cases (code_of p callback now (some v) query)) [
        | inl bad ↦ rw (bad, exchanged) (gone, λ e. absurd (refusal-to_page e))
        | inr (code, given) ↦
            rw (given, exchanged)
              (
                opened-none old s.generation _ (exchange-none code v s gone),
                λ e.
                    let (in_time, right) =
                      (code_of-Accepts p callback now v query).accepts code given in
                    (v, at, in_time, right),
              )
      ]

  -- A callback uses its transaction up, whatever it answers; and it opens the page only where the
  -- transaction was there, had not expired, and has the state that the callback names.
  pub callback_handler-IsUsed :
      (old : Option String) (query : Value) (before : Auth)
      → IsUsed now key query before.transactions
          (callback_handler p callback now random (some key) old query before)
  unfolding callback_handler
  callback_handler-IsUsed old query before =
      exchanged-IsUsed old query before.transactions (lookup key before.transactions)
        (record before { transactions = delete key before.transactions }) refl
        (lookup-delete key key before.transactions ∙ rw (eq_refl key) refl)
