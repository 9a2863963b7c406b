-- ===== src/Connector/Attempts.antt =====
-- How often a request is sent (`request` in connector-adapter.mjs).
use facis_zero_trust_demonst.Base.{
  ℕ, suc, String, Bool, ◌≡◌, ◌≢◌, ◌⊎◌, refl, sym, ◌∙◌, Option, none, some, [], ◌∷◌, ◌++◌, arith,
  Option-cases, Bool-cases, inl, inr, Value,
}
use facis_zero_trust_demonst.Connector.Protocol.{
  Action, Session, Network, Result, Fetched, unanswered, answered, Response, send,
}
use facis_zero_trust_demonst.Connector.Request.{
  Options, Reply, attempts, request, receive, call_of, next_nonce, parsed, too_large,
}
use facis_zero_trust_demonst.Connector.Settling.{IsAt, conclude-Settles}

-- The answer is a challenge after which the request is sent again with this nonce.
pub record IsChallenge (net : Network) (o : Options) (attempt : ℕ) (answer : Fetched)
    (nonce : String) : Type 0 where
  pub response : Response
  pub answers : answer ≡ answered response
  pub asks : next_nonce o.dpop attempt response (parsed net response.chunks) ≡ some nonce

none-some : {A : Type 0} {a : A} → none ≢ some a
none-some e = cc

-- An answer settles the request, or asks for another attempt.
receive_cases {κ} :
    (P : Result Reply × Session → Type κ) (net : Network) (o : Options) (attempt : ℕ)
    (retry : String → Action Reply) (answer : Fetched) (s : Session)
    → ((r : Result Reply) → IsAt o.stage r → P (r, s))
    → ((nonce : String) → IsChallenge net o attempt answer nonce → P (retry nonce s))
    → P (receive net o attempt retry answer s)
unfolding receive
receive_cases P net o attempt retry (unanswered aborted) s settled again = settled _ refl
receive_cases P net o attempt retry (answered response) s settled again =
    let content = parsed net response.chunks in
    elim (Bool-cases (too_large 0 response.chunks)) [
      | inl large ↦ rw large (settled _ refl)
      | inr small ↦ elim (Option-cases response.broken) [
        | inr (aborted, broken) ↦ rw (small, broken) (settled _ refl)
        | inl whole ↦ elim (Option-cases (next_nonce o.dpop attempt response content)) [
          | inl done ↦
              let (r, at, same) = conclude-Settles o.stage response.status content s in
              rw (small, whole, done, same) (settled r at)
          | inr (nonce, asks) ↦
              rw (small, whole, asks)
                (again nonce (record { response = response; answers = refl; asks = asks }))
        ]
      ]
    ]

receive_cong :
    (net : Network) (o : Options) (attempt : ℕ) (retry other : String → Action Reply)
    (answer : Fetched) (s : Session)
    → ((nonce : String) → IsChallenge net o attempt answer nonce → retry nonce s ≡ other nonce s)
    → receive net o attempt retry answer s ≡ receive net o attempt other answer s
unfolding receive
receive_cong net o attempt retry other (unanswered aborted) s same = refl
receive_cong net o attempt retry other (answered response) s same =
    let content = parsed net response.chunks in
    elim (Bool-cases (too_large 0 response.chunks)) [
      | inl large ↦ rw large refl
      | inr small ↦ elim (Option-cases response.broken) [
        | inr (aborted, broken) ↦ rw (small, broken) refl
        | inl whole ↦ elim (Option-cases (next_nonce o.dpop attempt response content)) [
          | inl done ↦ rw (small, whole, done) refl
          | inr (nonce, asks) ↦
              rw (small, whole, asks)
                (same nonce (record { response = response; answers = refl; asks = asks }))
        ]
      ]
    ]

later_nonce :
    (dpop : Bool) (attempt : ℕ) (response : Response) (content : Value)
    → next_nonce dpop (suc attempt) response content ≡ none
unfolding next_nonce
later_nonce dpop attempt response content = ground arith

no_later :
    (net : Network) (o : Options) (attempt : ℕ) (answer : Fetched) (nonce : String)
    → ¬ IsChallenge net o (suc attempt) answer nonce
no_later net o attempt answer nonce c =
    none-some (sym (later_nonce o.dpop attempt c.response _) ∙ c.asks)

-- A later attempt is never followed by another.
later_cases {κ} :
    (P : Result Reply × Session → Type κ) (net : Network) (o : Options) (attempt : ℕ)
    (retry : String → Action Reply) (answer : Fetched) (s : Session)
    → ((r : Result Reply) → IsAt o.stage r → P (r, s))
    → P (receive net o (suc attempt) retry answer s)
later_cases P net o attempt retry answer s settled =
    receive_cases P net o (suc attempt) retry answer s settled
      (λ nonce c. absurd (no_later net o attempt answer nonce c))

pub request_calls :
    (net : Network) (o : Options) (s : Session)
    → let first = call_of net o none in
      let sent = s.calls ++ first ∷ [] in
      ((request net o s).1 ≡ record s { calls = sent })
      ⊎ ((nonce : String) × IsChallenge net o 0 (net.fetch s.calls first) nonce
          × ((request net o s).1 ≡ record s { calls = sent ++ call_of net o (some nonce) ∷ [] }))
unfolding request attempts send
request_calls net o s =
    let first = call_of net o none in
    let once : Session = record s { calls = s.calls ++ first ∷ [] } in
    let retry : String → Action Reply = λ nonce. attempts net o 1 1 (some nonce) in
    let P : Result Reply × Session → Type 0 = λ x.
      (x.1 ≡ once)
      ⊎ ((nonce : String) × IsChallenge net o 0 (net.fetch s.calls first) nonce
          × (x.1 ≡ record s { calls = once.calls ++ call_of net o (some nonce) ∷ [] })) in
    receive_cases P net o 0 retry (net.fetch s.calls first) once (λ r at. inl refl)
      (λ nonce c.
        let again = call_of net o (some nonce) in
        let twice : Session = record s { calls = once.calls ++ again ∷ [] } in
        inr (
          nonce,
          c,
          later_cases (λ x. x.1 ≡ twice) net o 0 _ (net.fetch once.calls again) twice
              (λ r at. refl),
        ))

pub request-IsAt : (net : Network) (o : Options) (s : Session) → IsAt o.stage (request net o s).0
unfolding request attempts send
request-IsAt net o s =
    let first = call_of net o none in
    let once : Session = record s { calls = s.calls ++ first ∷ [] } in
    receive_cases (λ x. IsAt o.stage x.0) net o 0 (λ nonce. attempts net o 1 1 (some nonce))
      (net.fetch s.calls first) once (λ r at. at)
      (λ nonce c.
        let again = call_of net o (some nonce) in
        later_cases (λ x. IsAt o.stage x.0) net o 0 _ (net.fetch once.calls again)
          (record once { calls = once.calls ++ again ∷ [] }) (λ r at. at))

later_same :
    (net : Network) (o : Options) (attempt left other : ℕ) (supplied : Option String) (s : Session)
    → attempts net o (suc left) (suc attempt) supplied s
      ≡ attempts net o (suc other) (suc attempt) supplied s
unfolding attempts send
later_same net o attempt left other supplied s =
    receive_cong net o (suc attempt) (λ next. attempts net o left (suc (suc attempt)) (some next))
      (λ next. attempts net o other (suc (suc attempt)) (some next)) _ _
      (λ next c. absurd (no_later net o attempt _ next c))

-- Two attempts are always enough: with more of them the request does the same.
pub attempts_enough :
    (net : Network) (o : Options) (left : ℕ) (s : Session)
    → attempts net o (suc (suc left)) 0 none s ≡ request net o s
unfolding request attempts send
attempts_enough net o left s =
    receive_cong net o 0 (λ next. attempts net o (suc left) 1 (some next))
      (λ next. attempts net o 1 1 (some next)) _ _
      (λ nonce c. later_same net o 0 left 0 (some nonce) _)
