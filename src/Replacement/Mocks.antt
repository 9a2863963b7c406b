-- ===== src/Replacement/Mocks.antt =====
-- The mock of the Participant against the check of its response
-- (flows/demonstrator/replacement-adapters.mjs).
use facis_zero_trust_demonst.Base.{
  String, true, ◌≡◌, refl, some, none, arith, eq_refl, is_identifier, Value, str, Option,
  Option-cases, Bool-cases, inl, inr, Fields, as_object, get, is_empty, ◌⊎◌, eq_iff, ◌==◌, sym,
  is_text,
}
use facis_zero_trust_demonst.Resource.{Outcome, success, denied, unavailable, error}
use facis_zero_trust_demonst.Participant.Response.{outcome_text}
use facis_zero_trust_demonst.Participant.Results.{outcome_of}
use facis_zero_trust_demonst.Replacement.{
  Request, Url, ◌>>=◌, passed, sample_http, normalize_request, request_value, participant_result,
  sample_participant_response, configuration, is_local, sample_target,
}

-- The identifiers of a request that was normalized.
pub record IsRequest (r : Request) : Type 0 where
  pub request_id : is_identifier r.request_id ≡ true
  pub correlation_id : is_identifier r.correlation_id ≡ true

outcome_known : (o : Outcome) → outcome_of (str (outcome_text o)) ≡ some o
outcome_known success = refl
outcome_known denied = refl
outcome_known unavailable = refl
outcome_known error = refl

normalize_request_value :
    (r : Request) → IsRequest r → normalize_request (request_value r) ≡ passed r
unfolding normalize_request
normalize_request_value r h =
    ground (arith, h.request_id, h.correlation_id, outcome_known r.scenario)

-- The Participant's mock keeps the contract that the check of its response asks for: it answers a
-- request with well-formed identifiers, and its response passes and forwards that request unchanged.
pub participant_result-mock :
    (r : Request)
    → IsRequest r
    → (sample_participant_response r >>= λ response. participant_result response r) ≡ passed r
unfolding participant_result sample_participant_response
participant_result-mock r h =
    rw
      (
        normalize_request_value r h,
        normalize_request_value r h,
        eq_refl r.request_id,
        eq_refl r.correlation_id,
        eq_refl (outcome_text r.scenario),
      )
      refl

is_empty-nil : (s : String) → is_empty s ≡ true → s ≡ ""
is_empty-nil String.[] e = refl
is_empty-nil (String.◌∷◌ c s) e = cc

-- A service of this machine: http on a loopback address, with nothing else in the URL but a port.
pub record IsLoopback (url : Url) : Type 0 where
  pub protocol : url.protocol ≡ "http:"
  pub hostname : (url.hostname ≡ "127.0.0.1") ⊎ (url.hostname ≡ "[::1]")
  pub username : url.username ≡ ""
  pub password : url.password ≡ ""
  pub search : url.search ≡ ""
  pub hash : url.hash ≡ ""
  pub pathname : url.pathname ≡ "/"

is_local-IsLoopback : (url : Url) → is_local url ≡ true → IsLoopback url
unfolding is_local
is_local-IsLoopback url here = record {
  protocol = (eq_iff _ _).0 (ground arith);
  hostname = elim (Bool-cases ("127.0.0.1" == url.hostname)) [
    | inl first ↦ inl (sym ((eq_iff _ _).0 first))
    | inr other ↦ inr (sym ((eq_iff _ _).0 (ground arith)))
  ];
  username = is_empty-nil url.username (ground arith);
  password = is_empty-nil url.password (ground arith);
  search = is_empty-nil url.search (ground arith);
  hash = is_empty-nil url.hash (ground arith);
  pathname = (eq_iff _ _).0 (ground arith);
}

sample_target_local :
    (role origin : String) (found : Option Url)
    → sample_target role found ≡ passed (sample_http origin)
    → (url : Url) × (found ≡ some url) × (is_local url ≡ true) × (url.origin ≡ origin)
unfolding sample_target
sample_target_local role origin none e = cc
sample_target_local role origin (some url) e = elim (Bool-cases (is_local url)) [
  | inl here ↦ (url, refl, here, ground arith)
  | inr away ↦ ground arith
]

configuration_target :
    (parse_url : Value → Option Url) (role contract origin : String) (value : Value)
    (fields : Fields)
    → as_object value ≡ some fields
    → configuration parse_url value role contract ≡ passed (sample_http origin)
    → sample_target role (parse_url (get "baseURL" fields)) ≡ passed (sample_http origin)
unfolding configuration
configuration_target parse_url role contract origin value fields there e = ground arith

configuration_kind :
    (parse_url : Value → Option Url) (role contract origin : String) (value : Value)
    (fields : Fields)
    → as_object value ≡ some fields
    → configuration parse_url value role contract ≡ passed (sample_http origin)
    → (is_text (get "kind" fields) "sample-http" ≡ true)
      × (is_text (get "role" fields) role ≡ true)
      × (is_text (get "contract" fields) contract ≡ true)
unfolding configuration
configuration_kind parse_url role contract origin value fields there e = ground arith

-- A configuration that passes as that of a service to call is an object of the kind sample-http, of
-- the role and the contract that are asked for, and its base URL is one of this machine, whose
-- origin is called: http to a loopback address, without credentials, search, hash or path.
pub configuration-IsLoopback :
    (parse_url : Value → Option Url) (value : Value) (role contract origin : String)
    → configuration parse_url value role contract ≡ passed (sample_http origin)
    → (fields : Fields) × (url : Url) × (as_object value ≡ some fields)
      × ((is_text (get "kind" fields) "sample-http" ≡ true)
          × (is_text (get "role" fields) role ≡ true)
          × (is_text (get "contract" fields) contract ≡ true))
      × (parse_url (get "baseURL" fields) ≡ some url)
      × IsLoopback url
      × (url.origin ≡ origin)
unfolding configuration
configuration-IsLoopback parse_url value role contract origin e =
    elim (Option-cases (as_object value)) [
      | inl missing ↦ ground arith
      | inr (fields, there) ↦
          let target = configuration_target parse_url role contract origin value fields there e in
          let (url, parsed, here, same) = sample_target_local role origin _ target in
          (
            fields,
            url,
            there,
            configuration_kind parse_url role contract origin value fields there e,
            parsed,
            is_local-IsLoopback url here,
            same,
          )
    ]
