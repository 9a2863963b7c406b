-- ===== src/Connector/Request.antt =====
-- One request of the adapter (`request` in connector-adapter.mjs), which is sent again once when the
-- server asks for a nonce. A chunk of a body is a text.
use facis_zero_trust_demonst.Base.{
  ℕ, ◌+◌, String, Bool, false, ◌&&◌, ◌||◌, not, Option, none, some, List, [], ◌∷◌, if◌then◌else◌,
  Value, Fields, as_string, as_object, is_text, null, property, includes, is_empty, text_length,
  byte_length, leb, ltb, nat_eq, every_char, starts_with, join, zero, suc, is_upper, is_lower,
  is_digit,
}
use Prim.Native.Char.{code}
use facis_zero_trust_demonst.Connector.Protocol.{
  Authorization, Body, Proof, Call, Response, Fetched, Network, Action, unanswered, answered, pure,
  raise, send, ◌>>=◌,
}

-- The second and third argument of `request`, with its defaults written out.
pub record Options : Type 0 where
  pub stage : String
  pub endpoint : String
  pub method : String
  pub body : Option Body
  pub authorization : Authorization
  pub access_token : Option String
  pub dpop : Bool

-- What a request answers: the object and the status.
pub record Reply : Type 0 where
  pub content : Fields
  pub status : ℕ

unfoldable pub proof : Network → String → String → Option String → Option String → Proof
proof net method endpoint access_token nonce = record {
  htm = method;
  htu = net.bare_url endpoint;
  nonce = nonce;
  access_token = access_token;
}

unfoldable pub call_of : Network → Options → Option String → Call
unfolding proof
call_of net o nonce = record {
  stage = o.stage;
  endpoint = o.endpoint;
  method = o.method;
  body = o.body;
  authorization = o.authorization;
  proof = if o.dpop then some (proof net o.method o.endpoint o.access_token nonce) else none;
}

-- The test after each chunk: too many bytes so far.
unfoldable pub too_large : ℕ → List String → Bool
too_large bytes [] = false
too_large bytes (chunk ∷ chunks) =
    ltb 65536 (bytes + byte_length chunk) || too_large (bytes + byte_length chunk) chunks

abbrev pub unavailable : Bool → String
unavailable aborted = if aborted then "CONNECTOR_TIMEOUT" else "CONNECTOR_UNAVAILABLE"

-- `/\berror="use_dpop_nonce"/`: the text occurs where no word goes on.
abbrev is_word_char : ℕ → Bool
is_word_char c = is_upper c || is_lower c || is_digit c || nat_eq c b'_'

unfoldable pub asks_nonce : (in_word : Bool) → String → Bool
asks_nonce in_word String.[] = false
asks_nonce in_word (String.◌∷◌ c s) =
    let later = asks_nonce (is_word_char (code c)) s in
    (not in_word && starts_with "error=\"use_dpop_nonce\"" (String.◌∷◌ c s)) || later

unfoldable pub challenge : Response → Value → Bool
challenge response content =
    (nat_eq response.status 400 || nat_eq response.status 401)
    && (is_text (property "error" content) "use_dpop_nonce"
        || is_text (property "reason" content) "dpop_use_nonce"
        || asks_nonce false response.authenticate)

abbrev not_line_break : ℕ → Bool
not_line_break c = not (nat_eq c 13 || nat_eq c 10)

abbrev pub usable_nonce : Option String → Option String
usable_nonce none = none
usable_nonce (some supplied) =
    if not (is_empty supplied)
      && leb (text_length supplied) 1024
      && every_char not_line_break supplied
    then some supplied
    else none

-- The nonce of the next attempt, if there is one.
unfoldable pub next_nonce : Bool → ℕ → Response → Value → Option String
next_nonce dpop attempt response content =
    if dpop && challenge response content && nat_eq attempt 0
    then usable_nonce response.nonce
    else none

abbrev pub known_reasons : List String
known_reasons =
    "dpop_invalid_proof" ∷ "dpop_replayed" ∷ "dpop_use_nonce" ∷ "dpop_jkt_mismatch"
    ∷ "dpop_invalid_ath" ∷ "invalid_client" ∷ "invalid_token" ∷ "insufficient_scope"
    ∷ "registration_rejected" ∷ "invalid_request" ∷ "server_error" ∷ []

abbrev general_reason : ℕ → String
general_reason status =
    if leb 500 status then "CONNECTOR_UPSTREAM_FAILURE" else "CONNECTOR_REQUEST_REFUSED"

unfoldable pub refusal : ℕ → Value → String
refusal status content = elim (as_string (property "reason" content)) [
  | none ↦ general_reason status
  | some reason ↦ if includes known_reasons reason then reason else general_reason status
]

abbrev pub is_ok : ℕ → Bool
is_ok status = leb 200 status && ltb status 300

abbrev pub object_reply : String → ℕ → Value → Action Reply
object_reply stage status content = elim (as_object content) [
  | none ↦ raise "CONNECTOR_INVALID_RESPONSE" stage (some status)
  | some fs ↦ pure (record { content = fs; status = status })
]

unfoldable pub conclude : String → ℕ → Value → Action Reply
conclude stage status content =
    if is_ok status
    then object_reply stage status content
    else raise (refusal status content) stage (some status)

abbrev pub parsed : Network → List String → Value
parsed net chunks = elim (net.parse_json (join "" chunks)) [ none ↦ null | some value ↦ value ]

-- What follows an answer: another attempt, the reply, or an error.
unfoldable pub receive : Network → Options → ℕ → (String → Action Reply) → Fetched → Action Reply
receive net o attempt retry (unanswered aborted) = raise (unavailable aborted) o.stage none
receive net o attempt retry (answered response) =
    if too_large 0 response.chunks
    then raise "CONNECTOR_RESPONSE_TOO_LARGE" o.stage (some response.status)
    else elim response.broken [
      | some aborted ↦ raise (unavailable aborted) o.stage none
      | none ↦
          let content = parsed net response.chunks in
          elim (next_nonce o.dpop attempt response content) [
            | some nonce ↦ retry nonce
            | none ↦ conclude o.stage response.status content
          ]
    ]

-- The loop, with the attempts that are left. Past its end the source answers `undefined`, whose use
-- fails as a service that is unavailable.
unfoldable pub attempts : Network → Options → ℕ → ℕ → Option String → Action Reply
attempts net o zero attempt supplied = raise "CONNECTOR_UNAVAILABLE" o.stage none
attempts net o (suc left) attempt supplied =
    send net (call_of net o supplied)
    >>= receive net o attempt (λ next. attempts net o left (suc attempt) (some next))

unfoldable pub request : Network → Options → Action Reply
request net o = attempts net o 2 0 none
