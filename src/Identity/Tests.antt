-- ===== src/Identity/Tests.antt =====
-- The identity boundary on concrete data (identity-on-start.js and identity-on-message.js).
use facis_zero_trust_demonst.Base.{
  key_of, trim, insert, String, true, ◌≡◌, refl, Option, none, some, List, [], ◌∷◌, Value, Fields,
  str, num, object, obj, arr, cons, nil, undefined, if◌then◌else◌, ◌==◌, arith, lookup, insert, get,
  end, as_string,
}
use facis_zero_trust_demonst.Identity.Preview.{
  operator, Preview, valid, validate_config_change, exact, targets, target_of, payload_error, role,
  has_text,
}
use facis_zero_trust_demonst.Identity.State.{
  Session, Transaction, Auth, Provider, response, ok, identical,
}
use facis_zero_trust_demonst.Identity.Verify.{
  content_of, verify, verify_parts, jwks, key_for, claims_error, claims_fit, freshness, is_logout,
}
use facis_zero_trust_demonst.Identity.Sessions.{
  plain, session, cleanup, retain, mark_expired, mark_all, renew, refresh,
}
use facis_zero_trust_demonst.Identity.Login.{Random, callback_handler, done}
use facis_zero_trust_demonst.Identity.Logout.{backchannel, logout_check, names_session, end_named}
use facis_zero_trust_demonst.Identity.Command.{
  Request, Command, emitted, command, csrf, may_run, admit, inputs_of, kind_of,
}
use facis_zero_trust_demonst.Identity.Routes.{Message, on_message}
use facis_zero_trust_demonst.Identity.Cookies.{cookies, parts, cut, add_cookie, session_name}
use facis_zero_trust_demonst.Identity.Sizes.{IsBounded}
use facis_zero_trust_demonst.Identity.Limits.{on_message-IsBounded}
use facis_zero_trust_demonst.Identity.Gate.{IsAllowed, command-IsAllowed}
use facis_zero_trust_demonst.Identity.Signed.{IsSigned, verify-IsSigned}
use facis_zero_trust_demonst.Identity.Fetched.{IsKnown}
use facis_zero_trust_demonst.Identity.Live.{IsLive, session-IsLive}
use facis_zero_trust_demonst.Identity.Once.{
  IsEnded, backchannel-IsEnded, IsUsed, callback_handler-IsUsed,
}

-- A kind in an array passes with any payload.
wrapped_kind :
    validate_config_change (
      object (
        ("kind", arr (cons (str "trust-zone") nil))
        ∷ ("target", str "zone-a")
        ∷ ("payload", object (("zone", str "zone-b") ∷ []))
        ∷ []))
    ≡ valid (record {
      kind = arr (cons (str "trust-zone") nil);
      target = "zone-a";
      payload = object (("zone", str "zone-b") ∷ []);
      validation = "local-schema-valid";
    })
unfolding validate_config_change exact target_of key_of targets payload_error
wrapped_kind = refl

abbrev change : Value
change = object (
    ("kind", str "trust-zone")
    ∷ ("target", str "zone-a")
    ∷ ("payload", object (("zone", str "zone-a") ∷ []))
    ∷ [])

-- Tokens of three parts; the middle one names the claims.
abbrev split : String → List String
split s = "header" ∷ s ∷ "signature" ∷ []

abbrev claims : Value
claims = object (
    ("iss", str "issuer")
    ∷ ("aud", str "ztd-ui")
    ∷ ("iat", num 0)
    ∷ ("exp", num 9000)
    ∷ ("sub", str "user")
    ∷ ("sid", str "sid-1")
    ∷ ("realm_access", object (("roles", arr (cons (str "ztd-operator") nil)) ∷ []))
    ∷ [])

abbrev logout_claims : Value
logout_claims = object (
    ("iss", str "issuer")
    ∷ ("aud", str "ztd-ui")
    ∷ ("iat", num 0)
    ∷ ("jti", str "j-1")
    ∷ ("sid", str "sid-1")
    ∷ ("events", object (("http://schemas.openid.net/event/backchannel-logout", object []) ∷ []))
    ∷ [])

abbrev decode : String → Option Value
decode s =
    if s == "header"
    then some (object (("alg", str "RS256") ∷ ("kid", str "k-1") ∷ []))
    else if s == "logout"
    then some logout_claims
    else some claims

abbrev key : Value
key = object (("kid", str "k-1") ∷ ("kty", str "RSA") ∷ [])

abbrev provider : Provider
provider = record {
  issuer = "issuer";
  origin = "https://page";
  split = split;
  decode = decode;
  signed = λ h c s k. true;
  key_bytes = λ k. 256;
  certs = λ n. response 200 (some (object (("keys", arr (cons key nil)) ∷ [])));
  token = λ n form. response 400 none;
  hash = λ s. s;
}

abbrev claim_fields : Fields
claim_fields = fields claims
  where
    fields : Value → Fields
    fields (obj fs) = fs
    fields _ = end

abbrev user : Session
user = record {
  access = str "access";
  id_token = str "id";
  refresh = "refresh";
  claims = claim_fields;
  username = str "user";
  subject = str "user";
  sid = str "sid-1";
  role = some operator;
  expires = 9000000;
  created = 1000;
  last = 1000;
  csrf = "csrf";
}

abbrev transaction : Transaction
transaction = record { state = "state"; nonce = "nonce"; verifier = "verifier"; expires = 300000 }

abbrev auth : Auth
auth = record {
  sessions = ("session", user) ∷ [];
  ended = [];
  transactions = ("tx", transaction) ∷ [];
  replays = [];
  known_keys = none;
  key_at = 0;
  asked = 0;
  generation = 0;
}

abbrev request : Request
request = record {
  session_cookie = some "session";
  origin = str "https://page";
  csrf_header = str "csrf";
  body = object (("type", str "start") ∷ ("data", object (("scenario", str "s-1") ∷ [])) ∷ []);
}

abbrev random : Random
random = record {
  transaction = "tx-2";
  state = "state-2";
  nonce = "nonce-2";
  verifier = "verifier-2";
  key = "session-2";
  csrf = "csrf-2";
}

abbrev message : Message
message = record {
  method = "POST";
  route = "/ztd/api/journey";
  content_type = "application/json; charset=utf-8";
  content_length = some 40;
  body_length = 40;
  request = request;
  transaction_cookie = none;
  cookie_header = "a=b; __Secure-facis-ui = session";
  query = undefined;
  random = random;
}

auth-IsBounded : IsBounded auth
auth-IsBounded = record {
  sessions = omega arith;
  ended = omega arith;
  transactions = omega arith;
  replays = omega arith;
}

on_message-IsBounded_example :
    IsBounded (on_message provider "/callback" "/home" 2000 message auth).1
on_message-IsBounded_example =
    on_message-IsBounded provider "/callback" "/home" 2000 message auth auth-IsBounded

abbrev started : Command
started = record {
  kind = "start";
  inputs = ("scenario", "s-1") ∷ [];
  subject = str "user";
  username = str "user";
  role = operator;
}

starts : (command provider 2000 request auth).0 ≡ emitted started
unfolding command session cleanup retain mark_all mark_expired renew refresh verify verify_parts
    content_of jwks key_for claims_error claims_fit freshness has_text role identical admit csrf
    may_run kind_of inputs_of lookup insert
starts = refl

command-IsAllowed_example :
    (s : Session) × (t : Auth) × (session provider 2000 (some "session") auth ≡ (ok s, t))
    × IsAllowed "https://page" request s started
command-IsAllowed_example = command-IsAllowed provider 2000 request auth started starts

abbrev after : Auth
after = record auth {
  sessions = ("session", record user { last = 2000 }) ∷ [];
  known_keys = some (cons key nil);
  key_at = 2000;
  asked = 1;
}

answers : session provider 2000 (some "session") auth ≡ (ok (record user { last = 2000 }), after)
unfolding session cleanup retain mark_all mark_expired renew refresh verify verify_parts content_of
    jwks key_for claims_error claims_fit freshness has_text role identical lookup insert
answers = refl

session-IsLive_example : IsLive 2000 (some "session") auth (record user { last = 2000 }) after
session-IsLive_example =
    session-IsLive provider 2000 (some "session") auth (record user { last = 2000 }) after answers

abbrev logout_body : Value
logout_body = object (("logout_token", str "logout") ∷ [])

ends : (backchannel provider 2000 logout_body auth).0.answer ≡ done
unfolding backchannel verify verify_parts content_of jwks key_for claims_error claims_fit is_logout
    has_text identical cleanup retain mark_all mark_expired end_named names_session lookup insert
ends = refl

backchannel-IsEnded_example :
    (c : Fields) × (u : Auth) × (verify provider logout_check 2000 (str "logout") auth ≡ (ok c, u))
    × ((jti : String) × (as_string (get "jti" c) ≡ some jti)
        × IsEnded 2000 c jti (cleanup 2000 u) (backchannel provider 2000 logout_body auth).1)
backchannel-IsEnded_example = backchannel-IsEnded provider 2000 logout_body auth ends

abbrev query : Value
query = object (("state", str "state") ∷ ("code", str "code") ∷ [])

callback_handler-IsUsed_example :
    IsUsed 2000 "tx" query auth.transactions
      (callback_handler provider "/callback" 2000 random (some "tx") none query auth)
callback_handler-IsUsed_example =
    callback_handler-IsUsed provider "/callback" 2000 random "tx" none query auth

verified_access :
    verify provider plain 2000 (str "access") auth
    ≡ (ok claim_fields, record auth { known_keys = some (cons key nil); key_at = 2000; asked = 1 })
unfolding verify verify_parts content_of jwks key_for claims_error claims_fit freshness has_text
verified_access = refl

auth-IsKnown : IsKnown provider auth
auth-IsKnown vs e = cc

verify-IsSigned_example : IsSigned provider plain 2000 (str "access") claim_fields
verify-IsSigned_example =
    verify-IsSigned provider plain 2000 (str "access") auth claim_fields
      (record auth { known_keys = some (cons key nil); key_at = 2000; asked = 1 }) auth-IsKnown
      verified_access

cookies_read :
    cookies "a=b;=c; __Secure-facis-ui = session" ≡ ("a", "b") ∷ (session_name, "session") ∷ []
unfolding cookies parts cut add_cookie insert trim
cookies_read = refl
