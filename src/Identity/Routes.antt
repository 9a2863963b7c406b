-- ===== src/Identity/Routes.antt =====
-- flows/demonstrator/identity-on-message.js: a request by its route. The size of the body as JSON is
-- an argument.
use facis_zero_trust_demonst.Base.{
  lookup, ℕ, String, Bool, false, ◌||◌, not, Option, none, some, [], ◌∷◌, if◌then◌else◌, ◌==◌,
  Value, includes, ltb, nat_eq,
}
use Prim.Native.Char.{code}
use facis_zero_trust_demonst.Identity.State.{Auth, Provider}
use facis_zero_trust_demonst.Identity.Cookies.{cookies, session_name, transaction_name}
use facis_zero_trust_demonst.Identity.Login.{Reply, Random, login, callback_handler}
use facis_zero_trust_demonst.Identity.Logout.{backchannel, frontchannel}
use facis_zero_trust_demonst.Identity.Command.{Request, Result, Status, command, status, logout}

pub record Message : Type 0 where
  pub method : String
  pub route : String
  pub content_type : String
  pub content_length : Option ℕ
  pub body_length : ℕ
  pub request : Request
  pub transaction_cookie : Option String
  pub cookie_header : String
  pub query : Value
  pub random : Random

-- The request with its cookies.
unfoldable pub with_cookies : Message → Message
with_cookies m =
    let jar = cookies m.cookie_header in
    record m {
      request = record m.request { session_cookie = lookup session_name jar };
      transaction_cookie = lookup transaction_name jar;
    }

pub data Response : Type 0 where
  plain : (status : ℕ) → Response
  replied : Reply → Response
  result : Result → Response
  shown : Status → Response

-- `s.split(';')[0]`
abbrev first_part : String → String
first_part String.[] = ""
first_part (String.◌∷◌ c s) =
    let rest = first_part s in if nat_eq (code c) b';' then "" else String.◌∷◌ c rest

abbrev exceeds_limit : Option ℕ → Bool
exceeds_limit none = false
exceeds_limit (some n) = ltb 16384 n

-- The refusal of a body of another type, or of one that is too long.
unfoldable pub body_refusal : Message → Option ℕ
body_refusal m =
    if not (m.method == "POST")
    then none
    else if not (
        includes ("application/json" ∷ "application/x-www-form-urlencoded" ∷ [])
          (first_part m.content_type))
    then some 415
    else if exceeds_limit m.content_length || ltb 16384 m.body_length
    then some 413
    else none

abbrev pub as_reply : Reply × Auth → Response × Auth
as_reply (reply, s) = (replied reply, s)

abbrev pub as_status : Status × Auth → Response × Auth
as_status (status, s) = (shown status, s)

abbrev pub as_result : Result × Auth → Response × Auth
as_result (outcome, s) = (result outcome, s)

module _ (p : Provider) (callback home : String) where
  unfoldable pub dispatch : ℕ → Message → Auth → Response × Auth
  dispatch now m s =
      if m.route == "/ztd/oidc/login"
      then as_reply (login p callback now m.random s)
      else if m.route == "/ztd/oidc/callback"
      then as_reply (
          callback_handler p callback now m.random m.transaction_cookie m.request.session_cookie
            m.query s)
      else if m.route == "/ztd/api/session"
      then as_status (status p now m.request s)
      else if m.route == "/ztd/oidc/logout"
      then as_reply (logout p home now m.request s)
      else if m.route == "/ztd/oidc/frontchannel-logout"
      then as_reply (frontchannel p m.query s)
      else if m.route == "/ztd/oidc/backchannel-logout"
      then as_reply (backchannel p now m.request.body s)
      else if m.route == "/ztd/api/journey"
      then as_result (command p now m.request s)
      else (plain 404, s)

  unfoldable pub on_message : ℕ → Message → Auth → Response × Auth
  on_message now m s = elim (body_refusal m) [
    | some status ↦ (plain status, s)
    | none ↦ dispatch now (with_cookies m) s
  ]
