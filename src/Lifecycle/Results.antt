-- ===== src/Lifecycle/Results.antt =====
-- The results of the lifecycle node (ztd-lifecycle.js, `result` and `fromScript`). The masking of
-- credentials in texts and the conversion of a value to a text are parameters.
use facis_zero_trust_demonst.Base.{
  property, ℕ, List, String, Bool, true, false, not, Option, none, some, [], ◌∷◌, if◌then◌else◌,
  Dict, Value, undefined, null, bool, num, str, arr, obj, object, is_empty, nat_eq,
}

pub data Errors : Type 0 where
  fields : Dict Value → Errors
  action : Value → Errors

pub record Toast : Type 0 where
  pub kind : String
  pub message : String

pub record Result : Type 0 where
  pub ok : Bool
  pub action : Value
  pub request_id : Value
  pub content : Value
  pub toast : Toast
  pub errors : Option Errors

-- What the node takes from the rest: `JSON.parse`, the masking, `String(v)`, and `chunk.toString()`
-- on the bytes of a chunk.
pub record Library : Type 0 where
  pub parse : String → Option Value
  pub mask : Value → Value
  pub text : Value → String
  pub decode : List ℕ → String

abbrev pub is_truthy : Value → Bool
is_truthy undefined = false
is_truthy null = false
is_truthy (bool b) = b
is_truthy (num n) = not (nat_eq n 0)
is_truthy (str s) = not (is_empty s)
is_truthy (arr _) = true
is_truthy (obj _) = true

abbrev error_message : Option Errors → String
error_message (some (fields _)) = "Please correct the highlighted fields."
error_message _ = "The request could not be completed."

unfoldable pub result : Value → Bool → Value → Option Errors → Result
result command ok content errors = record {
  ok = ok;
  action = property "action" command;
  request_id = property "requestId" command;
  content = if is_truthy content then content else null;
  toast =
      if ok
      then record {
        kind = "success";
        message = if is_truthy (property "accepted" content) then "Request accepted." else "Done.";
      }
      else record { kind = "error"; message = error_message errors };
  errors = if ok then none else errors;
}

abbrev system_error : Value
system_error = str "systemError"

unfoldable pub script_errors : Library → Value → Errors
script_errors lib error =
    if not (is_truthy error)
    then action system_error
    else if is_truthy (property "field" error)
    then fields ((lib.text (property "field" error), property "message" error) ∷ [])
    else action (property "code" error)

unfoldable pub from_script : Library → Value → Value → Result
from_script lib command script =
    if not (is_truthy script)
    then result command false null (some (action system_error))
    else if is_truthy (property "ok" script)
    then result command true
        (object (
          ("release", property "release" script)
          ∷ ("namespace", property "namespace" script)
          ∷ ("clusterId", property "clusterId" script)
          ∷ ("revision", property "revision" script)
          ∷ ("chartDigest", property "chartDigest" script)
          ∷ ("valuesHash", property "valuesHash" script)
          ∷ ("helmVersion", property "helmVersion" script)
          ∷ ("expected", property "expected" script)
          ∷ ("output", lib.mask (property "output" script))
          ∷ []))
        none
    else result command false
        (object (
          ("clusterId", property "clusterId" script)
          ∷ ("output", lib.mask (property "output" script))
          ∷ []))
        (some (script_errors lib (property "error" script)))
