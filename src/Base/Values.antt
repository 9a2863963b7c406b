-- ===== src/Base/Values.antt =====
-- The values of JavaScript that arrive from outside: parsed JSON and `undefined`. A number is a
-- natural number; negative and fractional ones are left out.
use Prim.Native.Nat.{ℕ}
use Prim.Native.String.{String}
use mathlib.Core.Bool.{Bool, true, false}
use mathlib.Core.Option.{Option, none, some}
use mathlib.Core.List.{List, [], ◌∷◌}
use mathlib.Core.Path.{◌≡◌, ap}
use mathlib.Core.Logic.{◌↔◌}
use text.Mathlib.Text.{◌==◌}
use text.Mathlib.TextEquality.{eq_iff}
use facis_zero_trust_demonst.Base.Tests.{if◌then◌else◌}

mutual
  pub data Value : Type 0 where
    undefined null : Value
    bool : Bool → Value
    num : ℕ → Value
    str : String → Value
    obj : Fields → Value
    arr : Items → Value

  pub data Fields : Type 0 where
    end : Fields
    field : String → Value → Fields → Fields

  pub data Items : Type 0 where
    nil : Items
    cons : Value → Items → Items

-- `Object.keys(o)`
abbrev pub keys : Fields → List String
keys end = []
keys (field k v fs) = k ∷ keys fs

-- `o[k]`: the own property, and `undefined` where there is none.
abbrev pub get : String → Fields → Value
get k end = undefined
get k (field j v fs) = if j == k then v else get k fs

-- `typeof v === 'string'`
abbrev pub as_string : Value → Option String
as_string (str s) = some s
as_string _ = none

-- `v && typeof v === 'object' && !Array.isArray(v)`
abbrev pub as_object : Value → Option Fields
as_object (obj fs) = some fs
as_object _ = none

-- The text that `m[v]` reads `v` as: an array of one element is read as that element is. Other
-- values name none of the keys that are asked for with this.
unfoldable pub key_of : Value → Option String
key_of (str s) = some s
key_of (arr (cons v nil)) = key_of v
key_of _ = none

-- `v === s` for a text `s`
abbrev pub is_text : Value → String → Bool
is_text (str t) s = t == s
is_text _ s = false

pub is_text_iff : (v : Value) (s : String) → (is_text v s ≡ true) ↔ (v ≡ str s)
is_text_iff (str t) s = let rule = eq_iff t s in (λ h. ap str (rule.0 h), λ e. rule.1 (ap text e))
  where
    text : Value → String
    text (str u) = u
    text _ = t
is_text_iff undefined s = (λ h. cc, λ e. cc)
is_text_iff null s = (λ h. cc, λ e. cc)
is_text_iff (bool b) s = (λ h. cc, λ e. cc)
is_text_iff (num n) s = (λ h. cc, λ e. cc)
is_text_iff (obj fs) s = (λ h. cc, λ e. cc)
is_text_iff (arr vs) s = (λ h. cc, λ e. cc)

-- `v !== undefined`
abbrev pub is_given : Value → Bool
is_given undefined = false
is_given _ = true

-- An object literal.
abbrev pub object : List (String × Value) → Value
object ps = obj (fields ps)
  where
    fields : List (String × Value) → Fields
    fields [] = end
    fields ((k, v) ∷ ps) = field k v (fields ps)

-- A field that may be null.
abbrev pub or_null {ℓ} : {A : Type ℓ} → (A → Value) → Option A → Value
or_null f none = null
or_null f (some a) = f a

-- `v.k` on a value that has properties of its own only if it is an object.
abbrev pub property : String → Value → Value
property k (obj fs) = get k fs
property k _ = undefined
