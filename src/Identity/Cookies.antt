-- ===== src/Identity/Cookies.antt =====
-- The cookies of a request (`cookies` in identity-on-start.js).
use facis_zero_trust_demonst.Base.{
  String, Option, none, some, List, [], ◌∷◌, if◌then◌else◌, Dict, insert, trim, is_empty, nat_eq,
  onto_first,
}
use Prim.Native.Char.{code}

abbrev pub session_name : String
session_name = "__Secure-facis-ui"

abbrev pub transaction_name : String
transaction_name = "__Secure-facis-oidc"

-- `s.split(';')`
unfoldable pub parts : String → List String
parts String.[] = "" ∷ []
parts (String.◌∷◌ c s) =
    let rest = parts s in if nat_eq (code c) b';' then "" ∷ rest else onto_first c rest

-- What stands before and after the first `=`.
unfoldable pub cut : String → Option (String × String)
cut String.[] = none
cut (String.◌∷◌ c s) =
    let rest = cut s in
    if nat_eq (code c) b'='
    then some ("", s)
    else elim rest [ none ↦ none | some (name, value) ↦ some (String.◌∷◌ c name, value) ]

unfoldable pub add_cookie : Option (String × String) → Dict String → Dict String
add_cookie none jar = jar
add_cookie (some (name, value)) jar =
    if is_empty name then jar else insert (trim name) (trim value) jar

abbrev add_cookies : List String → Dict String → Dict String
add_cookies [] jar = jar
add_cookies (part ∷ rest) jar = add_cookies rest (add_cookie (cut part) jar)

-- A later cookie of the same name takes the place of an earlier one.
unfoldable pub cookies : String → Dict String
cookies header = add_cookies (parts header) []
