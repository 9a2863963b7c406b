-- ===== src/Journey/Slug.antt =====
-- The identifier made of a policy check's label (journey-engine.js, the `failedCheck` of a refused
-- step): lower case, each run of other characters one dash, no dash at either end. Letters beyond
-- ASCII are separators here, as they are for the source's pattern.
use Prim.Native.Char.{code}
use Prim.Native.String
use facis_zero_trust_demonst.Base.{
  ℕ, String, lower, Bool, true, false, ◌||◌, if◌then◌else◌, nat_eq, is_lower, is_digit,
}

abbrev is_word : ℕ → Bool
is_word c = is_lower c || is_digit c

-- `replace(/[^a-z0-9]+/g, '-')`; the flag says that a dash was just written.
collapse : Bool → String → String
collapse dashed String.[] = ""
collapse dashed (String.◌∷◌ c s) =
    let word = is_word (code c) in
    let rest = collapse (if word then false else true) s in
    if word then String.◌∷◌ c rest else if dashed then rest else String.◌++◌ "-" rest

strip_first : String → String
strip_first String.[] = ""
strip_first (String.◌∷◌ c s) = if nat_eq (code c) b'-' then s else String.◌∷◌ c s

strip_last : String → String
strip_last String.[] = ""
strip_last (String.◌∷◌ c String.[]) = if nat_eq (code c) b'-' then "" else String.◌∷◌ c ""
strip_last (String.◌∷◌ c (String.◌∷◌ d s)) = String.◌∷◌ c (strip_last (String.◌∷◌ d s))

unfoldable pub slug : String → String
unfolding collapse strip_first strip_last lower
slug label = strip_last (strip_first (collapse false (lower label)))
