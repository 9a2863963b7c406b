-- ===== src/Identity/Token.antt =====
-- The parts of a token (`verify` in identity-on-start.js).
use facis_zero_trust_demonst.Base.{
  ◌>>=◌, String, ◌&&◌, not, Option, none, some, List, [], ◌∷◌, if◌then◌else◌, Value, Fields, str,
  property, as_string, as_object, is_text, leb, text_length,
}
use facis_zero_trust_demonst.Identity.State.{Provider, truthy}

-- The three parts of a token, its header and its claims, where they can be read.
pub record Parts : Type 0 where
  pub header : String
  pub body : String
  pub signature : String
  pub kid : String
  pub claims : Fields

module _ (p : Provider) where
  abbrev header_kid : Value → Option String
  header_kid h =
      if is_text (property "alg" h) "RS256" && not (truthy (property "crit" h))
      then as_string (property "kid" h)
      else none

  abbrev read_parts : List String → Option Parts
  read_parts (header ∷ body ∷ signature ∷ []) = do
    h ← p.decode header
    c ← p.decode body
    kid ← header_kid h
    claims ← as_object c
    some
        (record { header = header; body = body; signature = signature; kid = kid; claims = claims })
  read_parts _ = none

  abbrev pub parts_of : Value → Option Parts
  parts_of (str s) = if leb (text_length s) 32768 then read_parts (p.split s) else none
  parts_of _ = none
