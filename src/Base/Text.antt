-- ===== src/Base/Text.antt =====
-- Texts: the native `String`, walked by its characters. A JavaScript string is a sequence of
-- UTF-16 units; the model has no lone surrogates.
use Prim.Native.Nat.{ℕ, zero, suc, ◌+◌, ◌-◌}
use Prim.Native.Char.{Char, code}
use Prim.Native.String
use Prim.Native.String.{String}
use mathlib.Core.Bool.{Bool, true, false, ◌&&◌, ◌||◌}
use mathlib.Core.List.{List, [], ◌∷◌}
use facis_zero_trust_demonst.Base.Tests.{ltb, leb, nat_eq, if◌then◌else◌}

-- `s.length`: a character beyond the basic plane takes two units.
abbrev pub text_length : String → ℕ
text_length String.[] = 0
text_length (String.◌∷◌ c s) = (if ltb (code c) 65536 then 1 else 2) + text_length s

-- `Buffer.byteLength(s, 'utf8')`
abbrev pub byte_length : String → ℕ
byte_length String.[] = 0
byte_length (String.◌∷◌ c s) =
    (if ltb (code c) 128
      then 1
      else if ltb (code c) 2048
      then 2
      else if ltb (code c) 65536
      then 3
      else 4)
    + byte_length s

-- What `trim` and `\s` take for white space.
abbrev pub is_space : ℕ → Bool
is_space c =
    (leb 9 c && leb c 13)
    || nat_eq c 32
    || nat_eq c 160
    || nat_eq c 0x1680
    || (leb 0x2000 c && leb c 0x200a)
    || nat_eq c 0x2028
    || nat_eq c 0x2029
    || nat_eq c 0x202f
    || nat_eq c 0x205f
    || nat_eq c 0x3000
    || nat_eq c 0xfeff

abbrev pub trim_start : String → String
trim_start String.[] = ""
trim_start (String.◌∷◌ c s) = if is_space (code c) then trim_start s else String.◌∷◌ c s

abbrev pub is_empty : String → Bool
is_empty String.[] = true
is_empty (String.◌∷◌ c s) = false

abbrev pub trim_end : String → String
trim_end String.[] = ""
trim_end (String.◌∷◌ c s) =
    let rest = trim_end s in if is_space (code c) && is_empty rest then "" else String.◌∷◌ c rest

unfoldable pub trim : String → String
trim s = trim_end (trim_start s)

abbrev pub every_char : (ℕ → Bool) → String → Bool
every_char p String.[] = true
every_char p (String.◌∷◌ c s) = p (code c) && every_char p s

abbrev pub is_digit : ℕ → Bool
is_digit c = leb b'0' c && leb c b'9'

abbrev pub is_lower : ℕ → Bool
is_lower c = leb b'a' c && leb c b'z'

abbrev pub is_upper : ℕ → Bool
is_upper c = leb b'A' c && leb c b'Z'

-- `[A-Za-z0-9._:-]`
abbrev pub is_id_char : ℕ → Bool
is_id_char c =
    is_upper c
    || is_lower c
    || is_digit c
    || nat_eq c b'.'
    || nat_eq c b'_'
    || nat_eq c b':'
    || nat_eq c b'-'

-- `/^[A-Za-z0-9._:-]{1,128}$/`
unfoldable pub is_identifier : String → Bool
is_identifier s = leb 1 (text_length s) && leb (text_length s) 128 && every_char is_id_char s

-- `xs.join(sep)`
abbrev pub join : String → List String → String
join sep [] = ""
join sep (x ∷ []) = x
join sep (x ∷ y ∷ ys) = String.◌++◌ x (String.◌++◌ sep (join sep (y ∷ ys)))

-- `s.toLowerCase()` on ASCII; other characters are left alone.
abbrev letter_at : ℕ → String → String
letter_at n String.[] = ""
letter_at zero (String.◌∷◌ c s) = String.◌∷◌ c ""
letter_at (suc n) (String.◌∷◌ c s) = letter_at n s

unfoldable pub lower : String → String
lower String.[] = ""
lower (String.◌∷◌ c s) =
    let rest = lower s in
    if is_upper (code c)
    then String.◌++◌ (letter_at (code c - 65) "abcdefghijklmnopqrstuvwxyz") rest
    else String.◌∷◌ c rest

-- `s.split(/\s+/)`: the words between runs of white space, with an empty one at an end that is space.
abbrev begins_with_space : String → Bool
begins_with_space String.[] = false
begins_with_space (String.◌∷◌ c s) = is_space (code c)

abbrev pub onto_first : Char → List String → List String
onto_first c [] = String.◌∷◌ c "" ∷ []
onto_first c (word ∷ words) = String.◌∷◌ c word ∷ words

unfoldable pub words : String → List String
words String.[] = "" ∷ []
words (String.◌∷◌ c s) =
    let rest = words s in
    if is_space (code c) then if begins_with_space s then rest else "" ∷ rest else onto_first c rest

-- `s.startsWith(start)`
abbrev pub starts_with : String → String → Bool
starts_with String.[] s = true
starts_with (String.◌∷◌ c start) String.[] = false
starts_with (String.◌∷◌ c start) (String.◌∷◌ d s) = nat_eq (code c) (code d) && starts_with start s
