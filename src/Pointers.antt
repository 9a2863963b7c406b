-- ===== src/Pointers.antt =====
-- docs/contracts/tooling/verify.mjs: JSON pointers as texts (`escapePointer`, `unescapePointer`, and
-- the segments of a pointer in `resolve`).
use facis_zero_trust_demonst.Base.{
  arith, String, Bool, true, false, ◌≡◌, refl, sym, ◌∙◌, ap, List, [], ◌∷◌, map, if◌then◌else◌,
  ◌==◌, ◌||◌, onto_first, eq_iff, Bool-cases, inl, inr,
}
use Prim.Native.Char.{Char}
use Prim.Native.String
mod Tests

-- One text after another.
infixr 5 ◌++◌
abbrev pub ◌++◌ : String → String → String
String.[] ++ t = t
(String.◌∷◌ c s) ++ t = String.◌∷◌ c (s ++ t)

-- `xs.join('/')`
unfoldable pub join_slash : List String → String
join_slash [] = ""
join_slash (x ∷ []) = x
join_slash (x ∷ y ∷ ys) = x ++ ("/" ++ join_slash (y ∷ ys))

abbrev is_char : Char → String → Bool
is_char c s = String.◌∷◌ c "" == s

-- `s.replace(/c/g, text)` for a text `c` of one character.
unfoldable pub replace_char : String → String → String → String
replace_char old new String.[] = ""
replace_char old new (String.◌∷◌ c s) =
    let rest = replace_char old new s in if is_char c old then new ++ rest else String.◌∷◌ c rest

unfoldable pub escape_pointer : String → String
escape_pointer key = replace_char "/" "~1" (replace_char "~" "~0" key)

-- `s.replace(/~c/g, text)`; `pending` says that the character before is a tilde, not yet written.
unfoldable pub replace_pair : String → String → (pending : Bool) → String → String
replace_pair old new pending String.[] = if pending then "~" else ""
replace_pair old new pending (String.◌∷◌ c s) =
    let started = replace_pair old new true s in
    let rest = replace_pair old new false s in
    let next = if is_char c "~" then started else String.◌∷◌ c rest in
    if pending then if is_char c old then new ++ rest else "~" ++ next else next

unfoldable pub unescape_pointer : String → String
unescape_pointer seg = replace_pair "0" "~" false (replace_pair "1" "/" false seg)

-- `s.split('/')`
unfoldable pub split_slash : String → List String
split_slash String.[] = "" ∷ []
split_slash (String.◌∷◌ c s) =
    let rest = split_slash s in if is_char c "/" then "" ∷ rest else onto_first c rest

-- The pointer of some keys.
unfoldable pub pointer_of : List String → String
pointer_of keys = "/" ++ join_slash (map escape_pointer keys)

abbrev tail_of : String → String
tail_of String.[] = ""
tail_of (String.◌∷◌ c s) = s

-- `pointer.slice(1).split('/')`, with each key.
unfoldable pub keys_of : String → List String
keys_of pointer = map unescape_pointer (split_slash (tail_of pointer))

is_head : (c : Char) (old s : String) → is_char c old ≡ true → old ++ s ≡ String.◌∷◌ c s
is_head c old s same = ap (λ t. t ++ s) (sym ((eq_iff (String.◌∷◌ c "") old).0 same))

unescape_slash :
    (s : String)
    → replace_pair "1" "/" false (replace_char "/" "~1" (replace_char "~" "~0" s))
      ≡ replace_char "~" "~0" s
unfolding replace_char replace_pair
unescape_slash String.[] = refl
unescape_slash (String.◌∷◌ c s) =
    let ih = unescape_slash s in
    elim (Bool-cases (is_char c "~")) [
      | inl tilde ↦ rw tilde (ap (λ t. "~0" ++ t) ih)
      | inr other ↦ elim (Bool-cases (is_char c "/")) [
        | inl slash ↦
            rw (other, slash)
              (ap (λ t. "/" ++ t) ih ∙ is_head c "/" (replace_char "~" "~0" s) slash)
        | inr plain ↦ rw (other, plain, other) (ap (λ t. String.◌∷◌ c t) ih)
      ]
    ]

unescape_tilde : (s : String) → replace_pair "0" "~" false (replace_char "~" "~0" s) ≡ s
unfolding replace_char replace_pair
unescape_tilde String.[] = refl
unescape_tilde (String.◌∷◌ c s) =
    let ih = unescape_tilde s in
    elim (Bool-cases (is_char c "~")) [
      | inl tilde ↦ rw tilde (ap (λ t. "~" ++ t) ih ∙ is_head c "~" s tilde)
      | inr other ↦ rw (other, other) (ap (λ t. String.◌∷◌ c t) ih)
    ]

unescape_pointer-escape_pointer : (s : String) → unescape_pointer (escape_pointer s) ≡ s
unfolding unescape_pointer escape_pointer
unescape_pointer-escape_pointer s =
    ap (replace_pair "0" "~" false) (unescape_slash s) ∙ unescape_tilde s

-- A text without a slash.
abbrev has_slash : String → Bool
has_slash String.[] = false
has_slash (String.◌∷◌ c s) = is_char c "/" || has_slash s

no_slash : (s : String) → has_slash (replace_char "/" "~1" s) ≡ false
unfolding replace_char
no_slash String.[] = refl
no_slash (String.◌∷◌ c s) = elim (Bool-cases (is_char c "/")) [
  | inl slash ↦ rw slash (no_slash s)
  | inr plain ↦ rw (plain, plain) (no_slash s)
]

split_slash-alone : (s : String) → has_slash s ≡ false → split_slash s ≡ s ∷ []
unfolding split_slash
split_slash-alone String.[] e = refl
split_slash-alone (String.◌∷◌ c s) e =
    let plain : is_char c "/" ≡ false = ground arith in
    let later : has_slash s ≡ false = ground arith in
    rw plain (ap (onto_first c) (split_slash-alone s later))

split_slash-first :
    (s t : String) → has_slash s ≡ false → split_slash (s ++ ("/" ++ t)) ≡ s ∷ split_slash t
unfolding split_slash
split_slash-first String.[] t e = refl
split_slash-first (String.◌∷◌ c s) t e =
    let plain : is_char c "/" ≡ false = ground arith in
    let later : has_slash s ≡ false = ground arith in
    rw plain (ap (onto_first c) (split_slash-first s t later))

split_slash-join_slash :
    (key : String) (keys : List String)
    → split_slash (join_slash (map escape_pointer (key ∷ keys))) ≡ map escape_pointer (key ∷ keys)
unfolding join_slash escape_pointer
split_slash-join_slash key [] =
    split_slash-alone (escape_pointer key) (no_slash (replace_char "~" "~0" key))
split_slash-join_slash key (next ∷ keys) =
    split_slash-first (escape_pointer key) (join_slash (map escape_pointer (next ∷ keys)))
      (no_slash (replace_char "~" "~0" key))
    ∙ ap (λ l. escape_pointer key ∷ l) (split_slash-join_slash next keys)

map-unescape : (keys : List String) → map unescape_pointer (map escape_pointer keys) ≡ keys
map-unescape [] = refl
map-unescape (key ∷ keys) =
    ap (λ k. k ∷ map unescape_pointer (map escape_pointer keys))
      (unescape_pointer-escape_pointer key)
    ∙ ap (λ l. key ∷ l) (map-unescape keys)

-- The keys that a pointer was made of are read from it again, whatever tildes, slashes and empty keys
-- are among them, where there is at least one key.
pub keys_of-pointer_of :
    (key : String) (keys : List String) → keys_of (pointer_of (key ∷ keys)) ≡ key ∷ keys
unfolding keys_of pointer_of
keys_of-pointer_of key keys =
    ap (map unescape_pointer) (split_slash-join_slash key keys) ∙ map-unescape (key ∷ keys)
