-- ===== src/Lifecycle/Lines.antt =====
-- The lines of the script's output (ztd-lifecycle.js): `buffer.split(/\r?\n/)` with its last part,
-- which is no line yet, kept apart.
use facis_zero_trust_demonst.Base.{
  String, Bool, true, false, ◌≡◌, refl, sym, ◌∙◌, ap, subst, ◌&&◌, List, [], ◌∷◌, ◌++◌,
  if◌then◌else◌, arith, Bool-cases, ◌≢◌, ◌⊎◌, inl, inr, nat_eq,
}
use Prim.Native.Char.{Char, code}
use Prim.Native.String
use Prim.Native.String.append

-- A line feed comes next.
abbrev pub starts_line : String → Bool
starts_line String.[] = false
starts_line (String.◌∷◌ c s) = nat_eq (code c) 10

-- A character before what was split.
unfoldable pub prefix : Char → List String × String → List String × String
prefix c ([], rest) = ([], String.◌∷◌ c rest)
prefix c (line ∷ lines, rest) = (String.◌∷◌ c line ∷ lines, rest)

unfoldable pub split : String → List String × String
split String.[] = ([], "")
split (String.◌∷◌ c s) =
    let further = split s in
    if nat_eq (code c) 10
    then ("" ∷ further.0, further.1)
    else if nat_eq (code c) 13 && starts_line s
    then further
    else prefix c further

module _ (c : Char) (s : String) where
  split_feed : nat_eq (code c) 10 ≡ true → split (String.◌∷◌ c s) ≡ ("" ∷ (split s).0, (split s).1)
  unfolding split
  split_feed feed = ground arith

  split_return : nat_eq (code c) 13 ≡ true → starts_line s ≡ true → split (String.◌∷◌ c s) ≡ split s
  unfolding split
  split_return return starts = ground arith

  split_inside :
      nat_eq (code c) 10 ≡ false
      → (nat_eq (code c) 13 && starts_line s) ≡ false
      → split (String.◌∷◌ c s) ≡ prefix c (split s)
  unfolding split
  split_inside other inside = ground arith

split_starts : (s : String) → starts_line s ≡ true → (split s).0 ≢ []
split_starts String.[] e h = cc
split_starts (String.◌∷◌ c s) e h = let f = split_feed c s e in ground arith

prefix_rest :
    (c : Char) (p : List String × String)
    → (prefix c p).0 ≡ []
    → (p.0 ≡ []) × (prefix c p ≡ ([], String.◌∷◌ c p.1))
unfolding prefix
prefix_rest c ([], rest) e = (refl, refl)
prefix_rest c (line ∷ lines, rest) e = cc

-- Where no line is complete, the whole text is kept.
split_rest : (s : String) → (split s).0 ≡ [] → split s ≡ ([], s)
unfolding split
split_rest String.[] e = refl
split_rest (String.◌∷◌ c s) e = elim (Bool-cases (nat_eq (code c) 10)) [
  | inl feed ↦ let f = split_feed c s feed in ground arith
  | inr other ↦ elim (Bool-cases (nat_eq (code c) 13 && starts_line s)) [
    | inl return ↦
        let f = split_return c s (ground arith) (ground arith) in
        ground (arith, split_starts s (ground arith))
    | inr inside ↦
        let f = split_inside c s other inside in
        let p = prefix_rest c (split s) (ap (λ p. p.0) (sym f) ∙ e) in
        f ∙ p.1 ∙ ap (λ (q : List String × String). ([], String.◌∷◌ c q.1)) (split_rest s p.0)
  ]
]

starts_line-append : (s t : String) → s ≢ "" → starts_line (String.◌++◌ s t) ≡ starts_line s
starts_line-append String.[] t e = absurd (e refl)
starts_line-append (String.◌∷◌ c s) t e = ap starts_line (append.cons c s t)

-- What is split of a text and what comes after it.
abbrev pub after : List String × String → String → List String × String
after p t = let next = split (String.◌++◌ p.1 t) in (p.0 ++ next.0, next.1)

after_whole : (s t : String) → (split s).0 ≡ [] → after (split s) t ≡ split (String.◌++◌ s t)
after_whole s t e = ap (λ p. after p t) (split_rest s e)

after-prefix :
    (c : Char) (p : List String × String) (t : String)
    → p.0 ≢ []
    → prefix c (after p t) ≡ after (prefix c p) t
unfolding prefix
after-prefix c ([], rest) t e = absurd (e refl)
after-prefix c (line ∷ lines, rest) t e = refl

List-cases {ℓ} : {A : Type ℓ} (xs : List A) → (xs ≡ []) ⊎ (xs ≢ [])
List-cases [] = inl refl
List-cases (x ∷ xs) = inr (λ e. cc)

split_single : (c : Char) → nat_eq (code c) 10 ≡ false → (split (String.◌∷◌ c "")).0 ≡ []
unfolding split prefix
split_single c other = ground arith

split_nonempty :
    (c : Char) (s : String) → nat_eq (code c) 10 ≡ false → (split (String.◌∷◌ c s)).0 ≢ [] → s ≢ ""
split_nonempty c s other some e =
    some (subst (λ s. (split (String.◌∷◌ c s)).0 ≡ []) (sym e) (split_single c other))

-- A text that comes in two parts has the lines of the whole, where the first part's rest is put
-- before the second part.
pub split-append : (s t : String) → split (String.◌++◌ s t) ≡ after (split s) t
unfolding split prefix
split-append String.[] t = refl
split-append (String.◌∷◌ c s) t =
    let whole = String.◌∷◌ c s in
    let further = String.◌++◌ s t in
    let ih = split-append s t in
    elim (List-cases (split whole).0) [
      | inl none ↦ sym (after_whole whole t none)
      | inr some ↦ ap split (append.cons c s t) ∙ elim (Bool-cases (nat_eq (code c) 10)) [
        | inl feed ↦
            split_feed c further feed
            ∙ ap (λ (p : List String × String). ("" ∷ p.0, p.1)) ih
            ∙ ap (λ p. after p t) (sym (split_feed c s feed))
        | inr other ↦
            let starts = starts_line-append s t (split_nonempty c s other some) in
            elim (Bool-cases (nat_eq (code c) 13 && starts_line s)) [
              | inl return ↦
                  split_return c further (ground arith) (starts ∙ ground arith)
                  ∙ ih
                  ∙ ap (λ p. after p t) (sym (split_return c s (ground arith) (ground arith)))
              | inr inside ↦
                  let same = split_inside c s other inside in
                  split_inside c further other (ground arith)
                  ∙ ap (prefix c) ih
                  ∙ after-prefix c (split s) t (λ e. some (
                      ap (λ (p : List String × String). p.0) same
                      ∙ ap (λ p. (prefix c p).0) (split_rest s e)))
                  ∙ ap (λ p. after p t) (sym same)
            ]
      ]
    ]
