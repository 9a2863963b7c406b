-- ===== src/Lifecycle/Labels.antt =====
-- Which texts are labels (`DNS_LABEL` and `RELEASE_LABEL` in ztd-lifecycle.js).
use facis_zero_trust_demonst.Base.{
  ℕ, String, true, ◌≡◌, refl, ◌↔◌, ◌⊎◌, inr, ◌≤◌, ◌+◌, Option, none, some, List, [], ◌∷◌, All,
  arith, every_char, text_length, leb, suc, some_injective, subst, sym,
}
use Prim.Native.Char.{Char, code}
use facis_zero_trust_demonst.Lifecycle.Command.{is_alphanumeric, is_label_char, ends_well, is_label}

abbrev pub codes : String → List ℕ
codes String.[] = []
codes (String.◌∷◌ c s) = code c ∷ codes s

abbrev pub first : List ℕ → Option ℕ
first [] = none
first (n ∷ ns) = some n

abbrev pub last : List ℕ → Option ℕ
last [] = none
last (n ∷ []) = some n
last (n ∷ m ∷ ns) = last (m ∷ ns)

-- `a` to `z` and `0` to `9`.
abbrev pub IsAlphanumeric : ℕ → Type 0
IsAlphanumeric c = ((97 ≤ c) × (c ≤ 122)) ⊎ ((48 ≤ c) × (c ≤ 57))

-- Letters, digits and dashes, at most so many, with no dash at either end.
pub record IsLabel (max : ℕ) (s : String) : Type 0 where
  pub length : text_length s ≤ max
  pub characters : All (λ c. (c ≡ 45) ⊎ IsAlphanumeric c) (codes s)
  pub starts : (c : ℕ) × (first (codes s) ≡ some c) × IsAlphanumeric c
  pub ends : (c : ℕ) × (last (codes s) ≡ some c) × IsAlphanumeric c

is_alphanumeric_iff : (c : ℕ) → (is_alphanumeric c ≡ true) ↔ IsAlphanumeric c
is_alphanumeric_iff c = (λ h. ground arith, λ h. ground arith)

is_label_char_iff : (c : ℕ) → (is_label_char c ≡ true) ↔ ((c ≡ 45) ⊎ IsAlphanumeric c)
is_label_char_iff c = (λ h. ground arith, λ h. ground arith)

characters_iff :
    (s : String)
    → (every_char is_label_char s ≡ true) ↔ All (λ c. (c ≡ 45) ⊎ IsAlphanumeric c) (codes s)
characters_iff String.[] = (λ h. tt, λ h. refl)
characters_iff (String.◌∷◌ c s) =
    let here = is_label_char_iff (code c) in
    let later = characters_iff s in
    (λ h. (here.0 (ground arith), later.0 (ground arith)), λ a. rw (here.1 a.0, later.1 a.1) refl)

ends_well_iff :
    (c : Char) (s : String)
    → (ends_well (String.◌∷◌ c s) ≡ true)
      ↔ ((d : ℕ) × (last (codes (String.◌∷◌ c s)) ≡ some d) × IsAlphanumeric d)
unfolding ends_well
ends_well_iff c String.[] = (
  λ h. (code c, refl, (is_alphanumeric_iff (code c)).0 h),
  λ e. (is_alphanumeric_iff (code c)).1 (subst IsAlphanumeric (sym (some_injective e.1)) e.2),
)
ends_well_iff c (String.◌∷◌ d s) = ends_well_iff d s

ends_rest : (c : Char) (s : String) → ends_well (String.◌∷◌ c s) ≡ true → ends_well s ≡ true
unfolding ends_well
ends_rest c String.[] h = refl
ends_rest c (String.◌∷◌ d s) h = h

pub is_label_iff : (n : ℕ) (s : String) → (is_label n s ≡ true) ↔ IsLabel (n + 2) s
unfolding is_label ends_well
is_label_iff n String.[] = (λ h. cc, λ l. let e = l.starts.1 in cc)
is_label_iff n (String.◌∷◌ c s) =
    let start = is_alphanumeric_iff (code c) in
    let inside = characters_iff s in
    let ending = ends_well_iff c s in
    (
      λ h. record {
        length = ground arith;
        characters = (inr (start.0 (ground arith)), inside.0 (ground arith));
        starts = (code c, refl, start.0 (ground arith));
        ends = ending.0 (ground arith);
      },
      λ l.
          let starting =
            start.1 (subst IsAlphanumeric (sym (some_injective l.starts.1)) l.starts.2) in
          let middle = inside.1 l.characters.1 in
          let end = ending.1 l.ends in
          let short : leb (text_length s) (suc n) ≡ true = ground (arith, l.length, starting) in
          rw (starting, middle, ends_rest c s end, short) refl,
    )
