-- ===== src/Base/Dicts.antt =====
-- A plain object used as a map: its own keys in the order of insertion. (An integer-like key, which
-- JavaScript would put first, is kept in that order too; no operation below reads the order of keys
-- beyond what is said where it is used.)
use Prim.Native.String.{String}
use mathlib.Core.Path.{◌≡◌, refl, sym, subst, subst₂}
use mathlib.Core.Option.{Option, none, some}
use mathlib.Core.List.{List, [], ◌∷◌}
use native.Mathlib.Omega.{arith}
use text.Mathlib.Text.{◌==◌}
use text.Mathlib.TextEquality.{eq_iff}
use facis_zero_trust_demonst.Base.Tests.{if◌then◌else◌, Bool-cases}
use mathlib.Core.Logic.{inl, inr}

abbrev pub Dict {ℓ} : Type ℓ → Type ℓ
Dict V = List (String × V)

module _ {ℓ} {V : Type ℓ} where
  unfoldable pub lookup : String → Dict V → Option V
  lookup k [] = none
  lookup k ((j, v) ∷ m) = if j == k then some v else lookup k m

  -- `m[k] = v`
  unfoldable pub insert : String → V → Dict V → Dict V
  insert k v [] = (k, v) ∷ []
  insert k v ((j, w) ∷ m) = if j == k then (j, v) ∷ m else (j, w) ∷ insert k v m

  -- `delete m[k]`
  unfoldable pub delete : String → Dict V → Dict V
  delete k [] = []
  delete k ((j, w) ∷ m) = let rest = delete k m in if j == k then rest else (j, w) ∷ rest

  abbrev pub values : Dict V → List V
  values [] = []
  values ((j, w) ∷ m) = w ∷ values m

  -- What is found after an insertion: the new value under its key, the old one under any other.
  pub lookup-insert :
      (key other : String) (value : V) (entries : Dict V)
      → lookup other (insert key value entries)
        ≡ (if key == other then some value else lookup other entries)
  unfolding insert lookup
  lookup-insert key other value [] = refl
  lookup-insert key other value ((first, held) ∷ entries) =
      let ih = lookup-insert key other value entries in
      ground (ih, eq_iff first other, eq_iff first key, eq_iff key other, arith)

  pub lookup-delete :
      (k j : String) (m : Dict V) → lookup j (delete k m) ≡ (if k == j then none else lookup j m)
  unfolding lookup delete
  lookup-delete k j [] = ground arith
  lookup-delete k j ((i, w) ∷ m) =
      ground (arith, eq_iff k j, eq_iff i k, eq_iff i j, lookup-delete k j m)

-- What holds of every entry holds of what is found.
module _ {ℓ κ} {V : Type ℓ} (P : String → V → Type κ) where
  abbrev pub Entries : Dict V → Type κ
  Entries [] = Unit
  Entries ((k, v) ∷ m) = P k v × Entries m

  pub lookup-Entries : (k : String) (v : V) (m : Dict V) → lookup k m ≡ some v → Entries m → P k v
  unfolding lookup
  lookup-Entries k v [] e h = cc
  lookup-Entries k v ((j, w) ∷ m) e h = elim (Bool-cases (j == k)) [
    | inl same ↦ let found : w ≡ v = ground arith in subst₂ P ((eq_iff j k).0 same) found h.0
    | inr other ↦ lookup-Entries k v m (ground arith) h.1
  ]

module _ {ℓ κ} {V : Type ℓ} (P : String → V → Type κ) where
  pub insert-Entries :
      (k : String) (v : V) (m : Dict V) → P k v → Entries P m → Entries P (insert k v m)
  unfolding insert
  insert-Entries k v [] p h = (p, tt)
  insert-Entries k v ((j, w) ∷ m) p h = elim (Bool-cases (j == k)) [
    | inl same ↦ rw same (subst (λ i. P i v) (sym ((eq_iff j k).0 same)) p, h.1)
    | inr other ↦ rw other (h.0, insert-Entries k v m p h.1)
  ]

  pub delete-Entries : (k : String) (m : Dict V) → Entries P m → Entries P (delete k m)
  unfolding delete
  delete-Entries k [] h = h
  delete-Entries k ((j, w) ∷ m) h = elim (Bool-cases (j == k)) [
    | inl same ↦ rw same (delete-Entries k m h.1)
    | inr other ↦ rw other (h.0, delete-Entries k m h.1)
  ]
