-- ===== src/Base/Chains.antt =====
-- Chains of steps each of which may find nothing.
use mathlib.Core.Path.{◌≡◌, refl, ap, subst}
use mathlib.Core.Bool.{Bool, true, false}
use mathlib.Core.Option.{Option, none, some}

-- The first value that is missing, or the first test that fails, ends the reading.
infixl 5 ◌>>=◌ ◌>>◌
abbrev pub ◌>>=◌ {ℓ κ} : {A : Type ℓ} {B : Type κ} → Option A → (A → Option B) → Option B
none >>= f = none
some a >>= f = f a

abbrev pub ◌>>◌ {κ} : {B : Type κ} → Bool → Option B → Option B
true >> rest = rest
false >> rest = none

-- What a whole chain says of its first part.
pub bind_some {ℓ κ} :
    {A : Type ℓ} {B : Type κ} (o : Option A) (f : A → Option B) {b : B}
    → (o >>= f) ≡ some b
    → (a : A) × (o ≡ some a) × (f a ≡ some b)
bind_some none f e = cc
bind_some (some a) f e = (a, refl, e)

pub test_some {κ} :
    {B : Type κ} (test : Bool) (o : Option B) {b : B}
    → (test >> o) ≡ some b
    → (test ≡ true) × (o ≡ some b)
test_some true o e = (refl, e)
test_some false o e = cc

pub some_injective {ℓ} : {A : Type ℓ} {a b : A} → some a ≡ some b → a ≡ b
some_injective {A = A} {a = a} e = ap (λ (o : Option A). elim o [ none ↦ a | some x ↦ x ]) e

-- Every value that a chain finds satisfies `P`.
pub record Gives {ℓ κ} {A : Type ℓ} (P : A → Type κ) (o : Option A) : Type (ℓ ⊔ κ) where
  pub given : (a : A) → o ≡ some a → P a

module _ {ℓ κ} {B : Type ℓ} {P : B → Type κ} where
  pub bind-Gives :
      {A : Type ℓ} (o : Option A) {f : A → Option B}
      → ((a : A) → o ≡ some a → Gives P (f a))
      → Gives P (o >>= f)
  bind-Gives none g = record { given = λ b e. cc }
  bind-Gives (some a) g = g a refl

  pub test-Gives : (test : Bool) {o : Option B} → (test ≡ true → Gives P o) → Gives P (test >> o)
  test-Gives true g = g refl
  test-Gives false g = record { given = λ b e. cc }

  pub some-Gives : {b : B} → P b → Gives P (some b)
  some-Gives p = record { given = λ a e. subst P (some_injective e) p }
