-- ===== src/Identity/Changes.antt =====
-- Which changes of the configuration are accepted (`validateConfigChange` in identity-on-start.js).
use facis_zero_trust_demonst.Base.{String, true, ◌≡◌, [], ◌∷◌, Value, is_text, property}
use facis_zero_trust_demonst.Identity.Preview.{Preview, exact, is_digest, is_label}

-- What each kind asks of its payload.
abbrev pub Fits : Value → String → Value → Type 0
Fits kind target p =
    (is_text kind "trust-zone" ≡ true
      → (exact p ("zone" ∷ []) ≡ true) × (is_text (property "zone" p) target ≡ true))
    × (is_text kind "measurement" ≡ true
        → (exact p ("digest" ∷ []) ≡ true) × (is_digest (property "digest" p) ≡ true))
    × (is_text kind "mock-replacement" ≡ true
        → (exact p ("adapter" ∷ []) ≡ true) × (is_text (property "adapter" p) "mock" ≡ true))
    × (is_text kind "policy-ref" ≡ true
        → (exact p ("bundle" ∷ "revision" ∷ []) ≡ true)
          × (is_label (property "bundle" p) ≡ true)
          × (is_label (property "revision" p) ≡ true))
