-- ===== src/Identity/Fetched.antt =====
-- Where the keys come from that tokens are verified with (`jwks` in identity-on-start.js).
use facis_zero_trust_demonst.Base.{
  ℕ, String, Bool, true, false, ◌≡◌, refl, sym, ◌∙◌, ap, subst, Option, none, some, List, [], ◌∷◌,
  Memᴰ, Value, Items, nil, cons, str, property, Bool-cases, inl, inr, ◌⊎◌, arith, ◌-◌, is_text_iff,
  some_injective,
}
use facis_zero_trust_demonst.Identity.State.{
  Auth, Provider, Received, unreachable, too_long, response, Outcome, ok, err, Action, continue,
}
use facis_zero_trust_demonst.Identity.Verify.{
  jwks, key_for, cached_keys, cached_or, fetched, received, content_of, keys_in, find_key,
  is_usable,
}

abbrev pub listed : Items → List Value
listed nil = []
listed (cons v vs) = v ∷ listed vs

-- The keys are those of a response of the provider.
abbrev pub IsFetched : Provider → Items → Type 0
IsFetched p vs =
    (n : ℕ) × (status : ℕ) × (answer : Value) × (p.certs n ≡ response status (some answer))
    × (keys_in answer ≡ some vs)

-- The keys that are kept, if there are any, came from the provider.
abbrev pub IsKnown : Provider → Auth → Type 0
IsKnown p s = (vs : Items) → s.known_keys ≡ some vs → IsFetched p vs

-- An RSA key of the provider with this name.
abbrev pub IsKeyOf : Provider → String → Value → Type 0
IsKeyOf p kid key =
    (vs : Items) × IsFetched p vs
    × Memᴰ key (listed vs)
    × (property "kid" key ≡ str kid)
    × (property "kty" key ≡ str "RSA")

pub bind_ok :
    {A B : Type 0} (r : Outcome A × Auth) (f : A → Action B) (b : B) (t : Auth)
    → continue r f ≡ (ok b, t)
    → (a : A) × (u : Auth) × (r ≡ (ok a, u)) × (f a u ≡ (ok b, t))
bind_ok (ok a, u) f b t e = (a, u, refl, e)
bind_ok (err code, u) f b t e = cc

pub ok_value :
    {A : Type 0} {a b : A} {s t : Auth} → ◌≡◌ {A = Outcome A × Auth} (ok a, s) (ok b, t) → a ≡ b
ok_value {A = A} {a = a} e = ap (λ (x : Outcome A × Auth). elim x.0 [ ok v ↦ v | err code ↦ a ]) e

ok_state :
    {A : Type 0} {a b : A} {s t : Auth} → ◌≡◌ {A = Outcome A × Auth} (ok a, s) (ok b, t) → s ≡ t
ok_state {A = A} e = ap (λ (x : Outcome A × Auth). x.1) e

cached_ok :
    {A : Type 0} (o : Option A) (other : Action A) (u : Auth) (a : A) (t : Auth)
    → cached_or o other u ≡ (ok a, t)
    → ((o ≡ some a) × (u ≡ t)) ⊎ (other u ≡ (ok a, t))
cached_ok none other u a t e = inr e
cached_ok (some b) other u a t e = inl (ap some (ok_value e), ok_state e)

cached_known :
    (force : Bool) (age : ℕ) (ks : Option Items) (vs : Items)
    → cached_keys force age ks ≡ some vs
    → ks ≡ some vs
cached_known force age none vs e = cc
cached_known force age (some ws) vs e = ground arith

received_keys :
    (now : ℕ) (u : Auth) (o : Option Items) (vs : Items) (t : Auth)
    → received now u o ≡ (ok vs, t)
    → (o ≡ some vs) × (t.known_keys ≡ some vs)
received_keys now u none vs t e = cc
received_keys now u (some ws) vs t e =
    let same = ok_value e in
    (ap some same, sym (ap (λ (t : Auth). t.known_keys) (ok_state e)) ∙ ap some same)

fetched_keys :
    (now : ℕ) (u : Auth) (r : String ⊎ Value) (vs : Items) (t : Auth)
    → fetched now u r ≡ (ok vs, t)
    → (answer : Value) × (r ≡ inr answer) × (keys_in answer ≡ some vs) × (t.known_keys ≡ some vs)
fetched_keys now u (inl code) vs t e = cc
fetched_keys now u (inr answer) vs t e =
    let (keys, kept) = received_keys now u (keys_in answer) vs t e in (answer, refl, keys, kept)

content_response :
    (x : Received) (answer : Value)
    → content_of false x ≡ inr answer
    → (status : ℕ) × (x ≡ response status (some answer))
unfolding content_of
content_response unreachable answer e = cc
content_response too_long answer e = cc
content_response (response status none) answer e = ground arith
content_response (response status (some v)) answer e = (status, ground arith)

module _ (p : Provider) where
  jwks-IsKnown :
      (force : Bool) (now : ℕ) (s : Auth) (vs : Items) (t : Auth)
      → IsKnown p s
      → jwks p force now s ≡ (ok vs, t)
      → IsFetched p vs × IsKnown p t
  unfolding jwks
  jwks-IsKnown force now s vs t known e =
      elim (cached_ok (cached_keys force (now - s.key_at) s.known_keys) _ s vs t e) [
        | inl (cached, same) ↦ (
          known vs (cached_known force (now - s.key_at) s.known_keys vs cached),
          subst (IsKnown p) same known,
        )
        | inr asked ↦
            let (answer, content, keys, kept) = fetched_keys now _ _ vs t asked in
            let (status, responded) = content_response (p.certs s.asked) answer content in
            let new : IsFetched p vs = (s.asked, status, answer, responded, keys) in
            (new, λ ws e. subst (IsFetched p) (some_injective (sym kept ∙ e)) new)
      ]

  find_key-IsKeyOf :
      (kid : String) (vs : Items) (key : Value)
      → find_key kid vs ≡ some key
      → Memᴰ key (listed vs) × (property "kid" key ≡ str kid) × (property "kty" key ≡ str "RSA")
  find_key-IsKeyOf kid nil key e = cc
  find_key-IsKeyOf kid (cons k vs) key e = elim (Bool-cases (is_usable kid k)) [
    | inl usable ↦
        let same : k ≡ key = some_injective (rw usable at e) in
        (
          Memᴰ.head (sym same),
          subst (λ k. property "kid" k ≡ str kid) same ((is_text_iff _ _).0 (ground arith)),
          subst (λ k. property "kty" k ≡ str "RSA") same ((is_text_iff _ _).0 (ground arith)),
        )
    | inr other ↦
        let (there, name, kind) = find_key-IsKeyOf kid vs key (rw other at e) in
        (Memᴰ.tail there, name, kind)
  ]

  pub key_for-IsKeyOf :
      (kid : String) (now : ℕ) (s : Auth) (key : Value) (t : Auth)
      → IsKnown p s
      → key_for p kid now s ≡ (ok key, t)
      → IsKeyOf p kid key
  unfolding key_for
  key_for-IsKeyOf kid now s key t known e =
      let (vs, u, got, next) = bind_ok _ _ key t e in
      let (came, later) = jwks-IsKnown false now s vs u known got in
      elim (cached_ok (find_key kid vs) _ u key t next) [
        | inl (found, same) ↦
            let (there, name, kind) = find_key-IsKeyOf kid vs key found in
            (vs, came, there, name, kind)
        | inr again ↦
            let (ws, w, fresh, last) = bind_ok _ _ key t again in
            let (anew, kept) = jwks-IsKnown true now u ws w later fresh in
            elim (cached_ok (find_key kid ws) _ w key t last) [
              | inl (found, same) ↦
                  let (there, name, kind) = find_key-IsKeyOf kid ws key found in
                  (ws, anew, there, name, kind)
              | inr raised ↦ cc
            ]
      ]
