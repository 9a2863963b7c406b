-- ===== src/Identity/Signed.antt =====
-- Which tokens are accepted (`verify` in identity-on-start.js).
use facis_zero_trust_demonst.Base.{
  ℕ, String, Bool, true, false, ◌≡◌, ◌≢◌, refl, sym, ap, subst, Option, none, some, Memᴰ, Value,
  Fields, Items, nil, cons, str, num, arr, get, Bool-cases, Option-cases, inl, inr, ◌⊎◌, ◌&&◌, leb,
  ◌≤◌, ◌<◌, ◌+◌, ◌/◌, arith, is_text, is_text_iff, eq_iff, is_empty,
}
use facis_zero_trust_demonst.Identity.Preview.{has_text}
use facis_zero_trust_demonst.Identity.State.{Auth, Provider, ok}
use facis_zero_trust_demonst.Identity.Token.{Parts, parts_of}
use facis_zero_trust_demonst.Identity.Verify.{
  Check, verify, verify_parts, claims_error, claims_fit, freshness, raised_or, audience_has,
  number_is, is_filled,
}
use facis_zero_trust_demonst.Identity.Fetched.{
  IsKnown, IsKeyOf, listed, bind_ok, ok_value, key_for-IsKeyOf,
}

-- The claims at a time in seconds: of this issuer, for this client, not issued later than in thirty
-- seconds, and, unless the token is for a logout, not expired and with a subject.
pub record IsFit (issuer : String) (logout : Bool) (now : ℕ) (c : Fields) : Type 0 where
  pub iss : get "iss" c ≡ str issuer
  pub aud :
      (get "aud" c ≡ str "ztd-ui")
      ⊎ ((vs : Items) × (get "aud" c ≡ arr vs) × Memᴰ (str "ztd-ui") (listed vs))
  pub iat : (n : ℕ) × (get "iat" c ≡ num n) × (n ≤ now + 30)
  pub lasting :
      (logout ≡ true)
      ⊎ (((n : ℕ) × (get "exp" c ≡ num n) × (now < n))
          × ((s : String) × (get "sub" c ≡ str s) × (s ≢ "")))

-- The claims stand in the token, which a key of the provider with the name in its header signs.
abbrev pub IsSigned : Provider → Check → ℕ → Value → Fields → Type 0
IsSigned p check now tok c =
    (parts : Parts) × (key : Value) × (parts_of p tok ≡ some parts)
    × (parts.claims ≡ c)
    × IsKeyOf p parts.kid key
    × (256 ≤ p.key_bytes key)
    × (p.signed parts.header parts.body parts.signature key ≡ true)
    × IsFit p.issuer check.logout (now / 1000) c

number_is_num :
    (test : ℕ → Bool) (v : Value)
    → number_is test v ≡ true
    → (n : ℕ) × (v ≡ num n) × (test n ≡ true)
number_is_num test (num n) h = (n, refl, h)
number_is_num test _ h = cc

is_filled_str : (v : Value) → is_filled v ≡ true → (s : String) × (v ≡ str s) × (s ≢ "")
is_filled_str (str s) h = (s, refl, λ e. let same = ap is_empty e in ground arith)
is_filled_str _ h = cc

has_text_listed :
    (name : String) (vs : Items) → has_text name vs ≡ true → Memᴰ (str name) (listed vs)
unfolding has_text
has_text_listed name nil h = cc
has_text_listed name (cons v vs) h = elim (Bool-cases (is_text v name)) [
  | inl here ↦ Memᴰ.head (sym ((is_text_iff v name).0 here))
  | inr other ↦ Memᴰ.tail (has_text_listed name vs (ground (arith, h, other)))
]

audience_cases :
    (v : Value) (name : String)
    → audience_has v name ≡ true
    → (v ≡ str name) ⊎ ((vs : Items) × (v ≡ arr vs) × Memᴰ (str name) (listed vs))
audience_cases (str s) name h = inl (ap str ((eq_iff s name).0 h))
audience_cases (arr vs) name h = inr (vs, refl, has_text_listed name vs h)
audience_cases _ name h = cc

raised_ok :
    (o : Option String) (c d : Fields) (u t : Auth)
    → raised_or o c u ≡ (ok d, t)
    → (o ≡ none) × (c ≡ d)
raised_ok none c d u t e = (refl, ok_value e)
raised_ok (some code) c d u t e = cc

claims_passed :
    (p : Provider) (check : Check) (now : ℕ) (c : Fields)
    → claims_error p check now c ≡ none
    → (claims_fit p.issuer now c ≡ true) × ((check.logout ≡ true) ⊎ (freshness now c ≡ none))
unfolding claims_error
claims_passed p check now c e = elim (Bool-cases (claims_fit p.issuer now c)) [
  | inr unfit ↦ cc (rw unfit at e)
  | inl fit ↦ (
    fit,
    elim (Bool-cases check.logout) [
      | inl logout ↦ inl logout
      | inr login ↦ elim (Option-cases (freshness now c)) [
        | inl fresh ↦ inr fresh
        | inr (code, stale) ↦ cc (rw (fit, login, stale) at e)
      ]
    ],
  )
]

not_over : (now n : ℕ) (v : Value) → v ≡ num n → number_is (λ n. leb n now) v ≡ false → now < n
not_over now n v e before =
    let there : number_is (λ n. leb n now) (num n) ≡ false =
      subst (λ v. number_is (λ n. leb n now) v ≡ false) e before in
    ground (arith, there)

lasts :
    (now : ℕ) (c : Fields)
    → freshness now c ≡ none
    → ((n : ℕ) × (get "exp" c ≡ num n) × (now < n))
      × ((s : String) × (get "sub" c ≡ str s) × (s ≢ ""))
unfolding freshness
lasts now c e = elim (Bool-cases (number_is (λ n. true) (get "exp" c))) [
  | inr missing ↦ cc (rw missing at e)
  | inl timed ↦ elim (Bool-cases (is_filled (get "sub" c))) [
    | inr nobody ↦ cc (rw (timed, nobody) at e)
    | inl filled ↦ elim (Bool-cases (number_is (λ n. leb n now) (get "exp" c))) [
      | inl over ↦ cc (rw (timed, filled, over) at e)
      | inr before ↦
          let (n, exp, _) = number_is_num (λ n. true) (get "exp" c) timed in
          ((n, exp, not_over now n (get "exp" c) exp before), is_filled_str (get "sub" c) filled)
    ]
  ]
]

fits :
    (issuer : String) (logout : Bool) (now : ℕ) (c : Fields)
    → claims_fit issuer now c ≡ true
    → (logout ≡ true) ⊎ (freshness now c ≡ none)
    → IsFit issuer logout now c
unfolding claims_fit
fits issuer logout now c fit fresh =
    let (n, iat, early) = number_is_num (λ iat. leb iat (now + 30)) (get "iat" c) (ground arith) in
    record {
      iss = (is_text_iff (get "iss" c) issuer).0 (ground arith);
      aud = audience_cases (get "aud" c) "ztd-ui" (ground arith);
      iat = (n, iat, ground (arith, early));
      lasting = elim fresh [ inl out ↦ inl out | inr new ↦ inr (lasts now c new) ];
    }

module _ (p : Provider) (check : Check) (now : ℕ) (tok : Value) where
  parts-IsSigned :
      (o : Option Parts) (s : Auth) (c : Fields) (t : Auth)
      → parts_of p tok ≡ o
      → IsKnown p s
      → verify_parts p check now o s ≡ (ok c, t)
      → IsSigned p check now tok c
  unfolding verify_parts
  parts-IsSigned none s c t read known e = cc
  parts-IsSigned (some parts) s c t read known e =
      let (key, u, got, next) = bind_ok _ _ c t e in
      let signs =
        leb 256 (p.key_bytes key) && p.signed parts.header parts.body parts.signature key in
      elim (Bool-cases signs) [
        | inr bad ↦ cc (rw bad at next)
        | inl good ↦
            let (passed, same) =
              raised_ok (claims_error p check (now / 1000) parts.claims) parts.claims c u t
                (rw good at next) in
            let (fit, fresh) = claims_passed p check (now / 1000) parts.claims passed in
            (
              parts,
              key,
              read,
              same,
              key_for-IsKeyOf p parts.kid now s key u known got,
              ground (arith, good),
              ground (arith, good),
              subst (IsFit p.issuer check.logout (now / 1000)) same
                  (fits p.issuer check.logout (now / 1000) parts.claims fit fresh),
            )
      ]

  -- Where the kept keys, if there are any, came from the provider, claims are accepted only of a
  -- token that an RSA key in a response of the provider signs, one of at least 2048 bits with the name
  -- that the token's header gives; and only with the issuer, the client in the audience, an issue at
  -- most thirty seconds from now and, unless it is a token for a logout, an expiry that is not reached
  -- and a subject.
  pub verify-IsSigned :
      (s : Auth) (c : Fields) (t : Auth)
      → IsKnown p s
      → verify p check now tok s ≡ (ok c, t)
      → IsSigned p check now tok c
  unfolding verify
  verify-IsSigned s c t known e = parts-IsSigned (parts_of p tok) s c t refl known e
