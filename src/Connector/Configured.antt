-- ===== src/Connector/Configured.antt =====
-- What every adapter that is created satisfies (`createConnectorAdapter`).
use facis_zero_trust_demonst.Base.{
  String, Bool, true, false, ◌≡◌, ◌≢◌, ◌⊎◌, refl, Option, none, some, [], ◌∷◌, Value, includes, all,
  arith, if◌then◌else◌, ◌==◌, eq_iff, bind-Gives, test-Gives, some-Gives, Gives, some_injective,
  trim, words, is_empty,
}
use facis_zero_trust_demonst.Connector.Config.{
  Url, Settings, Adapter, create_adapter, acceptable_url, endpoint, distinct, is_local, is_scope,
  valid_scopes, registration_scope, choice, filled, valid_timeout, valid_audience,
}

-- An endpoint that comes from a URL without credentials and fragment: by https, or by http on this
-- machine, which only the mode for the local contract allows.
unfoldable pub IsEndpoint : (Value → Option Url) → String → Value → String → Type 0
IsEndpoint parse_url mode value e =
    (url : Url) × (parse_url value ≡ some url)
    × (url.href ≡ e)
    × (url.username ≡ "")
    × (url.password ≡ "")
    × (url.hash ≡ "")
    × ((url.protocol ≡ "https:")
        ⊎ ((mode ≡ "local-contract") × (is_local url ≡ true) × (url.protocol ≡ "http:")))

empty_text : (s : String) → is_empty s ≡ true → s ≡ ""
empty_text String.[] e = refl
empty_text (String.◌∷◌ c s) e = cc

module _ (parse_url : Value → Option Url) (mode : String) (value : Value) (e : String) where
  IsEndpoint-of :
      (url : Url)
      → parse_url value ≡ some url
      → acceptable_url mode url ≡ true
      → url.href ≡ e
      → IsEndpoint parse_url mode value e
  unfolding IsEndpoint acceptable_url
  IsEndpoint-of url parsed accepted same = (
    url,
    parsed,
    same,
    empty_text url.username (ground arith),
    empty_text url.password (ground arith),
    empty_text url.hash (ground arith),
    ground (
      arith,
      eq_iff url.protocol "https:",
      eq_iff mode "local-contract",
      eq_iff url.protocol "http:",
    ),
  )

  when_accepted :
      (url : Url) (accepted : Bool)
      → parse_url value ≡ some url
      → acceptable_url mode url ≡ accepted
      → (if accepted then some url.href else none) ≡ some e
      → IsEndpoint parse_url mode value e
  when_accepted url true parsed accepted given =
      IsEndpoint-of url parsed accepted (some_injective given)
  when_accepted url false parsed refused given = cc

  when_parsed :
      (found : Option Url)
      → parse_url value ≡ found
      → elim found [
        | none ↦ none
        | some url ↦ if acceptable_url mode url then some url.href else none
      ]
        ≡ some e
      → IsEndpoint parse_url mode value e
  when_parsed (some url) parsed given = when_accepted url _ parsed refl given
  when_parsed none parsed given = cc

  endpoint-IsEndpoint : endpoint parse_url mode value ≡ some e → IsEndpoint parse_url mode value e
  endpoint-IsEndpoint given = when_parsed _ refl given

apart : (s t : String) → (s == t) ≡ false → s ≢ t
apart s t differ same = ground (arith, eq_iff s t)

-- Three endpoints that differ, each of which the mode allows, and scopes that are well formed and
-- without the one for registration.
abbrev pub IsSound : (Value → Option Url) → Settings → Adapter → Type 0
IsSound parse_url config a =
    (choice config.mode "live" ("live" ∷ "local-contract" ∷ []) ≡ some a.mode)
    × IsEndpoint parse_url a.mode config.token_url a.token_endpoint
    × IsEndpoint parse_url a.mode config.registration_url a.register_endpoint
    × IsEndpoint parse_url a.mode config.protected_url a.resource_endpoint
    × (a.token_endpoint ≢ a.register_endpoint)
    × (a.token_endpoint ≢ a.resource_endpoint)
    × (a.register_endpoint ≢ a.resource_endpoint)
    × (includes a.scopes registration_scope ≡ false)
    × (all is_scope a.scopes ≡ true)

-- An adapter has the mode that was asked for, or the live one. Its three endpoints differ, each is an address that its mode allows, and its scopes
-- are well formed and without the one for registration.
pub create_adapter-IsSound :
    (parse_url : Value → Option Url) (config : Settings) (a : Adapter)
    → create_adapter parse_url config ≡ some a
    → IsSound parse_url config a
unfolding create_adapter valid_scopes
create_adapter-IsSound parse_url config = whole.given
  where
    whole : Gives (IsSound parse_url config) (create_adapter parse_url config)
    whole = bind-Gives (choice config.mode "live" ("live" ∷ "local-contract" ∷ [])) (λ mode is_mode.
        bind-Gives (choice config.method "GET" ("GET" ∷ "POST" ∷ [])) (λ method _.
          test-Gives (valid_timeout config.timeout_ms) (λ _.
            bind-Gives (endpoint parse_url mode config.token_url) (λ t is_t.
              bind-Gives (endpoint parse_url mode config.registration_url) (λ r is_r.
                bind-Gives (endpoint parse_url mode config.protected_url) (λ p is_p.
                  test-Gives (distinct t r p) (λ differ.
                    bind-Gives (filled 4096 config.registrar_client_id) (λ id _.
                      bind-Gives (filled 4096 config.registrar_client_secret) (λ secret _.
                        bind-Gives (filled 4096 config.scope) (λ scope _.
                          test-Gives (valid_scopes (words (trim scope))) (λ valid.
                            bind-Gives (valid_audience config.audience) (λ audience _. some-Gives (
                              is_mode,
                              endpoint-IsEndpoint parse_url mode config.token_url t is_t,
                              endpoint-IsEndpoint parse_url mode config.registration_url r is_r,
                              endpoint-IsEndpoint parse_url mode config.protected_url p is_p,
                              apart t r (ground (arith, differ)),
                              apart t p (ground (arith, differ)),
                              apart r p (ground (arith, differ)),
                              ground (arith, valid),
                              ground (arith, valid),
                            )))))))))))))
