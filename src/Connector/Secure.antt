-- ===== src/Connector/Secure.antt =====
-- What the node sends (flows/demonstrator/connector-flow-run.js).
use facis_zero_trust_demonst.Base.{
  ℕ, String, true, ◌≡◌, ◌≢◌, ◌⊎◌, refl, sym, ◌∙◌, subst, Option, none, some, List, [], ◌∷◌, Value,
  arith, Memᴰ, Option-cases, Bool-cases, inl, inr, ◌==◌, All, some_injective, eq_iff,
}
use facis_zero_trust_demonst.Participant.Config.{Environment, read}
use facis_zero_trust_demonst.Connector.Protocol.{Network, Call, Session}
use facis_zero_trust_demonst.Connector.Config.{Url, Settings, Adapter, create_adapter, is_local}
use facis_zero_trust_demonst.Connector.Configured.{IsEndpoint, IsSound, create_adapter-IsSound}
use facis_zero_trust_demonst.Connector.Run.{Outcome}
use facis_zero_trust_demonst.Connector.Calls.{Adds, Adds-none, Adds-more}
use facis_zero_trust_demonst.Connector.Bound.{IsBound}
use facis_zero_trust_demonst.Connector.Credentials.{run-IsBound}
use facis_zero_trust_demonst.Connector.Flow.{settings, on_message, delivered}

-- The call goes to one of the three addresses of the settings, which as a URL is one by https and
-- without credentials in it.
abbrev pub IsSecure : (Value → Option Url) → Settings → Call → Type 0
IsSecure parse_url config call =
    (value : Value) × (url : Url) × Memᴰ value
      (config.token_url ∷ config.registration_url ∷ config.protected_url ∷ [])
    × (parse_url value ≡ some url)
    × (url.href ≡ call.endpoint)
    × (url.protocol ≡ "https:")
    × (url.username ≡ "")
    × (url.password ≡ "")

All-weaken : {Q R : Call → Type 0} (l : List Call) → ((c : Call) → Q c → R c) → All Q l → All R l
All-weaken [] f h = tt
All-weaken (c ∷ l) f h = (f c h.0, All-weaken l f h.1)

Adds-weaken :
    {Q R : Call → Type 0} {n : ℕ} (a b : List Call)
    → ((c : Call) → Q c → R c)
    → Adds Q n a b
    → Adds R n a b
Adds-weaken a b f x = record {
  new = x.new;
  appended = x.appended;
  each = All-weaken x.new f x.each;
  few = x.few;
}

live_local : (mode : String) → mode ≡ "live" → mode ≢ "local-contract"
live_local mode live local = cc

live_endpoint :
    (parse_url : Value → Option Url) (config : Settings) (mode : String) (value : Value)
    (call : Call) (e : String)
    → mode ≡ "live"
    → Memᴰ value (config.token_url ∷ config.registration_url ∷ config.protected_url ∷ [])
    → call.endpoint ≡ e
    → IsEndpoint parse_url mode value e
    → IsSecure parse_url config call
unfolding IsEndpoint
live_endpoint parse_url config mode value call e live one same
      (url, parsed, href, username, password, hash, by) =
    (value, url, one, parsed, href ∙ sym same, by_https by, username, password)
  where
    by_https :
        (url.protocol ≡ "https:")
          ⊎ ((mode ≡ "local-contract") × (is_local url ≡ true) × (url.protocol ≡ "http:"))
        → url.protocol ≡ "https:"
    by_https (inl https) = https
    by_https (inr (local, _, _)) = absurd (live_local mode live local)

module _ (net : Network) (parse_url : Value → Option Url) (stringify : Value → String) where
  bound-IsSecure :
      (config : Settings) (a : Adapter)
      → IsSound parse_url config a
      → a.mode ≡ "live"
      → (payload : Value) (call : Call) → IsBound net a payload call
      → IsSecure parse_url config call
  unfolding IsBound
  bound-IsSecure config a sound live payload call (inl (at, _)) =
      live_endpoint parse_url config a.mode config.token_url call a.token_endpoint live
        (Memᴰ.head refl) at sound.1
  bound-IsSecure config a sound live payload call (inr (inl (at, _, _))) =
      live_endpoint parse_url config a.mode config.registration_url call a.register_endpoint live
        (Memᴰ.tail (Memᴰ.head refl)) at sound.2
  bound-IsSecure config a sound live payload call (inr (inr (at, _, _))) =
      live_endpoint parse_url config a.mode config.protected_url call a.resource_endpoint live
        (Memᴰ.tail (Memᴰ.tail (Memᴰ.head refl))) at sound.3

  lives : (env : Environment) (a : Adapter) → IsSound parse_url (settings env) a → a.mode ≡ "live"
  unfolding settings
  lives env a sound = sym (some_injective sound.0)

  delivered_calls :
      (r : (Option Outcome × Option String) × Session) → (delivered r).calls ≡ r.1.calls
  delivered_calls ((some outcome, code), s) = refl
  delivered_calls ((none, some code), s) = refl
  delivered_calls ((none, none), s) = refl

  -- Whatever the environment says, a message makes the node send at most eight calls, each of them to
  -- one of the three configured addresses, which as a URL is one by https without credentials; and none where the adapter is not enabled or its settings are refused.
  pub on_message-IsSecure :
      (env : Environment) (request_id correlation_id : String) (payload : Value) (calls : List Call)
      → Adds
          (IsSecure parse_url (settings env))
          8
          calls
          (on_message net parse_url stringify env request_id correlation_id payload calls).calls
        × (((read env "CONNECTOR_ADAPTER_ENABLED" ≢ "true")
              ⊎ (create_adapter parse_url (settings env) ≡ none))
            → (on_message net parse_url stringify env request_id correlation_id payload calls).calls
              ≡ calls)
  unfolding on_message
  on_message-IsSecure env request_id correlation_id payload calls =
      elim (Bool-cases (read env "CONNECTOR_ADAPTER_ENABLED" == "true")) [
        | inr disabled ↦
            rw disabled (Adds-more calls calls (omega arith) (Adds-none 0 calls), λ _. refl)
        | inl enabled ↦ elim (Option-cases (create_adapter parse_url (settings env))) [
          | inl refused ↦
              rw (enabled, refused)
                (Adds-more calls calls (omega arith) (Adds-none 0 calls), λ _. refl)
          | inr (a, created) ↦
              let sound = create_adapter-IsSound parse_url (settings env) a created in
              rw (enabled, created)
                (
                  subst (Adds (IsSecure parse_url (settings env)) 8 calls) (sym (delivered_calls _))
                      (Adds-weaken calls _
                        (bound-IsSecure (settings env) a sound (lives env a sound) _)
                        (run-IsBound net a stringify _ _)),
                  λ idle. elim idle [
                    | inl off ↦ absurd (off ((eq_iff _ _).0 enabled))
                    | inr refused ↦ cc
                  ],
                )
        ]
      ]
