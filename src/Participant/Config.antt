-- ===== src/Participant/Config.antt =====
-- flows/demonstrator/journey-adapter-config.js: the configuration of the adapter from the
-- environment, which the Journey engine is given. `Number(text)` is a parameter: it answers the
-- integer that a text names, where that is not negative.
use facis_zero_trust_demonst.Base.{
  ℕ, String, false, ◌≡◌, refl, ◌&&◌, not, ◌<◌, ◌↔◌, ◌⊎◌, Option, none, some, [], ◌∷◌, arith,
  if◌then◌else◌, ◌==◌, ltb, leb, includes, trim, is_empty, Value, as_string, eq_iff,
}
use facis_zero_trust_demonst.Journey.Fixtures.{AdapterConfig, AdapterError}

pub record Environment : Type 0 where
  pub variable : String → Value
  pub number : String → Option ℕ

abbrev pub expected_url : String
expected_url = "https://participant.zero-trust.160-44-12-115.sslip.io"

module _ (env : Environment) where
  unfoldable pub read : String → String
  read name = elim (as_string (env.variable name)) [ none ↦ "" | some text ↦ trim text ]

  unfoldable pub duration : String → ℕ → ℕ
  duration name fallback = elim (env.number (read name)) [
    | none ↦ fallback
    | some n ↦ if ltb 0 n then n else fallback
  ]

  unfoldable pub mode : String
  mode = let given = read "JOURNEY_ADAPTER_MODE" in if is_empty given then "fixture" else given

  abbrev pub participant_url : String
  participant_url = read "JOURNEY_PARTICIPANT_URL"

  abbrev pub participant_timeout_ms : ℕ
  participant_timeout_ms = duration "JOURNEY_PARTICIPANT_TIMEOUT_MS" 7000

  abbrev pub flow_deadline_ms : ℕ
  flow_deadline_ms = duration "JOURNEY_FLOW_DEADLINE_MS" 10000

  unfoldable pub config_error : Option AdapterError
  config_error =
      if not (includes ("fixture" ∷ "http-sample" ∷ []) mode)
      then some (record {
        code = "JOURNEY_ADAPTER_UNSUPPORTED";
        detail = "Select fixture or http-sample.";
      })
      else if mode == "http-sample" && not (participant_url == expected_url)
      then some (record {
        code = "JOURNEY_PARTICIPANT_UNCONFIGURED";
        detail = "This Basic Auth adapter requires the approved Participant HTTPS origin.";
      })
      else if leb flow_deadline_ms participant_timeout_ms
      then some (record {
        code = "JOURNEY_DEADLINE_INVALID";
        detail = "Flow deadline must exceed Participant timeout.";
      })
      else none

  unfoldable pub adapter_config : AdapterConfig
  adapter_config = record {
    mode = mode;
    participant_url = participant_url;
    participant_timeout_ms = participant_timeout_ms;
    flow_deadline_ms = flow_deadline_ms;
    skip_tls_verification =
        mode == "http-sample"
        && participant_url == expected_url
        && read "JOURNEY_PARTICIPANT_TLS_SKIP_VERIFY" == "true";
    error = config_error;
  }

-- The configurations that the engine accepts: a known mode, the approved address where requests are
-- sent, and a deadline that lies after the timeout.
abbrev pub IsUsable : AdapterConfig → Type 0
IsUsable config =
    ((config.mode ≡ "fixture")
      ⊎ ((config.mode ≡ "http-sample") × (config.participant_url ≡ expected_url)))
    × (config.participant_timeout_ms < config.flow_deadline_ms)

one_mode : (m : String) → m ≡ "fixture" → (m == "http-sample") ≡ false
one_mode m e = rw e refl

-- A configuration has no error exactly when it is usable.
pub adapter_config-IsUsable_iff :
    (env : Environment) → ((adapter_config env).error ≡ none) ↔ IsUsable (adapter_config env)
unfolding adapter_config config_error
adapter_config-IsUsable_iff env = ground (
  arith,
  one_mode (mode env),
  eq_iff (mode env) "fixture",
  eq_iff (mode env) "http-sample",
  eq_iff "fixture" (mode env),
  eq_iff "http-sample" (mode env),
  eq_iff (participant_url env) expected_url,
)
