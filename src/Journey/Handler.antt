-- ===== src/Journey/Handler.antt =====
-- The handler of a Journey message (journey-engine.js): the gates, the commands `status`, `start`,
-- `next` and `reset`, and what each stores in the flow context. A `scenario` that is no text names
-- nothing here, and the names that every JavaScript object inherits name no fixture.
use facis_zero_trust_demonst.Base.{
  String, Bool, false, Option, none, some, List, [], ◌∷◌, map, if◌then◌else◌, insert, delete,
  values, Fields, is_none,
}
use facis_zero_trust_demonst.Journey.State.{Run, Flow}
use facis_zero_trust_demonst.Journey.Fixtures.{AtlasStep, AtlasSpec, AdapterConfig, Message, Env}
use facis_zero_trust_demonst.Journey.Record.{public_state}
use facis_zero_trust_demonst.Journey.Sample.{transport_of}
use facis_zero_trust_demonst.Journey.Request.{Outgoing, outgoing}
use facis_zero_trust_demonst.Journey.Atlas.{mode_resource_step}

-- An entry of `atlasCatalog`.
pub record CatalogEntry : Type 0 where
  pub id : String
  pub label : String
  pub summary : String
  pub profile : String
  pub variants : List String
  pub steps : List AtlasStep

-- `replyState`; its constant fields are left out.
pub record Shown : Type 0 where
  pub atlas_catalog : List CatalogEntry
  pub availability : String
  pub adapter_mode : String
  pub transport : String
  pub state : Option Run
  pub command_id : Option String
  pub reset : Bool

pub data Reply : Type 0 where
  refused : (code detail : String) → Reply
  shown : Shown → Reply

-- The two outputs of the node: the reply, and the HTTP request where there is one.
pub record Output : Type 0 where
  pub reply : Reply
  pub request : Option Outgoing

abbrev pub refuse : String → String → Output
refuse code detail = record { reply = refused code detail; request = none }

abbrev catalog_entry : AdapterConfig → AtlasSpec → CatalogEntry
catalog_entry config spec = record {
  id = spec.id;
  label = spec.label;
  summary = spec.summary;
  profile = spec.profile;
  variants = spec.variants;
  steps = map (mode_resource_step config spec.id) spec.steps;
}

abbrev public_option : Option Run → Option Run
public_option none = none
public_option (some run) = some (public_state run)

unfoldable pub reply_state : Message → Option Run → Option String → Bool → Output
reply_state msg state command_id reset = record {
  reply = shown (record {
    atlas_catalog = map (catalog_entry msg.config) (values msg.atlas_fixtures);
    availability = if is_none msg.config.error then "available" else "unavailable";
    adapter_mode = msg.config.mode;
    transport = transport_of msg.config;
    state = public_option state;
    command_id = command_id;
    reset = reset;
  });
  request = none;
}

-- The state kept for a user, and what a command leaves: the flow context and the outputs.
abbrev pub Outcome : Type 0
Outcome = Flow × Output

unfoldable pub store : String → Run → Flow → Flow
store user_id run flow = record flow { journey_states = insert user_id run flow.journey_states }

unfoldable pub remove : String → Flow → Flow
remove user_id flow = record flow { journey_states = delete user_id flow.journey_states }

-- What a command works with once it has been admitted: the message and its data, the user, the
-- command's identifier and the environment.
pub record Command : Type 0 where
  pub msg : Message
  pub content : Fields
  pub user_id : String
  pub command_id : String
  pub env : Env

abbrev pub saved : Command → Flow → Run → Outcome
saved c flow run =
    (store c.user_id run flow, reply_state c.msg (some run) (some c.command_id) false)

-- The outputs of a request that was just made; its reply carries no catalogue.
abbrev pub requested : Command → Flow → Option String → Run → Outcome
requested c flow correlation_id run = (
  store c.user_id run flow,
  record {
    reply = shown (record {
      atlas_catalog = [];
      availability = "available";
      adapter_mode = "http-sample";
      transport = "Participant sample HTTPS";
      state = some (public_state run);
      command_id = some c.command_id;
      reset = false;
    });
    request = some (outgoing c.env c.msg.config c.user_id correlation_id c.command_id run);
  },
)

abbrev pub service_scenarios : List String
service_scenarios = "success" ∷ "denied" ∷ "unavailable" ∷ "error" ∷ "slow" ∷ []

-- `current && current.result === null`
abbrev pub is_active : Option Run → Bool
is_active none = false
is_active (some run) = is_none run.result

abbrev pub in_progress : Output
in_progress = refuse "RUN_IN_PROGRESS" "Reset or finish the active Journey before starting another."
