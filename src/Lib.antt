-- ===== src/Lib.antt =====
-- Verification of the JavaScript of the FACIS Zero Trust Demonstrator: the flows of the demonstrator
-- (flows/demonstrator), the lifecycle node (ui/nodes/ztd-lifecycle) and the pointers of the contract
-- checks (docs/contracts/tooling).
--
-- The parts. A Journey message reaches the engine (flows/demonstrator/journey-engine.js) with its
-- viewer, its fixtures and its configuration. The engine keeps one run for each user in the flow
-- context, moves it by the commands start, next and reset, and asks the protected-resource fixture
-- for the decision of a local case. The last step of a run in the mode http-sample is a request to
-- the Participant: the configuration comes from journey-adapter-config.js, the response is checked by
-- journey-validate-response.js, and journey-http-complete.js ends the run that awaits it, unless the
-- engine has closed the request at its deadline. The lifecycle node runs a script for each valid
-- command and keeps its events and result as a job in its own flow context. The Connector's node runs
-- the adapter once for each message: it registers a client, asks for a token and calls the protected
-- endpoint, each request with a proof of possession and at most one retry with the server's nonce.
-- The identity boundary keeps the sessions of users and passes on the commands of the Journey.
--
-- The files.
-- - Base: the shared names, texts with their lengths in UTF-16 units and in bytes, the values of
--   JSON, objects used as maps, chains of steps that may find nothing, and the lemmas on them.
-- - Resource (flows/demonstrator/protected-resource-fixture.mjs): `fixtures`, `decide` and
--   `evaluate_fixture_resource`; Grants and Decisions hold its theorems.
-- - Journey (flows/demonstrator/journey-engine.js): State and Fixtures are the records of a run and of
--   a message; Record, Sections, Slug, Sample and SampleStep the sample run; Atlas and AtlasRun the
--   Atlas run; Request the HTTP request and its deadline; Handler, Start, Commands and Engine the
--   handler, whose whole is `handle : Env → Message → Flow → Outcome`. Refusals, Gate, History,
--   Replay, Invariant, AtlasInvariant, Soundness and Handled hold the theorems.
-- - Participant (flows/demonstrator/journey-adapter-config.js, journey-validate-response.js,
--   journey-http-failure.js, journey-http-complete.js): Config, Results, Response and Completion, with
--   the theorems in Config, Completed and Delivered.
-- - Lifecycle (ui/nodes/ztd-lifecycle/ztd-lifecycle.js): Command (`validate`), Results, Lines, Jobs,
--   Node (the handler and the callbacks of a script) and System (the node over time), with the
--   theorems in Labels, Validation, Lines, Requests, Output and System. A chunk of output is a list
--   of bytes, and its conversion to a text an argument.
-- - Replacement (flows/demonstrator/replacement-adapters.mjs): the checks of requests, configurations
--   and of both responses, with the Participant's mock; Mocks and Answers hold the theorems. Journey/Scenarios holds
--   the scenarios of flows/demonstrator/journey-sample-fixtures.js.
-- - Connector (flows/demonstrator/connector-adapter.mjs, and flows/demonstrator/connector-flow-run.js, which
--   holds the same adapter): Protocol is what is sent and answered, and the state with its errors; Config
--   is `create_adapter`, Request one `request`, Tokens the token and the registration, Run the `run` and
--   Flow the node. Calls, Settling, Attempts, Bound, Credentials, Traces, Phases, Configured and Secure
--   hold the theorems.
-- - Identity (flows/demonstrator/identity-on-start.js, identity-on-message.js): Preview (roles and changes),
--   State, Token, Verify, Sessions, Login, Logout, Command and Cookies are the boundary, Routes its node. Kept,
--   Sizes, Bounds, Limits, Changes, Gate, Live, Once, Fetched and Signed hold the theorems.
-- - Pointers (docs/contracts/tooling/verify.mjs): `escape_pointer`, `unescape_pointer` and the segments of a
--   JSON pointer, with the theorem on them.
-- - The Tests modules run the definitions on concrete data, and apply the theorems there.
--
-- The choices. Code that changes shared state takes and returns that state: the flow context is a
-- record of two maps, and a message is one step. Numbers are natural numbers; a time is a number of
-- milliseconds where the source writes an ISO text, and one message reads the clock once. Random
-- identifiers, `JSON.parse`, `Date.parse`, `toISOString`, `Number` and the masking of credentials are
-- arguments. Every recursion is structural. One definition takes a count, `attempts` of Connector, of
-- which the source's two are enough. The bounds are the source's own: a hundred remembered commands,
-- fifty jobs, five hundred sessions, the lengths of identifiers and labels.
--
-- Not modelled. A fixture or a scenario is not found under a name that every JavaScript object
-- inherits; the jobs of the lifecycle node are, and their keys stand in JavaScript's order. Left out
-- are fields that only repeat a constant, the node's logs and status line, the files that the
-- lifecycle node writes, the headers of HTTP that carry identifiers or the type of a body, and the
-- parallel commands between which Node-RED does not switch. Of the identity boundary, what overlapping
-- requests share is left out. Of the contract checks only the texts of pointers are modelled; the
-- page, its tests and the services in other languages are not.
mod Base
pub mod Resource
pub mod Journey
pub mod Participant
pub mod Pointers
pub mod Connector
pub mod Identity
pub mod Replacement
pub mod Lifecycle
