-- ===== src/Connector.antt =====
-- The adapter to the Connector (flows/demonstrator/connector-adapter.mjs, and the same adapter inside
-- the node flows/demonstrator/connector-flow-run.js): registration of a client, the token, and the
-- protected call, each with a proof of possession.
pub mod Protocol
pub mod Config
pub mod Request
pub mod Tokens
pub mod Run
pub mod Settling
pub mod Calls
pub mod Attempts
pub mod Bound
pub mod Credentials
pub mod Traces
pub mod Phases
pub mod Configured
pub mod Flow
pub mod Secure
mod Tests
