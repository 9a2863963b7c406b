-- ===== src/Journey.antt =====
-- flows/demonstrator/journey-engine.js: the guided journeys of the demonstrator, and the nodes around
-- it that configure the Participant adapter and complete its HTTP request.
pub mod State
pub mod Fixtures
pub mod Record
pub mod Sections
pub mod Slug
pub mod Sample
pub mod SampleStep
pub mod Request
pub mod Atlas
pub mod AtlasRun
pub mod Handler
pub mod Start
pub mod Commands
pub mod Engine
pub mod Refusals
pub mod History
pub mod Gate
pub mod Replay
pub mod Invariant
pub mod AtlasInvariant
pub mod Soundness
pub mod Handled
pub mod Scenarios
pub mod Samples
mod Tests
