-- ===== src/Participant.antt =====
-- The Participant's HTTP request (flows/demonstrator/journey-adapter-config.js,
-- journey-validate-response.js, journey-http-failure.js and journey-http-complete.js): its
-- configuration, the check of a response, and the completion of a run.
pub mod Config
pub mod Results
pub mod Response
pub mod Completion
pub mod Completed
pub mod Delivered
mod Tests
