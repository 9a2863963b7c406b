-- ===== src/Lifecycle.antt =====
-- The lifecycle node (ui/nodes/ztd-lifecycle/ztd-lifecycle.js): its command and its results, the
-- kept jobs, the running script, and the handler of a message.
pub mod Command
pub mod Labels
pub mod Validation
pub mod Results
pub mod Lines
pub mod Jobs
pub mod Node
pub mod System
pub mod Requests
pub mod Output
mod Tests
