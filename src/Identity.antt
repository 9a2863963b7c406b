-- ===== src/Identity.antt =====
-- The identity boundary (flows/demonstrator/identity-on-start.js and identity-on-message.js): sessions
-- of the users that an identity provider vouches for, and the gate of the Journey's commands.
pub mod Preview
pub mod State
pub mod Token
pub mod Verify
pub mod Sessions
pub mod Login
pub mod Logout
pub mod Command
pub mod Cookies
pub mod Routes
pub mod Changes
pub mod Kept
pub mod Sizes
pub mod Bounds
pub mod Limits
pub mod Gate
pub mod Live
pub mod Once
pub mod Fetched
pub mod Signed
mod Tests
