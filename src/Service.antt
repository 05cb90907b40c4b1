-- ===== src/Service.antt =====
-- lib/services/sf.js: the session of a connection, as a state machine that is driven by calls and
-- by the responses of the server.
pub mod Tokens
pub mod State
pub mod Calls
pub mod Okta
pub mod Login
pub mod Responses
pub mod Network
pub mod Located
pub mod Drain
pub mod Callbacks
pub mod Conservation
pub mod Pending
pub mod Answered
pub mod Session
pub mod Revival
pub mod Stuck
pub mod LoginRetries
mod Examples
