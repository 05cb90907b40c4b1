-- ===== src/Revocation.antt =====
-- lib/agent/crl_validator: the check of a server's certificates against revocation lists.
pub mod Certificates
pub mod Fetcher
pub mod Known
pub mod Validator
pub mod Checks
pub mod Sound
pub mod Passed
pub mod Sockets
pub mod Unwritable
mod Examples
