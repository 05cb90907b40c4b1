-- ===== src/Ocsp.antt =====
-- lib/agent: the check of certificates by the online status protocol, which a socket waits for.
-- What the ASN.1 packages decode and the crypto library verifies are arguments, and so is what the
-- cache of responses gives; a certificate that TLS accepted can be decoded.
pub mod Responses
pub mod Check
pub mod Chain
pub mod Order
pub mod Trusted
pub mod Bounded
pub mod Closed
pub mod Open
pub mod Accepted
mod Examples
