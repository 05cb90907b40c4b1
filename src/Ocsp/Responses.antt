-- ===== src/Ocsp/Responses.antt =====
-- verifyOCSPResponse of lib/agent/cert_util.js.
use snowflake_connector_node.Prelude.{
  ℕ, ◌+◌, ◌-◌, ◌*◌, max, Bool, true, false, ◌&&◌, ◌||◌, not, Option, none, some, List, [], ◌∷◌, ltb,
  leb, if◌then◌else◌,
}

-- The codes of the errors, and others by the number that ends their message, if one does.
pub data OcspError : Type 0 where
  failed_parse no_signature_algorithm invalid_certificate_validity : OcspError
  invalid_signature no_response revoked invalid_validity unknown unknown_state : OcspError
  responder_timeout no_authority_info : OcspError
  other_error : Option ℕ → OcspError

pub data CertStatus : Type 0 where
  good_status revoked_status unknown_status other_status : CertStatus

-- Times are milliseconds from 1970 on. The id is that of the certificate that the status is of.
pub record SingleResponse : Type 0 where
  pub cert_id : ℕ
  pub cert_status : CertStatus
  pub this_update : ℕ
  pub next_update : Option ℕ

-- Signed bytes; an algorithm that is not known is `none`.
pub record Signed : Type 0 where
  pub algorithm : Option ℕ
  pub tbs : ℕ
  pub signature : ℕ

-- A certificate that comes with a response. It is not looked at what it may be used for.
pub record ResponderCert : Type 0 where
  pub signed : Signed
  pub not_before : ℕ
  pub not_after : ℕ
  pub public_key : ℕ
  pub for_ocsp_signing : Bool

pub record Response : Type 0 where
  pub signed : Signed
  pub certs : List ResponderCert
  pub responses : List SingleResponse

-- crypto.createVerify(algorithm).update(bytes).verify(key, signature), and parseResponse, which
-- throws what is `none`.
pub record Crypto : Type 0 where
  pub verify : ℕ → ℕ → ℕ → ℕ → Bool
  pub parse : ℕ → Option Response

abbrev pub max_clock_skew_in_milliseconds : ℕ
max_clock_skew_in_milliseconds = 900000

abbrev pub min_cache_warmup_time_in_milliseconds : ℕ
min_cache_warmup_time_in_milliseconds = 18000000

-- A hundred times the tolerable validity, of which the ratio is 0.01.
unfoldable pub calculate_tolerable_validity : ℕ → ℕ → ℕ
calculate_tolerable_validity this_update next_update =
    max (next_update - this_update) (100 * min_cache_warmup_time_in_milliseconds)

unfoldable pub is_validity_range : ℕ → ℕ → Option ℕ → Bool
unfolding calculate_tolerable_validity
is_validity_range now this_update none = false
is_validity_range now this_update (some next_update) =
    leb this_update (now + max_clock_skew_in_milliseconds)
    && leb (100 * now) (100 * next_update + calculate_tolerable_validity this_update next_update)

pub data Found : Type 0 where
  responder_key : ℕ → Found
  no_responder : OcspError → Found

abbrev pub responder_of : Crypto → ℕ → ResponderCert → Option ℕ → Found
responder_of crypto issuer_key c none = no_responder no_signature_algorithm
responder_of crypto issuer_key c (some a) =
    if crypto.verify a issuer_key c.signed.tbs c.signed.signature
    then responder_key c.public_key
    else no_responder invalid_signature

-- The key that a response has to be signed with.
unfoldable pub find_responder : Crypto → ℕ → ℕ → List ResponderCert → Found
find_responder crypto now issuer_key [] = responder_key issuer_key
find_responder crypto now issuer_key (c ∷ cs) =
    if ltb c.not_after now || ltb now c.not_before
    then no_responder invalid_certificate_validity
    else responder_of crypto issuer_key c c.signed.algorithm

unfoldable pub status_error : CertStatus → Option OcspError
status_error good_status = none
status_error unknown_status = some unknown
status_error _ = some unknown_state

abbrev pub is_revoked_status : CertStatus → Bool
is_revoked_status revoked_status = true
is_revoked_status _ = false

-- Only the first of the single responses counts.
unfoldable pub single_error : ℕ → List SingleResponse → Option OcspError
unfolding status_error is_validity_range
single_error now [] = some no_response
single_error now (s ∷ ss) =
    if is_revoked_status s.cert_status
    then some revoked
    else if not (is_validity_range now s.this_update s.next_update)
    then some invalid_validity
    else status_error s.cert_status

abbrev pub signed_error : Crypto → Response → ℕ → Option OcspError → Found → Option OcspError
signed_error crypto r a rest (no_responder e) = some e
signed_error crypto r a rest (responder_key key) =
    if crypto.verify a key r.signed.tbs r.signed.signature then rest else some invalid_signature

-- With an issuer the signature is verified before the rest.
abbrev pub signature_error :
    Crypto → ℕ → Option ℕ → Response → Option OcspError → Option ℕ → Option OcspError
signature_error crypto now none r rest a = rest
signature_error crypto now (some issuer_key) r rest none = some no_signature_algorithm
signature_error crypto now (some issuer_key) r rest (some a) =
    signed_error crypto r a rest (find_responder crypto now issuer_key r.certs)

abbrev pub response_error : Crypto → ℕ → Option ℕ → Option Response → Option OcspError
response_error crypto now issuer none = some failed_parse
response_error crypto now issuer (some r) =
    signature_error crypto now issuer r (single_error now r.responses) r.signed.algorithm

-- The error that verifyOCSPResponse finds, without the injections for tests.
unfoldable pub verify_ocsp_response : Crypto → ℕ → Option ℕ → ℕ → Option OcspError
unfolding find_responder single_error
verify_ocsp_response crypto now issuer raw = response_error crypto now issuer (crypto.parse raw)
