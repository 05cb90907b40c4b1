-- ===== src/Ocsp/Check.antt =====
-- lib/agent/check.js: the responder is asked for the status of a certificate, and again after
-- errors.
use snowflake_connector_node.Prelude.{
  ℕ, zero, suc, Bool, true, false, ◌&&◌, ◌||◌, Option, none, some, ltb, leb, ◌==◌, if◌then◌else◌,
}
use snowflake_connector_node.Ocsp.Responses.{
  OcspError, responder_timeout, no_authority_info, other_error, Crypto, verify_ocsp_response,
}

unfoldable pub is_retryable_http_error : ℕ → Bool
is_retryable_http_error status =
    leb 500 status && ltb status 600 || status == 404 || status == 403 || status == 408

-- What comes of the request that is sent at an attempt.
pub data ResponderAnswer : Type 0 where
  gave_response : ℕ → ResponderAnswer
  failed_with : OcspError → ResponderAnswer

-- What the callback is given: an error and data, which are the status of a response.
pub record Status : Type 0 where
  pub status_err : Option OcspError
  pub res : ℕ

pub record Outcome : Type 0 where
  pub err : Option OcspError
  pub status : Option Status

abbrev pub error_outcome : OcspError → Outcome
error_outcome e = record { err = some e; status = none }

unfoldable pub retries : OcspError → Bool
unfolding is_retryable_http_error
retries responder_timeout = true
retries (other_error (some n)) = is_retryable_http_error n
retries _ = false

abbrev pub of_status : Option OcspError → ℕ → Outcome
of_status e raw = record { err = e; status = some (record { status_err = e; res = raw }) }

-- Where a responder is asked: its issuer key, the time and the answers by the attempt; the URL may
-- be missing from the certificate, and the request may fail to be made.
pub record Asked : Type 0 where
  pub issuer : Option ℕ
  pub now : ℕ
  pub generate_error : Option OcspError
  pub authority_error : Option OcspError
  pub answer : ℕ → ResponderAnswer

abbrev pub max_num_retries : Bool → ℕ
max_num_retries closed = if closed then 2 else 1

-- ocspResponseVerify, with the next attempt.
unfoldable pub ocsp_response_verify : Crypto → Asked → Bool → Outcome → ResponderAnswer → Outcome
unfolding retries
ocsp_response_verify crypto a more next (gave_response raw) =
    of_status (verify_ocsp_response crypto a.now a.issuer raw) raw
ocsp_response_verify crypto a more next (failed_with e) =
    if more && retries e then next else error_outcome e

-- ocspRequestCallback: a certificate without a URL passes where errors do.
unfoldable pub ocsp_request_callback : Bool → Outcome → Option OcspError → Outcome
ocsp_request_callback closed sent none = sent
ocsp_request_callback true sent (some e) = error_outcome e
ocsp_request_callback false sent (some no_authority_info) = record { err = none; status = none }
ocsp_request_callback false sent (some e) = error_outcome e

-- ocspRequestSend, with the attempts that are left.
unfoldable pub ocsp_request_send : Crypto → Bool → Asked → ℕ → ℕ → Outcome
unfolding ocsp_response_verify ocsp_request_callback
ocsp_request_send crypto closed a zero num_retries = error_outcome (other_error none)
ocsp_request_send crypto closed a (suc left) num_retries =
    let next = ocsp_request_send crypto closed a left (suc num_retries) in
    ocsp_request_callback closed
      (ocsp_response_verify crypto a (ltb num_retries (max_num_retries closed)) next
        (a.answer num_retries))
      a.authority_error

abbrev pub or_generate_error : Outcome → Option OcspError → Outcome
or_generate_error sent none = sent
or_generate_error sent (some e) = error_outcome e

unfoldable pub check : Crypto → Bool → Asked → Outcome
unfolding ocsp_request_send
check crypto closed a = or_generate_error (ocsp_request_send crypto closed a 2 1) a.generate_error
