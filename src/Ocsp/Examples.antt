-- ===== src/Ocsp/Examples.antt =====
-- The theorems on the status protocol at concrete chains and responses.
use snowflake_connector_node.Prelude.{
  ℕ, zero, suc, ◌<◌, ◌≡◌, refl, true, false, ◌&&◌, Option, none, some, List, [], ◌∷◌, ◌==◌,
  if◌then◌else◌, length, arith, ◌↔◌,
}
use snowflake_connector_node.Ocsp.Responses.{
  revoked, responder_timeout, CertStatus, good_status, revoked_status, Signed, Response, Crypto,
  verify_ocsp_response,
}
use snowflake_connector_node.Ocsp.Check.{ResponderAnswer, gave_response, failed_with, check}
use snowflake_connector_node.Ocsp.Chain.{
  Validation, validate_cert, can_early_exit_for_ocsp, no_errors, validate_cert_chain, collect,
  uncorked, destroyed, Socket, secure_socket,
}
use snowflake_connector_node.Ocsp.Order.{occurs, IsOrder, errors_of, validate_cert_chain-once}
use snowflake_connector_node.Ocsp.Trusted.{IsAccepted}
use snowflake_connector_node.Ocsp.Accepted.{verify_ocsp_response-IsAccepted}
use snowflake_connector_node.Ocsp.Closed.{IsTrusted, secure_socket-closed}
use snowflake_connector_node.Ocsp.Open.{has_revoked, all_answered, secure_socket-open}

abbrev time : ℕ
time = 5000000

abbrev issuer_key : ℕ
issuer_key = 7

abbrev signed_with : ℕ → Signed
signed_with key = record { algorithm = some 1; tbs = 0; signature = key }

-- Signed by another certificate that the issuer signed, which is not for signing responses.
abbrev response : CertStatus → Response
response status = record {
  signed = signed_with 8;
  certs =
      record {
        signed = signed_with issuer_key;
        not_before = 1000000;
        not_after = 9000000;
        public_key = 8;
        for_ocsp_signing = false;
      }
      ∷ [];
  responses =
      record {
        cert_id = 99;
        cert_status = status;
        this_update = 4000000;
        next_update = some 6000000;
      }
      ∷ [];
}

abbrev parse_response : ℕ → Option Response
parse_response zero = some (response good_status)
parse_response (suc zero) = some (response revoked_status)
parse_response _ = none

abbrev crypto : Crypto
crypto = record { verify = λ a key tbs signature. key == signature; parse = parse_response }

abbrev answers_with : ℕ → ℕ → ResponderAnswer
answers_with raw attempt = if attempt == 1 then failed_with responder_timeout else gave_response raw

abbrev validation_of : Option ℕ → ℕ → ℕ → Validation
validation_of cached raw i = record {
  cert_id = i;
  cached = cached;
  asked = record {
    issuer = some issuer_key;
    now = time;
    generate_error = none;
    authority_error = none;
    answer = answers_with raw;
  };
}

-- The leaf's status is in the cache, and the other is the responder's second answer.
abbrev good_chain : ℕ → Validation
good_chain zero = validation_of (some 0) 2 0
good_chain i = validation_of none 0 i

-- The leaf is revoked.
abbrev revoked_chain : ℕ → Validation
revoked_chain zero = validation_of (some 1) 2 0
revoked_chain i = validation_of (some 0) 2 i

abbrev socket : Socket
socket = record {
  validation_disabled = false;
  session_reused = false;
  authorized = true;
  chain = 1 ∷ 2 ∷ 3 ∷ 3 ∷ [];
}

abbrev last_first : List ℕ
last_first = 1 ∷ 0 ∷ []

last_first-occurs : (i : ℕ) → i < 2 → occurs i last_first ≡ true
last_first-occurs zero h = refl
last_first-occurs (suc zero) h = refl
last_first-occurs (suc (suc i)) h = absurd (omega (arith, h))

last_first-IsOrder : IsOrder 2 last_first
last_first-IsOrder = (refl, last_first-occurs)

chain-two : length (collect socket.chain) ≡ 2
unfolding collect
chain-two = refl

chain-IsOrder : IsOrder (length (collect socket.chain)) last_first
unfolding collect
chain-IsOrder = last_first-IsOrder

-- The socket passes in the mode that is closed.
good_chain-uncorked : secure_socket crypto true socket good_chain last_first ≡ uncorked
unfolding secure_socket collect validate_cert verify_ocsp_response check
good_chain-uncorked = refl

secure_socket-closed_example :
    (socket.authorized ≡ true)
    × (0 < length (collect socket.chain))
    × ((i : ℕ) → i < length (collect socket.chain) → IsTrusted crypto (good_chain i))
secure_socket-closed_example =
    secure_socket-closed crypto socket good_chain last_first chain-IsOrder refl refl
      good_chain-uncorked

secure_socket-open_example : secure_socket crypto false socket revoked_chain last_first ≡ (
    let errors =
      errors_of
        (λ i. validate_cert crypto false (revoked_chain i))
        (length (collect socket.chain)) in
    if all_answered errors && has_revoked errors then destroyed revoked else uncorked)
secure_socket-open_example =
    secure_socket-open crypto socket revoked_chain last_first refl refl refl
      (omega (arith, chain-two)) chain-IsOrder

-- The leaf is revoked and the status of the other certificate is good.
revoked_chain-destroyed :
    secure_socket crypto false socket revoked_chain last_first ≡ destroyed revoked
unfolding secure_socket collect validate_cert verify_ocsp_response check
revoked_chain-destroyed = refl

validate_cert_chain-once_example :
    validate_cert_chain true 2
      (λ i. validate_cert crypto true (good_chain i))
      0
      no_errors
      last_first
    ≡ (if 2 == 0
        then []
        else can_early_exit_for_ocsp true
            (errors_of (λ i. validate_cert crypto true (good_chain i)) 2)
          ∷ [])
validate_cert_chain-once_example =
    validate_cert_chain-once true 2 (λ i. validate_cert crypto true (good_chain i)) last_first
      last_first-IsOrder

-- The response says nothing of the certificate that is asked about, and its signer is not for
-- signing.
verify_ocsp_response-IsAccepted_example :
    (verify_ocsp_response crypto time (some issuer_key) 0 ≡ none)
    ↔ IsAccepted crypto time (some issuer_key) 0
verify_ocsp_response-IsAccepted_example =
    verify_ocsp_response-IsAccepted crypto time (some issuer_key) 0
