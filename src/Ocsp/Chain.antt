-- ===== src/Ocsp/Chain.antt =====
-- lib/agent/socket_util.js: the validation of a chain of certificates, and what becomes of the
-- socket.
use snowflake_connector_node.Prelude.{
  ℕ, zero, suc, Bool, true, false, ◌||◌, not, Option, none, some, List, [], ◌∷◌, ◌==◌, length,
  if◌then◌else◌,
}
use snowflake_connector_node.Ocsp.Responses.{
  OcspError, revoked, unknown, Crypto, verify_ocsp_response,
}
use snowflake_connector_node.Ocsp.Check.{Outcome, Asked, check}

-- What the validation of a certificate meets: which one it is, the response that the cache has for
-- it when it is asked last, and the responder.
pub record Validation : Type 0 where
  pub cert_id : ℕ
  pub cached : Option ℕ
  pub asked : Asked

-- validateCert, once the download of the cache is over.
unfoldable pub validate_cert : Crypto → Bool → Validation → Outcome
validate_cert crypto closed v = elim v.cached [
  | some raw ↦ record {
    err = verify_ocsp_response crypto v.asked.now v.asked.issuer raw;
    status = none;
  }
  | none ↦ check crypto closed v.asked
]

unfoldable pub is_valid_ocsp_error : OcspError → Bool
is_valid_ocsp_error revoked = true
is_valid_ocsp_error unknown = true
is_valid_ocsp_error _ = false

-- The error of a certificate after the callback of eachCallback.
abbrev pub status_or : Option OcspError → Option OcspError → Option OcspError
status_or err none = err
status_or err (some e) = if is_valid_ocsp_error e then some e else err

unfoldable pub error_of : Outcome → Option OcspError
unfolding is_valid_ocsp_error
error_of o = elim o.status [ none ↦ o.err | some s ↦ status_or o.err s.status_err ]

-- The error with which the chain is refused, if any: in the mode that is closed the first one; else
-- the last that says revoked, but none if some error says neither revoked nor unknown.
unfoldable pub first_error : List (Option OcspError) → Option OcspError
first_error [] = none
first_error (none ∷ es) = first_error es
first_error (some e ∷ es) = some e

abbrev pub is_revoked : OcspError → Bool
is_revoked revoked = true
is_revoked _ = false

unfoldable pub any_revoked : Option OcspError → List (Option OcspError) → Option OcspError
unfolding is_valid_ocsp_error
any_revoked found [] = found
any_revoked found (none ∷ es) = any_revoked found es
any_revoked found (some e ∷ es) =
    let found' = if is_revoked e then some e else found in
    let rest = any_revoked found' es in if not (is_valid_ocsp_error e) then none else rest

unfoldable pub can_early_exit_for_ocsp : Bool → List (Option OcspError) → Option OcspError
unfolding first_error any_revoked
can_early_exit_for_ocsp true es = first_error es
can_early_exit_for_ocsp false es = any_revoked none es

-- The array of errors, whose entries start undefined.
abbrev pub Errors : Type 0
Errors = ℕ → Option OcspError

abbrev pub no_errors : Errors
no_errors i = none

abbrev pub set_error : ℕ → Option OcspError → Errors → Errors
set_error i e es j = if i == j then e else es j

-- The entries from an index on.
abbrev pub entries : Errors → ℕ → ℕ → List (Option OcspError)
entries es i zero = []
entries es i (suc n) = es i ∷ entries es (suc i) n

-- The callbacks of validateCertChain in the order in which the validations end, by the index of the
-- certificate: what the callback of the chain is given, each time that it is called.
unfoldable pub validate_cert_chain :
    Bool → ℕ → (ℕ → Outcome) → ℕ → Errors → List ℕ → List (Option OcspError)
unfolding can_early_exit_for_ocsp error_of
validate_cert_chain closed n outcome completed es [] = []
validate_cert_chain closed n outcome completed es (i ∷ order) =
    let es' = set_error i (error_of (outcome i)) es in
    let rest = validate_cert_chain closed n outcome (suc completed) es' order in
    if suc completed == n then can_early_exit_for_ocsp closed (entries es' 0 n) ∷ rest else rest

-- The certificates that are validated, leaf first, by their fingerprints: up to one that is its own
-- issuer, or whose issuer is not there.
unfoldable pub collect : List ℕ → List ℕ
collect [] = []
collect (c ∷ []) = []
collect (c ∷ d ∷ cs) = let rest = collect (d ∷ cs) in if c == d then [] else c ∷ rest

pub data Fate : Type 0 where
  uncorked corked unauthorized : Fate
  destroyed : OcspError → Fate

-- The first call of the chain's callback decides; without one all writes stay blocked.
abbrev pub decided : List (Option OcspError) → Fate
decided [] = corked
decided (none ∷ vs) = uncorked
decided (some e ∷ vs) = destroyed e

pub record Socket : Type 0 where
  pub validation_disabled : Bool
  pub session_reused : Bool
  pub authorized : Bool
  pub chain : List ℕ

-- secureSocket, when the socket is secure.
unfoldable pub secure_socket : Crypto → Bool → Socket → (ℕ → Validation) → List ℕ → Fate
unfolding validate_cert_chain
secure_socket crypto closed s validation order =
    if s.validation_disabled || s.session_reused
    then uncorked
    else if not s.authorized
    then unauthorized
    else decided (
        validate_cert_chain closed (length (collect s.chain))
          (λ i. validate_cert crypto closed (validation i)) 0 no_errors order)
