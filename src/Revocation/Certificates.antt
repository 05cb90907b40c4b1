-- ===== src/Revocation/Certificates.antt =====
-- certificate_utils.ts and crl_signature_verifier.ts of lib/agent/crl_validator: what is read from a
-- certificate and from a revocation list, both decoded. Times are milliseconds since 1970.
use snowflake_connector_node.Prelude.{
  ℕ, ◌+◌, ◌*◌, String, Bool, true, false, ◌==◌, Option, none, some, List, [], ◌∷◌, str_eq,
  starts_with, ltb, if◌then◌else◌,
}

pub data GeneralName : Type 0 where
  uniform_resource_identifier other_name : String → GeneralName

-- An extension of a certificate: its distribution points, each with its names, or another one.
pub data Extension : Type 0 where
  crl_distribution_points : List (Option (List GeneralName)) → Extension
  other_extension : Extension

pub record Certificate : Type 0 where
  pub subject : String
  pub serial_number : ℕ
  pub not_before : ℕ
  pub not_after : ℕ
  pub extensions : Option (List Extension)

pub data CrlExtension : Type 0 where
  issuing_distribution_point : List GeneralName → CrlExtension
  other_crl_extension : CrlExtension

-- A revocation list; `issuer` is the text of its name, and `signature_alg_oid` has its dots.
pub record Crl : Type 0 where
  pub signature_alg_oid : String
  pub signature : String
  pub issuer : String
  pub next_update : ℕ
  pub revoked_certificates : Option (List ℕ)
  pub crl_extensions : Option (List CrlExtension)

-- The first HTTP URL of a distribution point.
unfoldable pub first_http : List GeneralName → Option String
first_http [] = none
first_http (other_name s ∷ ns) = first_http ns
first_http (uniform_resource_identifier s ∷ ns) =
    let rest = first_http ns in if starts_with s "http" then some s else rest

-- The loop over the distribution points.
unfoldable pub http_urls : List (Option (List GeneralName)) → List String
unfolding first_http
http_urls [] = []
http_urls (none ∷ ps) = http_urls ps
http_urls (some ns ∷ ps) = elim (first_http ns) [ none ↦ http_urls ps | some s ↦ s ∷ http_urls ps ]

unfoldable pub non_empty : List String → Option (List String)
non_empty [] = none
non_empty (s ∷ ss) = some (s ∷ ss)

-- The first such extension is read.
unfoldable pub crl_urls_in : List Extension → Option (List String)
unfolding non_empty http_urls
crl_urls_in [] = none
crl_urls_in (other_extension ∷ es) = crl_urls_in es
crl_urls_in (crl_distribution_points ps ∷ es) = non_empty (http_urls ps)

unfoldable pub get_certificate_crl_urls : Certificate → Option (List String)
unfolding crl_urls_in
get_certificate_crl_urls c = elim c.extensions [ none ↦ none | some es ↦ crl_urls_in es ]

-- 2026-03-15T00:00:00.000Z
unfoldable pub shorter_validity_from : ℕ
shorter_validity_from = 1773532800000

unfoldable pub maximum_validity_period : Certificate → ℕ
unfolding shorter_validity_from
maximum_validity_period c =
    (if ltb c.not_before shorter_validity_from then 10 else 7) * 24 * 60 * 60 * 1000 + 60 * 1000

unfoldable pub is_short_lived_certificate : Certificate → Bool
unfolding maximum_validity_period
is_short_lived_certificate c = ltb c.not_after (c.not_before + maximum_validity_period c)

unfoldable pub lists_serial : List ℕ → ℕ → Bool
lists_serial [] n = false
lists_serial (m ∷ ms) n = let rest = lists_serial ms n in if m == n then true else rest

unfoldable pub revoked_serials : Crl → List ℕ
revoked_serials crl = elim crl.revoked_certificates [ none ↦ [] | some ns ↦ ns ]

unfoldable pub is_certificate_revoked : Certificate → Crl → Bool
unfolding lists_serial revoked_serials
is_certificate_revoked c crl = lists_serial (revoked_serials crl) c.serial_number

unfoldable pub names_url : List GeneralName → String → Bool
names_url [] url = false
names_url (other_name s ∷ ns) url = names_url ns url
names_url (uniform_resource_identifier s ∷ ns) url =
    let rest = names_url ns url in if str_eq s url then true else rest

-- The names in the first such extension.
unfoldable pub issuing_names : List CrlExtension → Option (List GeneralName)
issuing_names [] = none
issuing_names (other_crl_extension ∷ es) = issuing_names es
issuing_names (issuing_distribution_point ns ∷ es) = some ns

unfoldable pub distribution_names : Crl → Option (List GeneralName)
unfolding issuing_names
distribution_names crl = elim crl.crl_extensions [ none ↦ none | some es ↦ issuing_names es ]

unfoldable pub is_issuing_distribution_point_extension_valid : Crl → String → Bool
unfolding distribution_names names_url
is_issuing_distribution_point_extension_valid crl url = elim (distribution_names crl) [
  | none ↦ true
  | some ns ↦ names_url ns url
]

pub data SignatureVerifier : Type 0 where
  sha256 sha384 sha512 pss : SignatureVerifier

-- CRL_SIGNATURE_VERIFIERS
unfoldable pub crl_signature_verifier : String → Option SignatureVerifier
crl_signature_verifier oid =
    if str_eq oid "1.2.840.113549.1.1.11"
    then some sha256
    else if str_eq oid "1.2.840.113549.1.1.12"
    then some sha384
    else if str_eq oid "1.2.840.113549.1.1.13"
    then some sha512
    else if str_eq oid "1.2.840.10045.4.3.2"
    then some sha256
    else if str_eq oid "1.2.840.10045.4.3.3"
    then some sha384
    else if str_eq oid "1.2.840.10045.4.3.4"
    then some sha512
    else if str_eq oid "1.2.840.113549.1.1.10"
    then some pss
    else none

-- isCrlSignatureValid by the crypto library's `verify`; an unsupported algorithm throws (`none`).
unfoldable pub is_crl_signature_valid :
    (SignatureVerifier → Crl → String → Bool) → Crl → String → Option Bool
unfolding crl_signature_verifier
is_crl_signature_valid verify crl key = elim (crl_signature_verifier crl.signature_alg_oid) [
  | none ↦ none
  | some v ↦ some (verify v crl key)
]
