-- ===== src/Revocation/Examples.antt =====
-- Tests of the check against revocation lists, with a signature that is the key itself.
use snowflake_connector_node.Prelude.{
  ℕ, String, Bool, true, false, ◌≡◌, refl, none, some, [], ◌∷◌, str_eq,
}
use snowflake_connector_node.Revocation.Certificates.{
  Certificate, Crl, uniform_resource_identifier, other_name, crl_distribution_points,
  other_extension, issuing_distribution_point, SignatureVerifier,
}
use snowflake_connector_node.Revocation.Fetcher.{CrlOptions, Crls, World, get_crl}
use snowflake_connector_node.Revocation.Validator.{
  CheckMode, enabled, advisory, CrlValidatorConfig, PeerCertificate, Chain, root, issued_by,
  is_destroyed, validate_crl, expired_list, failed,
}
use snowflake_connector_node.Revocation.Known.{IsLater, IsSourced, get_crl-IsGrounded}
use snowflake_connector_node.Revocation.Sockets.{
  IsAllPassed, IsAnyRevoked, enabled-IsAllPassed, advisory-IsAnyRevoked,
}
use snowflake_connector_node.Revocation.Unwritable.{get_crl-unwritable}

abbrev is_key : SignatureVerifier → Crl → String → Bool
is_key v crl key = str_eq crl.signature key

abbrev leaf : Certificate
leaf = record {
  subject = "server";
  serial_number = 5;
  not_before = 1800000000000;
  not_after = 1830000000000;
  extensions = some (
      other_extension
      ∷ crl_distribution_points (
          none
          ∷ some (other_name "directory" ∷ uniform_resource_identifier "http://ca/list" ∷ [])
          ∷ [])
      ∷ []);
}

abbrev authority : Certificate
authority = record {
  subject = "authority";
  serial_number = 1;
  not_before = 1700000000000;
  not_after = 1900000000000;
  extensions = none;
}

abbrev peer : Certificate → PeerCertificate
peer c = record { decoded = some c; public_key = some "key" }

abbrev chain : Chain
chain = issued_by (peer leaf) (root (peer authority))

abbrev list_of : ℕ → Crl
list_of serial = record {
  signature_alg_oid = "1.2.840.10045.4.3.2";
  signature = "key";
  issuer = "authority";
  next_update = 1820000000000;
  revoked_certificates = some (3 ∷ serial ∷ []);
  crl_extensions =
      some (issuing_distribution_point (uniform_resource_identifier "http://ca/list" ∷ []) ∷ []);
}

abbrev world : Bool → ℕ → World
world writable serial = record {
  validity = 86400000;
  writable = writable;
  download = λ url. record { took = 200; answer = some (list_of serial) };
}

abbrev fresh : ℕ → Crls
fresh now = record {
  memory = λ url. none;
  pending = λ url. none;
  disk = λ url. none;
  crl_cache_cleaner_created = false;
  now = now;
}

abbrev both : CrlOptions
both = record { in_memory_cache = true; on_disk_cache = true }

abbrev config : CheckMode → CrlValidatorConfig
config mode = record {
  check_mode = mode;
  allow_certificates_without_crl_url = false;
  options = both;
}

accepted : is_destroyed is_key (world true 4) (config enabled) chain (fresh 1810000000000) ≡ false
unfolding is_destroyed
accepted = refl

rejected : is_destroyed is_key (world true 5) (config advisory) chain (fresh 1810000000000) ≡ true
unfolding is_destroyed
rejected = refl

-- The next update passes during the download.
too_late :
    (validate_crl is_key (world true 4) (config enabled) chain (fresh 1819999999900)).verdict
    ≡ failed expired_list
unfolding validate_crl
too_late = refl

enabled-IsAllPassed_example :
    IsAllPassed is_key (world true 4) (config enabled) (fresh 1810000000000) chain
enabled-IsAllPassed_example =
    enabled-IsAllPassed is_key (world true 4) (config enabled) chain (fresh 1810000000000) refl
      accepted

advisory-IsAnyRevoked_example :
    IsAnyRevoked is_key (world true 5) (config advisory) (fresh 1810000000000) chain
advisory-IsAnyRevoked_example =
    advisory-IsAnyRevoked is_key (world true 5) (config advisory) chain (fresh 1810000000000) refl
      rejected

get_crl-IsGrounded_example :
    IsLater (world true 4) (fresh 7) (get_crl (world true 4) both "http://ca/list" (fresh 7)).crls
    × IsSourced
        (world true 4)
        "http://ca/list"
        (fresh 7)
        (get_crl (world true 4) both "http://ca/list" (fresh 7))
get_crl-IsGrounded_example = get_crl-IsGrounded (world true 4) both "http://ca/list" (fresh 7)

get_crl-unwritable_example : (get_crl (world false 4) both "http://ca/list" (fresh 7)).found ≡ none
get_crl-unwritable_example =
    get_crl-unwritable (world false 4) both "http://ca/list" (fresh 7) refl refl refl refl refl
